-- ===== src/Tunnels/Rows.antt =====
-- What the manager's operations leave of the tables: every captured request and replay, and a row for
-- every session.
use vexlo.Common.{
  ℕ, ◌≡◌, refl, sym, ◌∙◌, ap, subst, Bytes, Bool, true, false, [], Option, none, some, inl, inr,
  Bool-cases, str_eq, get, ◌&&◌, if◌then◌else◌,
}
use vexlo.Model.{Session, Register}
use vexlo.Storage.{Db, hash_hosted_secret, upsert_session, revoke_session, count_requests}
use vexlo.Storage.Whole.{KeepsRows, same-KeepsRows}
use vexlo.Storage.Whole.Sessions.{
  upsert_session-KeepsRows, end_session-KeepsRows, revoke_session-KeepsRows,
}
use vexlo.Tunnels.{TunnelManager, update, DashboardHandoff, new_tunnel}
use vexlo.Tunnels.Registry.{
  unlink, end_stored, is_at, remove_tunnel, close_tunnel, revoke_hosted, hang_up_revoked,
}
use vexlo.Tunnels.Handoff.{claim_found, claim_dashboard_handoff, new_dashboard_handoff}
use vexlo.Tunnels.Register.{
  RegisterError, Result, ok, err, Outages, Draws, admit_hosted, settle, registered, start_counted,
  start_stored, start_session, start_resolved, register_admitted, register,
}
use vexlo.Tunnels.Revoked.{hang_up_found-storage}
use vexlo.Tunnels.Supersede.{install_tunnel-storage}

-- One state of the manager after another.
abbrev pub LeavesRows : TunnelManager → TunnelManager → Type 0
LeavesRows m n = KeepsRows m.storage n.storage

pub unlink-storage : (r : ℕ) (m : TunnelManager) → (unlink r m).0.storage ≡ m.storage
unfolding unlink
unlink-storage r m = by_place (is_at r (get (m.heap r).session.id m.by_session))
  where
    by_place :
        (b : Bool)
        → (let p : TunnelManager × Bool =
              if b
              then (
                record m {
                  tunnels = vexlo.Common.delete (m.heap r).subdomain m.tunnels;
                  by_session = vexlo.Common.delete (m.heap r).session.id m.by_session;
                },
                true,
              )
              else (m, false) in
            p.0.storage)
          ≡ m.storage
    by_place true = refl
    by_place false = refl

remove_tunnel-LeavesRows :
    (down : Bool) (r now : ℕ) (m : TunnelManager) → LeavesRows m (remove_tunnel down r now m)
unfolding remove_tunnel end_stored
remove_tunnel-LeavesRows down r now m = by_place (unlink r m).0 (unlink r m).1 (unlink-storage r m)
  where
    by_place :
        (m' : TunnelManager) (linked : Bool)
        → m'.storage ≡ m.storage
        → LeavesRows m (if linked then end_stored down r now m' else m')
    by_place m' true same =
        subst (λ (d : Db). KeepsRows d (end_stored down r now m').storage) same
          (end_session-KeepsRows down (m'.heap r).session.id now m'.storage)
    by_place m' false same = same-KeepsRows same

pub close_tunnel-LeavesRows :
    (down : Bool) (r now : ℕ) (m : TunnelManager) → LeavesRows m (close_tunnel down r now m)
unfolding close_tunnel
close_tunnel-LeavesRows down r now m =
    remove_tunnel-LeavesRows down r now
      (record m { heap = update m.heap r (record (m.heap r) { is_closed = true }) })

pub revoke_hosted-LeavesRows :
    (down : Bool) (id : Bytes) (now : ℕ) (m : TunnelManager)
    → LeavesRows m (revoke_hosted down id now m).0
unfolding revoke_hosted hang_up_revoked
revoke_hosted-LeavesRows down id now m = of_row (revoke_session down id now m.storage) refl
  where
    of_row :
        (o : Option Db)
        → revoke_session down id now m.storage ≡ o
        → LeavesRows m (hang_up_revoked id m o).0
    of_row none e = same-KeepsRows refl
    of_row (some db) e =
        subst (KeepsRows m.storage)
          (sym (hang_up_found-storage (get id m.by_session) (record m { storage = db })))
          (revoke_session-KeepsRows down id now m.storage db e)

module _ (sha256_hex : Bytes → Bytes) where
  pub start_counted-storage :
      (draws : Draws) (source_ip : Bytes) (now : ℕ) (s : Session) (count : Option ℕ)
      (m : TunnelManager)
      → (start_counted sha256_hex draws source_ip now s count m).0.storage ≡ m.storage
  unfolding start_counted registered new_dashboard_handoff
  start_counted-storage draws source_ip now s none m = refl
  start_counted-storage draws source_ip now s (some count) m =
      install_tunnel-storage (new_tunnel s source_ip count) m

  start_session-LeavesRows :
      (outages : Outages) (draws : Draws) (source_ip : Bytes) (now : ℕ) (s : Session)
      (m : TunnelManager)
      → LeavesRows m (start_session sha256_hex outages draws source_ip now s m).0
  unfolding start_session start_stored
  start_session-LeavesRows outages draws source_ip now s m =
      of_table (upsert_session sha256_hex outages.upsert s m.storage) refl
    where
      of_table :
          (o : Option Db)
          → upsert_session sha256_hex outages.upsert s m.storage ≡ o
          → LeavesRows m (start_stored sha256_hex outages draws source_ip now s o m).0
      of_table none e = same-KeepsRows refl
      of_table (some db) e =
          subst (KeepsRows m.storage)
            (sym (
              start_counted-storage draws source_ip now s (count_requests outages.count s.id db)
                (record m { storage = db })))
            (upsert_session-KeepsRows sha256_hex outages.upsert s m.storage db e)

  start_resolved-LeavesRows :
      (outages : Outages) (draws : Draws) (source_ip : Bytes) (now : ℕ)
      (settled : Result RegisterError Session) (m : TunnelManager)
      → LeavesRows m (start_resolved sha256_hex outages draws source_ip now settled m).0
  start_resolved-LeavesRows outages draws source_ip now (err e) m = same-KeepsRows refl
  start_resolved-LeavesRows outages draws source_ip now (ok s) m =
      start_session-LeavesRows outages draws source_ip now s m

  register_admitted-LeavesRows :
      (outages : Outages) (draws : Draws) (source_ip : Bytes) (now : ℕ) (reg : Register)
      (refusal : Option RegisterError) (m : TunnelManager)
      → LeavesRows m (register_admitted sha256_hex outages draws source_ip now reg refusal m).0
  register_admitted-LeavesRows outages draws source_ip now reg (some e) m = same-KeepsRows refl
  register_admitted-LeavesRows outages draws source_ip now reg none m =
      start_resolved-LeavesRows outages draws source_ip now
        (settle sha256_hex outages draws now reg m) m

  pub admit_hosted-storage :
      (source_ip : Bytes) (is_new : Bool) (now : ℕ) (m : TunnelManager)
      → (admit_hosted source_ip is_new now m).0.storage ≡ m.storage
  unfolding admit_hosted
  admit_hosted-storage source_ip is_new now m = elim (Bool-cases (is_new && m.is_paused)) [
    | inl e ↦ rw e refl
    | inr e ↦ rw e refl
  ]

  pub register-LeavesRows :
      (outages : Outages) (draws : Draws) (source_ip : Bytes) (now : ℕ) (reg : Register)
      (m : TunnelManager)
      → LeavesRows m (register sha256_hex outages draws source_ip now reg m).0
  unfolding register
  register-LeavesRows outages draws source_ip now reg m =
      let admitted = admit_hosted source_ip (str_eq reg.session_id []) now m in
      subst
        (λ (d : Db).
          KeepsRows d
            (register_admitted sha256_hex outages draws source_ip now reg admitted.1
              admitted.0).0.storage)
        (admit_hosted-storage source_ip (str_eq reg.session_id []) now m)
        (register_admitted-LeavesRows outages draws source_ip now reg admitted.1 admitted.0)

  pub claim_found-storage :
      (session_id key : Bytes) (now : ℕ) (o : Option DashboardHandoff) (m : TunnelManager)
      → (claim_found sha256_hex session_id key now o m).0.storage ≡ m.storage
  unfolding claim_found
  claim_found-storage session_id key now none m = refl
  claim_found-storage session_id key now (some h) m =
      elim (Bool-cases (str_eq h.session_id session_id)) [ inl e ↦ rw e refl | inr e ↦ rw e refl ]

  pub claim-LeavesRows :
      (session_id raw : Bytes) (now : ℕ) (m : TunnelManager)
      → LeavesRows m (claim_dashboard_handoff sha256_hex session_id raw now m).0
  unfolding claim_dashboard_handoff
  claim-LeavesRows session_id raw now m = same-KeepsRows (
      claim_found-storage session_id (hash_hosted_secret sha256_hex raw) now
        (get (hash_hosted_secret sha256_hex raw) m.handoffs) m)
