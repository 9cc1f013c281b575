-- ===== src/Tunnels/Since.antt =====
-- What the manager's operations make of the rows of the sessions and of the handoffs, as two tables.
use vexlo.Common.{
  ℕ, ◌+◌, ◌*◌, arith, ◌≡◌, refl, sym, subst, Bytes, Bool, true, false, ◌&&◌, [], ◌∷◌, Option, none,
  some, inl, inr, Bool-cases, str_eq, get, put, modify, delete_if, Map, if◌then◌else◌,
}
use vexlo.Model.{Session, Register}
use vexlo.Config.{has_passed}
use vexlo.RateLimit.{minute}
use vexlo.Storage.{
  Db, hash_hosted_secret, session_row, upsert_session, revoke_session, count_requests,
}
use vexlo.Tunnels.{TunnelManager, Tunnel, DashboardHandoff, new_tunnel}
use vexlo.Tunnels.Registry.{
  install_tunnel, hang_up, hang_up_found, hang_up_expired, expire_hosted_tunnels, unlink,
  end_stored, remove_tunnel, close_tunnel, revoke_hosted, hang_up_revoked, find_by_session,
}
use vexlo.Tunnels.Handoff.{is_stale, new_dashboard_handoff}
use vexlo.Tunnels.Register.{
  RegisterError, Result, ok, err, Outages, Draws, admit_hosted, settle, registered, start_counted,
  start_stored, start_session, start_resolved, register_admitted, register,
}
use vexlo.Tunnels.Rows.{start_counted-storage, admit_hosted-storage, unlink-storage}
use vexlo.Tunnels.History.{Step}

hang_up_found-handoffs :
    (o : Option ℕ) (m : TunnelManager) → (hang_up_found o m).handoffs ≡ m.handoffs
unfolding hang_up
hang_up_found-handoffs none m = refl
hang_up_found-handoffs (some r) m = refl

install_tunnel-handoffs :
    (t : Tunnel) (m : TunnelManager) → (install_tunnel t m).handoffs ≡ m.handoffs
unfolding install_tunnel
install_tunnel-handoffs t m = hang_up_found-handoffs (get t.session.id m.by_session) _

module _ (sha256_hex : Bytes → Bytes) where
  -- One state of the manager after another, by any number of its operations.
  pub data Since (m : TunnelManager) : TunnelManager → Type 0 where
    still : Since m m
    after : {n k : TunnelManager} → Since m n → Step sha256_hex n k → Since m k

  -- What a registration does to the rows: nothing, or the upsert of the session it has settled on.
  module _ (P : Map Session → Type 0) where
    start_session-rows :
        (outages : Outages) (draws : Draws) (source_ip : Bytes) (now : ℕ) (s : Session)
        (m : TunnelManager)
        → P m.storage.sessions
        → P (put s.id (session_row sha256_hex s) m.storage.sessions)
        → P (start_session sha256_hex outages draws source_ip now s m).0.storage.sessions
    unfolding start_session start_stored upsert_session
    start_session-rows outages draws source_ip now s m before put_ok = of_table outages.upsert
      where
        row : Db
        row = record m.storage { sessions = put s.id (session_row sha256_hex s) m.storage.sessions }

        of_table :
            (down : Bool)
            → P
                (start_stored sha256_hex outages draws source_ip now s
                  (upsert_session sha256_hex down s m.storage)
                  m).0.storage.sessions
        of_table true = before
        of_table false =
            subst (λ (d : Db). P d.sessions)
              (sym (
                start_counted-storage sha256_hex draws source_ip now s
                  (count_requests outages.count s.id row) (record m { storage = row })))
              put_ok

    register_admitted-rows :
        (outages : Outages) (draws : Draws) (source_ip : Bytes) (now : ℕ) (reg : Register)
        (refusal : Option RegisterError) (m : TunnelManager)
        → P m.storage.sessions
        → ((s : Session)
            → settle sha256_hex outages draws now reg m ≡ ok s
            → P (put s.id (session_row sha256_hex s) m.storage.sessions))
        → P
            (register_admitted sha256_hex outages draws source_ip now reg refusal
              m).0.storage.sessions
    register_admitted-rows outages draws source_ip now reg (some e) m before put_ok = before
    register_admitted-rows outages draws source_ip now reg none m before put_ok =
        of_settled (settle sha256_hex outages draws now reg m) refl
      where
        of_settled :
            (r : Result RegisterError Session)
            → settle sha256_hex outages draws now reg m ≡ r
            → P (start_resolved sha256_hex outages draws source_ip now r m).0.storage.sessions
        of_settled (err e) h = before
        of_settled (ok s) h = start_session-rows outages draws source_ip now s m before (put_ok s h)

    pub register-rows :
        (outages : Outages) (draws : Draws) (source_ip : Bytes) (now : ℕ) (reg : Register)
        (m : TunnelManager)
        → P m.storage.sessions
        → ((s : Session) (at : TunnelManager)
            → at.storage ≡ m.storage
            → settle sha256_hex outages draws now reg at ≡ ok s
            → P (put s.id (session_row sha256_hex s) m.storage.sessions))
        → P (register sha256_hex outages draws source_ip now reg m).0.storage.sessions
    unfolding register
    register-rows outages draws source_ip now reg m before put_ok =
        let admitted = admit_hosted source_ip (str_eq reg.session_id []) now m in
        let same = admit_hosted-storage sha256_hex source_ip (str_eq reg.session_id []) now m in
        register_admitted-rows outages draws source_ip now reg admitted.1 admitted.0
          (subst (λ (d : Db). P d.sessions) (sym same) before)
          (λ s h.
            subst (λ (d : Db). P (put s.id (session_row sha256_hex s) d.sessions)) (sym same)
              (put_ok s admitted.0 same h))

    pub close_tunnel-rows :
        (down : Bool) (r now : ℕ) (m : TunnelManager)
        → P m.storage.sessions
        → ((id : Bytes) → P (modify id (λ s. record s { ended_at = some now }) m.storage.sessions))
        → P (close_tunnel down r now m).storage.sessions
    unfolding close_tunnel remove_tunnel end_stored vexlo.Storage.end_session
    close_tunnel-rows down r now m before put_ok =
        by_place (unlink r hung).0 (unlink r hung).1 (unlink-storage r hung)
      where
        hung : TunnelManager
        hung = record m {
          heap = vexlo.Tunnels.update m.heap r (record (m.heap r) { is_closed = true });
        }

        by_place :
            (m' : TunnelManager) (linked : Bool)
            → m'.storage ≡ m.storage
            → P (if linked then end_stored down r now m' else m').storage.sessions
        by_place m' false same = subst (λ (d : Db). P d.sessions) (sym same) before
        by_place m' true same = by_answer down
          where
            by_answer : (b : Bool) → P (end_stored b r now m').storage.sessions
            by_answer true = subst (λ (d : Db). P d.sessions) (sym same) before
            by_answer false =
                subst
                  (λ (d : Db). P (
                    modify (m'.heap r).session.id (λ s. record s { ended_at = some now })
                      d.sessions))
                  (sym same) (put_ok (m'.heap r).session.id)

  -- What a registration does to the handoffs: nothing, or a new one under the secret it has drawn.
  module _ (Q : Map DashboardHandoff → Type 0) where
    start_session-handoffs :
        (outages : Outages) (draws : Draws) (source_ip : Bytes) (now : ℕ) (s : Session)
        (m : TunnelManager)
        → Q m.handoffs
        → ((h : DashboardHandoff)
            → Q (
                put
                  (hash_hosted_secret sha256_hex draws.handoff)
                  h
                  (delete_if (is_stale now) m.handoffs)))
        → Q (start_session sha256_hex outages draws source_ip now s m).0.handoffs
    unfolding start_session start_stored start_counted registered new_dashboard_handoff
    start_session-handoffs outages draws source_ip now s m before put_ok =
        of_table (upsert_session sha256_hex outages.upsert s m.storage)
      where
        made : DashboardHandoff
        made = record { session_id = s.id; expires = now + 5 * minute }

        of_count :
            (db : Db) (o : Option ℕ)
            → Q
                (start_counted sha256_hex draws source_ip now s o
                  (record m { storage = db })).0.handoffs
        of_count db none = before
        of_count db (some count) =
            subst
              (λ (hs : Map DashboardHandoff). Q (
                put (hash_hosted_secret sha256_hex draws.handoff) made
                  (delete_if (is_stale now) hs)))
              (sym (
                install_tunnel-handoffs (new_tunnel s source_ip count) (record m { storage = db })))
              (put_ok made)

        of_table :
            (o : Option Db)
            → Q (start_stored sha256_hex outages draws source_ip now s o m).0.handoffs
        of_table none = before
        of_table (some db) = of_count db (count_requests outages.count s.id db)

    register_admitted-handoffs :
        (outages : Outages) (draws : Draws) (source_ip : Bytes) (now : ℕ) (reg : Register)
        (refusal : Option RegisterError) (m : TunnelManager)
        → Q m.handoffs
        → ((h : DashboardHandoff)
            → Q (
                put
                  (hash_hosted_secret sha256_hex draws.handoff)
                  h
                  (delete_if (is_stale now) m.handoffs)))
        → Q (register_admitted sha256_hex outages draws source_ip now reg refusal m).0.handoffs
    register_admitted-handoffs outages draws source_ip now reg (some e) m before put_ok = before
    register_admitted-handoffs outages draws source_ip now reg none m before put_ok =
        of_settled (settle sha256_hex outages draws now reg m)
      where
        of_settled :
            (r : Result RegisterError Session)
            → Q (start_resolved sha256_hex outages draws source_ip now r m).0.handoffs
        of_settled (err e) = before
        of_settled (ok s) = start_session-handoffs outages draws source_ip now s m before put_ok

    admit_hosted-handoffs :
        (source_ip : Bytes) (is_new : Bool) (now : ℕ) (m : TunnelManager)
        → (admit_hosted source_ip is_new now m).0.handoffs ≡ m.handoffs
    unfolding admit_hosted
    admit_hosted-handoffs source_ip is_new now m = elim (Bool-cases (is_new && m.is_paused)) [
      | inl e ↦ rw e refl
      | inr e ↦ rw e refl
    ]

    pub register-handoffs :
        (outages : Outages) (draws : Draws) (source_ip : Bytes) (now : ℕ) (reg : Register)
        (m : TunnelManager)
        → Q m.handoffs
        → ((h : DashboardHandoff)
            → Q (
                put
                  (hash_hosted_secret sha256_hex draws.handoff)
                  h
                  (delete_if (is_stale now) m.handoffs)))
        → Q (register sha256_hex outages draws source_ip now reg m).0.handoffs
    unfolding register
    register-handoffs outages draws source_ip now reg m before put_ok =
        let admitted = admit_hosted source_ip (str_eq reg.session_id []) now m in
        let same = admit_hosted-handoffs source_ip (str_eq reg.session_id []) now m in
        register_admitted-handoffs outages draws source_ip now reg admitted.1 admitted.0
          (subst Q (sym same) before)
          (λ h.
            subst
              (λ (hs : Map DashboardHandoff).
                Q (
                  put (hash_hosted_secret sha256_hex draws.handoff) h
                    (delete_if (is_stale now) hs)))
              (sym same) (put_ok h))

hang_up_expired-kept :
    (now : ℕ) (rest : Map ℕ) (m : TunnelManager)
    → ((hang_up_expired now rest m).storage ≡ m.storage)
      × ((hang_up_expired now rest m).handoffs ≡ m.handoffs)
unfolding hang_up
hang_up_expired-kept now [] m = (refl, refl)
hang_up_expired-kept now ((id, r) ∷ rest) m =
    by_time (has_passed m.cfg.hosted_lifetime (m.heap r).session.started_at now)
      (hang_up_expired-kept now rest (hang_up r m)) (hang_up_expired-kept now rest m)
  where
    Kept : TunnelManager → Type 0
    Kept n = (n.storage ≡ m.storage) × (n.handoffs ≡ m.handoffs)

    by_time :
        (b : Bool)
        → Kept (hang_up_expired now rest (hang_up r m))
        → Kept (hang_up_expired now rest m)
        → Kept (hang_up_expired now rest (if b then hang_up r m else m))
    by_time true hung left = hung
    by_time false hung left = left

pub expire_hosted_tunnels-kept :
    (now : ℕ) (m : TunnelManager)
    → ((expire_hosted_tunnels now m).storage ≡ m.storage)
      × ((expire_hosted_tunnels now m).handoffs ≡ m.handoffs)
unfolding expire_hosted_tunnels
expire_hosted_tunnels-kept now m = hang_up_expired-kept now m.by_session m

pub close_tunnel-handoffs :
    (down : Bool) (r now : ℕ) (m : TunnelManager)
    → (close_tunnel down r now m).handoffs ≡ m.handoffs
unfolding close_tunnel remove_tunnel end_stored unlink
close_tunnel-handoffs down r now m = ground arith

pub revoke_hosted-handoffs :
    (down : Bool) (id : Bytes) (now : ℕ) (m : TunnelManager)
    → (revoke_hosted down id now m).0.handoffs ≡ m.handoffs
unfolding revoke_hosted hang_up_revoked find_by_session
revoke_hosted-handoffs down id now m = of_row (revoke_session down id now m.storage)
  where
    of_row : (o : Option Db) → (hang_up_revoked id m o).0.handoffs ≡ m.handoffs
    of_row none = refl
    of_row (some db) = hang_up_found-handoffs (get id m.by_session) (record m { storage = db })
