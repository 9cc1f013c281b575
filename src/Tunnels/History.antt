-- ===== src/Tunnels/History.antt =====
-- Every history of the manager, and that its two ways to a tunnel agree.
use vexlo.Common.{
  ℕ, ◌≡◌, sym, subst, Bytes, Bool, [], Option, none, some, Map, get, inl, inr, Bool-cases, str_eq,
}
use vexlo.Model.{Session, Register}
use vexlo.Storage.{Db, hash_hosted_secret}
use vexlo.Config.{Config}
use vexlo.Host.{host_key}
use vexlo.Tunnels.{TunnelManager, DashboardHandoff, new_tunnel_manager}
use vexlo.Tunnels.Registry.{
  close_tunnel, revoke_hosted, expire_hosted_tunnels, find_by_host, find_by_session, look_up,
}
use vexlo.Tunnels.Handoff.{claim_found, claim_dashboard_handoff}
use vexlo.Tunnels.Register.{Outages, Draws, register}
use vexlo.Tunnels.Consistency.{
  IsConsistent, close_tunnel-IsConsistent, revoke_hosted-IsConsistent,
  expire_hosted_tunnels-IsConsistent,
}
use vexlo.Tunnels.Admission.{register-IsConsistent}

-- A table that the server may find when it starts: each row under its identifier, and no two rows
-- with one subdomain.
pub record IsTable (rows : Map Session) : Type 0 where
  pub one_name :
      (j k : Bytes) (s t : Session)
      → get j rows ≡ some s
      → get k rows ≡ some t
      → s.subdomain ≡ t.subdomain
      → j ≡ k
  pub row_ids : (k : Bytes) (s : Session) → get k rows ≡ some s → s.id ≡ k

module _ (sha256_hex : Bytes → Bytes) where
  pub data Step (m : TunnelManager) (n : TunnelManager) : Type 0 where
    registers :
        (outages : Outages) (draws : Draws) (source_ip : Bytes) (now : ℕ) (reg : Register)
        → (reg.session_id ≡ [] → get draws.id m.storage.sessions ≡ none)
        → n ≡ (register sha256_hex outages draws source_ip now reg m).0
        → Step m n
    closes : (down : Bool) (r now : ℕ) → n ≡ close_tunnel down r now m → Step m n
    revokes : (down : Bool) (id : Bytes) (now : ℕ) → n ≡ (revoke_hosted down id now m).0 → Step m n
    expires : (now : ℕ) → n ≡ expire_hosted_tunnels now m → Step m n
    claims :
        (session_id raw : Bytes) (now : ℕ)
        → n ≡ (claim_dashboard_handoff sha256_hex session_id raw now m).0
        → Step m n

  pub data Reach (cfg : Config) (db : Db) : TunnelManager → Type 0 where
    here : Reach cfg db (new_tunnel_manager cfg db)
    next : {m n : TunnelManager} → Reach cfg db m → Step m n → Reach cfg db n

  claim_found-IsConsistent :
      (session_id key : Bytes) (now : ℕ) (o : Option DashboardHandoff) (m : TunnelManager)
      → IsConsistent m
      → IsConsistent (claim_found sha256_hex session_id key now o m).0
  unfolding claim_found
  claim_found-IsConsistent session_id key now none m c = c
  claim_found-IsConsistent session_id key now (some h) m c =
      elim (Bool-cases (str_eq h.session_id session_id)) [ inl e ↦ rw e c | inr e ↦ rw e c ]

  claim-IsConsistent :
      (session_id raw : Bytes) (now : ℕ) (m : TunnelManager)
      → IsConsistent m
      → IsConsistent (claim_dashboard_handoff sha256_hex session_id raw now m).0
  unfolding claim_dashboard_handoff
  claim-IsConsistent session_id raw now m c =
      claim_found-IsConsistent session_id (hash_hosted_secret sha256_hex raw) now
        (get (hash_hosted_secret sha256_hex raw) m.handoffs) m c

  Step-IsConsistent : (m n : TunnelManager) → IsConsistent m → Step m n → IsConsistent n
  Step-IsConsistent m n c (registers outages draws source_ip now reg fresh e) =
      subst IsConsistent (sym e)
        (register-IsConsistent sha256_hex outages draws source_ip now reg m c fresh)
  Step-IsConsistent m n c (closes down r now e) =
      subst IsConsistent (sym e) (close_tunnel-IsConsistent down r now m c)
  Step-IsConsistent m n c (revokes down id now e) =
      subst IsConsistent (sym e) (revoke_hosted-IsConsistent down id now m c)
  Step-IsConsistent m n c (expires now e) =
      subst IsConsistent (sym e) (expire_hosted_tunnels-IsConsistent now m c)
  Step-IsConsistent m n c (claims session_id raw now e) =
      subst IsConsistent (sym e) (claim-IsConsistent session_id raw now m c)

  pub start-IsConsistent :
      (cfg : Config) (db : Db) → IsTable db.sessions → IsConsistent (new_tunnel_manager cfg db)
  unfolding get
  start-IsConsistent cfg db t = record {
    of_session = λ k r e. absurd (cc);
    of_subdomain = λ d r e. absurd (cc);
    stored = λ k r e. absurd (cc);
    one_name = t.one_name;
    row_ids = t.row_ids;
  }

  -- From a table with each row under its identifier and no two rows with one subdomain, whatever
  -- registrations, disconnections, revocations, expiries and claims happen, in any order and with
  -- any failures of the database, the maps of the manager agree with each other and with the table,
  -- as long as no identifier drawn for a new session is in the table.
  pub Reach-IsConsistent :
      {cfg : Config} {db : Db} {m : TunnelManager}
      → IsTable db.sessions
      → Reach cfg db m
      → IsConsistent m
  Reach-IsConsistent {cfg} {db} t here = start-IsConsistent cfg db t
  Reach-IsConsistent t (next r st) = Step-IsConsistent _ _ (Reach-IsConsistent t r) st

  look_up-agrees :
      (o : Option Bytes) (m : TunnelManager) (r : ℕ)
      → IsConsistent m
      → look_up o m ≡ some r
      → find_by_session (m.heap r).session.id m ≡ some r
  unfolding find_by_session
  look_up-agrees none m r c e = absurd (cc)
  look_up-agrees (some d) m r c e = (c.of_subdomain d r e).2

  -- From a table with each row under its identifier and no two rows with one subdomain, in every
  -- state that the manager reaches, a tunnel that a host name leads to is the tunnel that its
  -- session has.
  pub find_by_host-find_by_session :
      {cfg : Config} {db : Db} {m : TunnelManager} (host : Bytes) (r : ℕ)
      → IsTable db.sessions
      → Reach cfg db m
      → find_by_host host m ≡ some r
      → find_by_session (m.heap r).session.id m ≡ some r
  unfolding find_by_host
  find_by_host-find_by_session {m = m} host r t reach e =
      look_up-agrees (host_key m.cfg.base_domain host) m r (Reach-IsConsistent t reach) e
