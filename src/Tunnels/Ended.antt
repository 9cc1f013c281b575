-- ===== src/Tunnels/Ended.antt =====
-- What becomes of a session that the operator has revoked.
use vexlo.Common.{
  ℕ, ◌≡◌, ◌≢◌, refl, sym, ap, ◌∙◌, subst, inl, inr, not, ◌||◌, int_le, int_gt, Bytes, Bool, true,
  false, Bool-cases, Map, [], Option, none, some, some-injective, arith, str_eq, str_eq_iff,
  if◌then◌else◌, get, put, modify, get-put, get-modify, map_some, bind-eq-ok,
}
use vexlo.Model.{Session, Register}
use vexlo.Config.{Config}
use vexlo.Storage.{Db, hash_hosted_secret, session_row, revoke_session, revoke_row, revoked}
use vexlo.Tunnels.{TunnelManager}
use vexlo.Tunnels.Registry.{revoke_hosted, hang_up_revoked}
use vexlo.Tunnels.Handoff.{claim_dashboard_handoff}
use vexlo.Tunnels.Register.{
  guard, ◌>>◌, invalid_port, not_quick, ok, Outages, Draws, validate_resume, validate_registration,
  new_session, resume_session, allocate_hosted_subdomain, resolve_session, settle,
}
use vexlo.Tunnels.Consistency.{IsConsistent}
use vexlo.Tunnels.History.{
  IsTable, Reach, next, Step, registers, closes, revokes, expires, claims, Reach-IsConsistent,
}
use vexlo.Tunnels.Admission.{settle-resolve}
use vexlo.Tunnels.Settled.{settled_id, resume_session_sound}
use vexlo.Tunnels.Resume.{validate_resume_iff, validate_resume_down}
use vexlo.Tunnels.Revoked.{hang_up_found-storage, revoke_hosted-row}
use vexlo.Tunnels.Rows.{claim_found-storage}
use vexlo.Tunnels.Since.{
  Since, still, after, register-rows, close_tunnel-rows, expire_hosted_tunnels-kept,
}

-- A session whose row has no token.
abbrev IsDead : Bytes → Map Session → Type 0
IsDead id rows = (s : Session) × (get id rows ≡ some s) × (s.tunnel_token ≡ [])

-- Each row is under its identifier.
abbrev HasIds : Db → Type 0
HasIds db = (k : Bytes) (s : Session) → get k db.sessions ≡ some s → s.id ≡ k

modify-IsDead :
    (id k : Bytes) (f : Session → Session) (rows : Map Session)
    → ((s : Session) → s.tunnel_token ≡ [] → (f s).tunnel_token ≡ [])
    → IsDead id rows
    → IsDead id (modify k f rows)
modify-IsDead id k f rows keeps (s, there, dead) = by_key (str_eq k id) (get-modify k id f rows)
  where
    by_key :
        (b : Bool)
        → get id (modify k f rows) ≡ (if b then map_some f (get id rows) else get id rows)
        → IsDead id (modify k f rows)
    by_key true e = (f s, e ∙ ap (map_some f) there, keeps s dead)
    by_key false e = (s, e ∙ there, dead)

put-IsDead :
    (id k : Bytes) (row : Session) (rows : Map Session)
    → k ≢ id
    → IsDead id rows
    → IsDead id (put k row rows)
put-IsDead id k row rows apart (s, there, dead) =
    (s, ground (arith, get-put k id row rows, str_eq_iff k id), dead)

revoked-dead : (t : ℕ) (s : Session) → s.tunnel_token ≡ [] → (revoked t s).tunnel_token ≡ []
revoked-dead t s h = ground arith

revoke_hosted-IsDead :
    (down : Bool) (id k : Bytes) (now : ℕ) (m : TunnelManager)
    → IsDead id m.storage.sessions
    → IsDead id (revoke_hosted down k now m).0.storage.sessions
unfolding revoke_hosted hang_up_revoked revoke_session
revoke_hosted-IsDead down id k now m dead = by_answer down (get k m.storage.sessions)
  where
    hung :
        (db : Db)
        → IsDead id db.sessions
        → IsDead id (hang_up_revoked k m (some db)).0.storage.sessions
    hung db d =
        subst (λ (x : Db). IsDead id x.sessions)
          (sym (hang_up_found-storage (get k m.by_session) (record m { storage = db }))) d

    by_answer :
        (b : Bool) (o : Option Session)
        → IsDead id
            (hang_up_revoked k m
              (if b then none else revoke_row k now m.storage o)).0.storage.sessions
    by_answer true o = dead
    by_answer false none = dead
    by_answer false (some s) = by_hosted s.hosted
      where
        by_hosted :
            (b : Bool)
            → IsDead id
                (hang_up_revoked k m (
                  if b
                  then some
                      (record m.storage { sessions = modify k (revoked now) m.storage.sessions })
                  else none)).0.storage.sessions
        by_hosted true =
            hung (record m.storage { sessions = modify k (revoked now) m.storage.sessions })
              (modify-IsDead id k (revoked now) m.storage.sessions (revoked-dead now) dead)
        by_hosted false = dead

module _ (sha256_hex : Bytes → Bytes) where
  dead_stays_out :
      (outage : Bool) (now : ℕ) (reg : Register) (m : TunnelManager)
      → IsDead reg.session_id m.storage.sessions
      → validate_resume sha256_hex outage now reg m ≢ ok tt
  dead_stays_out outage now reg m (s, there, dead) = λ passed.
      let (found, r) =
        (validate_resume_iff sha256_hex now reg m).0
          (validate_resume_down sha256_hex outage now reg m passed) in
      let same : s ≡ found = some-injective s found (sym there ∙ r.there) in
      no_hash (hash_hosted_secret sha256_hex reg.resume_token) refl
        (r.token ∙ ap (λ (x : Session). x.tunnel_token) (sym same) ∙ dead)
    where
      no_hash :
          (hash : Bytes) → hash ≡ hash_hosted_secret sha256_hex reg.resume_token → hash ≡ [] → ⊥
      no_hash hash is_hash empty = unfold hash_hosted_secret in ground arith

  validated :
      (down : Bool) (now : ℕ) (reg : Register) (m : TunnelManager) (u : Unit {0})
      → validate_registration sha256_hex down now reg m ≡ ok u
      → str_eq reg.session_id [] ≡ false
      → validate_resume sha256_hex down now reg m ≡ ok tt
  unfolding validate_registration
  validated down now reg m u h named =
      by_guards (not (int_le reg.local_port 0 || int_gt reg.local_port 65535)) reg.quick
        (str_eq reg.session_id []) h named
    where
      by_guards :
          (port quick new : Bool)
          → (guard port invalid_port
              >> (guard quick not_quick
                  >> (if new then ok tt else validate_resume sha256_hex down now reg m)))
            ≡ ok u
          → new ≡ false
          → validate_resume sha256_hex down now reg m ≡ ok tt
      by_guards false quick new h e = absurd (cc)
      by_guards true false new h e = absurd (cc)
      by_guards true true true h e = absurd (cc)
      by_guards true true false h e = h

  -- Register settles on no session that has been revoked.
  settle-other :
      (outages : Outages) (draws : Draws) (now : ℕ) (reg : Register) (id : Bytes) (s : Session)
      (m : TunnelManager)
      → HasIds m.storage
      → IsDead id m.storage.sessions
      → (reg.session_id ≡ [] → get draws.id m.storage.sessions ≡ none)
      → settle sha256_hex outages draws now reg m ≡ ok s
      → s.id ≢ id
  unfolding settle resolve_session
  settle-other outages draws now reg id s m ids (old, there, dead) fresh h =
      elim (Bool-cases (str_eq reg.session_id [])) [
        | inl e ↦ λ same.
            new_again
              (sym (settled_id outages.allocate draws now reg.local_port s m.storage (resolved e))
                ∙ same)
              (fresh ((str_eq_iff reg.session_id []).0 e))
        | inr e ↦ λ same.
            let (u, passed, rest) =
              bind-eq-ok (validate_registration sha256_hex outages.validate now reg m) _ h in
            let (row, found, id_of, name) =
              resume_session_sound outages.resume (new_session draws now reg.local_port) s reg m
                (resumed e) in
            let asked : id ≡ reg.session_id = sym same ∙ id_of ∙ ids reg.session_id row found in
            dead_stays_out outages.validate now reg m
              (subst (λ (k : Bytes). IsDead k m.storage.sessions) asked (old, there, dead))
              (validated outages.validate now reg m u passed e)
      ]
    where
      whole : resolve_session outages draws now reg m ≡ ok s
      whole = settle-resolve sha256_hex outages draws now reg m s h

      resolved :
          str_eq reg.session_id [] ≡ true
          → allocate_hosted_subdomain outages.allocate draws
              (new_session draws now reg.local_port)
              m.storage
            ≡ ok s
      resolved e = ground arith

      resumed :
          str_eq reg.session_id [] ≡ false
          → resume_session outages.resume (new_session draws now reg.local_port) reg m ≡ ok s
      resumed e = ground arith

      new_again : draws.id ≡ id → get draws.id m.storage.sessions ≡ none → ⊥
      new_again same none_there =
          let no : Option.some old ≡ none =
            sym there ∙ ap (λ (k : Bytes). get k m.storage.sessions) (sym same) ∙ none_there in
          absurd (cc)

  Step-IsDead :
      (id : Bytes) (m n : TunnelManager)
      → IsConsistent m
      → IsDead id m.storage.sessions
      → Step sha256_hex m n
      → IsDead id n.storage.sessions
  unfolding claim_dashboard_handoff
  Step-IsDead id m n c dead (registers outages draws source_ip now reg fresh e) =
      subst (λ (x : TunnelManager). IsDead id x.storage.sessions) (sym e)
        (register-rows sha256_hex (IsDead id) outages draws source_ip now reg m dead (λ s at same h.
          put-IsDead id s.id (session_row sha256_hex s) m.storage.sessions
            (settle-other outages draws now reg id s at (subst HasIds (sym same) c.row_ids)
              (subst (λ (d : Db). IsDead id d.sessions) (sym same) dead)
              (λ new. ap (λ (d : Db). get draws.id d.sessions) same ∙ fresh new) h)
            dead))
  Step-IsDead id m n c dead (closes down r now e) =
      subst (λ (x : TunnelManager). IsDead id x.storage.sessions) (sym e)
        (close_tunnel-rows sha256_hex (IsDead id) down r now m dead
          (λ k. modify-IsDead id k _ m.storage.sessions (λ s h. h) dead))
  Step-IsDead id m n c dead (revokes down k now e) =
      subst (λ (x : TunnelManager). IsDead id x.storage.sessions) (sym e)
        (revoke_hosted-IsDead down id k now m dead)
  Step-IsDead id m n c dead (expires now e) =
      subst (λ (x : TunnelManager). IsDead id x.storage.sessions) (sym e)
        (subst (λ (d : Db). IsDead id d.sessions) (sym (expire_hosted_tunnels-kept now m).0) dead)
  Step-IsDead id m n c dead (claims session_id raw now e) =
      subst (λ (x : TunnelManager). IsDead id x.storage.sessions) (sym e)
        (subst (λ (d : Db). IsDead id d.sessions)
          (sym (
            claim_found-storage sha256_hex session_id (hash_hosted_secret sha256_hex raw) now
              (get (hash_hosted_secret sha256_hex raw) m.handoffs) m))
          dead)

  Since-IsDead :
      {cfg : Config} {db : Db} (id : Bytes) {m n : TunnelManager}
      → IsTable db.sessions
      → Reach sha256_hex cfg db m
      → IsDead id m.storage.sessions
      → Since sha256_hex m n
      → Reach sha256_hex cfg db n × IsDead id n.storage.sessions
  Since-IsDead id t reach dead still = (reach, dead)
  Since-IsDead id t reach dead (after {n} {k} since step) =
      let (r, d) = Since-IsDead id t reach dead since in
      (next r step, Step-IsDead id n k (Reach-IsConsistent sha256_hex t r) d step)

  -- In every state that the manager reaches from a table with each row under its identifier and no
  -- two rows with one subdomain: once the operator has revoked a session, validateResume lets nothing
  -- resume it, whatever token is brought and when, and whatever registrations, disconnections,
  -- revocations, expiries and claims have come in between, as long as no identifier drawn for a new
  -- session is in the table.
  pub revoked_stays :
      {cfg : Config} {db : Db} (down outage : Bool) (t now : ℕ) (reg : Register)
      (m m' n : TunnelManager)
      → IsTable db.sessions
      → Reach sha256_hex cfg db m
      → revoke_hosted down reg.session_id t m ≡ (m', true)
      → Since sha256_hex m' n
      → validate_resume sha256_hex outage now reg n ≢ ok tt
  revoked_stays down outage t now reg m m' n table reach h since =
      let revoked_now : Step sha256_hex m m' =
        revokes down reg.session_id t (sym (ap (λ p. p.0) h)) in
      dead_stays_out outage now reg n
        (Since-IsDead reg.session_id table (next reach revoked_now)
          (revoke_hosted-row down reg.session_id t m m' h) since).1
