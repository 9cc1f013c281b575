-- ===== src/Client/Reconnect.antt =====
-- The client's next connection.
use vexlo.Common.{
  ℕ, ◌≡◌, ◌≢◌, ◌↔◌, refl, ap, sym, ◌∙◌, subst, ◌⊎◌, inl, inr, ℤ, Bytes, Bool, true, false, [], some,
  arith, str_eq, str_eq_iff, Bool-cases, get, get-put, bind-eq-ok,
}
use vexlo.Model.{Session, Register, Registered}
use vexlo.Config.{has_passed}
use vexlo.Storage.{Db, session_row, upsert_session, get_session}
use vexlo.Tunnels.{TunnelManager, new_tunnel}
use vexlo.Tunnels.Registry.{install_tunnel}
use vexlo.Tunnels.Handoff.{new_dashboard_handoff}
use vexlo.Tunnels.Register.{
  RegisterError, unavailable, rate_busy, ip_rate, at_capacity, ip_capacity, invalid_port, not_quick,
  invalid_resume, invalid_mode, expired, invalid_token, no_subdomain, storage_failed, message, ok,
  err, or_fail, Outages, Draws, new_session, resume_session, allocate_from,
  allocate_hosted_subdomain, resolve_session, validate_resume, registered, register,
}
use vexlo.Tunnels.Admission.{settle-resolve}
use vexlo.Tunnels.Outcome.{register_succeeds, admitted, start_session_announces}
use vexlo.Tunnels.Supersede.{install_tunnel-storage}
use vexlo.Tunnels.Resume.{IsResumable, validate_resume_iff}
use vexlo.Client.{ResumeState, registration, after_reply, answer, is_resume_rejected}

fresh-hosted :
    (down : ℕ → Bool) (draws : Draws) (now : ℕ) (port : ℤ) (db : Db) (s : Session)
    → allocate_hosted_subdomain down draws (new_session draws now port) db ≡ ok s
    → s.hosted ≡ true
unfolding allocate_hosted_subdomain new_session
fresh-hosted down draws now port db s h =
    let (found, a, b) = bind-eq-ok (allocate_from down draws.retries 5 0 draws.subdomain db) _ h in
    ground arith

resumed-hosted :
    (down : Bool) (draws : Draws) (now : ℕ) (port : ℤ) (reg : Register) (m : TunnelManager)
    (s : Session)
    → resume_session down (new_session draws now port) reg m ≡ ok s
    → s.hosted ≡ true
unfolding resume_session new_session
resumed-hosted down draws now port reg m s h =
    let (existing, a, b) =
      bind-eq-ok (or_fail (get_session down reg.session_id m.storage) invalid_resume) _ h in
    ground arith

resolve_session-hosted :
    (outages : Outages) (draws : Draws) (now : ℕ) (reg : Register) (m : TunnelManager) (s : Session)
    → resolve_session outages draws now reg m ≡ ok s
    → s.hosted ≡ true
unfolding resolve_session
resolve_session-hosted outages draws now reg m s h = elim (Bool-cases (str_eq reg.session_id [])) [
  | inl e ↦ fresh-hosted outages.allocate draws now reg.local_port m.storage s (ground arith)
  | inr e ↦ resumed-hosted outages.resume draws now reg.local_port reg m s (ground arith)
]

module _ (sha256_hex : Bytes → Bytes) where
  upsert-get :
      (down : Bool) (s : Session) (db db' : Db)
      → upsert_session sha256_hex down s db ≡ some db'
      → get s.id db'.sessions ≡ some (session_row sha256_hex s)
  unfolding upsert_session
  upsert-get true s db db' h = absurd (cc)
  upsert-get false s db db' h =
      ground (arith, get-put s.id s.id (session_row sha256_hex s) db.sessions, str_eq_iff s.id s.id)

  registered-storage :
      (s : Session) (raw : Bytes) (now : ℕ) (m m' : TunnelManager) (reply : Registered)
      → registered sha256_hex s raw now m ≡ (m', reply)
      → (m'.storage ≡ m.storage)
        × (m'.cfg ≡ m.cfg)
        × (reply.session_id ≡ s.id)
        × (reply.tunnel_token ≡ s.tunnel_token)
        × (reply.started_at ≡ s.started_at)
  unfolding registered new_dashboard_handoff
  registered-storage s raw now m m' reply h =
      (ground arith, ground arith, ground arith, ground arith, ground arith)

  row-IsResumable :
      (s : Session) (later : ℕ) (reg : Register) (m : TunnelManager)
      → s.hosted ≡ true
      → get reg.session_id m.storage.sessions ≡ some (session_row sha256_hex s)
      → reg.resume_token ≡ s.tunnel_token
      → s.tunnel_token ≢ []
      → has_passed m.cfg.hosted_lifetime s.started_at later ≡ false
      → IsResumable sha256_hex later reg m (session_row sha256_hex s)
  unfolding session_row
  row-IsResumable s later reg m hosted there token some_token alive = record {
    there = there;
    hosted = ground arith;
    alive = ground arith;
    in_grace = ground arith;
    has_token = λ e. some_token (sym token ∙ e);
    token = ground arith;
  }

  -- A client that was welcomed and connects again is let in by validateResume, as long as the
  -- session has time left and nothing has changed its row, if its token is not empty.
  pub after_welcome_resumes :
      (outages : Outages) (draws : Draws) (source_ip engine : Bytes) (now later : ℕ) (port : ℤ)
      (c : ResumeState) (m m' : TunnelManager) (reply : Registered) (r : ℕ)
      → register sha256_hex outages draws source_ip now (registration port c) m
        ≡ (m', ok (reply, r))
      → reply.tunnel_token ≢ []
      → has_passed m'.cfg.hosted_lifetime reply.started_at later ≡ false
      → validate_resume sha256_hex false later
          (registration port (after_reply (answer engine (ok (reply, r))) c))
          m'
        ≡ ok tt
  unfolding after_reply answer registration
  after_welcome_resumes outages draws source_ip engine now later port c m m' reply r h some_token
        alive =
      let reg : Register = registration port c in
      let (let_in, s, settled, started) =
        register_succeeds sha256_hex outages draws source_ip now reg m m' reply r h in
      let m1 : TunnelManager = admitted sha256_hex outages draws source_ip now reg m in
      let (db, count, stored, counted, announced, at) =
        start_session_announces sha256_hex outages draws source_ip now reg s m1 m' reply r
          started in
      let n : TunnelManager = record m1 { storage = db } in
      let (kept, same_cfg, id, token, start) =
        registered-storage s draws.handoff now (install_tunnel (new_tunnel s source_ip count) n) m'
          reply announced in
      let at_db : m'.storage ≡ db =
        kept ∙ install_tunnel-storage (new_tunnel s source_ip count) n in
      let row : get s.id db.sessions ≡ some (session_row sha256_hex s) =
        upsert-get outages.upsert s m1.storage db stored in
      let hosted : s.hosted ≡ true =
        resolve_session-hosted outages draws now reg m1 s
          (settle-resolve sha256_hex outages draws now reg m1 s settled) in
      let next : Register =
        registration port
          (record { session_id = reply.session_id; resume_token = reply.tunnel_token }) in
      (validate_resume_iff sha256_hex later next m').1 (
        session_row sha256_hex s,
        row-IsResumable s later next m' hosted (found s db m' reply id at_db row) token
            (λ e. some_token (token ∙ e))
            (subst (λ (t : ℕ). has_passed m'.cfg.hosted_lifetime t later ≡ false) start alive),
      )
    where
      found :
          (s : Session) (db : Db) (m' : TunnelManager) (reply : Registered)
          → reply.session_id ≡ s.id
          → m'.storage ≡ db
          → get s.id db.sessions ≡ some (session_row sha256_hex s)
          → get reply.session_id m'.storage.sessions ≡ some (session_row sha256_hex s)
      found s db m' reply id at_db row = rw (id, at_db) row

-- The errors of a session that cannot be resumed.
abbrev pub IsFinal : RegisterError → Type 0
IsFinal e = (e ≡ invalid_resume) ⊎ (e ≡ invalid_mode) ⊎ (e ≡ expired) ⊎ (e ≡ invalid_token)

kept :
    (port : ℤ) {c next : ResumeState}
    → next ≡ c
    → (next ≡ c) × (registration port next ≡ registration port c)
kept port same = (same, ap (registration port) same)

-- A refused client that named a session forgets it exactly when the server's error is one of the
-- four of a session that cannot be resumed, if the text of a database error is none of those four;
-- after every other refusal it keeps the session and its token, and registers as it did before.
pub after_refusal_forgets :
    (engine : Bytes) (port : ℤ) (e : RegisterError) (c : ResumeState)
    → c.session_id ≢ []
    → is_resume_rejected c.session_id engine ≡ false
    → let next = after_reply (answer engine (err e)) c in
      ((next.session_id ≡ []) ↔ IsFinal e)
      × (¬ IsFinal e → (next ≡ c) × (registration port next ≡ registration port c))
unfolding after_reply answer message str_eq
after_refusal_forgets engine port unavailable c named other =
    (ground (arith, str_eq_iff c.session_id []), λ not_final. kept port (ground arith))
after_refusal_forgets engine port rate_busy c named other =
    (ground (arith, str_eq_iff c.session_id []), λ not_final. kept port (ground arith))
after_refusal_forgets engine port ip_rate c named other =
    (ground (arith, str_eq_iff c.session_id []), λ not_final. kept port (ground arith))
after_refusal_forgets engine port at_capacity c named other =
    (ground (arith, str_eq_iff c.session_id []), λ not_final. kept port (ground arith))
after_refusal_forgets engine port ip_capacity c named other =
    (ground (arith, str_eq_iff c.session_id []), λ not_final. kept port (ground arith))
after_refusal_forgets engine port invalid_port c named other =
    (ground (arith, str_eq_iff c.session_id []), λ not_final. kept port (ground arith))
after_refusal_forgets engine port not_quick c named other =
    (ground (arith, str_eq_iff c.session_id []), λ not_final. kept port (ground arith))
after_refusal_forgets engine port no_subdomain c named other =
    (ground (arith, str_eq_iff c.session_id []), λ not_final. kept port (ground arith))
after_refusal_forgets engine port storage_failed c named other =
    (ground (arith, str_eq_iff c.session_id []), λ not_final. kept port (ground arith))
after_refusal_forgets engine port invalid_resume c named other =
    (ground (arith, str_eq_iff c.session_id []), λ not_final. absurd (not_final (inl refl)))
after_refusal_forgets engine port invalid_mode c named other =
    (ground (arith, str_eq_iff c.session_id []), λ not_final. absurd (not_final (inr (inl refl))))
after_refusal_forgets engine port expired c named other = (
  ground (arith, str_eq_iff c.session_id []),
  λ not_final. absurd (not_final (inr (inr (inl refl)))),
)
after_refusal_forgets engine port invalid_token c named other = (
  ground (arith, str_eq_iff c.session_id []),
  λ not_final. absurd (not_final (inr (inr (inr refl)))),
)
