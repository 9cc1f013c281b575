-- ===== src/Tunnels/Admission.antt =====
-- Register: what it starts a session from, and that it keeps the manager consistent.
pub use vexlo.Tunnels.Settled.{IsNewIn, IsResumedIn, resolve_session_sound}
pub use vexlo.Common.{bind-eq-ok}
use vexlo.Common.{
  ℕ, ◌≡◌, ◌≢◌, refl, ◌∙◌, subst, ◌⊎◌, inl, inr, Bytes, Bool, ◌&&◌, [], Option, none, some, arith,
  str_eq, str_eq_iff, Bool-cases, get, put, get-put,
}
use vexlo.Model.{Session, Register}
use vexlo.Storage.{session_row, upsert_session, count_requests}
use vexlo.Tunnels.{TunnelManager, new_tunnel}
use vexlo.Tunnels.Registry.{install_tunnel}
use vexlo.Tunnels.Wiring.{IsWired, IsWired-put_new, IsWired-put_same}
use vexlo.Tunnels.Consistency.{IsConsistent, install_tunnel-IsConsistent}
use vexlo.Tunnels.Register.{
  RegisterError, Result, ok, err, Outages, Draws, admit_hosted, validate_registration,
  resolve_session, start_session, start_counted, start_resolved, settle, register_admitted,
  register,
}

row-id :
    (sha256_hex : Bytes → Bytes) (s : Session)
    → ((session_row sha256_hex s).id ≡ s.id) × ((session_row sha256_hex s).subdomain ≡ s.subdomain)
unfolding session_row
row-id sha256_hex s = ground arith

module _ (sha256_hex : Bytes → Bytes) where
  -- What Register may start: a new session whose identifier no row has, or a resumed one.
  abbrev pub IsStartable : TunnelManager → Session → Type 0
  IsStartable m s =
      ((get s.id m.storage.sessions ≡ none)
        × ((k : Bytes) (t : Session)
            → get k m.storage.sessions ≡ some t
            → t.subdomain ≢ s.subdomain))
      ⊎ ((old : Session) × (get s.id m.storage.sessions ≡ some old) × (s.subdomain ≡ old.subdomain))

  abbrev stored_session : Session → TunnelManager → TunnelManager
  stored_session s m = record m {
    storage = record m.storage {
      sessions = put s.id (session_row sha256_hex s) m.storage.sessions;
    };
  }

  stored_session-IsConsistent :
      (s : Session) (m : TunnelManager)
      → IsConsistent m
      → IsStartable m s
      → IsConsistent (stored_session s m)
  stored_session-IsConsistent s m c may =
      let row : Session = session_row sha256_hex s in
      let (id, name) = row-id sha256_hex s in
      subst
        (λ (k : Bytes). IsWired m.tunnels m.by_session m.next m.heap (put k row m.storage.sessions))
        id (place row id name may)
    where
      place :
          (row : Session)
          → row.id ≡ s.id
          → row.subdomain ≡ s.subdomain
          → IsStartable m s
          → IsWired m.tunnels m.by_session m.next m.heap (put row.id row m.storage.sessions)
      place row id name (inl (fresh, alone)) =
          IsWired-put_new c row (rw id fresh) (λ k t e n. alone k t e (n ∙ name))
      place row id name (inr (old, there, n)) = IsWired-put_same c row old (rw id there) (name ∙ n)

  started-IsConsistent :
      (s : Session) (source_ip : Bytes) (count : ℕ) (m : TunnelManager)
      → IsConsistent m
      → IsStartable m s
      → IsConsistent (install_tunnel (new_tunnel s source_ip count) (stored_session s m))
  unfolding new_tunnel
  started-IsConsistent s source_ip count m c may =
      install_tunnel-IsConsistent _ (session_row sha256_hex s) (stored_session s m)
        (stored_session-IsConsistent s m c may)
        (ground (
          arith,
          get-put s.id s.id (session_row sha256_hex s) m.storage.sessions,
          str_eq_iff s.id s.id,
        ))
        (row-id sha256_hex s).1

  start_counted-IsConsistent :
      (draws : Draws) (source_ip : Bytes) (now : ℕ) (s : Session) (o : Option ℕ) (m : TunnelManager)
      → IsConsistent m
      → IsStartable m s
      → IsConsistent (start_counted sha256_hex draws source_ip now s o (stored_session s m)).0
  unfolding start_counted
  start_counted-IsConsistent draws source_ip now s none m c may =
      stored_session-IsConsistent s m c may
  start_counted-IsConsistent draws source_ip now s (some count) m c may =
      started-IsConsistent s source_ip count m c may

  start_session-IsConsistent :
      (outages : Outages) (draws : Draws) (source_ip : Bytes) (now : ℕ) (s : Session)
      (m : TunnelManager)
      → IsConsistent m
      → IsStartable m s
      → IsConsistent (start_session sha256_hex outages draws source_ip now s m).0
  unfolding start_session upsert_session
  start_session-IsConsistent outages draws source_ip now s m c may =
      elim (Bool-cases outages.upsert) [
        | inl down ↦ simp down c
        | inr up ↦ simp up (
            start_counted-IsConsistent draws source_ip now s
              (count_requests outages.count s.id (stored_session s m).storage) m c may)
      ]

  admit_hosted-IsConsistent :
      (source_ip : Bytes) (is_new : Bool) (now : ℕ) (m : TunnelManager)
      → IsConsistent m
      → IsConsistent (admit_hosted source_ip is_new now m).0
        × ((admit_hosted source_ip is_new now m).0.storage ≡ m.storage)
  unfolding admit_hosted
  admit_hosted-IsConsistent source_ip is_new now m c = elim (Bool-cases (is_new && m.is_paused)) [
    | inl e ↦ rw e (c, refl)
    | inr e ↦ rw e (c, refl)
  ]

  pub settle-resolve :
      (outages : Outages) (draws : Draws) (now : ℕ) (reg : Register) (m : TunnelManager)
      (s : Session)
      → settle sha256_hex outages draws now reg m ≡ ok s
      → resolve_session outages draws now reg m ≡ ok s
  unfolding settle
  settle-resolve outages draws now reg m s h =
      let valid = validate_registration sha256_hex outages.validate now reg m in
      let (a, b, e) = bind-eq-ok valid (λ _. resolve_session outages draws now reg m) h in e

  settle-IsStartable :
      (outages : Outages) (draws : Draws) (now : ℕ) (reg : Register) (m : TunnelManager)
      (s : Session)
      → IsConsistent m
      → (reg.session_id ≡ [] → get draws.id m.storage.sessions ≡ none)
      → resolve_session outages draws now reg m ≡ ok s
      → IsStartable m s
  settle-IsStartable outages draws now reg m s c fresh h =
      elim (resolve_session_sound outages draws now reg m s h) [
        | inl (new, (id, alone)) ↦ inl (rw id (fresh new), alone)
        | inr (old, there, id, name) ↦
            inr (old, rw (id ∙ c.row_ids reg.session_id old there) there, name)
      ]

  register_admitted-IsConsistent :
      (outages : Outages) (draws : Draws) (source_ip : Bytes) (now : ℕ) (reg : Register)
      (o : Option RegisterError) (m : TunnelManager)
      → IsConsistent m
      → (reg.session_id ≡ [] → get draws.id m.storage.sessions ≡ none)
      → IsConsistent (register_admitted sha256_hex outages draws source_ip now reg o m).0
  register_admitted-IsConsistent outages draws source_ip now reg (some e) m c fresh = c
  register_admitted-IsConsistent outages draws source_ip now reg none m c fresh =
      go (settle sha256_hex outages draws now reg m) refl
    where
      go :
          (r : Result RegisterError Session)
          → settle sha256_hex outages draws now reg m ≡ r
          → IsConsistent (start_resolved sha256_hex outages draws source_ip now r m).0
      go (err e) h = c
      go (ok s) h = start_session-IsConsistent outages draws source_ip now s m c (
          settle-IsStartable outages draws now reg m s c fresh
            (settle-resolve outages draws now reg m s h))

  -- Register, whether it succeeds or fails and wherever the database fails it, keeps the manager
  -- consistent, if the identifier that it draws for a new session is in no row.
  pub register-IsConsistent :
      (outages : Outages) (draws : Draws) (source_ip : Bytes) (now : ℕ) (reg : Register)
      (m : TunnelManager)
      → IsConsistent m
      → (reg.session_id ≡ [] → get draws.id m.storage.sessions ≡ none)
      → IsConsistent (register sha256_hex outages draws source_ip now reg m).0
  unfolding register
  register-IsConsistent outages draws source_ip now reg m c fresh =
      let (c', kept) = admit_hosted-IsConsistent source_ip (str_eq reg.session_id []) now m c in
      register_admitted-IsConsistent outages draws source_ip now reg
        (admit_hosted source_ip (str_eq reg.session_id []) now m).1
        (admit_hosted source_ip (str_eq reg.session_id []) now m).0 c' (λ e. rw kept (fresh e))
