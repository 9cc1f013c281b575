-- ===== src/Operator/Guarded.antt =====
-- Who may do what the operator does.
use vexlo.Common.{
  ℕ, ◌≡◌, ◌≢◌, ◌↔◌, ◌⊎◌, inl, inr, refl, sym, ap, ◌∙◌, Bytes, codes, Bool, true, false, ◌&&◌,
  Option, none, some, arith, str_eq, str_eq_iff, if◌then◌else◌,
}
use vexlo.Config.{Config, is_refused}
use vexlo.Compare.{constant_time_compare_iff}
use vexlo.Storage.{Db, set_registrations_paused}
use vexlo.Tunnels.{TunnelManager}
use vexlo.Access.{HttpRequest, Answer, fail, done, same_origin}
use vexlo.Operator.{
  admin_authorized, credentials_match, with_admin_auth, safe_operator_origin, pause_stored, pause,
  handle_admin_registrations, not_found, admin_registrations,
}

credentials_match_iff :
    (cfg : Config) (basic : Option (Bytes × Bytes))
    → (credentials_match cfg basic ≡ true) ↔ (basic ≡ some (cfg.admin_username, cfg.admin_password))
credentials_match_iff cfg none = (λ h. absurd (cc), λ h. absurd (cc))
credentials_match_iff cfg (some (user, pass)) =
    let same_user = constant_time_compare_iff user cfg.admin_username in
    let same_pass = constant_time_compare_iff pass cfg.admin_password in
    (
      λ h. both (same_user.0 (ground arith)) (same_pass.0 (ground arith)),
      λ h. ground (arith, same_user.1 (user_of h), same_pass.1 (pass_of h)),
    )
  where
    both :
        user ≡ cfg.admin_username
        → pass ≡ cfg.admin_password
        → ◌≡◌ {A = Option (Bytes × Bytes)}
            (some (user, pass))
            (some (cfg.admin_username, cfg.admin_password))
    both u p = cc

    user_of :
        ◌≡◌ {A = Option (Bytes × Bytes)}
          (some (user, pass))
          (some (cfg.admin_username, cfg.admin_password))
        → user ≡ cfg.admin_username
    user_of h = cc

    pass_of :
        ◌≡◌ {A = Option (Bytes × Bytes)}
          (some (user, pass))
          (some (cfg.admin_username, cfg.admin_password))
        → pass ≡ cfg.admin_password
    pass_of h = cc

-- With a configuration that New accepts, the operator's requests are those with exactly the
-- configured name and password.
pub admin_authorized_iff :
    (cfg : Config) (basic : Option (Bytes × Bytes))
    → is_refused cfg ≡ false
    → (admin_authorized cfg basic ≡ true) ↔ (basic ≡ some (cfg.admin_username, cfg.admin_password))
unfolding admin_authorized is_refused
admin_authorized_iff cfg basic accepted =
    let c = credentials_match_iff cfg basic in (λ h. c.0 (ground arith), λ h. ground (arith, c.1 h))

-- A request of the operator that turns nothing.
abbrev pub IsUnswitched : TunnelManager → TunnelManager → Answer Bool → Type 0
IsUnswitched m n answer = (n ≡ m) × ((b : Bool) → answer ≢ done b)

-- A request that turns the switch.
abbrev pub IsSwitched : Bool → TunnelManager → TunnelManager → Answer Bool → Type 0
IsSwitched down m n answer =
    (paused : Bool) × (answer ≡ done paused)
    × (n.is_paused ≡ paused)
    × (set_registrations_paused down paused m.storage ≡ some n.storage)

fail_done :
    (status : ℕ) (text : Bytes) (b : Bool) → ◌≡◌ {A = Answer Bool} (fail status text) (done b) → ⊥
fail_done status text b h = cc

refused-IsUnswitched :
    (status : ℕ) (text : Bytes) (m n : TunnelManager) (answer : Answer Bool)
    → ◌≡◌ {A = TunnelManager × Answer Bool} (m, fail status text) (n, answer)
    → IsUnswitched m n answer
refused-IsUnswitched status text m n answer h =
    (sym (ap (λ p. p.0) h), λ b e. fail_done status text b (ap (λ p. p.1) h ∙ e))

stored-outcome :
    (down paused : Bool) (o : Option Db) (m n : TunnelManager) (answer : Answer Bool)
    → set_registrations_paused down paused m.storage ≡ o
    → pause_stored paused m o ≡ (n, answer)
    → IsUnswitched m n answer ⊎ IsSwitched down m n answer
stored-outcome down paused none m n answer e h =
    inl (refused-IsUnswitched 500 (codes "failed to update registration state") m n answer h)
stored-outcome down paused (some db) m n answer e h =
    let same : record m { storage = db; is_paused = paused } ≡ n = ap (λ p. p.0) h in
    inr (
      paused,
      sym (ap (λ p. p.1) h),
      ap (λ (k : TunnelManager). k.is_paused) (sym same),
      e ∙ ap (λ (k : TunnelManager). some k.storage) same,
    )

pause-outcome :
    (down : Bool) (payload : Option Bool) (m n : TunnelManager) (answer : Answer Bool)
    → pause down payload m ≡ (n, answer)
    → IsUnswitched m n answer ⊎ IsSwitched down m n answer
unfolding pause
pause-outcome down none m n answer h =
    inl (refused-IsUnswitched 400 (codes "invalid payload") m n answer h)
pause-outcome down (some paused) m n answer h =
    stored-outcome down paused (set_registrations_paused down paused m.storage) m n answer refl h

pub handle_admin_registrations-outcome :
    (down : Bool) (req : HttpRequest) (payload : Option Bool) (m n : TunnelManager)
    (answer : Answer Bool)
    → handle_admin_registrations down req payload m ≡ (n, answer)
    → IsUnswitched m n answer
      ⊎ (IsSwitched down m n answer
          × (req.method ≡ codes "POST")
          × (req.is_tls ≡ true)
          × (same_origin req ≡ true))
unfolding handle_admin_registrations safe_operator_origin
handle_admin_registrations-outcome down req payload m n answer h =
    by_guard (str_eq req.method (codes "POST")) req.is_tls refl refl (same_origin req) refl h
  where
    by_guard :
        (post tls : Bool)
        → str_eq req.method (codes "POST") ≡ post
        → req.is_tls ≡ tls
        → (same : Bool) → same_origin req ≡ same
        → (if post && (tls && same) then pause down payload m else (m, not_found)) ≡ (n, answer)
        → IsUnswitched m n answer
          ⊎ (IsSwitched down m n answer
              × (req.method ≡ codes "POST")
              × (req.is_tls ≡ true)
              × (same_origin req ≡ true))
    by_guard true true meth t true o h = elim (pause-outcome down payload m n answer h) [
      | inl u ↦ inl u
      | inr s ↦ inr (s, (str_eq_iff req.method (codes "POST")).0 meth, t, o)
    ]
    by_guard true true meth t false o h =
        inl (refused-IsUnswitched 404 (codes "404 page not found") m n answer h)
    by_guard true false meth t same o h =
        inl (refused-IsUnswitched 404 (codes "404 page not found") m n answer h)
    by_guard false tls meth t same o h =
        inl (refused-IsUnswitched 404 (codes "404 page not found") m n answer h)

-- With a configuration that New accepts, the switch of registrations is turned only by a request with
-- the operator's name and password, by POST over TLS from the server's own origin, and then the table
-- and the manager have the new state; on any other answer nothing changes.
pub admin_registrations-guarded :
    (down : Bool) (req : HttpRequest) (basic : Option (Bytes × Bytes)) (payload : Option Bool)
    (m n : TunnelManager) (answer : Answer Bool)
    → is_refused m.cfg ≡ false
    → admin_registrations down req basic payload m ≡ (n, answer)
    → IsUnswitched m n answer
      ⊎ (IsSwitched down m n answer
          × (req.method ≡ codes "POST")
          × (req.is_tls ≡ true)
          × (same_origin req ≡ true)
          × (basic ≡ some (m.cfg.admin_username, m.cfg.admin_password)))
unfolding admin_registrations with_admin_auth
admin_registrations-guarded down req basic payload m n answer accepted h =
    by_authority (admin_authorized m.cfg basic) refl h
  where
    by_authority :
        (b : Bool)
        → admin_authorized m.cfg basic ≡ b
        → (if b
            then handle_admin_registrations down req payload m
            else (m, fail 401 (codes "admin authentication required")))
          ≡ (n, answer)
        → IsUnswitched m n answer
          ⊎ (IsSwitched down m n answer
              × (req.method ≡ codes "POST")
              × (req.is_tls ≡ true)
              × (same_origin req ≡ true)
              × (basic ≡ some (m.cfg.admin_username, m.cfg.admin_password)))
    by_authority true e h =
        elim (handle_admin_registrations-outcome down req payload m n answer h) [
          | inl u ↦ inl u
          | inr s ↦ inr (s.0, s.1, s.2, s.3, (admin_authorized_iff m.cfg basic accepted).0 e)
        ]
    by_authority false e h =
        inl (refused-IsUnswitched 401 (codes "admin authentication required") m n answer h)
