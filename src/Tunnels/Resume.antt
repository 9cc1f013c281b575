-- ===== src/Tunnels/Resume.antt =====
-- When a session may be resumed.
use vexlo.Common.{
  ℕ, ◌≡◌, ◌≢◌, ◌↔◌, refl, Bytes, Bool, true, false, [], Option, none, some, arith, str_eq_iff, get,
}
use vexlo.Model.{Session, Register}
use vexlo.Config.{has_passed}
use vexlo.Compare.{constant_time_compare_iff}
use vexlo.Storage.{hash_hosted_secret, get_session}
use vexlo.Tunnels.{TunnelManager}
use vexlo.Tunnels.Register.{ok, validate_resume, is_past_grace}

module _ (sha256_hex : Bytes → Bytes) where
  -- The session that the registration names, which is hosted, has time left, did not end more than
  -- thirty seconds ago, and whose token the registration brings.
  pub record IsResumable (now : ℕ) (reg : Register) (m : TunnelManager) (s : Session) : Type 0 where
    pub there : get reg.session_id m.storage.sessions ≡ some s
    pub hosted : s.hosted ≡ true
    pub alive : has_passed m.cfg.hosted_lifetime s.started_at now ≡ false
    pub in_grace : is_past_grace now s.ended_at ≡ false
    pub has_token : reg.resume_token ≢ []
    pub token : hash_hosted_secret sha256_hex reg.resume_token ≡ s.tunnel_token

  -- While the database answers, validateResume passes exactly the registrations that name a session
  -- which may be resumed: it is hosted, has time left, did not end more than thirty seconds ago,
  -- and its token is the one that is brought, and not empty.
  pub validate_resume_iff :
      (now : ℕ) (reg : Register) (m : TunnelManager)
      → (validate_resume sha256_hex false now reg m ≡ ok tt)
        ↔ ((s : Session) × IsResumable now reg m s)
  validate_resume_iff now reg m = (
    λ h. resumed (get reg.session_id m.storage.sessions) refl h,
    λ p. let (s, r) = p in passes s r,
  )
    where
      resumed :
          (o : Option Session)
          → get reg.session_id m.storage.sessions ≡ o
          → validate_resume sha256_hex false now reg m ≡ ok tt
          → (s : Session) × IsResumable now reg m s
      resumed none e h = absurd (unfold validate_resume get_session in ground arith)
      resumed (some s) e h = (
        s,
        unfold validate_resume get_session in
            ground (
              arith,
              constant_time_compare_iff (hash_hosted_secret sha256_hex reg.resume_token)
                  s.tunnel_token,
              str_eq_iff reg.resume_token [],
            ),
      )

      passes :
          (s : Session)
          → IsResumable now reg m s
          → validate_resume sha256_hex false now reg m ≡ ok tt
      passes s r =
          unfold validate_resume get_session in
          ground (
            arith,
            constant_time_compare_iff (hash_hosted_secret sha256_hex reg.resume_token)
                s.tunnel_token,
            str_eq_iff reg.resume_token [],
          )

  pub validate_resume_down :
      (down : Bool) (now : ℕ) (reg : Register) (m : TunnelManager)
      → validate_resume sha256_hex down now reg m ≡ ok tt
      → validate_resume sha256_hex false now reg m ≡ ok tt
  unfolding validate_resume get_session
  validate_resume_down true now reg m h = absurd (cc)
  validate_resume_down false now reg m h = h
