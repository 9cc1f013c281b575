-- ===== src/Access/Guarded.antt =====
-- Who passes authorize, and how a chain of checks is taken apart.
use vexlo.Common.{
  ℕ, ◌≡◌, ◌≢◌, ◌↔◌, refl, Bytes, codes, Bool, true, false, [], ◌++◌, Option, none, some, arith,
  str_eq_iff, get,
}
use vexlo.Model.{Session}
use vexlo.Storage.{get_session, hash_hosted_secret}
use vexlo.Compare.{constant_time_compare_iff}
use vexlo.Tunnels.{TunnelManager}
use vexlo.Access.{
  HttpRequest, Answer, fail, done, is_older, named_session, authorize, cookie_matches, check,
  or_fail, ◌>>=◌,
}

module _ (sha256_hex : Bytes → Bytes) where
  -- The request names a hosted session that is not too old, and has a cookie of that session's
  -- name with its token.
  pub record IsAuthorized (req : HttpRequest) (now : ℕ) (m : TunnelManager) (s : Session)
      (token : Bytes) : Type 0 where
    pub names : named_session req ≢ []
    pub there : get (named_session req) m.storage.sessions ≡ some s
    pub hosted : s.hosted ≡ true
    pub young : is_older m.cfg.hosted_lifetime m.cfg.hosted_retention s.started_at now ≡ false
    pub cookie : req.cookie (codes "vexlo_session_" ++ named_session req) ≡ some token
    pub token_fits : hash_hosted_secret sha256_hex token ≡ s.auth_token

  abbrev after_cookie : Bytes → Session → Option Bytes → Answer Bytes
  after_cookie id s cookie =
      check (cookie_matches sha256_hex s.auth_token cookie) 401 (codes "unauthorized") (done id)

  -- While the database answers, authorize lets through exactly the requests that name a hosted
  -- session that is not older than the int64 sum of its lifetime and retention and bring that session's token in its cookie, and the
  -- session it returns is that one.
  pub authorize_iff :
      (req : HttpRequest) (now : ℕ) (m : TunnelManager) (id : Bytes)
      → (authorize sha256_hex false req now m ≡ done id) ↔ (
          (id ≡ named_session req)
          × (s : Session) × (token : Bytes) × IsAuthorized req now m s token)
  authorize_iff req now m id = (
    λ h.
        let_in (get (named_session req) m.storage.sessions)
          (req.cookie (codes "vexlo_session_" ++ named_session req)) refl refl h,
    λ p. let (same, s, token, a) = p in passes s token same a,
  )
    where
      let_in :
          (o : Option Session) (c : Option Bytes)
          → get (named_session req) m.storage.sessions ≡ o
          → req.cookie (codes "vexlo_session_" ++ named_session req) ≡ c
          → authorize sha256_hex false req now m ≡ done id
          → (id ≡ named_session req)
            × (s : Session) × (token : Bytes) × IsAuthorized req now m s token
      let_in none c e e' h = absurd (unfold authorize get_session in ground arith)
      let_in (some s) none e e' h = absurd (unfold authorize get_session in ground arith)
      let_in (some s) (some token) e e' h = (
        unfold authorize get_session in ground arith,
        s,
        token,
        unfold authorize get_session in
            ground (
              arith,
              constant_time_compare_iff (hash_hosted_secret sha256_hex token) s.auth_token,
              str_eq_iff (named_session req) [],
            ),
      )

      passes :
          (s : Session) (token : Bytes)
          → id ≡ named_session req
          → IsAuthorized req now m s token
          → authorize sha256_hex false req now m ≡ done id
      passes s token same a =
          unfold authorize get_session in
          ground (
            arith,
            a.names,
            a.there,
            a.hosted,
            a.young,
            a.cookie,
            a.token_fits,
            constant_time_compare_iff (hash_hosted_secret sha256_hex token) s.auth_token,
            str_eq_iff (named_session req) [],
          )

pub bind-eq-done :
    {A B : Type 0} (a : Answer A) (f : A → Answer B) (b : B)
    → (a >>= f) ≡ done b
    → (x : A) × (a ≡ done x) × (f x ≡ done b)
bind-eq-done (fail status text) f b h = absurd (cc)
bind-eq-done (done x) f b h = (x, refl, h)

pub check-eq-done :
    {A : Type 0} (ok : Bool) (status : ℕ) (text : Bytes) (k : Answer A) (a : A)
    → check ok status text k ≡ done a
    → (ok ≡ true) × (k ≡ done a)
check-eq-done true status text k a h = (refl, h)
check-eq-done false status text k a h = absurd (cc)

pub or_fail-eq-done :
    {A : Type 0} (status : ℕ) (text : Bytes) (o : Option A) (a : A)
    → or_fail status text o ≡ done a
    → o ≡ some a
or_fail-eq-done status text none a h = absurd (cc)
or_fail-eq-done status text (some x) a h = cc

pub done-injective : {A : Type 0} {a b : A} → Answer.done a ≡ done b → a ≡ b
done-injective h = cc
