-- ===== src/Access.antt =====
-- internal/server/http.go: the checks of the handlers that a dashboard calls: authorize,
-- sameOrigin, handleSessions, handleRequests, handleRequestByID, loadReplayOriginal and
-- handleHostedClaim. A request is what the handlers read of it. url.Parse, the cookies' parser and
-- encoding/json's decoder are net/http's and the library's: their answers are fields. A response is
-- what the handler writes, or its status and writeError's text. Where a handler makes several
-- statements, `down i` says that the engine fails the one with the number i.
pub mod Guarded
pub mod Records
use vexlo.Common.{
  ℕ, ◌+◌, ◌*◌, ℤ, pos, negsuc, add_int64, Bytes, codes, Bool, true, false, not, ◌&&◌, ◌||◌, List,
  [], ◌∷◌, ◌++◌, Option, none, some, ltb, leb, length, str_eq, trim_prefix, map, if◌then◌else◌,
}
use vexlo.Model.{Session, CapturedRequest}
use vexlo.Storage.Rows.{Engine, Filter, get_request, list_requests}
use vexlo.Headers.{HeaderJson}
use vexlo.Capture.{sanitize_session, sanitize_captured_request}
use vexlo.Storage.{hash_hosted_secret, get_session, count_replays_for_session}
use vexlo.Compare.{constant_time_compare}
use vexlo.Tunnels.{TunnelManager}
use vexlo.Tunnels.Handoff.{claim_dashboard_handoff}

-- url.Parse of the header Origin: its scheme and host.
pub record Origin : Type 0 where
  pub scheme : Bytes
  pub host : Bytes

pub record HttpRequest : Type 0 where
  pub method : Bytes
  pub path : Bytes
  pub host : Bytes
  pub is_tls : Bool
  pub origin : Option Origin
  pub session_query : Bytes
  pub session_header : Bytes
  -- r.Cookie, by the cookie's name
  pub cookie : Bytes → Option Bytes

-- What a handler makes of a request: an error, or the value it goes on with.
pub data Answer {ℓ} (A : Type ℓ) : Type ℓ where
  fail : ℕ → Bytes → Answer A
  done : A → Answer A

infixl 5 ◌>>=◌
abbrev pub ◌>>=◌ {ℓ κ} : {A : Type ℓ} {B : Type κ} → Answer A → (A → Answer B) → Answer B
fail status text >>= f = fail status text
done a >>= f = f a

abbrev pub or_fail {ℓ} : {A : Type ℓ} → ℕ → Bytes → Option A → Answer A
or_fail status text none = fail status text
or_fail status text (some a) = done a

abbrev pub check {ℓ} : {A : Type ℓ} → Bool → ℕ → Bytes → Answer A → Answer A
check true status text k = k
check false status text k = fail status text

abbrev is_from : Bytes → Option Origin → Bool
is_from host none = false
is_from host (some o) = str_eq o.scheme (codes "https") && str_eq o.host host

-- sameOrigin
unfoldable pub same_origin : HttpRequest → Bool
same_origin req = is_from req.host req.origin

-- time.Since(t) > d, for times that are less than 292 years apart
abbrev pub has_elapsed : ℤ → ℕ → ℕ → Bool
has_elapsed (pos d) t now = ltb (t + d) now
has_elapsed (negsuc d) t now = ltb t (now + d + 1)

-- time.Since(t) > a + b, where the sum of the durations is an int64
abbrev pub is_older : ℤ → ℤ → ℕ → ℕ → Bool
is_older a b t now = has_elapsed (add_int64 a b) t now

-- The session that a request names, in its query or else in its header.
abbrev pub named_session : HttpRequest → Bytes
named_session req = if str_eq req.session_query [] then req.session_header else req.session_query

abbrev pub request_not_found : Bytes
request_not_found = codes "request not found"

abbrev pub method_not_allowed : Bytes
method_not_allowed = codes "method not allowed"

module _ (sha256_hex : Bytes → Bytes) where
  abbrev pub cookie_matches : Bytes → Option Bytes → Bool
  cookie_matches auth_token none = false
  cookie_matches auth_token (some value) =
      constant_time_compare (hash_hosted_secret sha256_hex value) auth_token

  -- Server.authorize; every caller answers 401 with its error.
  unfoldable pub authorize : Bool → HttpRequest → ℕ → TunnelManager → Answer Bytes
  unfolding get_session
  authorize down req now m =
      let id = named_session req in
      check (not (str_eq id [])) 401 (codes "missing session") (
        or_fail 401 (codes "invalid session") (get_session down id m.storage) >>= λ s.
        check
          (s.hosted && not (is_older m.cfg.hosted_lifetime m.cfg.hosted_retention s.started_at now))
          401 (codes "invalid session")
          (check (cookie_matches s.auth_token (req.cookie (codes "vexlo_session_" ++ id))) 401
            (codes "unauthorized") (done id)))

  -- handleSessions, with the list that it writes
  unfoldable pub handle_sessions :
      (ℕ → Bool) → HttpRequest → ℕ → TunnelManager → Answer (List Session)
  unfolding authorize get_session sanitize_session
  handle_sessions down req now m = check (str_eq req.method (codes "GET")) 405 method_not_allowed (
      authorize (down 0) req now m >>= λ session_id.
      or_fail 500 (codes "failed to load session") (get_session (down 1) session_id m.storage)
      >>= λ s. done (sanitize_session s ∷ []))

  -- handleHostedClaim, with the token that its cookie carries. `claim` is the decoded body, and
  -- `none` is the decoder's error.
  unfoldable pub claimed : Option (Bytes × Bytes) → ℕ → TunnelManager → TunnelManager × Answer Bytes
  unfolding claim_dashboard_handoff
  claimed none now m = (m, fail 400 (codes "invalid dashboard handoff"))
  claimed (some (session, handoff)) now m =
      let (m', token) = claim_dashboard_handoff sha256_hex session handoff now m in
      if str_eq session [] || str_eq handoff []
      then (m, fail 400 (codes "invalid dashboard handoff"))
      else (m', or_fail 401 (codes "dashboard handoff expired or already used") token)

  unfoldable pub handle_hosted_claim :
      HttpRequest → Option (Bytes × Bytes) → ℕ → TunnelManager → TunnelManager × Answer Bytes
  unfolding claimed
  handle_hosted_claim req claim now m =
      if str_eq req.method (codes "POST") && req.is_tls && same_origin req
      then claimed claim now m
      else (m, fail 403 (codes "invalid dashboard handoff"))

  module _ (engine : Engine) (json : HeaderJson) where
    -- The request of a session, as handleRequestByID and loadReplayOriginal look it up; `down` is for
    -- the two statements of GetRequest.
    unfoldable pub own_request :
        Bool → Bool → Bytes → Bytes → TunnelManager → Answer CapturedRequest
    unfolding get_request
    own_request down down_replay session_id id m =
        or_fail 404 request_not_found (get_request engine json down down_replay id m.storage)
        >>= λ item. check (str_eq item.session_id session_id) 404 request_not_found (done item)

    -- handleRequestByID, with the record that it writes
    unfoldable pub handle_request_by_id :
        (ℕ → Bool) → HttpRequest → ℕ → TunnelManager → Answer CapturedRequest
    unfolding authorize own_request sanitize_captured_request
    handle_request_by_id down req now m =
        check (str_eq req.method (codes "GET")) 405 method_not_allowed (
          authorize (down 0) req now m >>= λ session_id.
          own_request (down 1) (down 2) session_id (trim_prefix req.path (codes "/api/requests/")) m
          >>= λ item. done (sanitize_captured_request json item))

    -- handleRequests, with the list that it writes
    unfoldable pub handle_requests :
        (ℕ → Bool) → HttpRequest → Filter → ℕ → TunnelManager → Answer (List CapturedRequest)
    unfolding authorize list_requests sanitize_captured_request
    handle_requests down req filter now m =
        check (str_eq req.method (codes "GET")) 405 method_not_allowed (
          authorize (down 0) req now m >>= λ session_id.
          or_fail 500 (codes "failed to list requests")
            (list_requests engine json (down 1) session_id filter m.storage)
          >>= λ items. done (map (sanitize_captured_request json) items))

    -- loadReplayOriginal
    unfoldable pub load_replay_original :
        (ℕ → Bool) → Bytes → Bytes → TunnelManager → Answer CapturedRequest
    unfolding own_request
    load_replay_original down session_id id m =
        own_request (down 1) (down 2) session_id id m >>= λ item.
        or_fail 500 (codes "failed to check replay limit")
          (count_replays_for_session (down 3) session_id m.storage)
        >>= λ count.
            check (not (leb 200 count)) 429 (codes "quick tunnel replay limit reached") (done item)
