-- ===== src/Replay.antt =====
-- internal/server/http.go: handleReplay and forwardReplay. As in Public, the handler is two
-- functions, up to the places that it takes and from Forward's result on. `payload` is the decoded
-- body, `none` for the decoder's error; `is_request` is whether http.NewRequestWithContext takes the
-- stored method and path.
pub mod Traffic
pub mod Places
pub mod Meanwhile
pub mod Captures
pub mod Allowed
use vexlo.Common.{
  ℕ, ◌+◌, ◌*◌, Bytes, codes, Bool, true, false, not, [], Option, none, some, ltb, length, str_eq,
  if◌then◌else◌, Map,
}
use vexlo.Model.{CapturedRequest, CapturedReplay}
use vexlo.Headers.{HeaderJson, marshal_headers, marshal_flat_headers}
use vexlo.Capture.{bounded_header_capture, sanitize_captured_replay}
use vexlo.Exchange.{ForwardResponse}
use vexlo.Tunnels.{TunnelManager}
use vexlo.Tunnels.Registry.{find_by_session}
use vexlo.Slots.{acquire_hosted_slots, release_hosted_slots}
use vexlo.Storage.Rows.{Engine}
use vexlo.Storage.Writer.{replay}
use vexlo.Access.{
  HttpRequest, Answer, fail, done, ◌>>=◌, check, or_fail, same_origin, authorize,
  load_replay_original, method_not_allowed,
}
use vexlo.Public.{Draw, Outcome, only, kept_body}

-- replayPayload
pub record ReplayPayload : Type 0 where
  pub request_id : Bytes
  pub headers : Map Bytes
  pub body : Option Bytes

abbrev pub quick_tunnel_busy : Bytes
quick_tunnel_busy = codes "quick tunnel is busy"

-- original.Body, or *payload.Body
abbrev pub or_original : Bytes → Option Bytes → Bytes
or_original original none = original
or_original original (some body) = body

module _ (sha256_hex : Bytes → Bytes) (engine : Engine) (json : HeaderJson) where
  -- handleReplay, up to the tunnel that it looks up, with the request that is to be replayed
  unfoldable pub replay_target :
      (ℕ → Bool)
      → HttpRequest
      → Option ReplayPayload
      → ℕ
      → TunnelManager
      → Answer (ℕ × CapturedRequest)
  unfolding authorize same_origin load_replay_original find_by_session
  replay_target down req payload now m =
      check (str_eq req.method (codes "POST")) 405 method_not_allowed (
        check (same_origin req) 403 (codes "invalid request origin") (
          authorize sha256_hex (down 0) req now m >>= λ session_id.
          or_fail 400 (codes "invalid payload") payload >>= λ p.
          load_replay_original sha256_hex engine json down session_id p.request_id m >>= λ original.
          or_fail 502 (codes "session tunnel offline") (find_by_session session_id m) >>= λ r.
          done (r, original)))

unfoldable pub take_places :
    Answer (ℕ × CapturedRequest) → TunnelManager → TunnelManager × Answer (ℕ × CapturedRequest)
unfolding acquire_hosted_slots
take_places (fail status text) m = (m, fail status text)
take_places (done (r, original)) m =
    let (m', got) = acquire_hosted_slots r m in
    (m', if got then done (r, original) else fail 429 quick_tunnel_busy)

module _ (sha256_hex : Bytes → Bytes) (engine : Engine) (json : HeaderJson) where
  -- handleReplay, up to forwardReplay
  unfoldable pub begin_replay :
      (ℕ → Bool)
      → HttpRequest
      → Option ReplayPayload
      → ℕ
      → TunnelManager
      → TunnelManager × Answer (ℕ × CapturedRequest)
  unfolding replay_target take_places
  begin_replay down req payload now m =
      take_places (replay_target sha256_hex engine json down req payload now m) m

module _ (canonical : Bytes → Bytes) (json : HeaderJson) (gunzip : ℕ → Bytes → Option Bytes) where
  -- The record of forwardReplay; nothing sets a status here that the reply has left at 0.
  unfoldable pub captured_replay :
      Draw
      → CapturedRequest
      → ReplayPayload
      → Bytes
      → ForwardResponse
      → TunnelManager
      → CapturedReplay
  unfolding marshal_headers marshal_flat_headers bounded_header_capture
  captured_replay draw original payload body resp m = record {
    id = draw.id;
    request_id = original.id;
    mutated_headers = marshal_flat_headers json canonical payload.headers;
    mutated_body = body;
    response_status = resp.status_code;
    response_header = bounded_header_capture (marshal_headers json resp.headers);
    response_body = kept_body gunzip resp m;
    duration_ms = draw.duration_ms;
    created_at = draw.created_at;
  }

  -- forwardReplay from the reply on
  unfoldable pub replayed :
      Draw
      → CapturedRequest
      → ReplayPayload
      → Bytes
      → Option ForwardResponse
      → TunnelManager
      → Outcome CapturedReplay
  unfolding captured_replay sanitize_captured_replay
  replayed draw original payload body none m = only (fail 502 (codes "replay forward failed"))
  replayed draw original payload body (some resp) m =
      let item = captured_replay draw original payload body resp m in
      record {
        answer = done (sanitize_captured_replay json item);
        job = some (replay item);
        event = none;
      }

  -- forwardReplay
  unfoldable pub forward_replay :
      Draw
      → Bool
      → CapturedRequest
      → ReplayPayload
      → Option ForwardResponse
      → TunnelManager
      → Outcome CapturedReplay
  unfolding replayed
  forward_replay draw is_request original payload reply m =
      let body : Bytes = or_original original.body payload.body in
      if ltb (16 * 1024) (length body)
      then only (fail 413 (codes "quick tunnel replay body exceeds limit"))
      else (if is_request
          then replayed draw original payload body reply m
          else only (fail 400 (codes "stored request cannot be replayed")))

  -- handleReplay, from forwardReplay on
  unfoldable pub finish_replay :
      Draw
      → Bool
      → ℕ
      → CapturedRequest
      → ReplayPayload
      → Option ForwardResponse
      → TunnelManager
      → TunnelManager × Outcome CapturedReplay
  unfolding forward_replay release_hosted_slots
  finish_replay draw is_request r original payload reply m =
      (release_hosted_slots r m, forward_replay draw is_request original payload reply m)
