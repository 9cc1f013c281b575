-- ===== src/Public.antt =====
-- internal/server/http.go: handlePublicRequest and writeForwardResponse, and of handleReplay and
-- forwardReplay what they do with a tunnel. Each handler is two functions, since others run while it
-- waits in Forward: one up to the places that it takes, and one for what it makes of Forward's result,
-- with its deferred releaseHostedSlots. That result, `none` for its error, the read of the body, the
-- identifiers of randomID and the times are arguments; gzip's reader, encoding/json, the canonical
-- spelling of a header's name and the JSON text of a record are parameters.
pub mod Effects
pub mod Announced
use vexlo.Common.{
  ℕ, suc, ◌+◌, ◌*◌, Bytes, codes, Bool, true, false, List, [], ◌∷◌, ◌++◌, Option, none, some, ltb,
  not, length, if◌then◌else◌, Map, get, put, ◌==◌,
}
use vexlo.Model.{CapturedRequest, CapturedReplay}
use vexlo.Headers.{Headers, HeaderJson, flatten_headers, marshal_headers, marshal_flat_headers}
use vexlo.Capture.{
  hosted_capture_limit, capture_body, capture_response_body, bounded_header_capture,
  sanitize_captured_request, sanitize_captured_replay,
}
use vexlo.Exchange.{ForwardResponse}
use vexlo.Tunnels.{TunnelManager, update}
use vexlo.Tunnels.Registry.{find_by_session}
use vexlo.Slots.{acquire_hosted_slots, release_hosted_slots}
use vexlo.Storage.Rows.{Engine}
use vexlo.Storage.Writer.{Job, request, replay}
use vexlo.Hub.{Event}
use vexlo.Access.{
  HttpRequest, Answer, fail, done, ◌>>=◌, check, or_fail, same_origin, authorize,
  load_replay_original, method_not_allowed,
}

-- What io.ReadAll makes of the body under MaxBytesReader.
pub data Body : Type 0 where
  read : Bytes → Body
  too_large : Body
  unreadable : Body

-- What handlePublicRequest reads of a request.
pub record PublicRequest : Type 0 where
  pub method : Bytes
  pub path : Bytes
  pub query : Bytes
  pub headers : Headers

pub record Response : Type 0 where
  pub status : ℕ
  pub headers : Headers
  pub body : Bytes

-- A handler's random identifier, and its two times.
pub record Draw : Type 0 where
  pub id : Bytes
  pub duration_ms : ℕ
  pub created_at : ℕ

-- A handler's answer, with what it hands to the database's writer and to the hub.
pub record Outcome {ℓ} (A : Type ℓ) : Type ℓ where
  pub answer : Answer A
  pub job : Option Job
  pub event : Option Event

abbrev pub only {ℓ} : {A : Type ℓ} → Answer A → Outcome A
only a = record { answer = a; job = none; event = none }

-- headers.Get, for a name in its canonical spelling
abbrev pub first_value : Option (List Bytes) → Bytes
first_value none = []
first_value (some []) = []
first_value (some (value ∷ rest)) = value

abbrev pub values_or_none : Option (List Bytes) → List Bytes
values_or_none none = []
values_or_none (some values) = values

abbrev pub status_or_bad : ℕ → ℕ
status_or_bad status = if status == 0 then 502 else status

-- tunnel.captureCount.Add(1)
unfoldable pub count_capture : ℕ → TunnelManager → TunnelManager
count_capture r m = record m {
  heap = update m.heap r (record (m.heap r) { capture_count = suc (m.heap r).capture_count });
}

-- captureResponseBody, under the server's limit
abbrev pub kept_body : (ℕ → Bytes → Option Bytes) → ForwardResponse → TunnelManager → Bytes
unfolding capture_response_body hosted_capture_limit
kept_body gunzip resp m =
    capture_response_body gunzip (first_value (get (codes "Content-Encoding") resp.headers))
      resp.body (hosted_capture_limit m.cfg)

module _ (canonical : Bytes → Bytes) where
  -- w.Header().Add(key, value), for each of the values
  unfoldable pub add_values : Bytes → List Bytes → Headers → Headers
  add_values key [] headers = headers
  add_values key (value ∷ rest) headers =
      add_values key rest
        (put (canonical key) (values_or_none (get (canonical key) headers) ++ value ∷ []) headers)

  unfoldable pub add_headers : Headers → Headers → Headers
  unfolding add_values
  add_headers [] written = written
  add_headers ((key, values) ∷ rest) written = add_headers rest (add_values key values written)

  -- writeForwardResponse, for a writer that has no headers yet
  unfoldable pub write_forward_response : ForwardResponse → Response
  unfolding add_headers
  write_forward_response resp = record {
    status = status_or_bad resp.status_code;
    headers = add_headers resp.headers [];
    body = resp.body;
  }

  module _ (json : HeaderJson) (gunzip : ℕ → Bytes → Option Bytes)
      (payload_text : CapturedRequest → Bytes) where
    -- The record of handlePublicRequest; writeForwardResponse has set its status by then.
    unfoldable pub captured_request :
        Draw → ℕ → PublicRequest → Bytes → ForwardResponse → TunnelManager → CapturedRequest
    unfolding kept_body capture_body hosted_capture_limit bounded_header_capture marshal_headers
        flatten_headers
    captured_request draw r req body resp m = record {
      id = draw.id;
      session_id = (m.heap r).session.id;
      method = req.method;
      path = req.path;
      query = req.query;
      headers = bounded_header_capture (marshal_headers json req.headers);
      body = capture_body body (hosted_capture_limit m.cfg);
      response_status = status_or_bad resp.status_code;
      response_headers = bounded_header_capture (marshal_headers json resp.headers);
      response_body = kept_body gunzip resp m;
      duration_ms = draw.duration_ms;
      created_at = draw.created_at;
      replay = none;
      decoded_headers = flatten_headers req.headers;
    }

    -- The event of handlePublicRequest.
    unfoldable pub new_request_event : CapturedRequest → Event
    unfolding sanitize_captured_request
    new_request_event item = record {
      kind = codes "new_request";
      session_id = item.session_id;
      payload = payload_text (sanitize_captured_request json item);
    }

    -- handlePublicRequest from the reply on, for the tunnel at the address r
    unfoldable pub forwarded :
        Draw
        → ℕ
        → PublicRequest
        → Bytes
        → ForwardResponse
        → TunnelManager
        → TunnelManager × Outcome Response
    unfolding write_forward_response count_capture captured_request new_request_event
    forwarded draw r req body resp m =
        let answer : Answer Response = done (write_forward_response resp) in
        let m' = count_capture r m in
        let item = captured_request draw r req body resp m' in
        if ltb 200 (m'.heap r).capture_count then (m', only answer) else (
          m',
          record {
            answer = answer;
            job = some (request item);
            event = some (new_request_event item);
          },
        )

    -- handlePublicRequest between admitPublicRequest and its end.
    unfoldable pub serve_public :
        Draw
        → ℕ
        → PublicRequest
        → Body
        → Option ForwardResponse
        → TunnelManager
        → TunnelManager × Outcome Response
    unfolding forwarded
    serve_public draw r req too_large reply m =
        (m, only (fail 413 (codes "request body exceeds configured limit")))
    serve_public draw r req unreadable reply m =
        (m, only (fail 400 (codes "failed to read request body")))
    serve_public draw r req (read body) none m = (m, only (fail 502 (codes "tunnel unavailable")))
    serve_public draw r req (read body) (some resp) m = forwarded draw r req body resp m

    unfoldable pub finish_public :
        Draw
        → ℕ
        → PublicRequest
        → Body
        → Option ForwardResponse
        → TunnelManager
        → TunnelManager × Outcome Response
    unfolding serve_public release_hosted_slots
    finish_public draw r req body reply m =
        let (m', outcome) = serve_public draw r req body reply m in
        (release_hosted_slots r m', outcome)
