-- ===== src/Capture.antt =====
-- What is kept of a request: captureBody, decodeResponseBody, captureResponseBody,
-- sanitizeHeaderJSON, sanitizeCapturedRequest, sanitizeCapturedReplay and isSensitiveHeader of
-- internal/server/util.go, hostedCaptureLimit, boundedHeaderCapture and sanitizeSession of
-- internal/server/http.go. encoding/json's two functions on headers and gzip's reader are
-- parameters. A map's keys are visited in the order of the list.
pub mod Limits
pub mod Redaction
pub use vexlo.Headers.{Headers, HeaderJson}
use vexlo.Headers.{header_json_to_map}
use vexlo.Common.{
  map_some, ℕ, ◌+◌, ◌*◌, ◌-◌, ℤ, pos, Bytes, codes, Bool, true, false, not, ◌||◌, List, [], ◌∷◌,
  ◌++◌, Option, none, some, ltb, leb, length, take, str_eq, contains, contains_str, to_lower,
  trim_space, int_le, int_gt, to_nat, if◌then◌else◌, Map,
}
use vexlo.Model.{Session, CapturedRequest, CapturedReplay}
use vexlo.Config.{Config}

-- "\n...[truncated]"
abbrev pub truncated : Bytes
truncated = 10 ∷ codes "...[truncated]"

-- captureBody
unfoldable pub capture_body : Bytes → ℤ → Bytes
capture_body raw limit =
    if int_le limit 0
    then raw
    else (if leb (length raw) (to_nat limit) then raw else take (to_nat limit) raw ++ truncated)

-- Server.hostedCaptureLimit
unfoldable pub hosted_capture_limit : Config → ℤ
hosted_capture_limit c =
    if int_le c.capture_body_limit 0 || int_gt c.capture_body_limit (16 * 1024)
    then pos (16 * 1024)
    else c.capture_body_limit

abbrev pub decode_limit : ℤ → ℕ
decode_limit limit =
    if int_le limit 0 || int_gt limit (2 * 1024 * 1024) then 2 * 1024 * 1024 else to_nat limit

abbrev pub decoded_or : Bytes → Option Bytes → Bytes
decoded_or raw none = raw
decoded_or raw (some decoded) = decoded

-- decodeResponseBody. `gunzip n raw` is what io.ReadAll reads of the first n bytes of the text that
-- raw unpacks to, and `none` on an error of the reader.
unfoldable pub decode_response_body : (ℕ → Bytes → Option Bytes) → Bytes → Bytes → ℤ → Bytes
decode_response_body gunzip content_encoding raw limit =
    if contains_str (to_lower (trim_space content_encoding)) (codes "gzip")
    then decoded_or raw (gunzip (decode_limit limit + 1) raw)
    else raw

-- captureResponseBody
unfoldable pub capture_response_body : (ℕ → Bytes → Option Bytes) → Bytes → Bytes → ℤ → Bytes
unfolding decode_response_body capture_body
capture_response_body gunzip content_encoding raw limit =
    capture_body (decode_response_body gunzip content_encoding raw limit) limit

-- The text that stands for headers over the limit.
abbrev pub headers_exceeded : Bytes
headers_exceeded = codes "{\"[truncated]\":[\"headers exceeded the quick tunnel capture limit\"]}"

-- boundedHeaderCapture
unfoldable pub bounded_header_capture : Bytes → Bytes
bounded_header_capture encoded =
    if ltb (16 * 1024) (length encoded) then headers_exceeded else encoded

abbrev pub sensitive_header_names : List Bytes
sensitive_header_names =
    codes "authorization"
    ∷ codes "proxy-authorization"
    ∷ codes "cookie"
    ∷ codes "set-cookie"
    ∷ codes "x-api-key"
    ∷ codes "x-auth-token"
    ∷ []

-- isSensitiveHeader
unfoldable pub is_sensitive_header : Bytes → Bool
is_sensitive_header name = contains sensitive_header_names (to_lower (trim_space name))

abbrev pub redacted : List Bytes
redacted = codes "[redacted]" ∷ []

-- The loop of sanitizeHeaderJSON.
unfoldable pub redact : Headers → Headers
unfolding is_sensitive_header
redact [] = []
redact ((key, values) ∷ rest) =
    (key, if is_sensitive_header key then redacted else values) ∷ redact rest

abbrev pub or_raw : Bytes → Option Bytes → Bytes
or_raw raw none = raw
or_raw raw (some buf) = buf

module _ (json : HeaderJson) where
  abbrev pub sanitize_parsed : Bytes → Option Headers → Bytes
  unfolding redact
  sanitize_parsed raw none = raw
  sanitize_parsed raw (some headers) = or_raw raw (json.marshal (redact headers))

  -- sanitizeHeaderJSON
  unfoldable pub sanitize_header_json : Bytes → Bytes
  sanitize_header_json raw = if str_eq raw [] then raw else sanitize_parsed raw (json.unmarshal raw)

  -- sanitizeCapturedReplay
  unfoldable pub sanitize_captured_replay : CapturedReplay → CapturedReplay
  unfolding sanitize_header_json
  sanitize_captured_replay replay = record replay {
    mutated_headers = sanitize_header_json replay.mutated_headers;
    response_header = sanitize_header_json replay.response_header;
  }

  -- sanitizeCapturedRequest
  unfoldable pub sanitize_captured_request : CapturedRequest → CapturedRequest
  unfolding sanitize_header_json sanitize_captured_replay header_json_to_map
  sanitize_captured_request req =
      let headers = sanitize_header_json req.headers in
      record req {
        headers = headers;
        response_headers = sanitize_header_json req.response_headers;
        decoded_headers = header_json_to_map json headers;
        replay = map_some sanitize_captured_replay req.replay;
      }

-- sanitizeSession
unfoldable pub sanitize_session : Session → Session
sanitize_session session = record session { auth_token = []; tunnel_token = [] }
