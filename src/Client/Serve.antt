-- ===== src/Client/Serve.antt =====
-- internal/client/client.go: serveTunnel and handleForward. The messages come off the bytes of the
-- connection, and fuel counts the rounds of the loop, as in Exchange.Loop. Each request is handled
-- by a goroutine of its own; `actions` says in which order they start. fmt's %d is a parameter, and what
-- net/http and the local application make of a request is an argument.
pub mod Answers
pub mod RoundTrip
use vexlo.Common.{
  ℕ, zero, suc, ◌+◌, ℤ, pos, negsuc, Bytes, codes, Bool, true, false, List, [], ◌∷◌, ◌++◌, Option,
  none, some, ltb, length, take, str_eq, if◌then◌else◌, Map,
}
use vexlo.Protocol.{Codec, Result, DecodeError, ok, err, decode}
use vexlo.Exchange.{ForwardRequest, ForwardResponse}

-- What comes of a request to the local application: the error of http.NewRequest, of Do, or of
-- io.ReadAll within the limit, or an answer with the whole of its body.
pub data LocalAnswer : Type 0 where
  not_a_request : Bytes → LocalAnswer
  no_answer : Bytes → LocalAnswer
  unreadable : Bytes → LocalAnswer
  answered : ℕ → Map (List Bytes) → Bytes → LocalAnswer

-- int64(len(body)) > limit
abbrev pub exceeds : ℕ → ℤ → Bool
exceeds n (pos limit) = ltb limit n
exceeds n (negsuc limit) = true

-- io.LimitReader(body, limit+1)
abbrev pub limited : ℤ → Bytes → Bytes
limited (pos limit) body = take (suc limit) body
limited (negsuc limit) body = []

abbrev pub bad_gateway : ForwardRequest → Bytes → ForwardResponse
bad_gateway msg text = record {
  id = msg.id;
  status_code = 502;
  headers = [];
  body = [];
  duration_ms = pos 0;
  error = text;
}

-- The URL of handleForward.
unfoldable pub local_url : (ℤ → Bytes) → ForwardRequest → Bytes
local_url decimal msg =
    let url = codes "http://127.0.0.1:" ++ decimal msg.target_port ++ msg.path in
    if str_eq msg.query [] then url else url ++ codes "?" ++ msg.query

abbrev pub whole_or_bad : ℤ → ℤ → ForwardRequest → ℕ → Map (List Bytes) → Bytes → ForwardResponse
whole_or_bad limit duration msg status headers body =
    if exceeds (length body) limit
    then bad_gateway msg (codes "local response exceeds configured limit")
    else record {
      id = msg.id;
      status_code = status;
      headers = headers;
      body = body;
      duration_ms = duration;
      error = [];
    }

-- handleForward, with the response that it sends; `local` is what comes of the request at a URL.
abbrev pub respond : ℤ → ℤ → ForwardRequest → LocalAnswer → ForwardResponse
respond limit duration msg (not_a_request text) = bad_gateway msg text
respond limit duration msg (no_answer text) = bad_gateway msg text
respond limit duration msg (unreadable text) =
    bad_gateway msg (codes "read local response: " ++ text)
respond limit duration msg (answered status headers body) =
    whole_or_bad limit duration msg status headers (limited limit body)

module _ (decimal : ℤ → Bytes) (limit : ℤ) (local : Bytes → ForwardRequest → LocalAnswer) where
  unfoldable pub handle_forward : ℤ → ForwardRequest → ForwardResponse
  unfolding local_url
  handle_forward duration msg = respond limit duration msg (local (local_url decimal msg) msg)

-- What serveTunnel starts on a message.
pub data Action : Type 0 where
  forward : ForwardRequest → Action
  pong : Action

abbrev pub forward_some : Option ForwardRequest → List Action
forward_some none = []
forward_some (some msg) = forward msg ∷ []

-- The `switch` of serveTunnel.
unfoldable pub act : Bytes → Option ForwardRequest → List Action
act kind out =
    if str_eq kind (codes "forward_request")
    then forward_some out
    else (if str_eq kind (codes "ping") then pong ∷ [] else [])

pub record Served : Type 0 where
  pub actions : List Action
  pub error : Option DecodeError

abbrev pub before : List Action → Served → Served
before actions s = record s { actions = actions ++ s.actions }

-- A round of serveTunnel, for Decode's result; `later` is the rest of the loop.
unfoldable pub serve_round :
    Result DecodeError (Bytes × Option ForwardRequest × Bytes) → (Bytes → Served) → Served
unfolding act
serve_round (err e) later = record { actions = []; error = some e }
serve_round (ok (kind, out, rest)) later = before (act kind out) (later rest)

module _ (codec : Codec ForwardRequest) where
  -- serveTunnel
  unfoldable pub serve_tunnel : ℕ → Bytes → Served
  unfolding serve_round
  serve_tunnel zero r = record { actions = []; error = none }
  serve_tunnel (suc fuel) r = serve_round (decode codec true r) (λ rest. serve_tunnel fuel rest)
