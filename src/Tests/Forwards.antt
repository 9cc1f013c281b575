-- ===== src/Tests/Forwards.antt =====
-- A request on its way to the client and back.
use vexlo.Common.{
  ℕ, ◌≤◌, ◌<◌, ◌≡◌, refl, sym, ap, ℤ, pos, negsuc, Bytes, codes, List, [], ◌∷◌, ◌++◌, Option, none,
  some, arith, length, take, drop, take-length-append, drop-length-append, Map,
}
use vexlo.Protocol.{Codec, Envelope, IsFaithful, DecodeError, eof, envelope_bytes}
use vexlo.Protocol.Frame.{frame}
use vexlo.Public.{PublicRequest}
use vexlo.Exchange.{ForwardRequest, ForwardResponse, Exchange, no_exchange, ask}
use vexlo.Exchange.Delivery.{Reach, here}
use vexlo.Exchange.Loop.{forward_request, read_loop, read_loop_ends}
use vexlo.Client.Serve.{LocalAnswer, no_answer, handle_forward, forward, serve_tunnel}
use vexlo.Client.Serve.Answers.{AreFrames}
use vexlo.Client.Serve.RoundTrip.{forward_round_trip}

abbrev pub read_envelope : Bytes → Option Envelope
read_envelope [] = none
read_envelope (n ∷ rest) = some (record { kind = take n rest; payload = drop n rest })

pub envelope_back :
    (kind p e : Bytes)
    → some (length kind ∷ kind ++ p) ≡ some e
    → read_envelope e ≡ some (record { kind = kind; payload = p })
envelope_back kind p [] w = absurd (cc)
envelope_back kind p (n ∷ rest) w =
    ground (arith, take-length-append kind p, drop-length-append kind p)

pub envelope_nonempty :
    (env : Envelope) (e : Bytes)
    → some (length env.kind ∷ env.kind ++ env.payload) ≡ some e
    → 0 < length e
envelope_nonempty env e w = ground arith

-- Encodings of messages with no more than an identifier and two numbers.
abbrev put_request : Bytes → Bytes → Bytes → Bytes → Map (List Bytes) → Bytes → ℤ → ℕ → Option Bytes
put_request id [] [] [] [] [] (pos port) now = some (port ∷ now ∷ id)
put_request id _ _ _ _ _ _ _ = none

abbrev get_request : Bytes → Option ForwardRequest
get_request (port ∷ now ∷ id) = some (record {
  id = id;
  method = [];
  path = [];
  query = [];
  headers = [];
  body = [];
  target_port = pos port;
  received_at = now;
})
get_request _ = none

abbrev requests : Codec ForwardRequest
requests = record {
  marshal =
      λ v. put_request v.id v.method v.path v.query v.headers v.body v.target_port v.received_at;
  marshal_envelope = λ env. some (length env.kind ∷ env.kind ++ env.payload);
  unmarshal_envelope = read_envelope;
  unmarshal = get_request;
}

request_back :
    (v : ForwardRequest) (p : Bytes) → requests.marshal v ≡ some p → get_request p ≡ some v
request_back v p e =
    back v.id v.method v.path v.query v.headers v.body v.target_port v.received_at p e
  where
    back :
        (id method path query : Bytes) (headers : Map (List Bytes)) (body : Bytes) (port : ℤ)
        (now : ℕ) (p : Bytes)
        → put_request id method path query headers body port now ≡ some p
        → get_request p
          ≡ some (record {
            id = id;
            method = method;
            path = path;
            query = query;
            headers = headers;
            body = body;
            target_port = port;
            received_at = now;
          })
    back id [] [] [] [] [] (pos port) now p e =
        let same : port ∷ now ∷ id ≡ p = cc in ap get_request (sym same)
    back id [] [] [] [] [] (negsuc port) now p e = absurd (cc)
    back id [] [] [] [] (b ∷ body) port now p e = absurd (cc)
    back id [] [] [] (h ∷ headers) body port now p e = absurd (cc)
    back id [] [] (q ∷ query) headers body port now p e = absurd (cc)
    back id [] (c ∷ path) query headers body port now p e = absurd (cc)
    back id (c ∷ method) path query headers body port now p e = absurd (cc)

abbrev put_response : Bytes → ℕ → Map (List Bytes) → Bytes → ℤ → Bytes → Option Bytes
put_response id status [] [] (pos duration) [] = some (status ∷ duration ∷ id)
put_response id _ _ _ _ _ = none

abbrev get_response : Bytes → Option ForwardResponse
get_response (status ∷ duration ∷ id) = some (record {
  id = id;
  status_code = status;
  headers = [];
  body = [];
  duration_ms = pos duration;
  error = [];
})
get_response _ = none

abbrev responses : Codec ForwardResponse
responses = record {
  marshal = λ v. put_response v.id v.status_code v.headers v.body v.duration_ms v.error;
  marshal_envelope = λ env. some (length env.kind ∷ env.kind ++ env.payload);
  unmarshal_envelope = read_envelope;
  unmarshal = get_response;
}

response_back :
    (v : ForwardResponse) (p : Bytes) → responses.marshal v ≡ some p → get_response p ≡ some v
response_back v p e = back v.id v.status_code v.headers v.body v.duration_ms v.error p e
  where
    back :
        (id : Bytes) (status : ℕ) (headers : Map (List Bytes)) (body : Bytes) (duration : ℤ)
        (text p : Bytes)
        → put_response id status headers body duration text ≡ some p
        → get_response p
          ≡ some (record {
            id = id;
            status_code = status;
            headers = headers;
            body = body;
            duration_ms = duration;
            error = text;
          })
    back id status [] [] (pos duration) [] p e =
        let same : status ∷ duration ∷ id ≡ p = cc in ap get_response (sym same)
    back id status [] [] (pos duration) (t ∷ text) p e = absurd (cc)
    back id status [] [] (negsuc duration) text p e = absurd (cc)
    back id status [] (b ∷ body) duration text p e = absurd (cc)
    back id status (h ∷ headers) body duration text p e = absurd (cc)

abbrev decimal : ℤ → Bytes
decimal n = codes "3000"

abbrev local : Bytes → ForwardRequest → LocalAnswer
local url msg = no_answer []

abbrev bare : PublicRequest
bare = record { method = []; path = []; query = []; headers = [] }

abbrev msg : ForwardRequest
msg = forward_request (codes "q1") bare [] (pos 9) 7

abbrev resp : ForwardResponse
resp = handle_forward decimal (pos 100) local (pos 1) msg

requests-IsFaithful : IsFaithful requests (codes "forward_request") msg
requests-IsFaithful = record {
  value_back = λ p e. request_back msg p e;
  envelope_back = λ p e m w. envelope_back (codes "forward_request") p e w;
  envelope_nonempty =
      λ p e m w. envelope_nonempty (record { kind = codes "forward_request"; payload = p }) e w;
}

responses-IsFaithful : IsFaithful responses (codes "forward_response") resp
responses-IsFaithful = record {
  value_back = λ p e. response_back resp p e;
  envelope_back = λ p e m w. envelope_back (codes "forward_response") p e w;
  envelope_nonempty =
      λ p e m w. envelope_nonempty (record { kind = codes "forward_response"; payload = p }) e w;
}

abbrev request_envelope : Bytes
request_envelope = 15 ∷ codes "forward_request" ++ (9 ∷ 7 ∷ codes "q1")

abbrev response_envelope : Bytes
response_envelope = 16 ∷ codes "forward_response" ++ (502 ∷ 0 ∷ codes "q1")

msg-sent : AreFrames requests (codes "forward_request") (msg ∷ []) (frame request_envelope ++ [])
unfolding envelope_bytes forward_request
msg-sent = (request_envelope, [], refl, omega arith, refl, refl)

resp-sent :
    AreFrames responses (codes "forward_response") (resp ∷ []) (frame response_envelope ++ [])
unfolding envelope_bytes handle_forward forward_request
resp-sent = (response_envelope, [], refl, omega arith, refl, refl)

forward_round_trip_example :
    (serve_tunnel requests 2 (frame request_envelope ++ [])
      ≡ record { actions = forward msg ∷ []; error = some eof })
    × (y : Exchange) × (read_loop responses 2
          (frame response_envelope ++ [])
          (ask (codes "q1") no_exchange)
        ≡ some (record { exchange = y; pongs = 0; error = some eof }))
    × (y.inbox 0 ≡ resp ∷ [])
    × (length resp.body ≤ 100)
forward_round_trip_example =
    forward_round_trip requests responses decimal (pos 100) local (codes "q1") bare [] (pos 9) 7
      (pos 1) no_exchange (frame request_envelope ++ []) (frame response_envelope ++ [])
      requests-IsFaithful responses-IsFaithful msg-sent resp-sent

read_loop_ends_example :
    (y : Exchange) × (pongs : ℕ) × (e : DecodeError) × (read_loop responses 3
        (codes "ab")
        no_exchange
      ≡ some (record { exchange = y; pongs = pongs; error = some e }))
    × Reach y
read_loop_ends_example = read_loop_ends responses 3 (codes "ab") here (omega arith)
