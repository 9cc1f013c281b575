-- ===== src/Client/Serve/RoundTrip.antt =====
-- A request on its way to the local application and back: Forward, serveTunnel, handleForward and
-- readLoop together.
use vexlo.Common.{
  ℕ, suc, ◌≤◌, ◌≡◌, refl, sym, ap, subst, ◌∙◌, ℤ, to_nat, Bytes, codes, Bool, true, List, [], ◌∷◌,
  Option, some, arith, length, str_eq, str_eq_iff, if◌then◌else◌, ◌==◌, ==_iff, get, put, get-put,
  delete,
}
use mathlib.Core.List.{Memᴰ}
use mathlib.Core.List.Memᴰ
use vexlo.Protocol.{Codec, eof, decode, read_frame, IsFaithful}
use vexlo.Protocol.Frame.{decode-frame}
use vexlo.Public.{PublicRequest}
use vexlo.Exchange.{
  ForwardRequest, ForwardResponse, Exchange, set_at, ask, put_reply, hand_over, reply,
}
use vexlo.Exchange.Loop.{
  forward_request, arrive, without_pong, receive, round, read_loop, read_loop-ok,
}
use vexlo.Client.Serve.{LocalAnswer, handle_forward, forward, serve_tunnel}
use vexlo.Client.Serve.Answers.{AreFrames, handle_forward-bounded, serve_tunnel-frames}

-- The reply to the request that was asked last.
abbrev answered : ForwardResponse → Bytes → Exchange → Exchange
unfolding ask
answered resp req_id x = record (ask req_id x) {
  pending = delete resp.id (ask req_id x).pending;
  inbox = set_at (ask req_id x).inbox x.next (resp ∷ []);
}

reply-ask :
    (resp : ForwardResponse) (req_id : Bytes) (x : Exchange)
    → resp.id ≡ req_id
    → (reply resp (ask req_id x) ≡ some (answered resp req_id x))
      × ((answered resp req_id x).inbox x.next ≡ resp ∷ [])
unfolding reply ask answered
reply-ask resp req_id x own =
    let asked : Exchange = ask req_id x in
    let removed : Exchange = record asked { pending = delete resp.id asked.pending } in
    let itself : (x.next == x.next) ≡ true = (==_iff x.next x.next).1 refl in
    let found : get resp.id (put req_id x.next x.pending) ≡ some x.next =
      get-put req_id resp.id x.next x.pending
      ∙ ap (λ (b : Bool). if b then some x.next else get resp.id x.pending)
          ((str_eq_iff req_id resp.id).1 (sym own)) in
    let empty : set_at x.inbox x.next [] x.next ≡ [] =
      ap (λ (b : Bool). if b then [] else x.inbox x.next) itself in
    (
      ap (λ (o : Option ℕ). hand_over resp o removed) found
          ∙ ap (λ (held : List ForwardResponse). put_reply resp x.next held removed) empty,
      ap (λ (b : Bool). if b then resp ∷ [] else set_at x.inbox x.next [] x.next) itself,
    )

module _ (responses : Codec ForwardResponse) where
  read_loop-nil :
      (fuel : ℕ) (x : Exchange)
      → read_loop responses (suc fuel) [] x
        ≡ some (record { exchange = x; pongs = 0; error = some eof })
  unfolding read_loop round decode read_frame
  read_loop-nil fuel x = refl

  receive-reply :
      (resp : ForwardResponse) (x y : Exchange)
      → reply resp x ≡ some y
      → receive (codes "forward_response") (some resp) x ≡ some (y, 0)
  unfolding receive arrive str_eq
  receive-reply resp x y e = ap without_pong e

module _ (requests : Codec ForwardRequest) (responses : Codec ForwardResponse) (decimal : ℤ → Bytes)
    (limit : ℤ) (local : Bytes → ForwardRequest → LocalAnswer) where
  -- If the JSON encodings of this request and of its response can be read back, a request that Forward sends whole to the client is handled
  -- there once, and the response that the client sends back whole, whatever comes of the request at the
  -- local application, is put alone in the channel of the call that asked; its body keeps within the
  -- client's limit.
  pub forward_round_trip :
      (req_id : Bytes) (req : PublicRequest) (body : Bytes) (target_port : ℤ) (now : ℕ)
      (duration : ℤ) (x : Exchange) (to_client to_server : Bytes)
      → IsFaithful requests
          (codes "forward_request")
          (forward_request req_id req body target_port now)
      → IsFaithful responses (codes "forward_response") (
          handle_forward decimal limit local duration
            (forward_request req_id req body target_port now))
      → AreFrames requests
          (codes "forward_request")
          (forward_request req_id req body target_port now ∷ [])
          to_client
      → AreFrames responses
          (codes "forward_response")
          (handle_forward decimal limit local duration
              (forward_request req_id req body target_port now)
            ∷ [])
          to_server
      → let msg = forward_request req_id req body target_port now in
        let resp = handle_forward decimal limit local duration msg in
        (serve_tunnel requests 2 to_client
          ≡ record { actions = forward msg ∷ []; error = some eof })
        × (y : Exchange) × (read_loop responses 2 to_server (ask req_id x)
            ≡ some (record { exchange = y; pongs = 0; error = some eof }))
        × (y.inbox x.next ≡ resp ∷ [])
        × (length resp.body ≤ to_nat limit)
  forward_round_trip req_id req body target_port now duration x to_client to_server laws laws' sent
        (env, rest, marshalled, fits, split, nothing) =
      let msg = forward_request req_id req body target_port now in
      let resp = handle_forward decimal limit local duration msg in
      let (own, bounded) = handle_forward-bounded decimal limit local duration msg in
      let (replied, alone) = reply-ask resp req_id x (own ∙ id_of) in
      (
        serve_tunnel-frames requests 2 (msg ∷ []) to_client (only msg laws) sent (omega arith),
        answered resp req_id x,
        read_loop-ok responses 1 to_server (codes "forward_response") rest (some resp)
            (ask req_id x) _ 0 _
            (ap (decode responses true) split
              ∙ decode-frame responses (codes "forward_response") resp laws' env rest marshalled
                  fits)
            (receive-reply responses resp (ask req_id x) (answered resp req_id x) replied)
            (ap (λ (r : Bytes). read_loop responses 1 r (answered resp req_id x)) nothing
              ∙ read_loop-nil responses 0 (answered resp req_id x)),
        alone,
        bounded,
      )
    where
      only :
          (msg : ForwardRequest)
          → IsFaithful requests (codes "forward_request") msg
          → (v : ForwardRequest) → Memᴰ v (msg ∷ [])
          → IsFaithful requests (codes "forward_request") v
      only msg laws v at =
          subst (IsFaithful requests (codes "forward_request")) (sym (Memᴰ.eq_of_singleton at)) laws

      id_of : (forward_request req_id req body target_port now).id ≡ req_id
      id_of = unfold forward_request in refl
