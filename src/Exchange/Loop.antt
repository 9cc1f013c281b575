-- ===== src/Exchange/Loop.antt =====
-- internal/server/tunnel.go: the messages that Forward sends and that readLoop reads off a tunnel's
-- connection. The bytes that are still to come are an argument, and fuel counts the rounds of the
-- loop; a round reads at least five bytes, so that one more than the bytes there are is enough.
use vexlo.Common.{
  ℕ, zero, suc, ◌+◌, ◌<◌, ◌≡◌, refl, ap, ◌∙◌, ℤ, Bytes, codes, Bool, true, false, Option, none,
  some, arith, length, str_eq, if◌then◌else◌,
}
use vexlo.Protocol.{Codec, Result, DecodeError, ok, err, decode}
use vexlo.Protocol.Bounds.{decode_bounded}
use vexlo.Public.{PublicRequest}
use vexlo.Tunnels.{Tunnel, TunnelManager}
use vexlo.Tunnels.Registry.{hang_up, close_tunnel}
use vexlo.Exchange.{ForwardRequest, ForwardResponse, Exchange, reply}
use vexlo.Exchange.Delivery.{Reach, next, replies, reply_never_hangs}

-- The message of Forward
unfoldable pub forward_request : Bytes → PublicRequest → Bytes → ℤ → ℕ → ForwardRequest
forward_request req_id req body target_port now = record {
  id = req_id;
  method = req.method;
  path = req.path;
  query = req.query;
  headers = req.headers;
  body = body;
  target_port = target_port;
  received_at = now;
}

-- Tunnel.ResolveTargetPort
abbrev pub resolve_target_port : Tunnel → ℤ
resolve_target_port t = t.local_port

unfoldable pub arrive : Option ForwardResponse → Exchange → Option Exchange
unfolding reply
arrive none x = some x
arrive (some resp) x = reply resp x

abbrev pub without_pong : Option Exchange → Option (Exchange × ℕ)
without_pong none = none
without_pong (some x) = some (x, 0)

abbrev pub pong_if : Bool → Exchange → Option (Exchange × ℕ)
pong_if true x = some (x, 1)
pong_if false x = some (x, 0)

-- The `switch` of readLoop, with the number of pongs that it sends.
unfoldable pub receive : Bytes → Option ForwardResponse → Exchange → Option (Exchange × ℕ)
unfolding arrive
receive kind out x =
    if str_eq kind (codes "forward_response")
    then without_pong (arrive out x)
    else pong_if (str_eq kind (codes "ping")) x

-- Where the loop is when it ends, or when the fuel does: the replies, the pongs, and Decode's error.
pub record Ended : Type 0 where
  pub exchange : Exchange
  pub pongs : ℕ
  pub error : Option DecodeError

abbrev pub after_round : ℕ → Option Ended → Option Ended
after_round pongs none = none
after_round pongs (some e) = some (record e { pongs = pongs + e.pongs })

abbrev pub after_message : Option (Exchange × ℕ) → (Exchange → Option Ended) → Option Ended
after_message none later = none
after_message (some (y, pongs)) later = after_round pongs (later y)

-- A round of readLoop, for Decode's result; `later` is the rest of the loop.
unfoldable pub round :
    Result DecodeError (Bytes × Option ForwardResponse × Bytes)
    → Exchange
    → (Bytes → Exchange → Option Ended)
    → Option Ended
unfolding receive
round (err e) x later = some (record { exchange = x; pongs = 0; error = some e })
round (ok (kind, out, rest)) x later = after_message (receive kind out x) (later rest)

module _ (codec : Codec ForwardResponse) where
  -- readLoop; `none` is a reply that waits for ever.
  unfoldable pub read_loop : ℕ → Bytes → Exchange → Option Ended
  unfolding round
  read_loop zero r x = some (record { exchange = x; pongs = 0; error = none })
  read_loop (suc fuel) r x = round (decode codec true r) x (λ rest y. read_loop fuel rest y)

abbrev is_eof : DecodeError → Bool
is_eof DecodeError.eof = true
is_eof _ = false

-- What readLoop does after Decode's error: it closes the connection unless the stream has ended, and
-- the deferred closeTunnel.
unfoldable pub end_loop : DecodeError → Bool → ℕ → ℕ → TunnelManager → TunnelManager
unfolding hang_up close_tunnel
end_loop e down r now m = close_tunnel down r now (if is_eof e then m else hang_up r m)

-- A round keeps the history of the replies, and does not hang.
receive-Reach :
    (kind : Bytes) (out : Option ForwardResponse) (x : Exchange)
    → Reach x
    → (y : Exchange) × (pongs : ℕ) × (receive kind out x ≡ some (y, pongs)) × Reach y
unfolding receive
receive-Reach kind out x run =
    by_kind (str_eq kind (codes "forward_response")) (str_eq kind (codes "ping")) out
  where
    by_kind :
        (is_reply is_ping : Bool) (out : Option ForwardResponse)
        → (y : Exchange) × (pongs : ℕ) × ((if is_reply
              then without_pong (arrive out x)
              else pong_if is_ping x)
            ≡ some (y, pongs))
          × Reach y
    by_kind false true out = (x, 1, refl, run)
    by_kind false false out = (x, 0, refl, run)
    by_kind true is_ping none = (x, 0, unfold arrive in refl, run)
    by_kind true is_ping (some resp) =
        let (y, arrived) = reply_never_hangs resp run in
        (y, 0, unfold arrive in ap without_pong arrived, next run (replies resp arrived))

module _ (codec : Codec ForwardResponse) where
  read_loop-err :
      (fuel : ℕ) (r : Bytes) (x : Exchange) (e : DecodeError)
      → decode codec true r ≡ err e
      → read_loop codec (suc fuel) r x ≡ some (record { exchange = x; pongs = 0; error = some e })
  unfolding read_loop round
  read_loop-err fuel r x e h = ap (λ d. round d x (λ rest y. read_loop codec fuel rest y)) h

  pub read_loop-ok :
      (fuel : ℕ) (r kind rest : Bytes) (out : Option ForwardResponse) (x y : Exchange) (pongs : ℕ)
      (ended : Ended)
      → decode codec true r ≡ ok (kind, out, rest)
      → receive kind out x ≡ some (y, pongs)
      → read_loop codec fuel rest y ≡ some ended
      → read_loop codec (suc fuel) r x ≡ some (record ended { pongs = pongs + ended.pongs })
  unfolding read_loop round
  read_loop-ok fuel r kind rest out x y pongs ended h took later =
      ap (λ d. round d x (λ rest' y'. read_loop codec fuel rest' y')) h
      ∙ ap (λ o. after_message o (λ y'. read_loop codec fuel rest y')) took
      ∙ ap (after_round pongs) later

  -- Whatever bytes a client sends, the loop that reads its tunnel ends with an error of Decode after at
  -- most one round for each byte and one more, and no reply makes it hang.
  pub read_loop_ends :
      (fuel : ℕ) (r : Bytes) {x : Exchange}
      → Reach x
      → length r < fuel
      → (y : Exchange) × (pongs : ℕ) × (e : DecodeError) × (read_loop codec fuel r x
          ≡ some (record { exchange = y; pongs = pongs; error = some e }))
        × Reach y
  read_loop_ends zero r run enough = absurd (omega arith)
  read_loop_ends (suc fuel) r {x} run enough =
      by_message (λ rest y run' less. read_loop_ends fuel rest {x = y} run' less)
        (decode codec true r) refl
    where
      by_message :
          ((rest : Bytes) (x' : Exchange)
            → Reach x'
            → length rest < fuel
            → (y : Exchange) × (pongs : ℕ) × (e : DecodeError) × (read_loop codec fuel rest x'
                ≡ some (record { exchange = y; pongs = pongs; error = some e }))
              × Reach y)
          → (d : Result DecodeError (Bytes × Option ForwardResponse × Bytes))
          → decode codec true r ≡ d
          → (y : Exchange) × (pongs : ℕ) × (e : DecodeError) × (read_loop codec (suc fuel) r x
              ≡ some (record { exchange = y; pongs = pongs; error = some e }))
            × Reach y
      by_message later (err e) h = (x, 0, e, read_loop-err fuel r x e h, run)
      by_message later (ok (kind, out, rest)) h =
          let (size, pos, fits, len) = decode_bounded codec true r rest kind out h in
          let (x', sent, took, run') = receive-Reach kind out x run in
          let (y, pongs, e, ended, run'') = later rest x' run' (omega arith) in
          (y, sent + pongs, e, read_loop-ok fuel r kind rest out x x' sent _ h took ended, run'')
