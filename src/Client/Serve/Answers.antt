-- ===== src/Client/Serve/Answers.antt =====
-- What the client answers, and how it gets back to the call of Forward.
use vexlo.Common.{
  ℕ, zero, suc, ◌≤◌, ◌<◌, ◌≡◌, refl, ap, ◌∙◌, ℤ, pos, negsuc, to_nat, Bytes, codes, Bool, true,
  false, List, [], ◌∷◌, ◌++◌, some, arith, length, str_eq, Map, map,
}
use mathlib.Core.List.{Memᴰ}
use vexlo.Protocol.{
  Codec, ok, eof, decode, read_frame, envelope_bytes, IsFaithful, max_message_size,
}
use vexlo.Protocol.Frame.{frame, decode-frame}
use vexlo.Exchange.{ForwardRequest}
use vexlo.Client.Serve.{
  LocalAnswer, not_a_request, no_answer, unreadable, answered, exceeds, limited, whole_or_bad,
  respond, handle_forward, forward, act, Served, before, serve_round, serve_tunnel,
}

whole_or_bad-bounded :
    (over : Bool) (limit duration : ℤ) (msg : ForwardRequest) (status : ℕ)
    (headers : Map (List Bytes)) (body : Bytes)
    → exceeds (length body) limit ≡ over
    → ((whole_or_bad limit duration msg status headers body).id ≡ msg.id)
      × (length (whole_or_bad limit duration msg status headers body).body ≤ to_nat limit)
whole_or_bad-bounded true limit duration msg status headers body e = rw e (refl, omega arith)
whole_or_bad-bounded false (pos limit) duration msg status headers body e =
    rw e (refl, ground arith)
whole_or_bad-bounded false (negsuc limit) duration msg status headers body e = absurd (ground arith)

respond-bounded :
    (limit duration : ℤ) (msg : ForwardRequest) (a : LocalAnswer)
    → ((respond limit duration msg a).id ≡ msg.id)
      × (length (respond limit duration msg a).body ≤ to_nat limit)
respond-bounded limit duration msg (not_a_request text) = (refl, omega arith)
respond-bounded limit duration msg (no_answer text) = (refl, omega arith)
respond-bounded limit duration msg (unreadable text) = (refl, omega arith)
respond-bounded limit duration msg (answered status headers body) =
    whole_or_bad-bounded _ limit duration msg status headers (limited limit body) refl

module _ (decimal : ℤ → Bytes) (limit : ℤ) (local : Bytes → ForwardRequest → LocalAnswer) where
  pub handle_forward-bounded :
      (duration : ℤ) (msg : ForwardRequest)
      → ((handle_forward decimal limit local duration msg).id ≡ msg.id)
        × (length (handle_forward decimal limit local duration msg).body ≤ to_nat limit)
  unfolding handle_forward
  handle_forward-bounded duration msg = respond-bounded limit duration msg _

-- The frames of the messages of one kind, one after the other.
abbrev pub AreFrames : {A : Type 0} → Codec A → Bytes → List A → Bytes → Type 0
AreFrames codec kind [] r = r ≡ []
AreFrames codec kind (v ∷ vs) r =
    (env : Bytes) × (rest : Bytes) × (envelope_bytes codec kind v ≡ some env)
    × (length env ≤ max_message_size)
    × (r ≡ frame env ++ rest)
    × AreFrames codec kind vs rest

module _ (codec : Codec ForwardRequest) where
  serve_tunnel-frame :
      (fuel : ℕ) (r rest : Bytes) (v : ForwardRequest) (later : Served)
      → decode codec true r ≡ ok (codes "forward_request", some v, rest)
      → serve_tunnel codec fuel rest ≡ later
      → serve_tunnel codec (suc fuel) r ≡ record later { actions = forward v ∷ later.actions }
  unfolding serve_tunnel serve_round act str_eq
  serve_tunnel-frame fuel r rest v later h e =
      ap (λ d. serve_round d (λ rest'. serve_tunnel codec fuel rest')) h
      ∙ ap (before (forward v ∷ [])) e

  serve_tunnel-nil :
      (fuel : ℕ) → serve_tunnel codec (suc fuel) [] ≡ record { actions = []; error = some eof }
  unfolding serve_tunnel serve_round decode read_frame
  serve_tunnel-nil fuel = refl

  -- Each request that the server has sent whole is handled once, in the order they were sent in, and then
  -- the loop ends with the stream.
  pub serve_tunnel-frames :
      (fuel : ℕ) (msgs : List ForwardRequest) (r : Bytes)
      → ((v : ForwardRequest) → Memᴰ v msgs → IsFaithful codec (codes "forward_request") v)
      → AreFrames codec (codes "forward_request") msgs r
      → length msgs < fuel
      → serve_tunnel codec fuel r ≡ record { actions = map forward msgs; error = some eof }
  serve_tunnel-frames zero msgs r laws sent enough = absurd (omega arith)
  serve_tunnel-frames (suc fuel) [] r laws sent enough =
      ap (serve_tunnel codec (suc fuel)) sent ∙ serve_tunnel-nil fuel
  serve_tunnel-frames (suc fuel) (v ∷ vs) r laws (env, rest, marshalled, fits, split, sent) enough =
      serve_tunnel-frame fuel r rest v _
        (ap (decode codec true) split
          ∙ decode-frame codec (codes "forward_request") v (laws v (Memᴰ.head refl)) env rest
              marshalled fits)
        (serve_tunnel-frames fuel vs rest (λ u at. laws u (Memᴰ.tail at)) sent (omega arith))
