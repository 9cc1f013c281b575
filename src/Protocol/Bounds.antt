-- ===== src/Protocol/Bounds.antt =====
-- How much of a stream Decode takes, whatever a peer sends.
use vexlo.Common.{
  bind-eq-ok, ℕ, ◌+◌, ◌≤◌, ◌<◌, ◌≡◌, refl, Bytes, Bool, true, ◌⊎◌, [], ◌∷◌, Option, arith, length,
  length-take, length-drop, ltb, ◌==◌, ◌||◌,
}
use vexlo.Protocol.{
  Codec, ok, err, uint32, read_full, max_message_size, read_frame, decode, decode_body,
  invalid_size,
}

pub read_full-length :
    (n : ℕ) (r a b : Bytes) → read_full n r ≡ ok (a, b) → (length a ≡ n) × (length r ≡ n + length b)
unfolding read_full
read_full-length n [] a b h = absurd (cc)
read_full-length n (x ∷ r) a b h = ground (arith, length-take n (x ∷ r), length-drop n (x ∷ r))

read_frame_bounded :
    (r buf r' : Bytes)
    → read_frame r ≡ ok (buf, r')
    → (size : ℕ) × (0 < size) × (size ≤ max_message_size) × (length r ≡ 4 + size + length r')
unfolding read_frame
read_frame_bounded r buf r' h =
    let (start, e, k) = bind-eq-ok (read_full 4 r) _ h in
    let size : ℕ = uint32 start.0 in
    let body : read_full size start.1 ≡ ok (buf, r') = ground arith in
    (
      size,
      ground arith,
      ground arith,
      omega (
        arith,
        read_full-length 4 r start.0 start.1 e,
        read_full-length size start.1 buf r' body,
      ),
    )

-- The four bytes of a header, and what is behind them.
read_full-four :
    (r : Bytes)
    → 4 ≤ length r
    → (start : Bytes × Bytes) × (read_full 4 r ≡ ok start) × (uint32 start.0 ≡ uint32 r)
unfolding read_full uint32
read_full-four (a ∷ b ∷ c ∷ d ∷ rest) h = ((a ∷ b ∷ c ∷ d ∷ [], rest), ground arith, refl)
read_full-four (a ∷ b ∷ c ∷ []) h = absurd (omega arith)
read_full-four (a ∷ b ∷ []) h = absurd (omega arith)
read_full-four (a ∷ []) h = absurd (omega arith)
read_full-four [] h = absurd (omega arith)

module _ {A : Type 0} (codec : Codec A) where
  decode_body_rest :
      (has_out : Bool) (buf rest r' kind : Bytes) (v : Option A)
      → decode_body codec has_out (buf, rest) ≡ ok (kind, v, r')
      → rest ≡ r'
  unfolding decode_body
  decode_body_rest has_out buf rest r' kind v h = ground arith

  -- Decode takes a header and at most max_message_size bytes off the stream.
  pub decode_bounded :
      (has_out : Bool) (r r' kind : Bytes) (v : Option A)
      → decode codec has_out r ≡ ok (kind, v, r')
      → (size : ℕ) × (0 < size) × (size ≤ max_message_size) × (length r ≡ 4 + size + length r')
  unfolding decode
  decode_bounded has_out r r' kind v h =
      let (body, e, k) = bind-eq-ok (read_frame r) _ h in
      read_frame_bounded r body.0 r' (rw (← decode_body_rest has_out body.0 body.1 r' kind v k) e)

  -- A header that announces no byte, or more than max_message_size, is refused at once.
  pub decode_refuses :
      (has_out : Bool) (r : Bytes)
      → 4 ≤ length r
      → (uint32 r ≡ 0) ⊎ (max_message_size < uint32 r)
      → decode codec has_out r ≡ err (invalid_size (uint32 r))
  unfolding decode read_frame
  decode_refuses has_out r h bad =
      let (start, e, k) = read_full-four r h in
      let test : (uint32 r == 0 || ltb max_message_size (uint32 r)) ≡ true = ground arith in
      rw (e, k, test)
