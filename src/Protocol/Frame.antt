-- ===== src/Protocol/Frame.antt =====
-- The parts of a frame: the big-endian header, the reads, and what a whole frame decodes to.
use vexlo.Common.{
  ℕ, ◌^◌, ◌≤◌, ◌<◌, ◌≡◌, refl, Bytes, true, false, ◌⊎◌, inl, inr, [], ◌∷◌, ◌++◌, some, arith,
  length, take-length-append, drop-length-append, length-append, append_assoc, Option-cases, ltb,
  ◌==◌, ◌||◌,
}
use vexlo.Protocol.{
  Codec, ok, err, eof, unexpected_eof, put_uint32, uint32, read_full, max_message_size,
  envelope_bytes, read_frame, decode, IsFaithful,
}

pub uint32-put_uint32 : (n : ℕ) → n < 2 ^ 32 → uint32 (put_uint32 n) ≡ n
unfolding uint32 put_uint32
uint32-put_uint32 n h = omega arith

pub length-put_uint32 : (n : ℕ) → length (put_uint32 n) ≡ 4
unfolding put_uint32
length-put_uint32 n = refl

-- A read of exactly the bytes that come first.
pub read_full-append :
    (xs ys : Bytes) → 0 < length xs → read_full (length xs) (xs ++ ys) ≡ ok (xs, ys)
unfolding read_full
read_full-append [] ys h = absurd (omega arith)
read_full-append (x ∷ xs) ys h =
    ground (arith, length-append xs ys, take-length-append xs ys, drop-length-append xs ys)

-- A read of more bytes than there are fails.
pub read_full-short :
    (n : ℕ) (r : Bytes)
    → length r < n
    → (read_full n r ≡ err eof) ⊎ (read_full n r ≡ err unexpected_eof)
unfolding read_full
read_full-short n [] h = inl refl
read_full-short n (b ∷ r) h = inr (ground arith)

-- The bytes of a frame.
abbrev pub frame : Bytes → Bytes
frame env = put_uint32 (length env) ++ env

pub read_full-header : (n : ℕ) (r : Bytes) → read_full 4 (put_uint32 n ++ r) ≡ ok (put_uint32 n, r)
unfolding read_full put_uint32
read_full-header n r = ground arith

pub valid_size : (n : ℕ) → 0 < n → n ≤ max_message_size → (n == 0 || ltb max_message_size n) ≡ false
valid_size n h k = ground arith

-- A whole frame is read whole.
pub read_frame-frame :
    (env rest : Bytes)
    → 0 < length env
    → length env ≤ max_message_size
    → read_frame (frame env ++ rest) ≡ ok (env, rest)
unfolding read_frame
read_frame-frame env rest pos fits =
    let small : length env < 2 ^ 32 = omega arith in
    rw (
      append_assoc (put_uint32 (length env)) env rest,
      read_full-header (length env) (env ++ rest),
      uint32-put_uint32 (length env) small,
      valid_size (length env) pos fits,
      read_full-append env rest pos,
    )

module _ {A : Type 0} (codec : Codec A) where
  -- The parts of an envelope that was marshalled.
  pub envelope_parts :
      (kind : Bytes) (v : A) (env : Bytes)
      → envelope_bytes codec kind v ≡ some env
      → (p : Bytes) × (codec.marshal v ≡ some p)
        × (codec.marshal_envelope (record { kind = kind; payload = p }) ≡ some env)
  unfolding envelope_bytes
  envelope_parts kind v env h = elim (Option-cases (codec.marshal v)) [
    | inl e ↦ ground arith
    | inr (p, e) ↦ (p, e, ground arith)
  ]

  module _ (kind : Bytes) (v : A) (laws : IsFaithful codec kind v) (env : Bytes) where
    pub envelope-pos : envelope_bytes codec kind v ≡ some env → 0 < length env
    envelope-pos h = let (p, m, e) = envelope_parts kind v env h in laws.envelope_nonempty p env m e

    pub decode-frame :
        (rest : Bytes)
        → envelope_bytes codec kind v ≡ some env
        → length env ≤ max_message_size
        → decode codec true (frame env ++ rest) ≡ ok (kind, some v, rest)
    unfolding decode
    decode-frame rest h fits =
        let (p, m, e) = envelope_parts kind v env h in
        rw (
          read_frame-frame env rest (laws.envelope_nonempty p env m e) fits,
          laws.envelope_back p env m e,
          laws.value_back p m,
        )
