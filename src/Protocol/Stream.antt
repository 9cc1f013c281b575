-- ===== src/Protocol/Stream.antt =====
-- What a reader makes of what a writer sent: whole frames, and frames that were cut short.
use vexlo.Common.{
  ℕ, ◌+◌, ◌-◌, ◌^◌, ◌≤◌, ◌<◌, ◌≡◌, refl, Bytes, true, false, ◌⊎◌, inl, inr, [], ◌++◌, some, arith,
  length, take, length-take, length-append, append_assoc, take-append_short, take-append_long,
  Bool-cases, Option-cases, leb, ltb, ltb→lt, append-nil,
}
use vexlo.Protocol.{
  Codec, Result, DecodeError, Writer, ok, err, eof, unexpected_eof, ◌>>=◌, put_uint32, read_full,
  write_both, max_message_size, envelope_bytes, encode, read_frame, decode, IsFaithful,
}
use vexlo.Protocol.Frame.{
  frame, read_full-short, decode-frame, read_full-header, uint32-put_uint32, envelope-pos,
  valid_size,
}

-- The reader was told that the stream ended, and got no message.
abbrev pub IsCut {ℓ} : {A : Type ℓ} → Result DecodeError A → Type ℓ
IsCut r = (r ≡ err eof) ⊎ (r ≡ err unexpected_eof)

pub write_both_sent :
    (a b : Bytes) (w w' : Writer) → write_both a b w ≡ (w', true) → w'.out ≡ w.out ++ (a ++ b)
unfolding write_both
write_both_sent a b w w' h = ground (arith, append_assoc w.out a b)

-- A write that fails has put out a part of the bytes, and not all of them.
pub write_both_cut :
    (a b : Bytes) (w w' : Writer)
    → write_both a b w ≡ (w', false)
    → (w.room < length (a ++ b)) × (w'.out ≡ w.out ++ take w.room (a ++ b))
unfolding write_both
write_both_cut a b w w' h = elim (Bool-cases (leb (length a) w.room)) [
  | inl e ↦ ground (
    arith,
    append_assoc w.out a (take (w.room - length a) b),
    length-append a b,
    take-append_long (w.room - length a) a b,
    fits,
  )
  | inr e ↦ ground (arith, length-append a b, take-append_short w.room a b)
]
  where
    fits : length a ≤ w.room → length a + (w.room - length a) ≡ w.room
    fits k = omega arith

read_short_IsCut {ℓ} :
    {B : Type ℓ} (n : ℕ) (r : Bytes) (f : Bytes × Bytes → Result DecodeError B)
    → length r < n
    → IsCut (read_full n r >>= f)
read_short_IsCut n r f h = elim (read_full-short n r h) [ inl e ↦ inl (rw e) | inr e ↦ inr (rw e) ]

-- A part of a frame, with nothing behind it.
read_frame-take :
    (env : Bytes) (n : ℕ)
    → 0 < length env
    → length env ≤ max_message_size
    → n < length env
    → IsCut (read_frame (put_uint32 (length env) ++ take n env))
unfolding read_frame
read_frame-take env n pos fits short =
    let small : length env < 2 ^ 32 = omega arith in
    rw
      (
        read_full-header (length env) (take n env),
        uint32-put_uint32 (length env) small,
        valid_size (length env) pos fits,
      )
      (cut (read_full-short (length env) (take n env) (omega (arith, length-take n env))))
  where
    cut :
        {r : Result DecodeError (Bytes × Bytes)}
        → (r ≡ err eof) ⊎ (r ≡ err unexpected_eof)
        → IsCut r
    cut h = h

read_frame-IsCut :
    (env : Bytes) (n : ℕ)
    → 0 < length env
    → length env ≤ max_message_size
    → n < length (frame env)
    → IsCut (read_frame (take n (frame env)))
unfolding read_frame put_uint32
read_frame-IsCut env n pos fits short = elim (Bool-cases (ltb n 4)) [
  | inl e ↦
      read_short_IsCut 4 (take n (frame env)) _
        (omega (arith, length-take n (frame env), ltb→lt n 4 e))
  | inr e ↦
      let long : 4 + (n - 4) ≡ n = ground arith in
      rw (← long, take-append_long (n - 4) (put_uint32 (length env)) env)
        (read_frame-take env (n - 4) pos fits
          (omega (arith, length-append (put_uint32 (length env)) env)))
]

module _ {A : Type 0} (codec : Codec A) where
  IsCut-decode : (r : Bytes) → IsCut (read_frame r) → IsCut (decode codec true r)
  unfolding decode
  IsCut-decode r (inl e) = inl (rw e)
  IsCut-decode r (inr e) = inr (rw e)

  -- Decode of a part of a frame, with nothing behind it, reports the end of the stream.
  decode-take-frame :
      (env : Bytes) (n : ℕ)
      → 0 < length env
      → length env ≤ max_message_size
      → n < length (frame env)
      → IsCut (decode codec true (take n (frame env)))
  decode-take-frame env n pos fits short = IsCut-decode _ (read_frame-IsCut env n pos fits short)

  -- If the JSON encoding of the value can be read back and the envelope is within the size limit, a frame that
  -- was sent whole is received whole: the kind, the value, and the stream behind it.
  pub decode-encode :
      (kind : Bytes) (v : A) (w w' : Writer) (rest : Bytes)
      → IsFaithful codec kind v
      → ((env : Bytes) → envelope_bytes codec kind v ≡ some env → length env ≤ max_message_size)
      → encode codec kind v w ≡ (w', true)
      → (sent : Bytes) × (w'.out ≡ w.out ++ sent)
        × (decode codec true (sent ++ rest) ≡ ok (kind, some v, rest))
  unfolding encode
  decode-encode kind v w w' rest laws fits h = elim (Option-cases (envelope_bytes codec kind v)) [
    | inl e ↦ absurd (ground arith)
    | inr (env, e) ↦ (
      frame env,
      write_both_sent (put_uint32 (length env)) env w w' (ground arith),
      decode-frame codec kind v laws env rest e (fits env e),
    )
  ]

  IsCut-at_start : IsCut (decode codec true [])
  unfolding decode read_frame
  IsCut-at_start = inl refl

  -- If the JSON encoding of the value can be read back and the envelope is within the size limit, a send that
  -- fails leaves on the stream a part of a frame, or nothing, which Decode reports as the end of
  -- the stream.
  pub encode-IsCut :
      (kind : Bytes) (v : A) (w w' : Writer)
      → IsFaithful codec kind v
      → ((env : Bytes) → envelope_bytes codec kind v ≡ some env → length env ≤ max_message_size)
      → encode codec kind v w ≡ (w', false)
      → (part : Bytes) × (w'.out ≡ w.out ++ part) × IsCut (decode codec true part)
  unfolding encode
  encode-IsCut kind v w w' laws fits h = elim (Option-cases (envelope_bytes codec kind v)) [
    | inl e ↦ ([], ground (arith, append-nil w.out), IsCut-at_start)
    | inr (env, e) ↦
        let (short, out) = write_both_cut (put_uint32 (length env)) env w w' (ground arith) in
        (
          take w.room (frame env),
          out,
          decode-take-frame env w.room (envelope-pos codec kind v laws env e) (fits env e) short,
        )
  ]
