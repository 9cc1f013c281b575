-- ===== src/Protocol.antt =====
-- internal/protocol/protocol.go: length-prefixed JSON frames between the client and the server.
-- encoding/json is the parameter `Codec`: the two Marshal calls of Encode and the two Unmarshal
-- calls of Decode, for one type of message. A reader is the bytes that are still to come, and a
-- writer takes `room` bytes before its connection fails.
pub mod Kind
pub mod Frame
pub mod Stream
pub mod Bounds
pub use vexlo.Common.{Result, ok, err, ◌>>=◌, or_fail}
use vexlo.Common.{
  ◌≡◌, ◌<◌, ℕ, zero, suc, ◌+◌, ◌-◌, ◌*◌, ◌/◌, ◌%◌, ◌^◌, Bytes, codes, Bool, true, false, ◌||◌, List,
  [], ◌∷◌, ◌++◌, Option, none, some, length, take, drop, ltb, leb, ◌==◌, if◌then◌else◌,
}

abbrev pub max_message_size : ℕ
max_message_size = 8 * 1024 * 1024

pub record Envelope : Type 0 where
  pub kind : Bytes
  pub payload : Bytes

-- encoding/json at the message type `A`: `none` where the library returns an error.
pub record Codec (A : Type 0) : Type 0 where
  pub marshal : A → Option Bytes
  pub marshal_envelope : Envelope → Option Bytes
  pub unmarshal_envelope : Bytes → Option Envelope
  pub unmarshal : Bytes → Option A

pub data DecodeError : Type 0 where
  -- io.EOF: the stream ended between two frames.
  eof : DecodeError
  -- io.ErrUnexpectedEOF: the stream ended inside a frame.
  unexpected_eof : DecodeError
  invalid_size : ℕ → DecodeError
  bad_envelope : DecodeError
  bad_payload : DecodeError

-- binary.BigEndian.PutUint32(buf, uint32(n))
unfoldable pub put_uint32 : ℕ → Bytes
put_uint32 n =
    let w = n % 2 ^ 32 in w / 2 ^ 24 ∷ (w / 2 ^ 16) % 256 ∷ (w / 2 ^ 8) % 256 ∷ w % 256 ∷ []

-- binary.BigEndian.Uint32(buf)
unfoldable pub uint32 : Bytes → ℕ
uint32 (a ∷ b ∷ c ∷ d ∷ rest) = ((a * 256 + b) * 256 + c) * 256 + d
uint32 _ = 0

-- io.ReadFull(r, buf) for len(buf) = n > 0
unfoldable pub read_full : ℕ → Bytes → Result DecodeError (Bytes × Bytes)
read_full n [] = err eof
read_full n (b ∷ r) =
    if leb n (length (b ∷ r)) then ok (take n (b ∷ r), drop n (b ∷ r)) else err unexpected_eof

pub record Writer : Type 0 where
  pub out : Bytes
  pub room : ℕ

-- w.Write(p), and whether it returned no error
unfoldable pub write : Bytes → Writer → Writer × Bool
write p w =
    if leb (length p) w.room
    then (record { out = w.out ++ p; room = w.room - length p }, true)
    else (record { out = w.out ++ take w.room p; room = 0 }, false)

unfoldable pub write_both : Bytes → Bytes → Writer → Writer × Bool
unfolding write
write_both header body w =
    let (w', sent) = write header w in if sent then write body w' else (w', false)

-- The first half of Decode: the header, its check, and the body with the reader behind it.
unfoldable pub read_frame : Bytes → Result DecodeError (Bytes × Bytes)
unfolding read_full uint32
read_frame r = do
  (header, r') ← read_full 4 r
  let size = uint32 header
  if size == 0 || ltb max_message_size size then err (invalid_size size) else read_full size r'

module _ {A : Type 0} (codec : Codec A) where
  open codec use {marshal, marshal_envelope, unmarshal_envelope, unmarshal}

  -- json.Marshal(Envelope{Type: kind, Data: payload}), for the payload json.Marshal(v)
  unfoldable pub envelope_bytes : Bytes → A → Option Bytes
  envelope_bytes kind v = elim (marshal v) [
    | none ↦ none
    | some payload ↦ marshal_envelope (record { kind = kind; payload = payload })
  ]

  unfoldable pub encode : Bytes → A → Writer → Writer × Bool
  unfolding envelope_bytes put_uint32 write_both
  encode kind v w = elim (envelope_bytes kind v) [
    | none ↦ (w, false)
    | some env ↦ write_both (put_uint32 (length env)) env w
  ]

  -- What Decode does with the bytes of a frame's body.
  unfoldable pub decode_body : Bool → Bytes × Bytes → Result DecodeError (Bytes × Option A × Bytes)
  decode_body has_out (buf, rest) = do
    env ← or_fail (unmarshal_envelope buf) bad_envelope
    if has_out
        then (do v ← or_fail (unmarshal env.payload) bad_payload; ok (env.kind, some v, rest))
        else ok (env.kind, none, rest)

  -- Decode(r, out): the kind, the value read into a non-nil `out`, and the reader after it.
  unfoldable pub decode : Bool → Bytes → Result DecodeError (Bytes × Option A × Bytes)
  unfolding read_frame decode_body
  decode has_out r = do body ← read_frame r; decode_body has_out body

-- What the program relies on of encoding/json for a message that it sends: what is marshalled of it
-- unmarshals to it, inside its envelope too, and its envelope has some bytes. It does not hold of a
-- message with text that is no UTF-8, which json.Marshal replaces.
pub record IsFaithful {A : Type 0} (codec : Codec A) (kind : Bytes) (v : A) : Type 0 where
  pub value_back : (p : Bytes) → codec.marshal v ≡ some p → codec.unmarshal p ≡ some v
  pub envelope_back :
      (p e : Bytes)
      → codec.marshal v ≡ some p
      → codec.marshal_envelope (record { kind = kind; payload = p }) ≡ some e
      → codec.unmarshal_envelope e ≡ some (record { kind = kind; payload = p })
  pub envelope_nonempty :
      (p e : Bytes)
      → codec.marshal v ≡ some p
      → codec.marshal_envelope (record { kind = kind; payload = p }) ≡ some e
      → 0 < length e
