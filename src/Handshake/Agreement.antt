-- ===== src/Handshake/Agreement.antt =====
-- The client and the server agree on what became of a registration.
use vexlo.Common.{
  ℕ, ◌≤◌, ◌<◌, ◌≡◌, refl, ap, ◌∙◌, ℤ, Bytes, codes, true, ◌++◌, some, length, str_eq,
}
use vexlo.Protocol.{Codec, ok, decode, envelope_bytes, IsFaithful, max_message_size}
use vexlo.Protocol.Frame.{frame, envelope_parts, decode-frame, read_frame-frame}
use vexlo.Tunnels.{TunnelManager}
use vexlo.Tunnels.Register.{Outages, Draws, register}
use vexlo.Client.{ResumeState, registration, Reply, lost, refused, welcomed, after_reply, answer}
use vexlo.Handshake.{
  Wire, answer_envelope, refused_or_lost, welcomed_or_lost, read_answer, read_reply,
  register_tunnel, greet, greet_decoded, handle_binary_conn,
}

-- What the client relies on of encoding/json, for a message that it gets: its envelope can be taken
-- apart with the payload left as it is, and the payload unmarshals.
pub record IsReadable {A : Type 0} (codec : Codec A) (raw : Codec Bytes) (kind : Bytes) (v : A)
    : Type 0 where
  pub value_back : (p : Bytes) → codec.marshal v ≡ some p → codec.unmarshal p ≡ some v
  pub raw_back : (p : Bytes) → codec.marshal v ≡ some p → raw.unmarshal p ≡ some p
  pub envelope_back :
      (p e : Bytes)
      → codec.marshal v ≡ some p
      → codec.marshal_envelope (record { kind = kind; payload = p }) ≡ some e
      → raw.unmarshal_envelope e ≡ some (record { kind = kind; payload = p })
  pub envelope_nonempty :
      (p e : Bytes)
      → codec.marshal v ≡ some p
      → codec.marshal_envelope (record { kind = kind; payload = p }) ≡ some e
      → 0 < length e

-- That the answer that the server sends can be read back.
abbrev pub IsReadableAnswer : Wire → Reply → Type 0
IsReadableAnswer wire lost = Unit
IsReadableAnswer wire (refused text) = IsReadable wire.errors wire.raw (codes "error") text
IsReadableAnswer wire (welcomed r) = IsReadable wire.welcomes wire.raw (codes "registered") r

-- A frame's payload, as the client takes it off the stream.
opened :
    {A : Type 0} (codec : Codec A) (raw : Codec Bytes) (kind : Bytes) (v : A) (env rest : Bytes)
    → IsReadable codec raw kind v
    → envelope_bytes codec kind v ≡ some env
    → length env ≤ max_message_size
    → (payload : Bytes) × (codec.unmarshal payload ≡ some v)
      × (decode raw true (frame env ++ rest) ≡ ok (kind, some payload, rest))
unfolding decode
opened codec raw kind v env rest laws h fits =
    let (p, m, e) = envelope_parts codec kind v env h in
    (
      p,
      laws.value_back p m,
      rw
          (
            read_frame-frame env rest (laws.envelope_nonempty p env m e) fits,
            laws.envelope_back p env m e,
            laws.raw_back p m,
          )
          refl,
    )

module _ (wire : Wire) where
  -- What the server answers is what the client makes of it.
  register_tunnel-answer :
      (reply : Reply) (env rest : Bytes)
      → IsReadableAnswer wire reply
      → answer_envelope wire reply ≡ some env
      → length env ≤ max_message_size
      → register_tunnel wire (frame env ++ rest) ≡ reply
  unfolding register_tunnel read_reply read_answer str_eq answer_envelope
  register_tunnel-answer lost env rest laws h fits = absurd (cc)
  register_tunnel-answer (refused text) env rest laws h fits =
      let (payload, back, decoded) =
        opened wire.errors wire.raw (codes "error") text env rest laws h fits in
      ap (read_reply wire) decoded ∙ ap refused_or_lost back
  register_tunnel-answer (welcomed r) env rest laws h fits =
      let (payload, back, decoded) =
        opened wire.welcomes wire.raw (codes "registered") r env rest laws h fits in
      ap (read_reply wire) decoded ∙ ap welcomed_or_lost back

module _ (sha256_hex : Bytes → Bytes) (wire : Wire) where
  -- If the JSON encodings of the registration and of its answer can be read back, a registration that the client sends whole is registered just
  -- once and as it is, and when the server's answer comes back whole, the client keeps what that
  -- answer says of this very registration.
  pub handshake_agrees :
      (outages : Outages) (draws : Draws) (source_ip engine : Bytes) (now : ℕ) (port : ℤ)
      (c : ResumeState) (m : TunnelManager) (env later env' rest : Bytes)
      → IsFaithful wire.registers (codes "register") (registration port c)
      → IsReadableAnswer wire (
          answer engine (register sha256_hex outages draws source_ip now (registration port c) m).1)
      → envelope_bytes wire.registers (codes "register") (registration port c) ≡ some env
      → length env ≤ max_message_size
      → answer_envelope wire (
          answer engine (register sha256_hex outages draws source_ip now (registration port c) m).1)
        ≡ some env'
      → length env' ≤ max_message_size
      → let result = register sha256_hex outages draws source_ip now (registration port c) m in
        (handle_binary_conn sha256_hex wire outages draws source_ip engine now
            (frame env ++ later)
            m
          ≡ (result.0, answer engine result.1))
        × (after_reply (register_tunnel wire (frame env' ++ rest)) c
            ≡ after_reply (answer engine result.1) c)
  unfolding handle_binary_conn greet_decoded greet str_eq
  handshake_agrees outages draws source_ip engine now port c m env later env' rest laws readable
        sent fits told fits' =
      (
        ap (λ d. greet_decoded sha256_hex wire outages draws source_ip engine now d m)
            (decode-frame wire.registers (codes "register") (registration port c) laws env later
              sent fits),
        ap (λ (reply : Reply). after_reply reply c)
            (register_tunnel-answer wire _ env' rest readable told fits'),
      )
