-- ===== src/Handshake.antt =====
-- The first messages of a connection: handleBinaryConn of internal/server/binary.go over the bytes that
-- the client sends, and the part of registerTunnel in internal/client/client.go that reads its answer.
-- encoding/json at the four types of message is `Wire`; a json.RawMessage is the text itself. The read
-- deadline, the slots of acceptBinary and the log lines are not modelled; a write that fails is a
-- frame that does not come.
pub mod Agreement
use vexlo.Common.{ℕ, Bytes, codes, Bool, true, false, Option, none, some, str_eq, if◌then◌else◌}
use vexlo.Model.{Register, Registered}
use vexlo.Protocol.{Codec, Result, DecodeError, ok, err, decode, envelope_bytes}
use vexlo.Tunnels.{TunnelManager}
use vexlo.Tunnels.Register.{Outages, Draws, register}
use vexlo.Client.{Reply, lost, refused, welcomed, answer}

pub record Wire : Type 0 where
  pub registers : Codec Register
  pub errors : Codec Bytes
  pub welcomes : Codec Registered
  pub raw : Codec Bytes

-- The envelope of the answer that handleBinaryConn sends.
unfoldable pub answer_envelope : Wire → Reply → Option Bytes
unfolding envelope_bytes
answer_envelope wire lost = none
answer_envelope wire (refused text) = envelope_bytes wire.errors (codes "error") text
answer_envelope wire (welcomed r) = envelope_bytes wire.welcomes (codes "registered") r

abbrev pub refused_or_lost : Option Bytes → Reply
refused_or_lost none = lost
refused_or_lost (some text) = refused text

abbrev pub welcomed_or_lost : Option Registered → Reply
welcomed_or_lost none = lost
welcomed_or_lost (some r) = welcomed r

-- registerTunnel's answer by its kind
unfoldable pub read_answer : Wire → Bytes → Option Bytes → Reply
read_answer wire kind none = lost
read_answer wire kind (some payload) =
    if str_eq kind (codes "error")
    then refused_or_lost (wire.errors.unmarshal payload)
    else (if str_eq kind (codes "registered")
        then welcomed_or_lost (wire.welcomes.unmarshal payload)
        else lost)

unfoldable pub read_reply : Wire → Result DecodeError (Bytes × Option Bytes × Bytes) → Reply
unfolding read_answer
read_reply wire (err e) = lost
read_reply wire (ok (kind, payload, rest)) = read_answer wire kind payload

-- registerTunnel, from the bytes that the server sends
unfoldable pub register_tunnel : Wire → Bytes → Reply
unfolding read_reply
register_tunnel wire r = read_reply wire (decode wire.raw true r)

module _ (sha256_hex : Bytes → Bytes) (wire : Wire) where
  unfoldable pub greet :
      Outages → Draws → Bytes → Bytes → ℕ → Option Register → TunnelManager → TunnelManager × Reply
  unfolding register answer
  greet outages draws source_ip engine now none m = (m, lost)
  greet outages draws source_ip engine now (some reg) m =
      let (m', result) = register sha256_hex outages draws source_ip now reg m in
      (m', answer engine result)

  unfoldable pub greet_decoded :
      Outages
      → Draws
      → Bytes
      → Bytes
      → ℕ
      → Result DecodeError (Bytes × Option Register × Bytes)
      → TunnelManager
      → TunnelManager × Reply
  unfolding greet
  greet_decoded outages draws source_ip engine now (err e) m = (m, lost)
  greet_decoded outages draws source_ip engine now (ok (kind, reg, rest)) m =
      if str_eq kind (codes "register")
      then greet outages draws source_ip engine now reg m
      else (m, lost)

  -- handleBinaryConn, up to its wait for the tunnel's end; `lost` is a connection that it closes
  -- without an answer, and `engine` the text of an error of the database
  unfoldable pub handle_binary_conn :
      Outages → Draws → Bytes → Bytes → ℕ → Bytes → TunnelManager → TunnelManager × Reply
  unfolding greet_decoded
  handle_binary_conn outages draws source_ip engine now r m =
      greet_decoded outages draws source_ip engine now (decode wire.registers true r) m
