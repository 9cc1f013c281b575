-- ===== src/Tests/Wires.antt =====
-- Frames on a connection, and the hub of the dashboards.
use vexlo.Common.{
  ◌≤◌, ◌<◌, ◌≡◌, inl, refl, Bytes, codes, true, [], ◌∷◌, ◌++◌, Option, none, some, arith, length,
  take, drop, take-length-append, drop-length-append,
}
use vexlo.Protocol.{
  max_message_size, Envelope, Codec, ok, encode, decode, envelope_bytes, IsFaithful,
}
use vexlo.Protocol.Stream.{decode-encode}
use vexlo.Hub.{
  Event, Hub, registers, unregisters, broadcasts, new_hub, turn, register, unregister, broadcast,
}
use vexlo.Hub.Delivery.{AllServed}
use vexlo.Hub.Lifecycle.{World, connects, connect}
use vexlo.Hub.History.{start, Reach, here, next, heap_of, never_panics, Reach-AllServed}
use vexlo.Hub.Race.{select_may_panic}

abbrev read_envelope : Bytes → Option Envelope
read_envelope [] = none
read_envelope (n ∷ rest) = some (record { kind = take n rest; payload = drop n rest })

-- An encoding of envelopes with the length of the kind in front.
abbrev plain_codec : Codec Bytes
plain_codec = record {
  marshal = some;
  marshal_envelope = λ env. some (length env.kind ∷ env.kind ++ env.payload);
  unmarshal_envelope = read_envelope;
  unmarshal = some;
}

plain_codec-IsFaithful : IsFaithful plain_codec (codes "hello") (codes "hi")
plain_codec-IsFaithful = record {
  value_back = λ p e. cc;
  envelope_back = λ p e m w. back (codes "hello") p e w;
  envelope_nonempty = λ p e m w. nonempty (record { kind = codes "hello"; payload = p }) e w;
}
  where
    back :
        (kind p e : Bytes)
        → some (length kind ∷ kind ++ p) ≡ some e
        → read_envelope e ≡ some (record { kind = kind; payload = p })
    back kind p [] w = absurd (cc)
    back kind p (n ∷ rest) w = ground (arith, take-length-append kind p, drop-length-append kind p)

    nonempty :
        (env : Envelope) (e : Bytes)
        → some (length env.kind ∷ env.kind ++ env.payload) ≡ some e
        → 0 < length e
    nonempty env e w = ground arith

abbrev hello : Bytes
hello = 5 ∷ codes "hellohi"

abbrev hello_frame : Bytes
hello_frame = 0 ∷ 0 ∷ 0 ∷ 8 ∷ hello

hello_fits :
    (env : Bytes)
    → envelope_bytes plain_codec (codes "hello") (codes "hi") ≡ some env
    → length env ≤ max_message_size
unfolding envelope_bytes
hello_fits env e = ground arith

decode-encode_example :
    (sent : Bytes) × (hello_frame ≡ [] ++ sent)
    × (decode plain_codec true (sent ++ 7 ∷ []) ≡ ok (codes "hello", some (codes "hi"), 7 ∷ []))
unfolding encode
decode-encode_example =
    decode-encode plain_codec (codes "hello") (codes "hi") (record { out = []; room = 100 })
      (record { out = hello_frame; room = 88 }) (7 ∷ []) plain_codec-IsFaithful hello_fits refl

abbrev to_payload : Event → Option Bytes
to_payload e = some e.payload

abbrev one_connection : World
one_connection = connect 0 (codes "s1") start

one_connection-Reach : Reach to_payload one_connection
one_connection-Reach = next here (connects 0 (codes "s1") refl (omega arith) refl)

never_panics_example : (h : Hub) × (turn to_payload registers one_connection.hub ≡ some h)
never_panics_example = never_panics to_payload registers one_connection-Reach tt

Reach-AllServed_example : AllServed to_payload (heap_of one_connection)
Reach-AllServed_example = Reach-AllServed to_payload one_connection-Reach

abbrev news : Event
news = record { kind = codes "new_request"; session_id = []; payload = codes "x" }

select_may_panic_example :
    (h1 : Hub) × (h2 : Hub) × (turn to_payload unregisters (unregister 0 (register 0 new_hub))
      ≡ some h1)
    × (turn to_payload registers h1 ≡ some h2)
    × (vexlo.Hub.has 0 h2.clients ≡ true)
    × ((h2.heap 0).closed ≡ true)
    × (turn to_payload broadcasts (broadcast news h2) ≡ none)
select_may_panic_example =
    select_may_panic to_payload 0 new_hub news (codes "x") (refl, refl, refl) refl refl (inl refl)
