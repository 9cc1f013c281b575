-- ===== src/Tests/Handshakes.antt =====
-- The first messages of a connection.
use vexlo.Common.{
  ℕ, ◌+◌, ◌≤◌, ◌<◌, ◌≡◌, refl, sym, ap, ◌∙◌, ℤ, pos, negsuc, Bytes, codes, Bool, true, false, List,
  [], ◌∷◌, ◌++◌, Option, none, some, arith, length, str_eq,
}
use vexlo.Model.{Register, Registered}
use vexlo.Protocol.{Codec, Envelope, IsFaithful}
use vexlo.Protocol.Frame.{frame}
use vexlo.Tunnels.Register.{register}
use vexlo.Client.{ResumeState, registration, after_reply, answer}
use vexlo.Handshake.{Wire, register_tunnel, handle_binary_conn}
use vexlo.Handshake.Agreement.{IsReadable, handshake_agrees}
use vexlo.Tests.Servers.{digest, all_up, draws, noon, home, empty_server, registered_reply}
use vexlo.Tests.Forwards.{read_envelope, envelope_back, envelope_nonempty}

abbrev wrap : Envelope → Option Bytes
wrap env = some (length env.kind ∷ env.kind ++ env.payload)

-- An encoding of quick registrations without a session.
abbrev put_register : Bytes → ℤ → Bytes → Bytes → Bool → Option Bytes
put_register [] (pos port) connection_type [] true = some (port ∷ connection_type)
put_register _ _ _ _ _ = none

abbrev get_register : Bytes → Option Register
get_register [] = none
get_register (port ∷ connection_type) = some (record {
  session_id = [];
  local_port = pos port;
  connection_type = connection_type;
  resume_token = [];
  quick = true;
})

abbrev registers : Codec Register
registers = record {
  marshal = λ v. put_register v.session_id v.local_port v.connection_type v.resume_token v.quick;
  marshal_envelope = wrap;
  unmarshal_envelope = read_envelope;
  unmarshal = get_register;
}

register_back : (v : Register) (p : Bytes) → registers.marshal v ≡ some p → get_register p ≡ some v
register_back v p e = back v.session_id v.local_port v.connection_type v.resume_token v.quick p e
  where
    back :
        (session_id : Bytes) (port : ℤ) (connection_type resume_token : Bytes) (quick : Bool)
        (p : Bytes)
        → put_register session_id port connection_type resume_token quick ≡ some p
        → get_register p
          ≡ some (record {
            session_id = session_id;
            local_port = port;
            connection_type = connection_type;
            resume_token = resume_token;
            quick = quick;
          })
    back [] (pos port) connection_type [] true p e =
        let same : port ∷ connection_type ≡ p = cc in ap get_register (sym same)
    back [] (pos port) connection_type [] false p e = absurd (cc)
    back [] (pos port) connection_type (t ∷ token) quick p e = absurd (cc)
    back [] (negsuc port) connection_type token quick p e = absurd (cc)
    back (s ∷ session_id) port connection_type token quick p e = absurd (cc)

abbrev texts : Codec Bytes
texts = record {
  marshal = some;
  marshal_envelope = wrap;
  unmarshal_envelope = read_envelope;
  unmarshal = some;
}

-- An encoding of the session's identifier in a welcome that is otherwise the one of the example.
abbrev welcomes : Codec Registered
welcomes = record {
  marshal = λ v. some v.session_id;
  marshal_envelope = wrap;
  unmarshal_envelope = read_envelope;
  unmarshal = λ p. some (record registered_reply { session_id = p });
}

abbrev wire : Wire
wire = record { registers = registers; errors = texts; welcomes = welcomes; raw = texts }

abbrev new_client : ResumeState
new_client = record { session_id = []; resume_token = [] }

abbrev asks_envelope : Bytes
asks_envelope = 8 ∷ codes "register" ++ (3000 ∷ codes "tcp")

abbrev told_envelope : Bytes
told_envelope = 10 ∷ codes "registered" ++ codes "s1"

registers-IsFaithful : IsFaithful registers (codes "register") (registration (pos 3000) new_client)
unfolding registration
registers-IsFaithful = record {
  value_back = λ p e. register_back (registration (pos 3000) new_client) p e;
  envelope_back = λ p e m w. envelope_back (codes "register") p e w;
  envelope_nonempty =
      λ p e m w. envelope_nonempty (record { kind = codes "register"; payload = p }) e w;
}

welcome-IsReadable : IsReadable welcomes texts (codes "registered") registered_reply
welcome-IsReadable = record {
  value_back = λ p e. back p e;
  raw_back = λ p e. refl;
  envelope_back = λ p e m w. envelope_back (codes "registered") p e w;
  envelope_nonempty =
      λ p e m w. envelope_nonempty (record { kind = codes "registered"; payload = p }) e w;
}
  where
    back :
        (p : Bytes)
        → some (codes "s1") ≡ some p
        → some (record registered_reply { session_id = p }) ≡ some registered_reply
    back p e = ap (λ (q : Bytes). some (record registered_reply { session_id = q })) (same p e)
      where
        same : (p : Bytes) → some (codes "s1") ≡ some p → p ≡ codes "s1"
        same p e = cc

handshake_agrees_example :
    (handle_binary_conn digest wire all_up draws home [] noon
        (frame asks_envelope ++ [])
        empty_server
      ≡ (
        (register digest all_up draws home noon
            (registration (pos 3000) new_client)
            empty_server).0,
        answer []
            (register digest all_up draws home noon
              (registration (pos 3000) new_client)
              empty_server).1,
      ))
    × (after_reply (register_tunnel wire (frame told_envelope ++ [])) new_client
        ≡ after_reply
            (answer []
              (register digest all_up draws home noon
                (registration (pos 3000) new_client)
                empty_server).1)
            new_client)
unfolding vexlo.Protocol.envelope_bytes registration vexlo.Handshake.answer_envelope answer register
    str_eq vexlo.RateLimit.check_registration_rate vexlo.Common.get vexlo.Common.count_values
    vexlo.Storage.subdomain_exists vexlo.Common.any_value vexlo.Storage.upsert_session
    vexlo.Storage.count_requests
handshake_agrees_example =
    handshake_agrees digest wire all_up draws home [] noon (pos 3000) new_client empty_server
      asks_envelope [] told_envelope [] registers-IsFaithful welcome-IsReadable refl (omega arith)
      refl (omega arith)
