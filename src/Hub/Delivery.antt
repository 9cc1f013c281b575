-- ===== src/Hub/Delivery.antt =====
-- Who gets which events.
use vexlo.Common.{
  ℕ, ◌≤◌, ◌<◌, ◌≡◌, sym, subst, ◌⊎◌, inl, inr, Bytes, true, List, [], ◌∷◌, ◌++◌, Option, some,
  arith, length, length-append, ◌==◌, str_eq_iff, Option-cases, Bool-cases,
}
use vexlo.Hub.{
  Event, Client, Hub, Channel, registers, unregisters, broadcasts, update, send_capacity,
  deliver_one, deliver, handle_register, handle_unregister, handle_broadcast, turn, close_send,
}

-- A delivery leaves the client alone, or adds the message to a channel with room, at an address.
deliver_one-cases :
    (session message : Bytes) (client after : Client)
    → deliver_one session message client ≡ some after
    → (after ≡ client)
      ⊎ ((after ≡ record client { send = client.send ++ message ∷ [] })
          × (length client.send < send_capacity)
          × ((session ≡ []) ⊎ (session ≡ client.session_id)))
unfolding deliver_one
deliver_one-cases session message client after h =
    ground (arith, str_eq_iff session [], str_eq_iff client.session_id session)

module _ (marshal : Event → Option Bytes) where
  -- The message is an event's, addressed to this session or to all.
  abbrev pub IsAddressed : Bytes → Bytes → Type 0
  IsAddressed session message =
      (e : Event) × (marshal e ≡ some message) × ((e.session_id ≡ []) ⊎ (e.session_id ≡ session))

  abbrev pub AllAddressed : Bytes → List Bytes → Type 0
  AllAddressed session [] = Unit
  AllAddressed session (m ∷ ms) = IsAddressed session m × AllAddressed session ms

  AllAddressed-append :
      (session : Bytes) (ms : List Bytes) (m : Bytes)
      → AllAddressed session ms
      → IsAddressed session m
      → AllAddressed session (ms ++ m ∷ [])
  AllAddressed-append session [] m h k = (k, tt)
  AllAddressed-append session (x ∷ ms) m h k = (h.0, AllAddressed-append session ms m h.1 k)

  -- What waits in a client's channel is its own: addressed to it, and no more than it has room for.
  pub record IsServed (client : Client) : Type 0 where
    pub addressed : AllAddressed client.session_id client.send
    pub bounded : length client.send ≤ send_capacity

  deliver_one-IsServed :
      (e : Event) (message : Bytes) (client after : Client)
      → marshal e ≡ some message
      → IsServed client
      → deliver_one e.session_id message client ≡ some after
      → IsServed after
  deliver_one-IsServed e message client after m s h =
      elim (deliver_one-cases e.session_id message client after h) [
        | inl same ↦ subst IsServed (sym same) s
        | inr (added, room, whose) ↦ subst IsServed (sym added) (record {
          addressed =
              AllAddressed-append client.session_id client.send message s.addressed (e, m, whose);
          bounded = omega (arith, length-append client.send (message ∷ []));
        })
      ]

  abbrev pub AllServed : (ℕ → Client) → Type 0
  AllServed heap = (c : ℕ) → IsServed (heap c)

  pub update-AllServed :
      (heap : ℕ → Client) (c : ℕ) (client : Client)
      → AllServed heap
      → IsServed client
      → AllServed (update heap c client)
  update-AllServed heap c client h s d = elim (Bool-cases (c == d)) [
    | inl e ↦ rw e s
    | inr e ↦ rw e (h d)
  ]

  deliver-AllServed :
      (e : Event) (message : Bytes) (cs : List ℕ) (heap heap' : ℕ → Client)
      → marshal e ≡ some message
      → AllServed heap
      → deliver e.session_id message cs heap ≡ some heap'
      → AllServed heap'
  unfolding deliver
  deliver-AllServed e message [] heap heap' m s h =
      let same : heap ≡ heap' = cc in subst AllServed same s
  deliver-AllServed e message (c ∷ cs) heap heap' m s h =
      elim (Option-cases (deliver_one e.session_id message (heap c))) [
        | inl stuck ↦ absurd (cc)
        | inr (after, done) ↦
            deliver-AllServed e message cs (update heap c after) heap' m
              (update-AllServed heap c after s
                (deliver_one-IsServed e message (heap c) after m (s c) done))
              (ground arith)
      ]

  close_send-IsServed :
      (client after : Client) → IsServed client → close_send client ≡ some after → IsServed after
  unfolding close_send
  close_send-IsServed client after s h = elim (Bool-cases client.closed) [
    | inl shut ↦ absurd (ground arith)
    | inr open_ ↦
        let same : record client { closed = true } ≡ after = ground arith in
        subst IsServed same (record { addressed = s.addressed; bounded = s.bounded })
  ]

  handle_register-AllServed :
      (cs : List ℕ) (h h' : Hub)
      → AllServed h.heap
      → handle_register cs h ≡ some h'
      → AllServed h'.heap
  unfolding handle_register
  handle_register-AllServed [] h h' s e = let same : h.heap ≡ h'.heap = cc in subst AllServed same s
  handle_register-AllServed (c ∷ cs) h h' s e =
      let same : h.heap ≡ h'.heap = ground arith in subst AllServed same s

  handle_unregister-AllServed :
      (cs : List ℕ) (h h' : Hub)
      → AllServed h.heap
      → handle_unregister cs h ≡ some h'
      → AllServed h'.heap
  unfolding handle_unregister
  handle_unregister-AllServed [] h h' s e =
      let same : h.heap ≡ h'.heap = cc in subst AllServed same s
  handle_unregister-AllServed (c ∷ cs) h h' s e = elim (Option-cases (close_send (h.heap c))) [
    | inl stuck ↦ absurd (ground arith)
    | inr (client, done) ↦
        let same : update h.heap c client ≡ h'.heap = ground arith in
        subst AllServed same
          (update-AllServed h.heap c client s (close_send-IsServed (h.heap c) client (s c) done))
  ]

  handle_broadcast-AllServed :
      (es : List Event) (h h' : Hub)
      → AllServed h.heap
      → handle_broadcast marshal es h ≡ some h'
      → AllServed h'.heap
  unfolding handle_broadcast
  handle_broadcast-AllServed [] h h' s k =
      let same : h.heap ≡ h'.heap = cc in subst AllServed same s
  handle_broadcast-AllServed (e ∷ es) h h' s k = elim (Option-cases (marshal e)) [
    | inl unsent ↦ let same : h.heap ≡ h'.heap = ground arith in subst AllServed same s
    | inr (message, m) ↦ elim (Option-cases (deliver e.session_id message h.clients h.heap)) [
      | inl stuck ↦ absurd (ground arith)
      | inr (heap, done) ↦
          let same : heap ≡ h'.heap = ground arith in
          subst AllServed same (deliver-AllServed e message h.clients h.heap heap m s done)
    ]
  ]

  -- Every round of Run keeps each client's channel served.
  pub turn-AllServed :
      (ch : Channel) (h h' : Hub)
      → AllServed h.heap
      → turn marshal ch h ≡ some h'
      → AllServed h'.heap
  unfolding turn
  turn-AllServed registers h h' s e = handle_register-AllServed h.register h h' s e
  turn-AllServed unregisters h h' s e = handle_unregister-AllServed h.unregister h h' s e
  turn-AllServed broadcasts h h' s e = handle_broadcast-AllServed h.broadcast h h' s e
