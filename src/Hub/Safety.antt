-- ===== src/Hub/Safety.antt =====
-- As long as Registers are taken before the Unregisters of the same clients, the hub never panics.
use vexlo.Common.{
  ℕ, ◌≡◌, refl, sym, subst, ◌∙◌, inl, inr, Bytes, true, false, ◌||◌, List, [], ◌∷◌, ◌++◌, Option,
  some, arith, length, ltb, ◌==◌, ==_iff, if◌then◌else◌, Option-cases, Bool-cases,
}
use vexlo.Hub.{
  Event, Client, Hub, Channel, registers, unregisters, broadcasts, has, update, add_client,
  drop_client, register, unregister, broadcast, deliver_one, deliver, handle_register,
  handle_unregister, handle_broadcast, turn, is_skipped, send_capacity,
}
use vexlo.Hub.Race.{has-drop_client}
use vexlo.Hub.Lifecycle.{
  World, Step, connects, disconnects, emits, receives, turns, IsSound, IsSafe, InOrder, HeadFree,
  Once, connect, disconnect, receive, Once-append, connect-IsSound, disconnect-IsSound,
  receive-IsSound,
}

has-add_client : (c d : ℕ) (cs : List ℕ) → has c (add_client d cs) ≡ (has c cs || (d == c))
has-add_client c d cs = ground (arith, ==_iff d c)

abbrev with_hub : World → Hub → World
with_hub w h = record w { hub = h }

register_each :
    (c : ℕ) (cs : List ℕ) (w : World) (d : ℕ)
    → w.hub.register ≡ c ∷ cs
    → IsSound w d
    → IsSound (with_hub w (record w.hub { register = cs; clients = add_client c w.hub.clients })) d
register_each c cs w d e s = ground (arith, has-add_client d c w.hub.clients)

register_turn :
    (cs : List ℕ) (w : World)
    → w.hub.register ≡ cs
    → IsSafe w
    → (h : Hub) × (handle_register cs w.hub ≡ some h) × IsSafe (with_hub w h)
unfolding handle_register
register_turn [] w e s = (w.hub, refl, s)
register_turn (c ∷ cs) w e s =
    (_, refl, record { each = λ d. register_each c cs w d e (s.each d); once = s.once })

unregister_each :
    (c : ℕ) (cs : List ℕ) (w : World) (d : ℕ)
    → w.hub.unregister ≡ c ∷ cs
    → has c w.hub.register ≡ false
    → has c cs ≡ false
    → IsSound w d
    → IsSound
        (with_hub w (record w.hub {
          unregister = cs;
          clients = drop_client c w.hub.clients;
          heap = update w.hub.heap c (record (w.hub.heap c) { closed = true });
        }))
        d
unregister_each c cs w d e free o s = ground (arith, has-drop_client d c w.hub.clients)

unregister_turn :
    (cs : List ℕ) (w : World)
    → w.hub.unregister ≡ cs
    → HeadFree cs w.hub.register
    → IsSafe w
    → (h : Hub) × (handle_unregister cs w.hub ≡ some h) × IsSafe (with_hub w h)
unfolding handle_unregister
unregister_turn [] w e free s = (w.hub, refl, s)
unregister_turn (c ∷ cs) w e free s =
    let once : Once (c ∷ cs) = subst Once e s.once in
    (
      _,
      ground (arith, s.each c),
      record { each = λ d. unregister_each c cs w d e free once.0 (s.each d); once = once.1 },
    )

abbrev AllOpen : (ℕ → Client) → List ℕ → Type 0
AllOpen heap cs = (d : ℕ) → has d cs ≡ true → (heap d).closed ≡ false

abbrev SameClosed : (ℕ → Client) → (ℕ → Client) → Type 0
SameClosed heap heap' = (d : ℕ) → (heap' d).closed ≡ (heap d).closed

deliver_one_open :
    (session message : Bytes) (client : Client)
    → client.closed ≡ false
    → (after : Client) × (deliver_one session message client ≡ some after) × (after.closed ≡ false)
unfolding deliver_one
deliver_one_open session message client h = (
  if is_skipped session client
      then client
      else if ltb (length client.send) send_capacity
      then record client { send = client.send ++ message ∷ [] }
      else client,
  ground arith,
  ground arith,
)

update-SameClosed :
    (heap : ℕ → Client) (c : ℕ) (after : Client)
    → after.closed ≡ (heap c).closed
    → SameClosed heap (update heap c after)
update-SameClosed heap c after h d = ground arith

deliver_open :
    (session message : Bytes) (cs : List ℕ) (heap : ℕ → Client)
    → AllOpen heap cs
    → (heap' : ℕ → Client) × (deliver session message cs heap ≡ some heap') × SameClosed heap heap'
unfolding deliver
deliver_open session message [] heap h = (heap, refl, λ d. refl)
deliver_open session message (c ∷ cs) heap h =
    let open_ : (heap c).closed ≡ false = h c (ground arith) in
    let (after, done, still) = deliver_one_open session message (heap c) open_ in
    let same = update-SameClosed heap c after (still ∙ sym open_) in
    let (heap', rest, same') =
      deliver_open session message cs (update heap c after) (λ d k. same d ∙ h d (ground arith)) in
    (heap', rw (done, deliver) rest, λ d. same' d ∙ same d)

closed_alike :
    (w : World) (heap : ℕ → Client) (es : List Event) (d : ℕ)
    → SameClosed w.hub.heap heap
    → IsSound w d
    → IsSound (with_hub w (record w.hub { broadcast = es; heap = heap })) d
closed_alike w heap es d same s = ground (arith, same d)

module _ (marshal : Event → Option Bytes) where
  broadcast_turn :
      (es : List Event) (w : World)
      → IsSafe w
      → (h : Hub) × (handle_broadcast marshal es w.hub ≡ some h) × IsSafe (with_hub w h)
  unfolding handle_broadcast
  broadcast_turn [] w s = (w.hub, refl, s)
  broadcast_turn (e ∷ es) w s = elim (Option-cases (marshal e)) [
    | inl none_ ↦ (
      record w.hub { broadcast = es },
      ground arith,
      record { each = λ d. closed_alike w w.hub.heap es d (λ c. refl) (s.each d); once = s.once },
    )
    | inr (message, m) ↦
        let (heap, done, same) =
          deliver_open e.session_id message w.hub.clients w.hub.heap (λ d. (s.each d).listed) in
        (
          record w.hub { broadcast = es; heap = heap },
          ground arith,
          record { each = λ d. closed_alike w heap es d same (s.each d); once = s.once },
        )
  ]

  -- In a safe world, a round of Run on a channel that is in order does not panic, and leaves the
  -- world safe.
  pub turn-IsSafe :
      (ch : Channel) (w : World)
      → IsSafe w
      → InOrder ch w.hub
      → (h : Hub) × (turn marshal ch w.hub ≡ some h) × IsSafe (with_hub w h)
  unfolding turn
  turn-IsSafe registers w s o = register_turn w.hub.register w refl s
  turn-IsSafe unregisters w s o = unregister_turn w.hub.unregister w refl o s
  turn-IsSafe broadcasts w s o = broadcast_turn w.hub.broadcast w s

  disconnect-Once :
      (c : ℕ) (w : World)
      → has c w.hub.unregister ≡ false
      → Once w.hub.unregister
      → Once (disconnect c w).hub.unregister
  unfolding disconnect unregister
  disconnect-Once c w h o = ground (arith, Once-append c w.hub.unregister o h)

  emit-IsSafe : (e : Event) (w : World) → IsSafe w → IsSafe (with_hub w (broadcast e w.hub))
  unfolding broadcast
  emit-IsSafe e w s = elim (Bool-cases (ltb (length w.hub.broadcast) 512)) [
    | inl room ↦
        rw room (record {
          each = λ d. closed_alike w w.hub.heap _ d (λ c. refl) (s.each d);
          once = s.once;
        })
    | inr full ↦ rw full s
  ]

  pub Step-IsSafe : (w v : World) → IsSafe w → Step marshal w v → IsSafe v
  Step-IsSafe w v s (connects c session fresh room e) = subst IsSafe (sym e) (record {
    each = λ d. connect-IsSound c session w d fresh (s.each d);
    once = unfold connect register in ground arith;
  })
  Step-IsSafe w v s (disconnects c runs room e) = subst IsSafe (sym e) (record {
    each = λ d. disconnect-IsSound c w d runs (s.each c) (s.each d);
    once = disconnect-Once c w ((s.each c).runs runs).1 s.once;
  })
  Step-IsSafe w v s (emits e k) = subst IsSafe (sym k) (emit-IsSafe e w s)
  Step-IsSafe w v s (receives c m rest p e) = subst IsSafe (sym e) (record {
    each = λ d. receive-IsSound c rest w d (s.each d);
    once = unfold receive in s.once;
  })
  Step-IsSafe w v s (turns ch h o t e) =
      let (h', t', s') = turn-IsSafe ch w s o in
      let same : h' ≡ h = cc in subst IsSafe (sym e) (subst (λ g. IsSafe (with_hub w g)) same s')
