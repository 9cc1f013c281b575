-- ===== src/Hub/History.antt =====
-- Every history of the hub from its start, in order.
use vexlo.Common.{ℕ, ◌≡◌, sym, ap, ◌∙◌, subst, Bytes, false, List, ◌∷◌, Option, some, arith, length}
use vexlo.Hub.{Event, Client, Hub, Channel, new_hub, register, unregister, broadcast, turn}
use vexlo.Hub.Lifecycle.{
  World, Step, connects, disconnects, emits, receives, turns, IsSafe, InOrder, connect, disconnect,
  receive,
}
use vexlo.Hub.Delivery.{IsServed, AllServed, AllAddressed, update-AllServed, turn-AllServed}
use vexlo.Hub.Safety.{Step-IsSafe, turn-IsSafe}

abbrev pub start : World
start = record { hub = new_hub; running = λ c. false; used = λ c. false }

heap-register : (c : ℕ) (h : Hub) → (register c h).heap ≡ h.heap
unfolding register
heap-register c h = ground arith

heap-unregister : (c : ℕ) (h : Hub) → (unregister c h).heap ≡ h.heap
unfolding unregister
heap-unregister c h = ground arith

heap-broadcast : (e : Event) (h : Hub) → (broadcast e h).heap ≡ h.heap
unfolding broadcast
heap-broadcast e h = ground arith

abbrev pub heap_of : World → ℕ → Client
heap_of w = w.hub.heap

module _ (marshal : Event → Option Bytes) where
  pub data Reach : World → Type 0 where
    here : Reach start
    next : {w v : World} → Reach w → Step marshal w v → Reach v

  start-IsSafe : IsSafe start
  start-IsSafe = record { each = λ c. ground arith; once = tt }

  Reach-IsSafe : {w : World} → Reach w → IsSafe w
  Reach-IsSafe here = start-IsSafe
  Reach-IsSafe (next r st) = Step-IsSafe marshal _ _ (Reach-IsSafe r) st

  -- In every history in which no Unregister is taken before the Register of the same client, no
  -- round of Run panics, whatever connections come and go, and whatever events come.
  pub never_panics :
      {w : World} (ch : Channel)
      → Reach w
      → InOrder ch w.hub
      → (h : Hub) × (turn marshal ch w.hub ≡ some h)
  never_panics {w} ch r o = let (h, t, s) = turn-IsSafe marshal ch w (Reach-IsSafe r) o in (h, t)

  receive-IsServed :
      (client : Client) (m : Bytes) (rest : List Bytes)
      → client.send ≡ m ∷ rest
      → IsServed marshal client
      → IsServed marshal (record client { send = rest })
  receive-IsServed client m rest e s = record {
    addressed = (subst (AllAddressed marshal client.session_id) e s.addressed).1;
    bounded = omega (arith, ap length e, s.bounded);
  }

  Step-AllServed :
      (w v : World)
      → AllServed marshal (heap_of w)
      → Step marshal w v
      → AllServed marshal (heap_of v)
  unfolding connect disconnect receive
  Step-AllServed w v s (connects c session fresh room e) =
      subst (AllServed marshal) (sym (ap heap_of e ∙ heap-register c _)) (
        update-AllServed marshal w.hub.heap c _ s
          (record { addressed = tt; bounded = omega arith }))
  Step-AllServed w v s (disconnects c runs room e) =
      subst (AllServed marshal) (sym (ap heap_of e ∙ heap-unregister c _)) s
  Step-AllServed w v s (emits e k) =
      subst (AllServed marshal) (sym (ap heap_of k ∙ heap-broadcast e _)) s
  Step-AllServed w v s (receives c m rest p e) =
      subst (AllServed marshal) (sym (ap heap_of e))
        (update-AllServed marshal w.hub.heap c _ s (receive-IsServed (w.hub.heap c) m rest p (s c)))
  Step-AllServed w v s (turns ch h o t e) =
      subst (AllServed marshal) (sym (ap heap_of e)) (turn-AllServed marshal ch w.hub h s t)

  -- In every history in which no Unregister is taken before the Register of the same client, what
  -- waits in a client's channel are events that were addressed to its session or to all sessions,
  -- and at most 128 of them.
  pub Reach-AllServed : {w : World} → Reach w → AllServed marshal (heap_of w)
  Reach-AllServed here = λ c. record { addressed = tt; bounded = omega arith }
  Reach-AllServed (next r st) = Step-AllServed _ _ (Reach-AllServed r) st
