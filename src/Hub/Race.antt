-- ===== src/Hub/Race.antt =====
-- The two channels of the hub race: `select` may take the Unregister of a client before its
-- Register, which puts a client with a closed channel into the map for good.
use vexlo.Common.{
  ℕ, ◌≡◌, refl, ◌⊎◌, Bytes, true, false, not, ◌&&◌, List, [], ◌∷◌, Option, none, some, arith, ◌==◌,
  ==_iff, str_eq_iff,
}
use vexlo.Hub.{
  Event, Client, Hub, registers, unregisters, broadcasts, has, update, add_client, drop_client,
  register, unregister, broadcast, deliver_one, deliver, turn,
}

pub has-drop_client :
    (c d : ℕ) (cs : List ℕ) → has c (drop_client d cs) ≡ (has c cs && not (d == c))
has-drop_client c d [] = refl
has-drop_client c d (x ∷ cs) = ground (arith, has-drop_client c d cs)

deliver_one_closed :
    (session message : Bytes) (client : Client)
    → client.closed ≡ true
    → (session ≡ []) ⊎ (session ≡ client.session_id)
    → deliver_one session message client ≡ none
unfolding deliver_one
deliver_one_closed session message client h k =
    ground (arith, str_eq_iff session [], str_eq_iff client.session_id session)

deliver_closed :
    (session message : Bytes) (c : ℕ) (cs : List ℕ) (heap : ℕ → Client)
    → (heap c).closed ≡ true
    → (session ≡ []) ⊎ (session ≡ (heap c).session_id)
    → deliver session message (c ∷ cs) heap ≡ none
unfolding deliver
deliver_closed session message c cs heap h k =
    rw (deliver_one_closed session message (heap c) h k, deliver)

-- The map with the late client in it, its channel closed.
abbrev pub stale : ℕ → Hub → Hub
stale c h = record h {
  clients = c ∷ drop_client c h.clients;
  heap = update h.heap c (record (h.heap c) { closed = true });
}

add_client-drop_client :
    (c : ℕ) (cs : List ℕ) → add_client c (drop_client c cs) ≡ c ∷ drop_client c cs
add_client-drop_client c cs = ground (arith, has-drop_client c c cs)

module _ (marshal : Event → Option Bytes) (c : ℕ) (h : Hub) where
  abbrev pub IsIdle : Type 0
  IsIdle = (h.register ≡ []) × (h.unregister ≡ []) × (h.broadcast ≡ [])

  abbrev both : Hub
  both = record h { register = c ∷ []; unregister = c ∷ [] }

  abbrev closed_first : Hub
  closed_first = record (stale c h) { clients = drop_client c h.clients; register = c ∷ [] }

  connected : IsIdle → unregister c (register c h) ≡ both
  unfolding register unregister
  connected idle = ground arith

  first_round :
      IsIdle → (h.heap c).closed ≡ false → turn marshal unregisters both ≡ some closed_first
  unfolding turn
  first_round idle open_ = ground arith

  second_round : IsIdle → turn marshal registers closed_first ≡ some (stale c h)
  unfolding turn
  second_round idle = ground (arith, add_client-drop_client c h.clients)

  last_round :
      (e : Event) (message : Bytes)
      → IsIdle
      → marshal e ≡ some message
      → (e.session_id ≡ []) ⊎ (e.session_id ≡ (h.heap c).session_id)
      → turn marshal broadcasts (broadcast e (stale c h)) ≡ none
  unfolding turn broadcast
  last_round e message idle m whose = ground (
    arith,
    deliver_closed e.session_id message c (drop_client c h.clients) (stale c h).heap,
    ==_iff c c,
  )

  has-stale : has c (stale c h).clients ≡ true
  has-stale = ground (arith, ==_iff c c)

  closed-stale : ((stale c h).heap c).closed ≡ true
  closed-stale = ground (arith, ==_iff c c)

  -- If a client's Register and Unregister both wait in an idle hub and `select` takes the
  -- Unregister first, both rounds succeed and leave the client in the map with its channel closed,
  -- so that the next event that is for its session, or for all, and can be encoded makes the hub
  -- panic.
  pub select_may_panic :
      (e : Event) (message : Bytes)
      → IsIdle
      → (h.heap c).closed ≡ false
      → marshal e ≡ some message
      → (e.session_id ≡ []) ⊎ (e.session_id ≡ (h.heap c).session_id)
      → (h1 : Hub) × (h2 : Hub) × (turn marshal unregisters (unregister c (register c h)) ≡ some h1)
        × (turn marshal registers h1 ≡ some h2)
        × (has c h2.clients ≡ true)
        × ((h2.heap c).closed ≡ true)
        × (turn marshal broadcasts (broadcast e h2) ≡ none)
  select_may_panic e message idle open_ m whose = (
    closed_first,
    stale c h,
    rw (connected idle) (first_round idle open_),
    second_round idle,
    has-stale,
    closed-stale,
    last_round e message idle m whose,
  )
