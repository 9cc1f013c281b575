-- ===== src/Sockets.antt =====
-- The places of long connections: handleEventsWS of internal/server/websocket.go up to the hub's
-- Register, and the accept loop of internal/server/binary.go for one connection. Their channels of slots
-- are counts, with the capacities that New gives them. `is_accepted` is whether websocket.Accept
-- returns no error; it has answered the request itself then, which is the status 0 here.
use vexlo.Common.{
  ℕ, suc, ◌≤◌, ◌≡◌, refl, Bytes, codes, Bool, true, false, [], ltb, arith, if◌then◌else◌,
}
use vexlo.Tunnels.{TunnelManager}
use vexlo.Slots.{acquire_slot, release_slot}
use vexlo.Access.{HttpRequest, Answer, fail, done, authorize}

-- acceptBinary for one connection: whether it is handled, or else closed
unfoldable pub accept_binary : ℕ → ℕ → ℕ × Bool
unfolding acquire_slot
accept_binary capacity slots = acquire_slot capacity slots

abbrev pub accepted_or_released : Bool → ℕ → Bytes → ℕ × Answer Bytes
unfolding release_slot
accepted_or_released true slots session_id = (slots, done session_id)
accepted_or_released false slots session_id = (release_slot slots, fail 0 [])

abbrev pub take_socket : ℕ → Bool → ℕ → Answer Bytes → ℕ × Answer Bytes
unfolding acquire_slot accepted_or_released
take_socket capacity is_accepted slots (fail status text) = (slots, fail status text)
take_socket capacity is_accepted slots (done session_id) =
    let (taken, got) = acquire_slot capacity slots in
    if got
    then accepted_or_released is_accepted taken session_id
    else (taken, fail 429 (codes "dashboard connection limit reached"))

module _ (sha256_hex : Bytes → Bytes) where
  -- handleEventsWS, with the session whose events it goes on to pass
  unfoldable pub open_events :
      ℕ → Bool → HttpRequest → Bool → ℕ → TunnelManager → ℕ → ℕ × Answer Bytes
  unfolding authorize take_socket
  open_events capacity down req is_accepted now m slots =
      take_socket capacity is_accepted slots (authorize sha256_hex down req now m)

-- What became of the slots: a place is held just by a connection that goes on.
abbrev IsPlaced : ℕ → ℕ → Answer Bytes → ℕ × Answer Bytes → Type 0
IsPlaced capacity slots let_in (n, fail status text) = n ≡ slots
IsPlaced capacity slots let_in (n, done session_id) =
    (n ≡ suc slots) × (n ≤ capacity) × (let_in ≡ done session_id)

take_socket-IsPlaced :
    (capacity slots : ℕ) (is_accepted : Bool) (let_in : Answer Bytes)
    → IsPlaced capacity slots let_in (take_socket capacity is_accepted slots let_in)
unfolding take_socket acquire_slot accepted_or_released release_slot
take_socket-IsPlaced capacity slots is_accepted (fail status text) = refl
take_socket-IsPlaced capacity slots is_accepted (done session_id) =
    by_room (ltb slots capacity) refl is_accepted
  where
    by_room :
        (b : Bool)
        → ltb slots capacity ≡ b
        → (a : Bool)
        → IsPlaced capacity slots (done session_id) (
            let p : ℕ × Bool = if b then (suc slots, true) else (slots, false) in
            if p.1
            then accepted_or_released a p.0 session_id
            else (p.0, fail 429 (codes "dashboard connection limit reached")))
    by_room true e true = (refl, ground arith, refl)
    by_room true e false = omega arith
    by_room false e a = refl

module _ (sha256_hex : Bytes → Bytes) where
  -- A dashboard connection holds a place just when it goes on, and then its session is the one that
  -- authorize let it through for, and no more places are held than the channel has.
  open_events-IsPlaced :
      (capacity : ℕ) (down : Bool) (req : HttpRequest) (is_accepted : Bool) (now : ℕ)
      (m : TunnelManager) (slots : ℕ)
      → IsPlaced capacity slots
          (authorize sha256_hex down req now m)
          (open_events sha256_hex capacity down req is_accepted now m slots)
  unfolding open_events
  open_events-IsPlaced capacity down req is_accepted now m slots =
      take_socket-IsPlaced capacity slots is_accepted (authorize sha256_hex down req now m)
