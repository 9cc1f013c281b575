-- ===== src/Hub.antt =====
-- internal/dashboard/hub.go: the hub that passes events on to the dashboard connections. A client is
-- an address in `heap`; a channel is the list of what it holds, oldest first. `none` is a panic: a
-- send on a closed channel, or a second close. json.Marshal of an event is the parameter `marshal`.
-- `Run` takes one message at a time from any of its channels that has one: `turn` is one round of
-- its loop, for the channel that `select` chose; its end by ctx.Done is a history without further rounds.
pub mod Delivery
pub mod Lifecycle
pub mod Race
pub mod Safety
pub mod History
use vexlo.Common.{
  ℕ, suc, ◌+◌, ◌≡◌, Bytes, Bool, true, false, not, ◌&&◌, ◌||◌, List, [], ◌∷◌, ◌++◌, Option, none,
  some, length, keep, ltb, leb, ◌==◌, str_eq, if◌then◌else◌,
}

pub record Event : Type 0 where
  pub kind : Bytes
  pub session_id : Bytes
  pub payload : Bytes

-- Client: its Send channel, of 128 places, and whether that has been closed.
pub record Client : Type 0 where
  pub session_id : Bytes
  pub send : List Bytes
  pub closed : Bool

abbrev pub send_capacity : ℕ
send_capacity = 128

pub record Hub : Type 0 where
  pub clients : List ℕ
  pub broadcast : List Event
  pub register : List ℕ
  pub unregister : List ℕ
  pub heap : ℕ → Client

abbrev pub has : ℕ → List ℕ → Bool
has c [] = false
has c (d ∷ ds) = (d == c) || has c ds

abbrev pub update : (ℕ → Client) → ℕ → Client → ℕ → Client
update heap c client d = if c == d then client else heap d

abbrev pub absent : Client
absent = record { session_id = []; send = []; closed = false }

-- NewHub
abbrev pub new_hub : Hub
new_hub = record {
  clients = [];
  broadcast = [];
  register = [];
  unregister = [];
  heap = λ c. absent;
}

-- Hub.Register, Hub.Unregister and Hub.Broadcast send to a channel; where it is full the caller
-- waits, and the call happens later.
unfoldable pub register : ℕ → Hub → Hub
register c h =
    if ltb (length h.register) 64 then record h { register = h.register ++ c ∷ [] } else h

unfoldable pub unregister : ℕ → Hub → Hub
unregister c h =
    if ltb (length h.unregister) 64 then record h { unregister = h.unregister ++ c ∷ [] } else h

unfoldable pub broadcast : Event → Hub → Hub
broadcast e h =
    if ltb (length h.broadcast) 512 then record h { broadcast = h.broadcast ++ e ∷ [] } else h

-- evt.SessionID != "" && client.SessionID != evt.SessionID
abbrev pub is_skipped : Bytes → Client → Bool
is_skipped session client = not (str_eq session []) && not (str_eq client.session_id session)

-- select { case client.Send <- data: default: }
unfoldable pub offer : Bytes → Client → Option Client
offer message client =
    if client.closed
    then none
    else if ltb (length client.send) send_capacity
    then some (record client { send = client.send ++ message ∷ [] })
    else some client

-- One client's round of the loop over h.clients.
unfoldable pub deliver_one : Bytes → Bytes → Client → Option Client
unfolding offer
deliver_one session message client =
    if is_skipped session client then some client else offer message client

unfoldable pub deliver : Bytes → Bytes → List ℕ → (ℕ → Client) → Option (ℕ → Client)
deliver session message [] heap = some heap
deliver session message (c ∷ cs) heap = elim (deliver_one session message (heap c)) [
  | none ↦ none
  | some client ↦ deliver session message cs (update heap c client)
]

-- close(client.Send)
unfoldable pub close_send : Client → Option Client
close_send client = if client.closed then none else some (record client { closed = true })

-- h.clients[client] = true
abbrev pub add_client : ℕ → List ℕ → List ℕ
add_client c cs = if has c cs then cs else c ∷ cs

-- delete(h.clients, client)
abbrev pub drop_client : ℕ → List ℕ → List ℕ
drop_client c = keep (λ d. not (d == c))

-- case client := <-h.register; nothing happens on an empty channel.
unfoldable pub handle_register : List ℕ → Hub → Option Hub
handle_register [] h = some h
handle_register (c ∷ rest) h = some (record h { register = rest; clients = add_client c h.clients })

-- case client := <-h.unregister
unfoldable pub handle_unregister : List ℕ → Hub → Option Hub
unfolding close_send
handle_unregister [] h = some h
handle_unregister (c ∷ rest) h = elim (close_send (h.heap c)) [
  | none ↦ none
  | some client ↦ some (record h {
    unregister = rest;
    clients = drop_client c h.clients;
    heap = update h.heap c client;
  })
]

pub data Channel : Type 0 where
  registers unregisters broadcasts : Channel

module _ (marshal : Event → Option Bytes) where
  -- case evt := <-h.broadcast
  unfoldable pub handle_broadcast : List Event → Hub → Option Hub
  handle_broadcast [] h = some h
  handle_broadcast (e ∷ rest) h = elim (marshal e) [
    | none ↦ some (record h { broadcast = rest })
    | some message ↦ elim (deliver e.session_id message h.clients h.heap) [
      | none ↦ none
      | some heap ↦ some (record h { broadcast = rest; heap = heap })
    ]
  ]

  -- One round of Run.
  unfoldable pub turn : Channel → Hub → Option Hub
  unfolding handle_register handle_unregister handle_broadcast
  turn registers h = handle_register h.register h
  turn unregisters h = handle_unregister h.unregister h
  turn broadcasts h = handle_broadcast h.broadcast h
