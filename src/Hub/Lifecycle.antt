-- ===== src/Hub/Lifecycle.antt =====
-- The hub with its dashboard connections (internal/server/websocket.go, handleEventsWS): each
-- registers a client of its own, reads from its channel, and unregisters it when it ends. A history
-- is a sequence of steps in any order, but for one rule, `InOrder`: a client's Unregister is not
-- taken while its Register waits.
use vexlo.Common.{
  ℕ, ◌<◌, ◌≡◌, Bytes, Bool, true, false, ◌||◌, List, [], ◌∷◌, ◌++◌, Option, some, arith, length,
  ◌==◌, if◌then◌else◌,
}
use vexlo.Hub.{
  Event, Client, Hub, Channel, unregisters, has, update, register, unregister, broadcast, turn,
}

-- The hub, the connections that run, and the clients that have been made.
pub record World : Type 0 where
  pub hub : Hub
  pub running : ℕ → Bool
  pub used : ℕ → Bool

abbrev flag : (ℕ → Bool) → ℕ → Bool → ℕ → Bool
flag f c b d = if c == d then b else f d

-- client := &dashboard.Client{SessionID: sessionID, Send: make(chan []byte, 128)}; hub.Register
unfoldable pub connect : ℕ → Bytes → World → World
connect c session w =
    let made : Client = record { session_id = session; send = []; closed = false } in
    record {
      hub = register c (record w.hub { heap = update w.hub.heap c made });
      running = flag w.running c true;
      used = flag w.used c true;
    }

-- defer hub.Unregister
unfoldable pub disconnect : ℕ → World → World
disconnect c w = record w { hub = unregister c w.hub; running = flag w.running c false }

-- case msg := <-client.Send
unfoldable pub receive : ℕ → List Bytes → World → World
receive c rest w = record w {
  hub = record w.hub { heap = update w.hub.heap c (record (w.hub.heap c) { send = rest }) };
}

-- The client whose Unregister comes next has no Register waiting.
abbrev pub HeadFree : List ℕ → List ℕ → Type 0
HeadFree [] waiting = Unit
HeadFree (c ∷ rest) waiting = has c waiting ≡ false

abbrev pub InOrder : Channel → Hub → Type 0
InOrder unregisters h = HeadFree h.unregister h.register
InOrder _ h = Unit

module _ (marshal : Event → Option Bytes) where
  pub data Step (w : World) (v : World) : Type 0 where
    connects :
        (c : ℕ) (session : Bytes)
        → w.used c ≡ false
        → length w.hub.register < 64
        → v ≡ connect c session w
        → Step w v
    disconnects :
        (c : ℕ) → w.running c ≡ true → length w.hub.unregister < 64 → v ≡ disconnect c w → Step w v
    emits : (e : Event) → v ≡ record w { hub = broadcast e w.hub } → Step w v
    receives :
        (c : ℕ) (m : Bytes) (rest : List Bytes)
        → (w.hub.heap c).send ≡ m ∷ rest
        → v ≡ receive c rest w
        → Step w v
    turns :
        (ch : Channel) (h : Hub)
        → InOrder ch w.hub
        → turn marshal ch w.hub ≡ some h
        → v ≡ record w { hub = h }
        → Step w v

abbrev pub Once : List ℕ → Type 0
Once [] = Unit
Once (c ∷ cs) = (has c cs ≡ false) × Once cs

-- What holds of one client: its channel is open as long as the hub can still send on it or close
-- it, and the connections that run have one Unregister still to come.
pub record IsSound (w : World) (c : ℕ) : Type 0 where
  pub listed : has c w.hub.clients ≡ true → (w.hub.heap c).closed ≡ false
  pub arriving : has c w.hub.register ≡ true → (w.hub.heap c).closed ≡ false
  pub leaving : has c w.hub.unregister ≡ true → (w.hub.heap c).closed ≡ false
  pub runs : w.running c ≡ true → ((w.hub.heap c).closed ≡ false) × (has c w.hub.unregister ≡ false)
  pub unused : w.used c ≡ false → (has c w.hub.unregister ≡ false) × (w.running c ≡ false)

pub record IsSafe (w : World) : Type 0 where
  pub each : (c : ℕ) → IsSound w c
  pub once : Once w.hub.unregister

pub has-append : (c d : ℕ) (cs : List ℕ) → has c (cs ++ d ∷ []) ≡ (has c cs || (d == c))
has-append c d [] = ground arith
has-append c d (x ∷ cs) = ground (arith, has-append c d cs)

pub Once-append : (c : ℕ) (cs : List ℕ) → Once cs → has c cs ≡ false → Once (cs ++ c ∷ [])
Once-append c [] o h = ground arith
Once-append c (x ∷ cs) o h = ground (arith, Once-append c cs o.1, has-append x c cs)

pub connect-IsSound :
    (c : ℕ) (session : Bytes) (w : World) (d : ℕ)
    → w.used c ≡ false
    → IsSound w d
    → IsSound (connect c session w) d
unfolding connect register
connect-IsSound c session w d fresh s = ground (arith, has-append d c w.hub.register)

pub disconnect-IsSound :
    (c : ℕ) (w : World) (d : ℕ)
    → w.running c ≡ true
    → IsSound w c
    → IsSound w d
    → IsSound (disconnect c w) d
unfolding disconnect unregister
disconnect-IsSound c w d runs sc s = ground (arith, has-append d c w.hub.unregister)

pub receive-IsSound :
    (c : ℕ) (rest : List Bytes) (w : World) (d : ℕ) → IsSound w d → IsSound (receive c rest w) d
unfolding receive
receive-IsSound c rest w d s = ground arith
