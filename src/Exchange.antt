-- ===== src/Exchange.antt =====
-- internal/server/tunnel.go: the replies to forwarded requests, in Forward and readLoop, for one
-- tunnel. Each call of Forward makes a channel of its own with one place; a channel is an address in
-- `inbox`, and `asked` is the reqID of the call that made it. `none` is a send that waits for ever:
-- the readLoop would hang on a full channel. A map's zero value, the nil channel, is `none` of `get`.
pub mod Delivery
pub mod Finish
pub mod Loop
use vexlo.Common.{
  ℕ, suc, ℤ, Bytes, Bool, List, [], ◌∷◌, Option, none, some, ◌==◌, if◌then◌else◌, Map, get, put,
  delete,
}

-- protocol.ForwardRequest
pub record ForwardRequest : Type 0 where
  pub id : Bytes
  pub method : Bytes
  pub path : Bytes
  pub query : Bytes
  pub headers : Map (List Bytes)
  pub body : Bytes
  pub target_port : ℤ
  pub received_at : ℕ

-- protocol.ForwardResponse
pub record ForwardResponse : Type 0 where
  pub id : Bytes
  pub status_code : ℕ
  pub headers : Map (List Bytes)
  pub body : Bytes
  pub duration_ms : ℤ
  pub error : Bytes

pub record Exchange : Type 0 where
  pub pending : Map ℕ
  pub inbox : ℕ → List ForwardResponse
  pub asked : ℕ → Bytes
  pub next : ℕ

abbrev pub no_exchange : Exchange
no_exchange = record { pending = []; inbox = λ c. []; asked = λ c. []; next = 0 }

abbrev pub set_at {ℓ} : {A : Type ℓ} → (ℕ → A) → ℕ → A → ℕ → A
set_at f c a d = if c == d then a else f d

-- Forward, up to its `select`: a new channel, under the request's identifier
unfoldable pub ask : Bytes → Exchange → Exchange
ask req_id x = record x {
  pending = put req_id x.next x.pending;
  inbox = set_at x.inbox x.next [];
  asked = set_at x.asked x.next req_id;
  next = suc x.next;
}

-- ch <- &resp, for a channel with one place
abbrev pub put_reply : ForwardResponse → ℕ → List ForwardResponse → Exchange → Option Exchange
put_reply resp c [] x = some (record x { inbox = set_at x.inbox c (resp ∷ []) })
put_reply resp c (first ∷ rest) x = none

abbrev pub hand_over : ForwardResponse → Option ℕ → Exchange → Option Exchange
hand_over resp none x = some x
hand_over resp (some c) x = put_reply resp c (x.inbox c) x

-- readLoop, for a message of the type forward_response
unfoldable pub reply : ForwardResponse → Exchange → Option Exchange
reply resp x =
    hand_over resp (get resp.id x.pending) (record x { pending = delete resp.id x.pending })

-- case resp := <-ch
unfoldable pub take_reply : ℕ → List ForwardResponse → Exchange → Exchange
take_reply c rest x = record x { inbox = set_at x.inbox c rest }

-- The deferred delete of Forward, however it ends.
unfoldable pub give_up : Bytes → Exchange → Exchange
give_up req_id x = record x { pending = delete req_id x.pending }

-- The case that Forward's `select` takes: a reply, its context's end, or the end of the tunnel.
pub data Waking : Type 0 where
  replied cancelled disconnected : Waking

abbrev pub with_reply :
    ℕ → List ForwardResponse → Exchange → Option (Exchange × Option ForwardResponse)
with_reply c [] x = none
with_reply c (resp ∷ rest) x = some (give_up (x.asked c) (take_reply c rest x), some resp)

-- Forward, from its `select` on, for the call that made the channel c, with what it returns; the outer
-- `none` is a case that cannot be taken.
unfoldable pub finish_forward :
    Waking → Bool → ℕ → Exchange → Option (Exchange × Option ForwardResponse)
unfolding take_reply give_up
finish_forward replied is_closed c x = with_reply c (x.inbox c) x
finish_forward cancelled is_closed c x = some (give_up (x.asked c) x, none)
finish_forward disconnected is_closed c x =
    if is_closed then some (give_up (x.asked c) x, none) else none
