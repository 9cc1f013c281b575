-- ===== src/Exchange/Delivery.antt =====
-- Replies reach the calls that asked for them.
use vexlo.Common.{
  ℕ, ◌<◌, ◌≡◌, refl, sym, subst, Bytes, Bool, true, false, List, [], ◌∷◌, some, arith, ◌==◌, ==_iff,
  str_eq_iff, if◌then◌else◌, get, delete, get-put, get-delete, Option-cases, Bool-cases, inl, inr,
  ap, ◌∙◌,
}
use vexlo.Exchange.{ForwardResponse, Exchange, no_exchange, set_at, ask, reply, take_reply, give_up}

-- What a channel holds is at most one reply, and that is for the request of the call that made it.
abbrev pub IsOwn : Bytes → List ForwardResponse → Type 0
IsOwn req_id [] = Unit
IsOwn req_id (resp ∷ []) = resp.id ≡ req_id
IsOwn req_id (resp ∷ other ∷ rest) = ⊥

-- The channels that are waited for are empty, and stand under the identifier of their own request.
pub record IsOrderly (x : Exchange) : Type 0 where
  pub waits :
      (k : Bytes) (c : ℕ)
      → get k x.pending ≡ some c
      → (x.inbox c ≡ []) × (x.asked c ≡ k) × (c < x.next)
  pub own : (c : ℕ) → IsOwn (x.asked c) (x.inbox c)

-- The calls of Forward and the readLoop of a tunnel, in any order.
pub data Step (x : Exchange) (y : Exchange) : Type 0 where
  asks : (req_id : Bytes) → y ≡ ask req_id x → Step x y
  replies : (resp : ForwardResponse) → reply resp x ≡ some y → Step x y
  takes :
      (c : ℕ) (resp : ForwardResponse) (rest : List ForwardResponse)
      → x.inbox c ≡ resp ∷ rest
      → y ≡ take_reply c rest x
      → Step x y
  gives_up : (req_id : Bytes) → y ≡ give_up req_id x → Step x y

pub data Reach : Exchange → Type 0 where
  here : Reach no_exchange
  next : {x y : Exchange} → Reach x → Step x y → Reach y

ask-IsOrderly : (req_id : Bytes) (x : Exchange) → IsOrderly x → IsOrderly (ask req_id x)
unfolding ask
ask-IsOrderly req_id x o = record {
  waits = λ k c e.
      ground (
        arith,
        get-put req_id k x.next x.pending,
        str_eq_iff req_id k,
        ==_iff x.next c,
        o.waits k c,
      );
  own = λ c. placed c (x.next == c);
}
  where
    placed :
        (c : ℕ) (b : Bool) → IsOwn (if b then req_id else x.asked c) (if b then [] else x.inbox c)
    placed c true = tt
    placed c false = o.own c

give_up-IsOrderly : (req_id : Bytes) (x : Exchange) → IsOrderly x → IsOrderly (give_up req_id x)
unfolding give_up
give_up-IsOrderly req_id x o = record {
  waits = λ k c e. ground (arith, get-delete req_id k x.pending, str_eq_iff req_id k, o.waits k c);
  own = o.own;
}

IsOwn-rest :
    (req_id : Bytes) (resp : ForwardResponse) (rest : List ForwardResponse)
    → IsOwn req_id (resp ∷ rest)
    → IsOwn req_id rest
IsOwn-rest req_id resp [] h = tt
IsOwn-rest req_id resp (other ∷ rest) h = absurd h

take_reply-IsOrderly :
    (c : ℕ) (resp : ForwardResponse) (rest : List ForwardResponse) (x : Exchange)
    → x.inbox c ≡ resp ∷ rest
    → IsOrderly x
    → IsOrderly (take_reply c rest x)
unfolding take_reply
take_reply-IsOrderly c resp rest x e o = record {
  waits = λ k d w. ground (arith, ==_iff c d, o.waits k d);
  own = λ d. elim (Bool-cases (c == d)) [
    | inl same ↦ rw same (subst (λ (i : ℕ). IsOwn (x.asked i) rest) ((==_iff c d).0 same) rest_own)
    | inr other ↦ rw other (o.own d)
  ];
}
  where
    rest_own : IsOwn (x.asked c) rest
    rest_own = IsOwn-rest (x.asked c) resp rest (subst (IsOwn (x.asked c)) e (o.own c))

-- The reply is put in the empty channel that waits for it, or there is none that does.
reply-delivers :
    (resp : ForwardResponse) (x : Exchange)
    → IsOrderly x
    → (y : Exchange) × (reply resp x ≡ some y) × IsOrderly y
unfolding reply
reply-delivers resp x o = elim (Option-cases (get resp.id x.pending)) [
  | inl e ↦ (removed, rw e, removed_orderly)
  | inr (c, e) ↦
      let (empty, mine, low) = o.waits resp.id c e in
      (
        record removed { inbox = set_at x.inbox c (resp ∷ []) },
        rw (e, empty),
        record {
          waits = λ k d w. ground (
            arith,
            get-delete resp.id k x.pending,
            str_eq_iff resp.id k,
            ==_iff c d,
            o.waits k d,
          );
          own = λ d. elim (Bool-cases (c == d)) [
            | inl same ↦ rw same (sym mine ∙ ap x.asked ((==_iff c d).0 same))
            | inr other ↦ rw other (o.own d)
          ];
        },
      )
]
  where
    removed : Exchange
    removed = record x { pending = delete resp.id x.pending }

    removed_orderly : IsOrderly removed
    removed_orderly = record {
      waits = λ k c e.
          ground (arith, get-delete resp.id k x.pending, str_eq_iff resp.id k, o.waits k c);
      own = o.own;
    }

Step-IsOrderly : (x y : Exchange) → Step x y → IsOrderly x → IsOrderly y
Step-IsOrderly x y (asks req_id e) o = subst IsOrderly (sym e) (ask-IsOrderly req_id x o)
Step-IsOrderly x y (replies resp e) o =
    let (z, same, orderly) = reply-delivers resp x o in
    let arrived : z ≡ y = cc in subst IsOrderly arrived orderly
Step-IsOrderly x y (takes c resp rest held e) o =
    subst IsOrderly (sym e) (take_reply-IsOrderly c resp rest x held o)
Step-IsOrderly x y (gives_up req_id e) o = subst IsOrderly (sym e) (give_up-IsOrderly req_id x o)

Reach-IsOrderly : {x : Exchange} → Reach x → IsOrderly x
unfolding get
Reach-IsOrderly here = record { waits = λ k c e. absurd (cc); own = λ c. tt }
Reach-IsOrderly (next {x} {y} run step) = Step-IsOrderly x y step (Reach-IsOrderly run)

-- However requests are forwarded, answered late, twice or never, and given up, the loop that reads a
-- tunnel's replies never hangs on one.
pub reply_never_hangs :
    {x : Exchange} (resp : ForwardResponse) → Reach x → (y : Exchange) × (reply resp x ≡ some y)
reply_never_hangs {x} resp run =
    let (y, arrived, orderly) = reply-delivers resp x (Reach-IsOrderly run) in (y, arrived)

-- In every history of a tunnel, what waits in a call's channel is one reply, and it is the reply to
-- the request of that call.
pub reply_reaches_asker :
    {x : Exchange} (c : ℕ) (got : ForwardResponse) (rest : List ForwardResponse)
    → Reach x
    → x.inbox c ≡ got ∷ rest
    → (got.id ≡ x.asked c) × (rest ≡ [])
reply_reaches_asker {x} c got rest run held =
    alone (x.asked c) rest (subst (IsOwn (x.asked c)) held ((Reach-IsOrderly run).own c))
  where
    alone :
        (req_id : Bytes) (rest : List ForwardResponse)
        → IsOwn req_id (got ∷ rest)
        → (got.id ≡ req_id) × (rest ≡ [])
    alone req_id [] h = (h, refl)
    alone req_id (other ∷ rest) h = absurd h
