-- ===== src/Exchange/Finish.antt =====
-- What a call of Forward ends with.
use vexlo.Common.{
  ℕ, ◌≡◌, refl, sym, ap, ◌∙◌, subst, Bytes, Bool, true, false, List, [], ◌∷◌, Option, none, some,
  str_eq_iff, get, get-delete, if◌then◌else◌,
}
use vexlo.Exchange.{
  ForwardResponse, Exchange, take_reply, give_up, Waking, replied, cancelled, disconnected,
  with_reply, finish_forward,
}
use vexlo.Exchange.Delivery.{Reach, next, takes, gives_up, reply_reaches_asker}

-- A reply that Forward returns, if it returns one.
abbrev pub IsReplyTo : Bytes → Option ForwardResponse → Type 0
IsReplyTo req_id none = Unit
IsReplyTo req_id (some resp) = resp.id ≡ req_id

given_up :
    (c : ℕ) (x : Exchange) (o : Option ForwardResponse) (z : Exchange) (p : Option ForwardResponse)
    → Reach x
    → IsReplyTo (x.asked c) o
    → ◌≡◌ {A = Option (Exchange × Option ForwardResponse)}
        (some (give_up (x.asked c) x, o))
        (some (z, p))
    → Reach z × (get (x.asked c) z.pending ≡ none) × IsReplyTo (x.asked c) p
unfolding give_up
given_up c x o z p run own h =
    let made : give_up (x.asked c) x ≡ z = cc in
    let same : o ≡ p = cc in
    (
      subst Reach made (next run (gives_up (x.asked c) refl)),
      ap (λ (e : Exchange). get (x.asked c) e.pending) (sym made)
          ∙ get-delete (x.asked c) (x.asked c) x.pending
          ∙ ap (λ (b : Bool). if b then none else get (x.asked c) x.pending)
              ((str_eq_iff (x.asked c) (x.asked c)).1 refl),
      subst (IsReplyTo (x.asked c)) same own,
    )

-- In every history of a tunnel, and whichever case Forward's `select` takes: a call of Forward leaves
-- no channel under its identifier, and if it returns a reply then that is the reply to its own request.
pub finish_forward-IsReplyTo :
    {x y : Exchange} (wake : Waking) (is_closed : Bool) (c : ℕ) (result : Option ForwardResponse)
    → Reach x
    → finish_forward wake is_closed c x ≡ some (y, result)
    → Reach y × (get (x.asked c) y.pending ≡ none) × IsReplyTo (x.asked c) result
unfolding finish_forward take_reply
finish_forward-IsReplyTo {x} {y} replied is_closed c result run h = by_inbox (x.inbox c) refl h
  where
    by_inbox :
        (held : List ForwardResponse)
        → x.inbox c ≡ held
        → with_reply c held x ≡ some (y, result)
        → Reach y × (get (x.asked c) y.pending ≡ none) × IsReplyTo (x.asked c) result
    by_inbox [] e h = absurd (cc)
    by_inbox (resp ∷ rest) e h =
        given_up c (take_reply c rest x) (some resp) y result (next run (takes c resp rest e refl))
          (reply_reaches_asker c resp rest run e).0 h
finish_forward-IsReplyTo {x} {y} cancelled is_closed c result run h =
    given_up c x none y result run tt h
finish_forward-IsReplyTo {x} {y} disconnected true c result run h =
    given_up c x none y result run tt h
finish_forward-IsReplyTo {x} {y} disconnected false c result run h = absurd (cc)
