-- ===== src/Lifecycle/Order.antt =====
-- The order of a shutdown.
use vexlo.Common.{
  suc, ◌≡◌, refl, sym, ap, ◌∙◌, subst, Bool, true, false, not, ◌&&◌, ◌||◌, List, [], ◌∷◌, Option,
  none, some, some-injective, arith, ltb, ◌==◌, ==_iff, if◌then◌else◌,
}
use vexlo.Storage.{Db}
use vexlo.Storage.Writer.{Job, Writer, cancel, close, send, give_up, turn}
use vexlo.Storage.Writer.Order.{turn-closed}
use vexlo.Lifecycle.{
  Stage, waiting, emptying, closing, joining, finished, Process, started, Event, signal, arrives,
  leaves, takes_over, leaves_socket, enters_shutdown, empties, closes_queue, joins, returns,
  enqueues, writes, when, is_at, is_stopped, with_writer, enqueue, step_of, step, and_then, run,
}

-- Whether the handlers have ended, by where shutdown is, and whether Close may have been called.
abbrev is_past : Stage → Bool
is_past waiting = false
is_past emptying = false
is_past closing = true
is_past joining = true
is_past finished = true

-- No handler runs once shutdown is past its wait for them, none can begin, and the queue is closed
-- only then.
record IsOrdered (p : Process) : Type 0 where
  listening : p.is_listening ≡ true → p.stage ≡ waiting
  none_run : is_past p.stage ≡ true → p.handlers ≡ 0
  closed : p.writer.is_closed ≡ true → is_past p.stage ≡ true

enqueue-closed :
    (gives_up : Bool) (job : Job) (w u : Writer)
    → enqueue gives_up job w ≡ some u
    → u.is_closed ≡ w.is_closed
unfolding give_up send
enqueue-closed true job w u h = ground arith
enqueue-closed false job w u h = ground arith

with_writer-IsOrdered :
    (p q : Process) (o : Option Writer)
    → ((u : Writer) → o ≡ some u → u.is_closed ≡ p.writer.is_closed)
    → with_writer p o ≡ some q
    → IsOrdered p
    → IsOrdered q
with_writer-IsOrdered p q none kept h i = absurd (cc)
with_writer-IsOrdered p q (some w) kept h i =
    subst IsOrdered (some-injective (record p { writer = w }) q h) (record {
      listening = i.listening;
      none_run = i.none_run;
      closed = λ e. i.closed (sym (kept w refl) ∙ e);
    })

when-some : (b : Bool) (p q : Process) → when b p ≡ some q → (b ≡ true) × (p ≡ q)
when-some true p q h = (refl, some-injective p q h)
when-some false p q h = absurd (cc)

waiting_not_past : (s : Stage) → is_at s waiting ≡ true → is_past s ≡ false
waiting_not_past s h = ground arith

closing_past : (s : Stage) → is_at s closing ≡ true → is_past s ≡ true
closing_past s h = ground arith

joining_past : (s : Stage) → is_at s joining ≡ true → is_past s ≡ true
joining_past s h = ground arith

-- While requests may come in, shutdown is not past its wait.
open_not_past :
    (p : Process)
    → (p.is_listening || is_at p.stage emptying) ≡ true
    → IsOrdered p
    → is_past p.stage ≡ false
open_not_past p h i = by_listening p.is_listening p.stage h i.listening
  where
    by_listening :
        (b : Bool) (s : Stage)
        → (b || is_at s emptying) ≡ true
        → (b ≡ true → s ≡ waiting)
        → is_past s ≡ false
    by_listening true s h l = ap is_past (l refl)
    by_listening false s h l = ground arith

-- A stage at which it no longer waits.
past_listening :
    {P : Type 0} (s t : Stage) → is_at waiting t ≡ false → is_at s t ≡ true → s ≡ waiting → P
past_listening s t apart at w =
    let no : false ≡ true = sym apart ∙ ap (λ (x : Stage). is_at x t) (sym w) ∙ at in absurd (cc)

and_then-some :
    (o : Option Process) (f : Process → Option Process) (q : Process)
    → and_then o f ≡ some q
    → (r : Process) × (o ≡ some r) × (f r ≡ some q)
and_then-some none f q h = absurd (cc)
and_then-some (some r) f q h = (r, refl, h)

step_of-IsOrdered : (e : Event) (p q : Process) → step_of e p ≡ some q → IsOrdered p → IsOrdered q
unfolding step_of cancel close
step_of-IsOrdered signal p q h i =
    subst IsOrdered (some-injective _ q h)
      (record { listening = i.listening; none_run = i.none_run; closed = i.closed })
step_of-IsOrdered arrives p q h i =
    let (open_, same) = when-some (p.is_listening || is_at p.stage emptying) _ q h in
    subst IsOrdered same (record {
      listening = i.listening;
      none_run = λ e. (let no = sym (open_not_past p open_ i) ∙ e in absurd (cc));
      closed = i.closed;
    })
step_of-IsOrdered leaves p q h i =
    let (some_run, same) = when-some (ltb 0 p.handlers) _ q h in
    subst IsOrdered same (record {
      listening = i.listening;
      none_run = λ e. ground (arith, i.none_run e);
      closed = i.closed;
    })
step_of-IsOrdered takes_over p q h i =
    let (some_run, same) = when-some (ltb 0 p.handlers) _ q h in
    subst IsOrdered same (record {
      listening = i.listening;
      none_run = λ e. ground (arith, i.none_run e);
      closed = i.closed;
    })
step_of-IsOrdered leaves_socket p q h i =
    let (some_run, same) = when-some (ltb 0 p.sockets) _ q h in
    subst IsOrdered same
      (record { listening = i.listening; none_run = i.none_run; closed = i.closed })
step_of-IsOrdered enters_shutdown p q h i =
    let (at, same) = when-some (p.is_cancelled && is_at p.stage waiting) _ q h in
    subst IsOrdered same (record {
      listening = λ e. absurd (cc);
      none_run = λ e. absurd (cc);
      closed = λ e.
          let no : false ≡ true = sym (waiting_not_past p.stage (ground arith)) ∙ i.closed e in
          absurd (cc);
    })
step_of-IsOrdered empties p q h i =
    let (at, same) = when-some (is_at p.stage emptying && p.handlers == 0) _ q h in
    subst IsOrdered same (record {
      listening = λ e. past_listening p.stage emptying refl (ground arith) (i.listening e);
      none_run = λ e. ground (arith, ==_iff p.handlers 0);
      closed = λ e. refl;
    })
step_of-IsOrdered closes_queue p q h i =
    let (at, same) = when-some (is_at p.stage closing) _ q h in
    subst IsOrdered same (record {
      listening = λ e. past_listening p.stage closing refl at (i.listening e);
      none_run = λ e. i.none_run (closing_past p.stage at);
      closed = λ e. refl;
    })
step_of-IsOrdered joins p q h i =
    let (at, same) = when-some (is_at p.stage joining && is_stopped p.writer.phase) _ q h in
    subst IsOrdered same (record {
      listening = λ e. past_listening p.stage joining refl (ground arith) (i.listening e);
      none_run = λ e. i.none_run (joining_past p.stage (ground arith));
      closed = λ e. refl;
    })
step_of-IsOrdered returns p q h i =
    let (shut, same) = when-some (not p.is_listening) _ q h in
    subst IsOrdered same
      (record { listening = i.listening; none_run = i.none_run; closed = i.closed })
step_of-IsOrdered (enqueues gives_up job) p q h i = by_handler (ltb 0 p.handlers) h
  where
    by_handler :
        (b : Bool)
        → (if b then with_writer p (enqueue gives_up job p.writer) else none) ≡ some q
        → IsOrdered q
    by_handler true h =
        with_writer-IsOrdered p q (enqueue gives_up job p.writer)
          (enqueue-closed gives_up job p.writer) h i
    by_handler false h = absurd (cc)
step_of-IsOrdered (writes choice) p q h i =
    with_writer-IsOrdered p q (turn choice p.writer) (turn-closed choice p.writer) h i

step-IsOrdered : (e : Event) (p q : Process) → step e p ≡ some q → IsOrdered p → IsOrdered q
unfolding step
step-IsOrdered e p q h i = by_end p.has_returned h
  where
    by_end : (b : Bool) → (if b then none else step_of e p) ≡ some q → IsOrdered q
    by_end true h = absurd (cc)
    by_end false h = step_of-IsOrdered e p q h i

run-IsOrdered :
    (events : List Event) (p q : Process) → run events p ≡ some q → IsOrdered p → IsOrdered q
unfolding run
run-IsOrdered [] p q h i = subst IsOrdered (some-injective p q h) i
run-IsOrdered (e ∷ rest) p q h i =
    let (r, moved, ran) = and_then-some (step e p) (λ x. run rest x) q h in
    run-IsOrdered rest r q ran (step-IsOrdered e p r moved i)

started-IsOrdered : (db : Db) → IsOrdered (started db)
started-IsOrdered db = record {
  listening = λ e. refl;
  none_run = λ e. refl;
  closed = λ e. absurd (cc);
}

-- From a start over any database, in whatever order the signal, the requests, the WebSockets, the
-- writer and the shutdown take their steps: once the queue is closed no handler runs that can call
-- Enqueue, since there is none but on connections that were taken over, no connection is accepted
-- and no request comes in on one that was kept alive; and no handler's call of Enqueue is ever given
-- up.
pub shutdown_gives_up_none :
    (db : Db) (events : List Event) (p : Process)
    → run events (started db) ≡ some p
    → ((p.writer.is_closed ≡ true)
        → (p.handlers ≡ 0) × (p.is_listening ≡ false) × (step arrives p ≡ none))
      × ((job : Job) → step (enqueues true job) p ≡ none)
unfolding step step_of give_up
shutdown_gives_up_none db events p h =
    let i = run-IsOrdered events (started db) p h (started-IsOrdered db) in
    (
      λ shut. (
        i.none_run (i.closed shut),
        unlistening p.stage (i.closed shut) p.is_listening i.listening,
        none_arrives p.has_returned (p.is_listening || is_at p.stage emptying) refl (i.closed shut)
            i,
      ),
      λ job. ground (arith, i.none_run, i.closed),
    )
  where
    none_arrives :
        (returned b : Bool)
        → (p.is_listening || is_at p.stage emptying) ≡ b
        → is_past p.stage ≡ true
        → IsOrdered p
        → (if returned then none else when b (record p { handlers = suc p.handlers })) ≡ none
    none_arrives true b e past i = refl
    none_arrives false false e past i = refl
    none_arrives false true e past i =
        let no : false ≡ true = sym (open_not_past p e i) ∙ past in absurd (cc)

    unlistening : (s : Stage) → is_past s ≡ true → (b : Bool) → (b ≡ true → s ≡ waiting) → b ≡ false
    unlistening s past false l = refl
    unlistening s past true l =
        let no : false ≡ true = ap is_past (sym (l refl)) ∙ past in absurd (cc)
