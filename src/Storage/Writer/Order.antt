-- ===== src/Storage/Writer/Order.antt =====
-- What becomes of the jobs that are sent.
use vexlo.Common.{
  some-injective, ◌≡◌, refl, sym, ap, ◌∙◌, subst, Bool, List, [], ◌∷◌, ◌++◌, some, arith,
  append_assoc, append-nil,
}
use vexlo.Storage.{Db}
use vexlo.Storage.Writer.{
  Job, run_job, Phase, serving, draining, stopped, Writer, Choice, fails, send, give_up, close,
  cancel, take_job, turn_off, from_queue, otherwise, turn,
}

-- A job that the writer has taken, and whether its transaction failed.
abbrev pub Taken : Type 0
Taken = List (Bool × Job)

abbrev pub jobs : Taken → List Job
jobs [] = []
jobs ((down, job) ∷ rest) = job ∷ jobs rest

-- What the jobs make of a database, one after the other.
unfoldable pub replayed : Taken → Db → Db
unfolding run_job
replayed [] db = db
replayed ((down, job) ∷ rest) db = replayed rest (run_job down job db)

-- Any sequence of calls of Enqueue and Close and of rounds of the writer, with the jobs that were
-- sent and those that were taken.
pub data Runs (w : Writer) : List Job → Taken → Writer → Type 0 where
  start : Runs w [] [] w
  sends :
      {sent : List Job} {taken : Taken} {v u : Writer} (job : Job)
      → Runs w sent taken v
      → send job v ≡ some u
      → Runs w (sent ++ job ∷ []) taken u
  gives_up :
      {sent : List Job} {taken : Taken} {v u : Writer}
      → Runs w sent taken v
      → give_up v ≡ some u
      → Runs w sent taken u
  closes :
      {sent : List Job} {taken : Taken} {v : Writer}
      → Runs w sent taken v
      → Runs w sent taken (close v)
  cancels :
      {sent : List Job} {taken : Taken} {v : Writer}
      → Runs w sent taken v
      → Runs w sent taken (cancel v)
  takes :
      {sent : List Job} {taken : Taken} {v u : Writer} (down : Bool) (job : Job) (rest : List Job)
      → Runs w sent taken v
      → v.queue ≡ job ∷ rest
      → turn (from_queue down) v ≡ some u
      → Runs w sent (taken ++ (fails down v.phase v.is_cancelled, job) ∷ []) u
  turns :
      {sent : List Job} {taken : Taken} {v u : Writer}
      → Runs w sent taken v
      → turn otherwise v ≡ some u
      → Runs w sent taken u

jobs-append : (xs ys : Taken) → jobs (xs ++ ys) ≡ jobs xs ++ jobs ys
jobs-append [] ys = refl
jobs-append ((down, job) ∷ xs) ys = ap (◌∷◌ job) (jobs-append xs ys)

replayed-append : (xs ys : Taken) (db : Db) → replayed (xs ++ ys) db ≡ replayed ys (replayed xs db)
unfolding replayed
replayed-append [] ys db = refl
replayed-append ((down, job) ∷ xs) ys db = replayed-append xs ys (run_job down job db)

take_job-queue :
    (down : Bool) (phase : Phase) (job : Job) (rest : List Job) (v u : Writer)
    → take_job down phase (job ∷ rest) v ≡ some u
    → (u.queue ≡ rest) × (u.db ≡ run_job (fails down phase v.is_cancelled) job v.db)
unfolding take_job
take_job-queue down serving job rest v u h = (ground arith, ground arith)
take_job-queue down draining job rest v u h = (ground arith, ground arith)
take_job-queue down stopped job rest v u h = absurd (cc)

turn_off-keeps :
    (phase : Phase) (queue : List Job) (v u : Writer)
    → turn_off phase queue v ≡ some u
    → (u.queue ≡ v.queue) × (u.db ≡ v.db)
turn_off-keeps serving queue v u h = (ground arith, ground arith)
turn_off-keeps draining [] v u h = (ground arith, ground arith)
turn_off-keeps draining (job ∷ rest) v u h = absurd (cc)
turn_off-keeps stopped queue v u h = absurd (cc)

pub take-queue :
    (down : Bool) (job : Job) (rest : List Job) (v u : Writer)
    → v.queue ≡ job ∷ rest
    → turn (from_queue down) v ≡ some u
    → (u.queue ≡ rest) × (u.db ≡ run_job (fails down v.phase v.is_cancelled) job v.db)
unfolding turn
take-queue down job rest v u q h =
    take_job-queue down v.phase job rest v u
      (subst (λ (jobs : List Job). take_job down v.phase jobs v ≡ some u) q h)

pub turn-keeps : (v u : Writer) → turn otherwise v ≡ some u → (u.queue ≡ v.queue) × (u.db ≡ v.db)
unfolding turn
turn-keeps v u h = turn_off-keeps v.phase v.queue v u h

take_job-closed :
    (down : Bool) (phase : Phase) (queue : List Job) (w u : Writer)
    → take_job down phase queue w ≡ some u
    → u.is_closed ≡ w.is_closed
unfolding take_job
take_job-closed down phase [] w u h = absurd (cc)
take_job-closed down stopped (job ∷ rest) w u h = absurd (cc)
take_job-closed down draining (job ∷ rest) w u h =
    ap (λ (x : Writer). x.is_closed) (sym (some-injective _ u h))
take_job-closed down serving (job ∷ rest) w u h =
    ap (λ (x : Writer). x.is_closed) (sym (some-injective _ u h))

turn_off-closed :
    (phase : Phase) (queue : List Job) (w u : Writer)
    → turn_off phase queue w ≡ some u
    → u.is_closed ≡ w.is_closed
turn_off-closed serving queue w u h = ground arith
turn_off-closed draining [] w u h = ground arith
turn_off-closed draining (job ∷ rest) w u h = absurd (cc)
turn_off-closed stopped queue w u h = absurd (cc)

pub turn-closed :
    (choice : Choice) (w u : Writer) → turn choice w ≡ some u → u.is_closed ≡ w.is_closed
unfolding turn
turn-closed (from_queue down) w u h = take_job-closed down w.phase w.queue w u h
turn-closed otherwise w u h = turn_off-closed w.phase w.queue w u h

pub send-queue :
    (job : Job) (v u : Writer)
    → send job v ≡ some u
    → (u.queue ≡ v.queue ++ job ∷ []) × (u.db ≡ v.db)
unfolding send
send-queue job v u h = (ground arith, ground arith)

pub give_up-same : (v u : Writer) → give_up v ≡ some u → u ≡ v
unfolding give_up
give_up-same v u h = ground arith

given_up :
    (taken : Taken) (w : Writer) (sent : List Job) (v u : Writer)
    → (jobs taken ++ v.queue ≡ w.queue ++ sent) × (v.db ≡ replayed taken w.db)
    → give_up v ≡ some u
    → (jobs taken ++ u.queue ≡ w.queue ++ sent) × (u.db ≡ replayed taken w.db)
given_up taken w sent v u r h =
    subst (λ (x : Writer). (jobs taken ++ x.queue ≡ w.queue ++ sent) × (x.db ≡ replayed taken w.db))
      (sym (give_up-same v u h)) r

-- Jobs are taken in the order in which they were sent, each at most once, and none is dropped from
-- the queue; the database is what those that were taken make of it, one after the other.
pub Runs-refines :
    {w v : Writer} {sent : List Job} {taken : Taken}
    → Runs w sent taken v
    → (jobs taken ++ v.queue ≡ w.queue ++ sent) × (v.db ≡ replayed taken w.db)
unfolding replayed give_up close cancel
Runs-refines {w} start = (sym (append-nil w.queue), refl)
Runs-refines {w} (sends {sent} {taken} {v} {u} job run h) =
    let (order, made) = Runs-refines run in
    (queued sent taken v u job order h, (send-queue job v u h).1 ∙ made)
  where
    queued :
        (sent : List Job) (taken : Taken) (v u : Writer) (job : Job)
        → jobs taken ++ v.queue ≡ w.queue ++ sent
        → send job v ≡ some u
        → jobs taken ++ u.queue ≡ w.queue ++ (sent ++ job ∷ [])
    queued sent taken v u job order h =
        ap (◌++◌ (jobs taken)) (send-queue job v u h).0
        ∙ sym (append_assoc (jobs taken) v.queue (job ∷ []))
        ∙ ap (λ (l : List Job). l ++ job ∷ []) order
        ∙ append_assoc w.queue sent (job ∷ [])
Runs-refines {w} (gives_up {sent} {taken} {v} {u} run h) =
    given_up taken w sent v u (Runs-refines run) h
Runs-refines (closes run) = Runs-refines run
Runs-refines (cancels run) = Runs-refines run
Runs-refines {w} (takes {sent} {taken} {v} {u} down job rest run q h) =
    let (order, made) = Runs-refines run in
    let (left, done) = take-queue down job rest v u q h in
    let failed : Bool = fails down v.phase v.is_cancelled in
    (
      ap (λ (l : List Job). l ++ u.queue) (jobs-append taken ((failed, job) ∷ []))
          ∙ append_assoc (jobs taken) (job ∷ []) u.queue
          ∙ ap (λ (l : List Job). jobs taken ++ job ∷ l) left
          ∙ ap (◌++◌ (jobs taken)) (sym q)
          ∙ order,
      done ∙ ap (run_job failed job) made ∙ sym (replayed-append taken ((failed, job) ∷ []) w.db),
    )
Runs-refines (turns {v = v} {u = u} run h) =
    let (order, made) = Runs-refines run in let (q, d) = turn-keeps v u h in (rw q order, d ∙ made)
