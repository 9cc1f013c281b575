-- ===== src/Storage/Writer/Drain.antt =====
-- The end of RunWriter.
use vexlo.Common.{
  ℕ, zero, suc, ◌<◌, ◌≡◌, refl, ap, ◌∙◌, Bool, true, false, List, [], ◌∷◌, Option, none, some,
  arith, length,
}
use vexlo.Storage.{Db}
use vexlo.Storage.Writer.{
  Job, run_job, serving, draining, stopped, Writer, send, give_up, close, cancel, take_job, Choice,
  from_queue, otherwise, turn,
}

abbrev pub or_same : Writer → Option Writer → Writer
or_same w none = w
or_same w (some v) = v

-- The inner loop of RunWriter, on fuel, while nobody sends: a round takes a job if there is one, and
-- else the loop returns. `down` says which transactions the engine fails.
unfoldable pub drain : ℕ → (ℕ → Bool) → Writer → Writer
unfolding turn
drain zero down w = w
drain (suc fuel) down w = elim w.queue [
  | [] ↦ or_same w (turn otherwise w)
  | job ∷ rest ↦ drain fuel (λ i. down (suc i)) (or_same w (turn (from_queue (down 0)) w))
]

-- What the jobs make of a database.
unfoldable pub run_jobs : (ℕ → Bool) → List Job → Db → Db
unfolding run_job
run_jobs down [] db = db
run_jobs down (job ∷ rest) db = run_jobs (λ i. down (suc i)) rest (run_job (down 0) job db)

abbrev at_drain : List Job → Db → Bool → Bool → Writer
at_drain jobs db is_cancelled is_closed = record {
  db = db;
  queue = jobs;
  phase = draining;
  is_cancelled = is_cancelled;
  is_closed = is_closed;
}

drain-at_drain :
    (fuel : ℕ) (down : ℕ → Bool) (jobs : List Job) (db : Db) (is_cancelled is_closed : Bool)
    → length jobs < fuel
    → drain fuel down (at_drain jobs db is_cancelled is_closed)
      ≡ record (at_drain [] (run_jobs down jobs db) is_cancelled is_closed) { phase = stopped }
unfolding drain run_jobs turn take_job
drain-at_drain zero down jobs db is_cancelled is_closed enough = absurd (omega arith)
drain-at_drain (suc fuel) down [] db is_cancelled is_closed enough = refl
drain-at_drain (suc fuel) down (job ∷ rest) db is_cancelled is_closed enough =
    drain-at_drain fuel (λ i. down (suc i)) rest (run_job (down 0) job db) is_cancelled is_closed
      (omega arith)

-- From when the writer drains, after its `select` has found the context done, and while nothing more
-- is sent, its loop ends: after one round for each job that the queue has then and one more, with
-- each of these jobs run in order, on a transaction that the engine may fail, and none left.
pub drain_ends :
    (fuel : ℕ) (down : ℕ → Bool) (w : Writer)
    → w.phase ≡ draining
    → length w.queue < fuel
    → drain fuel down w ≡ record w { db = run_jobs down w.queue w.db; queue = []; phase = stopped }
drain_ends fuel down w p enough =
    let whole : w ≡ at_drain w.queue w.db w.is_cancelled w.is_closed = ground arith in
    ap (drain fuel down) whole
    ∙ drain-at_drain fuel down w.queue w.db w.is_cancelled w.is_closed enough

-- If the context is done while jobs wait and the writer's `select` takes one of them first, that job
-- is lost: only the jobs behind it reach the database, although nothing failed.
pub cancelled_take_loses :
    (down : ℕ → Bool) (job : Job) (rest : List Job) (w : Writer)
    → w.phase ≡ serving
    → w.is_cancelled ≡ true
    → w.queue ≡ job ∷ rest
    → (v : Writer) × (u : Writer) × (turn (from_queue false) w ≡ some v)
      × (turn otherwise v ≡ some u)
      × ((drain (suc (length u.queue)) down u).db ≡ run_jobs down rest w.db)
cancelled_take_loses down job rest w p c q =
    let v : Writer = record w { queue = rest } in
    let u : Writer = record w { queue = rest; phase = draining } in
    (
      v,
      u,
      unfold turn take_job in ground arith,
      unfold turn in ground arith,
      ap (λ (x : Writer). x.db) (drain_ends (suc (length rest)) down u refl (omega arith)),
    )

-- Everything that happens to a writer after its loop has returned.
pub data After (w : Writer) : Writer → Type 0 where
  here : After w w
  sends : {v u : Writer} (job : Job) → After w v → send job v ≡ some u → After w u
  gives_up : {v u : Writer} → After w v → give_up v ≡ some u → After w u
  closes : {v : Writer} → After w v → After w (close v)
  cancels : {v : Writer} → After w v → After w (cancel v)
  turns : {v u : Writer} (choice : Choice) → After w v → turn choice v ≡ some u → After w u

stopped_turn : (choice : Choice) (w u : Writer) → w.phase ≡ stopped → turn choice w ≡ some u → ⊥
unfolding turn take_job
stopped_turn (from_queue down) w u p h = ground arith
stopped_turn otherwise w u p h = ground arith

-- A write that is queued after the writer's loop has returned never reaches the database, though
-- Enqueue accepts it as long as the queue has room.
pub stopped_writes_nothing :
    {w v : Writer} → After w v → w.phase ≡ stopped → (v.db ≡ w.db) × (v.phase ≡ stopped)
unfolding send give_up close cancel
stopped_writes_nothing here p = (refl, p)
stopped_writes_nothing (sends job run h) p =
    let r = stopped_writes_nothing run p in (ground arith, ground arith)
stopped_writes_nothing (gives_up run h) p =
    let r = stopped_writes_nothing run p in (ground arith, ground arith)
stopped_writes_nothing (closes run) p = stopped_writes_nothing run p
stopped_writes_nothing (cancels run) p = stopped_writes_nothing run p
stopped_writes_nothing (turns {v} {u} choice run h) p =
    absurd (stopped_turn choice v u (stopped_writes_nothing run p).1 h)
