-- ===== src/Storage/Writer.antt =====
-- internal/storage/db.go: the queue of writes, in Enqueue, RunWriter and Close. The program queues
-- two kinds of function, those of InsertRequest and InsertReplay. `phase` is where RunWriter's loop
-- is, `is_cancelled` whether its context is done, and `is_closed` whether Close has closed `closed`.
-- A turn is one round of a `select`, for the case that it chose; `none` means that the case cannot
-- be chosen. A flag says that the engine fails the transaction, whose changes are then rolled back.
pub mod Order
pub mod Drain
pub mod Rows
use vexlo.Common.{
  ℕ, suc, ◌+◌, Bool, true, false, ◌&&◌, ◌||◌, List, [], ◌∷◌, ◌++◌, Option, none, some, ltb, length,
  if◌then◌else◌,
}
use vexlo.Model.{CapturedRequest, CapturedReplay}
use vexlo.Storage.{Db}
use vexlo.Storage.Rows.{insert_request, insert_replay}

pub data Job : Type 0 where
  request : CapturedRequest → Job
  replay : CapturedReplay → Job

abbrev pub execute : Job → Db → Option Db
unfolding insert_request insert_replay
execute (request r) db = insert_request r db
execute (replay y) db = insert_replay y db

abbrev pub committed : Option Db → Db → Db
committed none db = db
committed (some db') db = db'

-- The closure `run` of RunWriter: a transaction that begins, runs the job and commits, or nothing.
unfoldable pub run_job : Bool → Job → Db → Db
unfolding execute
run_job true job db = db
run_job false job db = committed (execute job db) db

pub data Phase : Type 0 where
  serving draining stopped : Phase

pub record Writer : Type 0 where
  pub db : Db
  pub queue : List Job
  pub phase : Phase
  pub is_cancelled : Bool
  pub is_closed : Bool

abbrev pub queue_capacity : ℕ
queue_capacity = 1024

-- Open, over the database that it has opened
abbrev pub open_writer : Db → Writer
open_writer db = record {
  db = db;
  queue = [];
  phase = serving;
  is_cancelled = false;
  is_closed = false;
}

-- The cases of Enqueue's `select`: the job is sent, or given up.
unfoldable pub send : Job → Writer → Option Writer
send job w =
    if ltb (length w.queue) queue_capacity
    then some (record w { queue = w.queue ++ job ∷ [] })
    else none

unfoldable pub give_up : Writer → Option Writer
give_up w = if w.is_closed then some w else none

-- DB.Close, up to its wait for the writer
unfoldable pub close : Writer → Writer
close w = record w { is_closed = true }

-- The context of RunWriter is done.
unfoldable pub cancel : Writer → Writer
cancel w = record w { is_cancelled = true }

-- Whether a job that is taken now fails: the outer loop runs it under the writer's own context.
abbrev pub fails : Bool → Phase → Bool → Bool
fails down serving is_cancelled = down || is_cancelled
fails down draining is_cancelled = down
fails down stopped is_cancelled = true

-- The case `fn := <-db.queue`, in either loop.
abbrev pub take_job : Bool → Phase → List Job → Writer → Option Writer
unfolding run_job
take_job down phase [] w = none
take_job down stopped (job ∷ rest) w = none
take_job down draining (job ∷ rest) w =
    some (record w { db = run_job (fails down draining w.is_cancelled) job w.db; queue = rest })
take_job down serving (job ∷ rest) w =
    some (record w { db = run_job (fails down serving w.is_cancelled) job w.db; queue = rest })

-- The case `<-ctx.Done()` of the outer loop, and `default` of the inner one.
abbrev pub turn_off : Phase → List Job → Writer → Option Writer
turn_off serving queue w = if w.is_cancelled then some (record w { phase = draining }) else none
turn_off draining [] w = some (record w { phase = stopped })
turn_off draining (job ∷ rest) w = none
turn_off stopped queue w = none

pub data Choice : Type 0 where
  from_queue : Bool → Choice
  otherwise : Choice

-- A round of RunWriter.
unfoldable pub turn : Choice → Writer → Option Writer
unfolding take_job
turn (from_queue down) w = take_job down w.phase w.queue w
turn otherwise w = turn_off w.phase w.queue w
