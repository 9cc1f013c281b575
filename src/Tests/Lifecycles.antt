-- ===== src/Tests/Lifecycles.antt =====
-- The end of a process.
use vexlo.Common.{◌≡◌, refl, true, false, List, [], ◌∷◌, Option, none, some}
use vexlo.Storage.{empty_db}
use vexlo.Storage.Writer.{Job, request}
use vexlo.Lifecycle.{
  Process, started, Event, signal, arrives, leaves, takes_over, enters_shutdown, empties,
  closes_queue, enqueues, step, run,
}
use vexlo.Lifecycle.Order.{shutdown_gives_up_none}
use vexlo.Tests.Replays.{captured}

abbrev shutdown : List Event
shutdown =
    arrives
    ∷ enqueues false (request captured)
    ∷ signal
    ∷ enters_shutdown
    ∷ arrives
    ∷ leaves
    ∷ takes_over
    ∷ empties
    ∷ closes_queue
    ∷ []

abbrev or_started : Option Process → Process
or_started none = started empty_db
or_started (some p) = p

abbrev shut : Process
shut = or_started (run shutdown (started empty_db))

shutdown_gives_up_none_example :
    ((shut.writer.is_closed ≡ true)
      → (shut.handlers ≡ 0) × (shut.is_listening ≡ false) × (step arrives shut ≡ none))
    × ((job : Job) → step (enqueues true job) shut ≡ none)
unfolding run
shutdown_gives_up_none_example = shutdown_gives_up_none empty_db shutdown shut refl
