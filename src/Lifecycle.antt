-- ===== src/Lifecycle.antt =====
-- The end of a process: Start and shutdown of internal/server/server.go, Close of
-- internal/storage/db.go and main of cmd/server/main.go, once the listeners are open. What net/http
-- documents of http.Server.Shutdown is in `step`: it closes the listeners first, on which
-- ListenAndServe and ListenAndServeTLS return ErrServerClosed at once, and then waits until no
-- connection is in use, while a connection that was kept alive may still bring a request; it does not
-- wait for connections that a handler has taken over, as handleEventsWS does for its WebSocket. What
-- that handler does from then on calls no Enqueue. The plain server of serveTLS only redirects. An
-- event is a step of one goroutine.
pub mod Order
pub mod Exit
use vexlo.Common.{
  ℕ, suc, ◌-◌, Bool, true, false, not, ◌&&◌, ◌||◌, List, [], ◌∷◌, Option, none, some, ltb, ◌==◌,
  if◌then◌else◌,
}
use vexlo.Storage.{Db}
use vexlo.Storage.Writer.{
  Job, Phase, serving, draining, stopped, Writer, Choice, open_writer, send, give_up, close, cancel,
  turn,
}

-- Where the goroutine is that calls shutdown: before ctx.Done, in httpSrv.Shutdown, before db.Close,
-- in its wait for the writer, and at its end.
pub data Stage : Type 0 where
  waiting emptying closing joining finished : Stage

-- `is_listening` is whether httpSrv accepts connections, `handlers` how many of its handlers run on
-- connections of the server, `sockets` how many on connections that they have taken over, and
-- `has_returned` whether main has, which ends the process.
pub record Process : Type 0 where
  pub is_cancelled : Bool
  pub is_listening : Bool
  pub handlers : ℕ
  pub sockets : ℕ
  pub stage : Stage
  pub has_returned : Bool
  pub writer : Writer

-- Start, from when its listeners are open
abbrev pub started : Db → Process
started db = record {
  is_cancelled = false;
  is_listening = true;
  handlers = 0;
  sockets = 0;
  stage = waiting;
  has_returned = false;
  writer = open_writer db;
}

pub data Event : Type 0 where
  signal arrives leaves takes_over leaves_socket enters_shutdown empties closes_queue joins
        returns :
      Event
  enqueues : Bool → Job → Event
  writes : Choice → Event

abbrev pub when : Bool → Process → Option Process
when b p = if b then some p else none

abbrev pub with_writer : Process → Option Writer → Option Process
with_writer p none = none
with_writer p (some w) = some (record p { writer = w })

abbrev pub is_at : Stage → Stage → Bool
is_at waiting waiting = true
is_at emptying emptying = true
is_at closing closing = true
is_at joining joining = true
is_at finished finished = true
is_at s t = false

abbrev pub is_stopped : Phase → Bool
is_stopped serving = false
is_stopped draining = false
is_stopped stopped = true

-- Enqueue, by a handler: which case its select takes
abbrev pub enqueue : Bool → Job → Writer → Option Writer
unfolding send give_up
enqueue true job w = give_up w
enqueue false job w = send job w

-- A step of a process whose main has not returned; `none` is a step that cannot be taken.
abbrev pub step_of : Event → Process → Option Process
unfolding enqueue close cancel turn
step_of signal p = some (record p { is_cancelled = true; writer = cancel p.writer })
step_of arrives p =
    when (p.is_listening || is_at p.stage emptying) (record p { handlers = suc p.handlers })
step_of leaves p = when (ltb 0 p.handlers) (record p { handlers = p.handlers - 1 })
step_of takes_over p =
    when (ltb 0 p.handlers) (record p { handlers = p.handlers - 1; sockets = suc p.sockets })
step_of leaves_socket p = when (ltb 0 p.sockets) (record p { sockets = p.sockets - 1 })
step_of enters_shutdown p =
    when (p.is_cancelled && is_at p.stage waiting)
      (record p { stage = emptying; is_listening = false })
step_of empties p = when (is_at p.stage emptying && p.handlers == 0) (record p { stage = closing })
step_of closes_queue p =
    when (is_at p.stage closing) (record p { stage = joining; writer = close p.writer })
step_of joins p =
    when (is_at p.stage joining && is_stopped p.writer.phase) (record p { stage = finished })
step_of returns p = when (not p.is_listening) (record p { has_returned = true })
step_of (enqueues gives_up job) p =
    if ltb 0 p.handlers then with_writer p (enqueue gives_up job p.writer) else none
step_of (writes choice) p = with_writer p (turn choice p.writer)

unfoldable pub step : Event → Process → Option Process
unfolding step_of
step e p = if p.has_returned then none else step_of e p

abbrev pub and_then : Option Process → (Process → Option Process) → Option Process
and_then none f = none
and_then (some p) f = f p

unfoldable pub run : List Event → Process → Option Process
unfolding step
run [] p = some p
run (e ∷ rest) p = and_then (step e p) (λ q. run rest q)
