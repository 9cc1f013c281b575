-- ===== src/Lifecycle/Exit.antt =====
-- What the end of main leaves undone.
use vexlo.Common.{ℕ, subst, List, leb, ltb}
use vexlo.Storage.{Db}
use vexlo.Storage.Writer.{Job, open_writer}
use vexlo.Lifecycle.{Process, started}

-- A process with a handler that runs, and a queue.
abbrev busy : Db → List Job → Process
busy db jobs = record (started db) {
  handlers = 1;
  writer = record (open_writer db) { queue = jobs };
}
