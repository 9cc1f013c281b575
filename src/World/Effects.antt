-- ===== src/World/Effects.antt =====
-- What a move does to the tables and to the queue.
use vexlo.Common.{
  ℕ, ◌≡◌, refl, sym, ◌∙◌, ap, subst, Bool, true, false, List, [], ◌∷◌, ◌++◌, Option, none, some,
  some-injective,
}
use mathlib.Core.List.{Memᴰ}
use mathlib.Core.List.Memᴰ
use vexlo.Config.{Config}
use vexlo.Storage.{end_orphaned_sessions}
use vexlo.Storage.Whole.{KeepsRows, same-KeepsRows}
use vexlo.Storage.Whole.Sessions.{end_orphaned_sessions-KeepsRows}
use vexlo.Storage.Writer.{
  Job, Writer, Choice, from_queue, otherwise, fails, run_job, turn, open_writer, take_job, cancel,
  close,
}
use vexlo.Storage.Writer.Order.{send-queue, give_up-same, turn-keeps, take-queue}
use vexlo.Tunnels.{TunnelManager}
use vexlo.Server.{Server, new_server, prune}
use vexlo.World.{
  World, Platform, Move, operates, prunes, writes, stops, closes_queue, restarts, perform, back,
  on_database, enqueue, hand_over, as_list, and_then, restarted, step, handed_in,
}
use vexlo.Server.Restart.{ended, new_server-some}
use vexlo.World.Rows.{perform-LeavesRows}

-- A move's effect: it leaves every row, with no job in the queue that was not there or handed over; or
-- it is a round of the retention; or the writer takes the first job.
pub data Effect (w v : World) (sent : List Job) : Type 0 where
  leaves :
      KeepsRows w.manager.storage v.manager.storage
      → ((job : Job) → Memᴰ job v.writer.queue → Memᴰ job (w.writer.queue ++ sent))
      → Effect w v sent
  pruned :
      (down : ℕ → Bool) (now : ℕ)
      → v.manager.storage ≡ (prune down now w.manager).storage
      → v.writer.queue ≡ w.writer.queue
      → Effect w v sent
  wrote :
      (down : Bool) (job : Job)
      → w.writer.queue ≡ job ∷ v.writer.queue
      → v.manager.storage ≡ run_job down job w.manager.storage
      → Effect w v sent

still_there :
    (sent queue queue' : List Job)
    → queue' ≡ queue
    → (job : Job) → Memᴰ job queue'
    → Memᴰ job (queue ++ sent)
still_there sent queue queue' same job at =
    Memᴰ.append_left sent (subst (λ (q : List Job). Memᴰ job q) same at)

-- A call of the writer's that has run.
on_database-some :
    (f : Writer → Option Writer) (w v : World)
    → on_database f w ≡ some v
    → (f (record w.writer { db = w.manager.storage }) ≡ some v.writer)
      × (v.manager.storage ≡ v.writer.db)
unfolding on_database
on_database-some f w v h = by_result (f (record w.writer { db = w.manager.storage })) h
  where
    by_result :
        (o : Option Writer)
        → back w o ≡ some v
        → (o ≡ some v.writer) × (v.manager.storage ≡ v.writer.db)
    by_result none h = absurd (cc)
    by_result (some u) h =
        let made : record { manager = record w.manager { storage = u.db }; writer = u } ≡ v =
          some-injective _ v h in
        (
          ap (λ (x : World). some x.writer) made,
          ap (λ (x : World). x.manager.storage) (sym made) ∙ ap (λ (x : World). x.writer.db) made,
        )

-- A call of Enqueue that returns leaves the database, and at most the job in the queue.
enqueue-queue :
    (gives_up : Bool) (job : Option Job) (x u : Writer)
    → enqueue gives_up job x ≡ some u
    → (u.db ≡ x.db) × ((j : Job) → Memᴰ j u.queue → Memᴰ j (x.queue ++ as_list job))
unfolding enqueue
enqueue-queue gives_up none x u h =
    let same : x ≡ u = some-injective x u h in
    (
      ap (λ (w : Writer). w.db) (sym same),
      still_there [] x.queue u.queue (ap (λ (w : Writer). w.queue) (sym same)),
    )
enqueue-queue true (some job) x u h =
    let same = give_up-same x u h in
    (
      ap (λ (w : Writer). w.db) same,
      still_there (job ∷ []) x.queue u.queue (ap (λ (w : Writer). w.queue) same),
    )
enqueue-queue false (some job) x u h =
    let (queued, kept) = send-queue job x u h in
    (kept, λ j. subst (λ (q : List Job). Memᴰ j q) queued)

handed_over-Effect :
    (gives_up : Bool) (job : Option Job) (m : TunnelManager) (w v : World)
    → KeepsRows w.manager.storage m.storage
    → hand_over gives_up job m w ≡ some v
    → Effect w v (as_list job)
unfolding hand_over
handed_over-Effect gives_up job m w v k h =
    let (called, same) = on_database-some (enqueue gives_up job) (record w { manager = m }) v h in
    let (kept, queued) =
      enqueue-queue gives_up job (record w.writer { db = m.storage }) v.writer called in
    leaves (subst (KeepsRows w.manager.storage) (sym (same ∙ kept)) k) queued

empty-none :
    (down : Bool) (x u : Writer) → x.queue ≡ [] → turn (from_queue down) x ≡ some u → (false ≡ true)
unfolding turn
empty-none down x u e h =
    let nothing : none ≡ some u = ap (λ (q : List Job). take_job down x.phase q x) (sym e) ∙ h in
    absurd (cc)

-- A round of the writer.
wrote-Effect :
    (choice : Choice) (w v : World) → on_database (turn choice) w ≡ some v → Effect w v []
wrote-Effect otherwise w v h =
    let (called, same) = on_database-some (turn otherwise) w v h in
    let (queued, kept) = turn-keeps (record w.writer { db = w.manager.storage }) v.writer called in
    leaves (same-KeepsRows (same ∙ kept)) (still_there [] w.writer.queue v.writer.queue queued)
wrote-Effect (from_queue down) w v h =
    let (called, same) = on_database-some (turn (from_queue down)) w v h in
    taken called same w.writer.queue refl
  where
    taken :
        turn (from_queue down) (record w.writer { db = w.manager.storage }) ≡ some v.writer
        → v.manager.storage ≡ v.writer.db
        → (queue : List Job) → w.writer.queue ≡ queue
        → Effect w v []
    taken called same [] e =
        (let no = empty-none down (record w.writer { db = w.manager.storage }) v.writer e called in
          absurd (cc))
    taken called same (job ∷ rest) e =
        let (queued, made) =
          take-queue down job rest (record w.writer { db = w.manager.storage }) v.writer e called in
        wrote (fails down w.writer.phase w.writer.is_cancelled) job (e ∙ ap (◌∷◌ job) (sym queued))
          (same ∙ made)

-- A server that starts again leaves every row.
restarted-Effect :
    (down : ℕ → Bool) (cfg : Config) (now : ℕ) (w v : World)
    → restarted (new_server down cfg (some w.manager.storage) now) ≡ some v
    → Effect w v []
unfolding restarted end_orphaned_sessions
restarted-Effect down cfg now w v h = made (new_server down cfg (some w.manager.storage) now) refl h
  where
    made :
        (o : Option Server)
        → new_server down cfg (some w.manager.storage) now ≡ o
        → restarted o ≡ some v
        → Effect w v []
    made none e h = absurd (cc)
    made (some s) e h =
        let (accepted, paused, server) = new_server-some down cfg w.manager.storage now s e in
        let stored : s.manager.storage ≡ ended now w.manager.storage =
          ap (λ (x : Server). x.manager.storage) (sym (some-injective _ s server)) in
        let world : record { manager = s.manager; writer = open_writer s.manager.storage } ≡ v =
          some-injective _ v h in
        leaves
          (subst (KeepsRows w.manager.storage)
            (sym stored ∙ ap (λ (x : World). x.manager.storage) world)
            (end_orphaned_sessions-KeepsRows false now w.manager.storage _ refl))
          λ job at.
            absurd (Memᴰ.not-nil (subst (λ (x : World). Memᴰ job x.writer.queue) (sym world) at))

unchanged :
    {w v : World}
    → v.manager.storage ≡ w.manager.storage
    → v.writer.queue ≡ w.writer.queue
    → Effect w v []
unchanged {w} {v} stored queued =
    leaves (same-KeepsRows stored) (still_there [] w.writer.queue v.writer.queue queued)

-- A first move that can be made, and what follows it.
pub and_then-some :
    (p : Platform) (o : Option World) (f : World → Option World) (v : World)
    → and_then p o f ≡ some v
    → (u : World) × (o ≡ some u) × (f u ≡ some v)
and_then-some p none f v h = absurd (cc)
and_then-some p (some u) f v h = (u, refl, h)

pub step-Effect :
    (p : Platform) (move : Move) (w v : World)
    → step p move w ≡ some v
    → Effect w v (handed_in p move w)
unfolding step cancel close
step-Effect p (operates gives_up op) w v h =
    let (m, job) = perform p op w.manager in
    handed_over-Effect gives_up job m w v (perform-LeavesRows p op w.manager) h
step-Effect p (prunes down now) w v h =
    let made : record w { manager = prune down now w.manager } ≡ v = some-injective _ v h in
    pruned down now (ap (λ (x : World). x.manager.storage) (sym made))
      (ap (λ (x : World). x.writer.queue) (sym made))
step-Effect p (writes choice) w v h = wrote-Effect choice w v h
step-Effect p stops w v h =
    let made : record w { writer = cancel w.writer } ≡ v = some-injective _ v h in
    unchanged (ap (λ (x : World). x.manager.storage) (sym made))
      (ap (λ (x : World). x.writer.queue) (sym made))
step-Effect p closes_queue w v h =
    let made : record w { writer = close w.writer } ≡ v = some-injective _ v h in
    unchanged (ap (λ (x : World). x.manager.storage) (sym made))
      (ap (λ (x : World). x.writer.queue) (sym made))
step-Effect p (restarts down cfg now) w v h = restarted-Effect down cfg now w v h
