-- ===== src/World/Traced.antt =====
-- Where the captured requests of the table come from.
use vexlo.Common.{
  ◌≡◌, sym, ap, subst, inl, inr, ◌⊎◌, List, [], ◌∷◌, ◌++◌, Option, some, some-injective,
  append_assoc,
}
use mathlib.Core.List.{Memᴰ}
use mathlib.Core.List.Memᴰ
use vexlo.Model.{CapturedRequest}
use vexlo.Storage.{Db}
use vexlo.Storage.Writer.{Job, request}
use vexlo.Storage.Writer.Rows.{ComesFrom, run_job-requests}
use vexlo.Server.Whole.{pruned-requests}
use vexlo.World.{World, Platform, Move, step, run, handed_in, or_nothing, handed}
use vexlo.World.Effects.{Effect, leaves, pruned, wrote, and_then-some, step-Effect}

-- One move: the rows, and the jobs of the queue.
Effect-requests :
    {w v : World} {sent : List Job}
    → Effect w v sent
    → (row : CapturedRequest) → Memᴰ row v.manager.storage.requests
    → ComesFrom w.manager.storage (w.writer.queue ++ sent) row
Effect-requests (leaves kept queue) row at =
    inl (subst (λ (rows : List CapturedRequest). Memᴰ row rows) kept.requests at)
Effect-requests {w} (pruned down now stored queue) row at =
    inl (pruned-requests down now w.manager row (subst (λ (d : Db). Memᴰ row d.requests) stored at))
Effect-requests {w} {v} {sent} (wrote down job queue stored) row at = of_first (
    run_job-requests down job w.manager.storage row
      (subst (λ (d : Db). Memᴰ row d.requests) stored at))
  where
    of_first :
        ComesFrom w.manager.storage (job ∷ []) row
        → ComesFrom w.manager.storage (w.writer.queue ++ sent) row
    of_first (inl old) = inl old
    of_first (inr (item, first, same)) = inr (
      item,
      subst (λ (q : List Job). Memᴰ (request item) (q ++ sent)) (sym queue)
          (Memᴰ.head (Memᴰ.eq_of_singleton first)),
      same,
    )

Effect-queue :
    {w v : World} {sent : List Job}
    → Effect w v sent
    → (job : Job) → Memᴰ job v.writer.queue
    → Memᴰ job (w.writer.queue ++ sent)
Effect-queue (leaves kept queue) job at = queue job at
Effect-queue {w} {v} {sent} (pruned down now stored queue) job at =
    Memᴰ.append_left sent (subst (λ (q : List Job). Memᴰ job q) queue at)
Effect-queue {w} {v} {sent} (wrote down first queue stored) job at =
    Memᴰ.append_left sent (subst (λ (q : List Job). Memᴰ job q) (sym queue) (Memᴰ.tail at))

-- In every interleaving and over any number of restarts, a captured request that the table holds was
-- in the table at the start, or is the row of an item that was in the writer's queue at the start or
-- that a handler handed over since.
pub run-ComesFrom :
    (p : Platform) (moves : List Move) (w v : World) (row : CapturedRequest)
    → run p moves w ≡ some v
    → Memᴰ row v.manager.storage.requests
    → ComesFrom w.manager.storage (w.writer.queue ++ handed p moves w) row
unfolding run handed
run-ComesFrom p [] w v row h at =
    inl (subst (λ (x : World). Memᴰ row x.manager.storage.requests) (sym (some-injective w v h)) at)
run-ComesFrom p (move ∷ rest) w v row h at =
    let (u, moved, ran) = and_then-some p (step p move w) (λ x. run p rest x) v h in
    let effect = step-Effect p move w u moved in
    let later : or_nothing p (step p move w) (λ x. handed p rest x) ≡ handed p rest u =
      ap (λ (o : Option World). or_nothing p o (λ x. handed p rest x)) moved in
    subst
      (λ (jobs : List Job).
        ComesFrom w.manager.storage (w.writer.queue ++ (handed_in p move w ++ jobs)) row)
      (sym later) (before u (handed p rest u) effect (run-ComesFrom p rest u v row ran at))
  where
    wider :
        (later : List Job)
        → ComesFrom w.manager.storage (w.writer.queue ++ handed_in p move w) row
        → ComesFrom w.manager.storage (w.writer.queue ++ (handed_in p move w ++ later)) row
    wider later (inl old) = inl old
    wider later (inr (item, there, same)) = inr (
      item,
      subst (λ (jobs : List Job). Memᴰ (request item) jobs)
          (append_assoc w.writer.queue (handed_in p move w) later) (Memᴰ.append_left later there),
      same,
    )

    of_job :
        (u : World) (later : List Job)
        → Effect w u (handed_in p move w)
        → (job : Job) → Memᴰ job u.writer.queue ⊎ Memᴰ job later
        → Memᴰ job (w.writer.queue ++ (handed_in p move w ++ later))
    of_job u later effect job (inl queued) =
        subst (λ (jobs : List Job). Memᴰ job jobs)
          (append_assoc w.writer.queue (handed_in p move w) later)
          (Memᴰ.append_left later (Effect-queue effect job queued))
    of_job u later effect job (inr after) =
        Memᴰ.append_right w.writer.queue (Memᴰ.append_right (handed_in p move w) after)

    before :
        (u : World) (later : List Job)
        → Effect w u (handed_in p move w)
        → ComesFrom u.manager.storage (u.writer.queue ++ later) row
        → ComesFrom w.manager.storage (w.writer.queue ++ (handed_in p move w ++ later)) row
    before u later effect (inl old) = wider later (Effect-requests effect row old)
    before u later effect (inr (item, there, same)) =
        inr (
          item,
          of_job u later effect (request item) (Memᴰ.append_cases u.writer.queue there),
          same,
        )
