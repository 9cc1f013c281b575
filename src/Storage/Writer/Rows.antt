-- ===== src/Storage/Writer/Rows.antt =====
-- The captured requests that the writer adds.
use vexlo.Common.{
  ◌≡◌, refl, inl, inr, ◌⊎◌, Bool, true, false, not, ◌||◌, List, [], ◌∷◌, ◌++◌, none, some,
  if◌then◌else◌,
}
use mathlib.Core.List.{Memᴰ}
use mathlib.Core.List.Memᴰ
use vexlo.Model.{CapturedRequest}
use vexlo.Storage.{Db, in_session, names_request}
use vexlo.Storage.Rows.{request_columns, has_request, has_replay, insert_request, insert_replay}
use vexlo.Storage.Writer.{Job, request, replay, execute, committed, run_job}

-- A row that was there, or that one of the jobs writes.
abbrev pub ComesFrom : Db → List Job → CapturedRequest → Type 0
ComesFrom db jobs row =
    Memᴰ row db.requests
    ⊎ ((item : CapturedRequest) × Memᴰ (request item) jobs × (row ≡ request_columns item))

-- What a transaction of the writer leaves.
pub run_job-requests :
    (down : Bool) (job : Job) (db : Db) (row : CapturedRequest)
    → Memᴰ row (run_job down job db).requests
    → ComesFrom db (job ∷ []) row
unfolding run_job insert_request insert_replay execute
run_job-requests true job db row at = inl at
run_job-requests false (request item) db row at =
    by_check (has_request item.id db.requests || not (in_session (λ s. true) db.sessions item)) at
  where
    added :
        Memᴰ row db.requests ⊎ Memᴰ row (request_columns item ∷ [])
        → ComesFrom db (request item ∷ []) row
    added (inl old) = inl old
    added (inr new) = inr (item, Memᴰ.head refl, Memᴰ.eq_of_singleton new)

    by_check :
        (b : Bool)
        → Memᴰ row
            (committed
              (if b
                then none
                else some (record db { requests = db.requests ++ request_columns item ∷ [] }))
              db).requests
        → ComesFrom db (request item ∷ []) row
    by_check true at = inl at
    by_check false at = added (Memᴰ.append_cases db.requests at)
run_job-requests false (replay y) db row at =
    by_check (has_replay y.id db.replays || not (names_request (λ r. true) db.requests y)) at
  where
    by_check :
        (b : Bool)
        → Memᴰ row
            (committed
              (if b then none else some (record db { replays = db.replays ++ y ∷ [] }))
              db).requests
        → ComesFrom db (replay y ∷ []) row
    by_check true at = inl at
    by_check false at = inl at
