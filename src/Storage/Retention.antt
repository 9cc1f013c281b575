-- ===== src/Storage/Retention.antt =====
-- internal/storage/sessions.go, DB.PruneBefore and DB.PruneHostedBefore: three DELETE statements
-- each, every one with a flag for the failure of the engine. A statement that fails ends the call,
-- and what the ones before it deleted stays deleted.
use vexlo.Common.{ℕ, Bool, true, false, not, ◌&&◌, Option, none, some, ltb}
use vexlo.Model.{Session, CapturedReplay}
use vexlo.Storage.{
  Db, names_request, in_session, ended_before, delete_replays, delete_requests, delete_sessions,
}

-- The database after the statement, and the rest of the call if it succeeded.
abbrev pub after : Option Db → Db → (Db → Db × Bool) → Db × Bool
after none db rest = (db, false)
after (some db') db rest = rest db'

abbrev pub done : Option Db → Db → Db × Bool
done result db = after result db (λ db'. (db', true))

-- hosted = 1 AND ended_at IS NOT NULL AND ended_at < cutoff
abbrev pub is_expired : ℕ → Session → Bool
is_expired cutoff s = s.hosted && ended_before cutoff s

-- hosted = 0
abbrev is_local : Session → Bool
is_local s = not s.hosted

module _ (down : ℕ → Bool) (cutoff : ℕ) where
  -- DB.PruneHostedBefore
  unfoldable pub prune_hosted_before : Db → Db × Bool
  prune_hosted_before db =
      let of_expired = λ (d : Db). in_session (is_expired cutoff) d.sessions in
      after (delete_replays (down 0) (names_request (of_expired db) db.requests) db) db λ db1.
        after (delete_requests (down 1) (of_expired db1) db1) db1
          λ db2. done (delete_sessions (down 2) (is_expired cutoff) db2) db2

  -- DB.PruneBefore
  unfoldable pub prune_before : Db → Db × Bool
  prune_before db =
      let of_local = λ (d : Db). in_session is_local d.sessions in
      let old_replay = λ (y : CapturedReplay).
        ltb y.created_at cutoff && names_request (of_local db) db.requests y in
      after (delete_replays (down 0) old_replay db) db λ db1.
        after (delete_requests (down 1) (λ r. ltb r.created_at cutoff && of_local db1 r) db1) db1
          λ db2. done (delete_sessions (down 2) (λ s. is_local s && ended_before cutoff s) db2) db2
