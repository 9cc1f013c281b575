-- ===== src/Storage/Whole/Sessions.antt =====
-- The statements of internal/storage/sessions.go that keep every captured row and every session.
use vexlo.Common.{
  ℕ, ◌≡◌, refl, subst, Bytes, Bool, true, false, ◌&&◌, Option, none, some, some-injective, arith,
  Map, get, put, modify, map_values, Unique, get-put, get-modify, get-map_values, put-Unique,
  modify-Unique, map_values-Unique, if◌then◌else◌,
}
use vexlo.Model.{Session, CapturedRequest}
use vexlo.Storage.{
  Db, in_session, session_row, upsert_session, end_session, revoked, revoke_row, revoke_session,
  is_open, end_orphaned_sessions, set_registrations_paused,
}
use vexlo.Storage.Whole.{KeepsRows, same-KeepsRows}

-- Another table of sessions, which has a row wherever the old one has.
resessioned-KeepsRows :
    (db : Db) (rows : Map Session)
    → (Unique db.sessions → Unique rows)
    → ((r : CapturedRequest)
        → in_session (λ s. true) db.sessions r ≡ true
        → in_session (λ s. true) rows r ≡ true)
    → KeepsRows db (record db { sessions = rows })
resessioned-KeepsRows db rows u still = record {
  requests = refl;
  replays = refl;
  keys = u;
  sessions = still;
}

modified-KeepsRows :
    (k : Bytes) (f : Session → Session) (db : Db)
    → KeepsRows db (record db { sessions = modify k f db.sessions })
modified-KeepsRows k f db =
    resessioned-KeepsRows db (modify k f db.sessions) (modify-Unique k f db.sessions)
      λ r h. ground (arith, get-modify k r.session_id f db.sessions)

pub end_session-KeepsRows :
    (down : Bool) (id : Bytes) (now : ℕ) (db : Db) → KeepsRows db (end_session down id now db)
unfolding end_session
end_session-KeepsRows true id now db = same-KeepsRows refl
end_session-KeepsRows false id now db = modified-KeepsRows id _ db

pub revoke_session-KeepsRows :
    (down : Bool) (id : Bytes) (now : ℕ) (db db' : Db)
    → revoke_session down id now db ≡ some db'
    → KeepsRows db db'
unfolding revoke_session
revoke_session-KeepsRows true id now db db' h = absurd (cc)
revoke_session-KeepsRows false id now db db' h = of_row (get id db.sessions) h
  where
    of_row : (o : Option Session) → revoke_row id now db o ≡ some db' → KeepsRows db db'
    of_row none h = absurd (cc)
    of_row (some s) h =
        let same : record db { sessions = modify id (revoked now) db.sessions } ≡ db' =
          ground arith in
        subst (KeepsRows db) same (modified-KeepsRows id (revoked now) db)

pub end_orphaned_sessions-KeepsRows :
    (down : Bool) (now : ℕ) (db db' : Db)
    → end_orphaned_sessions down now db ≡ some db'
    → KeepsRows db db'
unfolding end_orphaned_sessions
end_orphaned_sessions-KeepsRows true now db db' h = absurd (cc)
end_orphaned_sessions-KeepsRows false now db db' h =
    let end_orphan : Session → Session =
      λ s. if s.hosted && is_open s then record s { ended_at = some now } else s in
    let same : record db { sessions = map_values end_orphan db.sessions } ≡ db' = cc in
    subst (KeepsRows db) same (
      resessioned-KeepsRows db (map_values end_orphan db.sessions)
        (map_values-Unique end_orphan db.sessions)
        λ r h. ground (arith, get-map_values end_orphan r.session_id db.sessions))

pub set_registrations_paused-KeepsRows :
    (down paused : Bool) (db db' : Db)
    → set_registrations_paused down paused db ≡ some db'
    → KeepsRows db db'
unfolding set_registrations_paused
set_registrations_paused-KeepsRows true paused db db' h = absurd (cc)
set_registrations_paused-KeepsRows false paused db db' h =
    subst (KeepsRows db) (some-injective _ db' h)
      (record { requests = refl; replays = refl; keys = λ u. u; sessions = λ r i. i })

module _ (sha256_hex : Bytes → Bytes) where
  pub upsert_session-KeepsRows :
      (down : Bool) (s : Session) (db db' : Db)
      → upsert_session sha256_hex down s db ≡ some db'
      → KeepsRows db db'
  unfolding upsert_session
  upsert_session-KeepsRows true s db db' h = absurd (cc)
  upsert_session-KeepsRows false s db db' h =
      let row : Session = session_row sha256_hex s in
      let same : record db { sessions = put s.id row db.sessions } ≡ db' = cc in
      subst (KeepsRows db) same (
        resessioned-KeepsRows db (put s.id row db.sessions) (put-Unique s.id row db.sessions)
          λ r h. ground (arith, get-put s.id r.session_id row db.sessions))
