-- ===== src/Storage.antt =====
-- internal/storage/sessions.go over SQLite's tables. `sessions` has the primary key `id`, so it is
-- a map; `requests` and `replays` are rows in the order of insertion. A statement that the
-- database engine may fail takes a flag, `down`, and then changes nothing and returns an error,
-- `none`. Foreign keys are on (applyPragmas): a DELETE that would leave a row without its parent
-- fails too. SHA-256 in hexadecimal is the parameter `sha256_hex`.
pub mod Retention
pub mod Integrity
pub mod Rows
pub mod Whole
pub mod Schema
pub mod Writer
pub mod Settings
use vexlo.Common.{
  ℕ, suc, ◌+◌, Bytes, codes, Bool, true, false, not, ◌&&◌, ◌||◌, List, [], ◌∷◌, ◌++◌, Option, none,
  some, keep, count_if, ltb, ◌==◌, str_eq, if◌then◌else◌, Map, get, put, map_values, modify,
  any_value, delete_if,
}
use vexlo.Model.{Session, CapturedRequest, CapturedReplay}

pub record Db : Type 0 where
  pub sessions : Map Session
  pub requests : List CapturedRequest
  pub replays : List CapturedReplay
  pub settings : Map Bytes

abbrev pub empty_db : Db
empty_db = record { sessions = []; requests = []; replays = []; settings = [] }

-- The result of a statement that the engine may fail.
abbrev pub unless_down {ℓ} : {A : Type ℓ} → Bool → A → Option A
unless_down true a = none
unless_down false a = some a

module _ (sha256_hex : Bytes → Bytes) where
  -- HashHostedSecret
  unfoldable pub hash_hosted_secret : Bytes → Bytes
  hash_hosted_secret secret = codes "sha256:" ++ sha256_hex secret

  -- The row that UpsertSession writes: hosted tokens are hashed, and `ended_at` is NULL.
  unfoldable pub session_row : Session → Session
  unfolding hash_hosted_secret
  session_row s =
      if s.hosted
      then record s {
        ended_at = none;
        auth_token = hash_hosted_secret s.auth_token;
        tunnel_token = hash_hosted_secret s.tunnel_token;
      }
      else record s { ended_at = none }

  -- DB.UpsertSession
  unfoldable pub upsert_session : Bool → Session → Db → Option Db
  upsert_session down s db =
      unless_down down (record db { sessions = put s.id (session_row s) db.sessions })

-- DB.GetSession; `none` is also its error for a missing row.
unfoldable pub get_session : Bool → Bytes → Db → Option Session
get_session down id db = if down then none else get id db.sessions

-- DB.SubdomainExists
unfoldable pub subdomain_exists : Bool → Bytes → Db → Option Bool
subdomain_exists down subdomain db =
    unless_down down (any_value (λ s. str_eq s.subdomain subdomain) db.sessions)

abbrev paused_key : Bytes
paused_key = codes "hosted_registrations_paused"

-- DB.SetHostedRegistrationsPaused
unfoldable pub set_registrations_paused : Bool → Bool → Db → Option Db
set_registrations_paused down paused db = unless_down down (record db {
  settings = put paused_key (if paused then codes "true" else codes "false") db.settings;
})

-- DB.HostedRegistrationsPaused; a missing row is `false`.
unfoldable pub registrations_paused : Bool → Db → Option Bool
registrations_paused down db =
    unless_down down (elim (get paused_key db.settings) [
      | none ↦ false
      | some value ↦ str_eq value (codes "true")
    ])

-- DB.EndSession, whose error the program drops
unfoldable pub end_session : Bool → Bytes → ℕ → Db → Db
end_session down id ended_at db =
    if down
    then db
    else record db { sessions = modify id (λ s. record s { ended_at = some ended_at }) db.sessions }

-- DB.CountRequests
unfoldable pub count_requests : Bool → Bytes → Db → Option ℕ
count_requests down session_id db =
    unless_down down (count_if (λ r. str_eq r.session_id session_id) db.requests)

-- request_id IN (SELECT id FROM requests WHERE p)
abbrev pub names_request : (CapturedRequest → Bool) → List CapturedRequest → CapturedReplay → Bool
names_request p [] y = false
names_request p (r ∷ rs) y = (p r && str_eq r.id y.request_id) || names_request p rs y

-- DB.CountReplaysForSession
unfoldable pub count_replays_for_session : Bool → Bytes → Db → Option ℕ
count_replays_for_session down session_id db =
    unless_down down
      (count_if (names_request (λ r. str_eq r.session_id session_id) db.requests) db.replays)

abbrev pub is_open : Session → Bool
is_open s = elim s.ended_at [ none ↦ true | some t ↦ false ]

-- DB.EndOrphanedHostedSessions
unfoldable pub end_orphaned_sessions : Bool → ℕ → Db → Option Db
end_orphaned_sessions down ended_at db = unless_down down (record db {
  sessions =
      map_values (λ s. if s.hosted && is_open s then record s { ended_at = some ended_at } else s)
        db.sessions;
})

abbrev pub revoked : ℕ → Session → Session
revoked t s =
    if s.hosted then record s { auth_token = []; tunnel_token = []; ended_at = some t } else s

abbrev pub revoke_row : Bytes → ℕ → Db → Option Session → Option Db
revoke_row id t db none = none
revoke_row id t db (some s) =
    if s.hosted then some (record db { sessions = modify id (revoked t) db.sessions }) else none

-- DB.RevokeHostedSession; `none` is sql.ErrNoRows where no hosted row has the id.
unfoldable pub revoke_session : Bool → Bytes → ℕ → Db → Option Db
revoke_session down id ended_at db =
    if down then none else revoke_row id ended_at db (get id db.sessions)

-- ended_at IS NOT NULL AND ended_at < cutoff
abbrev pub ended_before : ℕ → Session → Bool
ended_before cutoff s = elim s.ended_at [ none ↦ false | some t ↦ ltb t cutoff ]

-- session_id IN (SELECT id FROM sessions WHERE p)
abbrev pub in_session : (Session → Bool) → Map Session → CapturedRequest → Bool
in_session p sessions r = elim (get r.session_id sessions) [ none ↦ false | some s ↦ p s ]

-- The rows that a DELETE leaves.
abbrev pub without {ℓ} : {A : Type ℓ} → (A → Bool) → List A → List A
without p = keep (λ a. not (p a))

-- Whether each row of `requests` has its session, and each row of `replays` its request.
abbrev pub all_rows {ℓ} : {A : Type ℓ} → (A → Bool) → List A → Bool
all_rows p [] = true
all_rows p (a ∷ as_) = p a && all_rows p as_

abbrev pub replays_have_requests : Db → Bool
replays_have_requests db = all_rows (names_request (λ r. true) db.requests) db.replays

abbrev pub requests_have_sessions : Db → Bool
requests_have_sessions db = all_rows (in_session (λ s. true) db.sessions) db.requests

-- DELETE FROM replays, requests and sessions; a parent that a row still names is not deleted, and
-- the statement fails.
unfoldable pub delete_replays : Bool → (CapturedReplay → Bool) → Db → Option Db
delete_replays down p db = unless_down down (record db { replays = without p db.replays })

unfoldable pub delete_requests : Bool → (CapturedRequest → Bool) → Db → Option Db
delete_requests down p db =
    let db' = record db { requests = without p db.requests } in
    if not down && replays_have_requests db' then some db' else none

unfoldable pub delete_sessions : Bool → (Session → Bool) → Db → Option Db
delete_sessions down p db =
    let db' = record db { sessions = delete_if p db.sessions } in
    if not down && requests_have_sessions db' then some db' else none
