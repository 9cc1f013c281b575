-- ===== src/Storage/Schema.antt =====
-- internal/storage/db.go: Open, migrate, ensureColumn and applyPragmas, over the names that SQLite keeps
-- of a file: the columns of each table and the table of each index, and what the pragmas set. As
-- SQLite documents, CREATE ... IF NOT EXISTS leaves what there is, an index needs its columns, and a
-- column is added once. A flag says that the engine fails a statement; for PRAGMA table_info that is,
-- or the reading of its rows up to the column. `none` is the error with which Open closes the file.
pub mod Statements
pub mod Current
use vexlo.Common.{
  ℕ, suc, ◌+◌, Bytes, codes, Bool, true, false, ◌&&◌, ◌||◌, List, [], ◌∷◌, ◌++◌, Option, none, some,
  str_eq, Map, get, put, if◌then◌else◌,
}

-- What PRAGMA sets for the one connection.
pub record Pragmas : Type 0 where
  pub is_wal : Bool
  pub has_foreign_keys : Bool
  pub busy_timeout : ℕ
  pub is_synchronous_normal : Bool

pub record Schema : Type 0 where
  pub tables : Map (List Bytes)
  pub indexes : Map Bytes
  pub pragmas : Pragmas

abbrev pub has_name : Bytes → List Bytes → Bool
has_name name [] = false
has_name name (other ∷ names) = str_eq other name || has_name name names

abbrev pub has_all : List Bytes → List Bytes → Bool
has_all [] names = true
has_all (name ∷ rest) names = has_name name names && has_all rest names

abbrev pub has_in : Bytes → Option (List Bytes) → Bool
has_in name none = false
has_in name (some names) = has_name name names

abbrev pub has_column : Bytes → Bytes → Schema → Bool
has_column table column s = has_in column (get table s.tables)

pub data Statement : Type 0 where
  create_table : Bytes → List Bytes → Statement
  create_index : Bytes → Bytes → List Bytes → Statement

abbrev pub create_missing : Bytes → List Bytes → Option (List Bytes) → Schema → Schema
create_missing table columns none s = record s { tables = put table columns s.tables }
create_missing table columns (some there) s = s

abbrev pub index_missing :
    Bytes → Bytes → List Bytes → Option Bytes → Option (List Bytes) → Schema → Option Schema
index_missing index table columns (some there) names s = some s
index_missing index table columns none none s = none
index_missing index table columns none (some names) s =
    if has_all columns names then some (record s { indexes = put index table s.indexes }) else none

-- db.sql.Exec, for the statements of migrate
unfoldable pub execute : Statement → Schema → Option Schema
execute (create_table table columns) s = some (create_missing table columns (get table s.tables) s)
execute (create_index index table columns) s =
    index_missing index table columns (get index s.indexes) (get table s.tables) s

abbrev pub and_then : Option Schema → (Schema → Option Schema) → Option Schema
and_then none f = none
and_then (some s) f = f s

abbrev pub unless {ℓ} : {A : Type ℓ} → Bool → Option A → Option A
unless down o = if down then none else o

-- The loop of migrate
unfoldable pub execute_all : (ℕ → Bool) → List Statement → Schema → Option Schema
unfolding execute
execute_all down [] s = some s
execute_all down (st ∷ rest) s =
    and_then (unless (down 0) (execute st s)) (λ t. execute_all (λ i. down (suc i)) rest t)

unfoldable pub statements : List Statement
statements =
    create_table (codes "service_settings") (codes "key" ∷ codes "value" ∷ [])
    ∷ create_table (codes "sessions") (
        codes "id"
        ∷ codes "subdomain"
        ∷ codes "local_port"
        ∷ codes "connection_type"
        ∷ codes "auth_token"
        ∷ codes "tunnel_token"
        ∷ codes "started_at"
        ∷ codes "ended_at"
        ∷ codes "hosted"
        ∷ [])
    ∷ create_table (codes "requests") (
        codes "id"
        ∷ codes "session_id"
        ∷ codes "method"
        ∷ codes "path"
        ∷ codes "query"
        ∷ codes "headers"
        ∷ codes "body"
        ∷ codes "response_status"
        ∷ codes "response_headers"
        ∷ codes "response_body"
        ∷ codes "duration_ms"
        ∷ codes "created_at"
        ∷ [])
    ∷ create_table (codes "replays") (
        codes "id"
        ∷ codes "request_id"
        ∷ codes "mutated_headers"
        ∷ codes "mutated_body"
        ∷ codes "response_status"
        ∷ codes "response_headers"
        ∷ codes "response_body"
        ∷ codes "duration_ms"
        ∷ codes "created_at"
        ∷ [])
    ∷ create_index (codes "idx_requests_session_created_at") (codes "requests")
        (codes "session_id" ∷ codes "created_at" ∷ [])
    ∷ create_index (codes "idx_replays_request_created_at") (codes "replays")
        (codes "request_id" ∷ codes "created_at" ∷ [])
    ∷ []

-- ALTER TABLE ... ADD COLUMN
abbrev pub add_column : Bytes → Bytes → Option (List Bytes) → Schema → Option Schema
add_column table column none s = none
add_column table column (some names) s =
    if has_name column names
    then none
    else some (record s { tables = put table (names ++ column ∷ []) s.tables })

-- ensureColumn, with flags for its two statements
unfoldable pub ensure_column : Bool → Bool → Bytes → Bytes → Schema → Option Schema
ensure_column down_read down_alter table column s = unless down_read (
    if has_column table column s
    then some s
    else unless down_alter (add_column table column (get table s.tables) s))

pub data Pragma : Type 0 where
  journal_mode_wal foreign_keys_on synchronous_normal : Pragma
  busy_timeout_of : ℕ → Pragma

abbrev pub apply_pragma : Pragma → Pragmas → Pragmas
apply_pragma journal_mode_wal p = record p { is_wal = true }
apply_pragma foreign_keys_on p = record p { has_foreign_keys = true }
apply_pragma synchronous_normal p = record p { is_synchronous_normal = true }
apply_pragma (busy_timeout_of ms) p = record p { busy_timeout = ms }

-- The loop of applyPragmas
abbrev pub apply_all : (ℕ → Bool) → List Pragma → Schema → Option Schema
apply_all down [] s = some s
apply_all down (p ∷ rest) s =
    let later =
      apply_all (λ i. down (suc i)) rest (record s { pragmas = apply_pragma p s.pragmas }) in
    unless (down 0) later

unfoldable pub apply_pragmas : (ℕ → Bool) → Schema → Option Schema
apply_pragmas down s =
    apply_all down
      (journal_mode_wal ∷ foreign_keys_on ∷ busy_timeout_of 5000 ∷ synchronous_normal ∷ []) s

-- DB.migrate
unfoldable pub migrate : (ℕ → Bool) → Schema → Option Schema
unfolding execute_all statements ensure_column apply_pragmas
migrate down s = and_then (execute_all down statements s) λ s1.
    and_then (ensure_column (down 6) (down 7) (codes "sessions") (codes "tunnel_token") s1) λ s2.
      and_then (ensure_column (down 8) (down 9) (codes "sessions") (codes "hosted") s2)
        λ s3. apply_pragmas (λ i. down (10 + i)) s3

-- Open, for a file that sql.Open takes
unfoldable pub open_db : (ℕ → Bool) → Option Schema → Option Schema
unfolding migrate
open_db down none = none
open_db down (some file) = migrate down file
