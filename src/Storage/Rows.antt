-- ===== src/Storage/Rows.antt =====
-- internal/storage/requests.go: the rows of captured requests and replays. SQLite's LIKE, its CAST
-- of a number to text and its ORDER BY created_at DESC are parameters. A row's columns are the
-- fields of the record but for `replay` and `decoded_headers`, which the readers fill in.
use vexlo.Common.{
  ℕ, Bytes, codes, Bool, true, not, ◌&&◌, ◌||◌, List, [], ◌∷◌, ◌++◌, Option, none, some, map, keep,
  str_eq, if◌then◌else◌,
}
use vexlo.Model.{CapturedRequest, CapturedReplay}
use vexlo.Headers.{HeaderJson, header_json_to_map}
use vexlo.Storage.{Db, unless_down, names_request, in_session, all_rows}

-- What the database engine computes; `like text pattern` is text LIKE pattern.
pub record Engine : Type 0 where
  pub like : Bytes → Bytes → Bool
  pub as_text : ℕ → Bytes
  pub newest_requests : List CapturedRequest → List CapturedRequest
  pub newest_replays : List CapturedReplay → List CapturedReplay

-- INSERT INTO requests: its columns
abbrev pub request_columns : CapturedRequest → CapturedRequest
request_columns r = record r { replay = none; decoded_headers = [] }

-- A row with the same primary key.
abbrev pub has_request : Bytes → List CapturedRequest → Bool
has_request id rs = not (all_rows (λ (r : CapturedRequest). not (str_eq r.id id)) rs)

abbrev pub has_replay : Bytes → List CapturedReplay → Bool
has_replay id ys = not (all_rows (λ (y : CapturedReplay). not (str_eq y.id id)) ys)

-- The statement of InsertRequest. It fails on a second row with one identifier, and on a row whose
-- session is not in the table.
unfoldable pub insert_request : CapturedRequest → Db → Option Db
insert_request r db =
    if has_request r.id db.requests || not (in_session (λ s. true) db.sessions r)
    then none
    else some (record db { requests = db.requests ++ request_columns r ∷ [] })

-- The statement of InsertReplay, which fails likewise.
unfoldable pub insert_replay : CapturedReplay → Db → Option Db
insert_replay y db =
    if has_replay y.id db.replays || not (names_request (λ r. true) db.requests y)
    then none
    else some (record db { replays = db.replays ++ y ∷ [] })

abbrev pub first {ℓ} : {A : Type ℓ} → List A → Option A
first [] = none
first (x ∷ xs) = some x

abbrev pub with_id : Bytes → List CapturedRequest → Option CapturedRequest
with_id id rs = first (keep (λ (r : CapturedRequest). str_eq r.id id) rs)

-- method != "" && method != "ALL" and the like: a filter that is not asked for lets all rows pass.
abbrev pub when : Bool → Bool → Bool
when asked holds = not asked || holds

pub record Filter : Type 0 where
  pub method : Bytes
  pub path : Bytes
  pub status : Bytes
  pub search : Bytes

abbrev pub between_percents : Bytes → Bytes
between_percents text = codes "%" ++ text ++ codes "%"

module _ (engine : Engine) where
  -- The WHERE clause of ListRequests.
  unfoldable pub is_listed : Bytes → Filter → CapturedRequest → Bool
  is_listed session_id f r =
      str_eq r.session_id session_id
      && when (not (str_eq f.method []) && not (str_eq f.method (codes "ALL")))
          (str_eq r.method f.method)
      && when (not (str_eq f.path [])) (engine.like r.path (between_percents f.path))
      && when (not (str_eq f.status []))
          (engine.like (engine.as_text r.response_status) (f.status ++ codes "%"))
      && when (not (str_eq f.search [])) (
          engine.like r.body (between_percents f.search)
          || engine.like r.response_body (between_percents f.search))

  -- DB.LatestReplay; `none` is also its error for no row.
  unfoldable pub latest_replay : Bool → Bytes → Db → Option CapturedReplay
  latest_replay down request_id db =
      if down
      then none
      else first (
          engine.newest_replays
            (keep (λ (y : CapturedReplay). str_eq y.request_id request_id) db.replays))

  module _ (json : HeaderJson) where
    -- item.DecodedHeaders = HeaderJSONToMap(item.Headers)
    abbrev pub decoded : CapturedRequest → CapturedRequest
    unfolding header_json_to_map
    decoded r = record r { decoded_headers = header_json_to_map json r.headers }

    -- DB.ListRequests
    unfoldable pub list_requests : Bool → Bytes → Filter → Db → Option (List CapturedRequest)
    unfolding is_listed decoded
    list_requests down session_id f db =
        unless_down down
          (map decoded (engine.newest_requests (keep (is_listed session_id f) db.requests)))

    abbrev pub with_replay : Option CapturedReplay → CapturedRequest → CapturedRequest
    unfolding decoded
    with_replay replay r = record r {
      decoded_headers = header_json_to_map json r.headers;
      replay = replay;
    }

    abbrev pub loaded : Option CapturedReplay → Option CapturedRequest → Option CapturedRequest
    unfolding with_replay
    loaded replay none = none
    loaded replay (some r) = some (with_replay replay r)

    -- DB.GetRequest, with a flag for each of its two statements; the error of the second is dropped
    unfoldable pub get_request : Bool → Bool → Bytes → Db → Option CapturedRequest
    unfolding loaded latest_replay
    get_request down down_replay id db =
        if down then none else loaded (latest_replay down_replay id db) (with_id id db.requests)
