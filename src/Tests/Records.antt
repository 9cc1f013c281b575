-- ===== src/Tests/Records.antt =====
-- Captured requests, their handlers and the database's writer.
use vexlo.Common.{
  ℕ, suc, ◌≡◌, ◌<◌, ◌↔◌, refl, Bytes, codes, Bool, true, false, List, [], ◌∷◌, ◌++◌, Option, none,
  some, arith, length, pos, get, str_eq,
}
use vexlo.Config.{Config, default_config}
use vexlo.Model.{Session, CapturedRequest}
use vexlo.Headers.{HeaderJson}
use vexlo.Storage.{Db, empty_db, count_replays_for_session, all_rows}
use vexlo.Storage.Rows.{Engine, Filter}
use vexlo.Storage.Retention.{prune_hosted_before}
use vexlo.Storage.Integrity.{IsIntegral, pruned, prune_hosted_runs_through}
use vexlo.Storage.Writer.{
  Writer, request, draining, stopped, open_writer, send, run_job, turn, from_queue, otherwise,
}
use vexlo.Storage.Writer.Order.{Runs, start, sends, takes, jobs, replayed, Runs-refines}
use vexlo.Storage.Writer.Drain.{drain, run_jobs, drain_ends, cancelled_take_loses}
use vexlo.Compare.{constant_time_compare}
use vexlo.Capture.{sanitize_captured_request}
use vexlo.Tunnels.{TunnelManager, new_tunnel_manager}
use vexlo.Access.{HttpRequest, done, authorize, handle_requests}
use vexlo.Access.Guarded.{IsAuthorized, authorize_iff}
use vexlo.Access.Records.{handle_requests-own}

abbrev cfg : Config
cfg = record default_config { base_domain = codes "t.io"; hosted = true }

abbrev no_failure : ℕ → Bool
no_failure i = false

-- Text equality in place of LIKE, and rows in the order of the table.
abbrev engine : Engine
engine = record {
  like = str_eq;
  as_text = λ n. n ∷ [];
  newest_requests = λ rs. rs;
  newest_replays = λ ys. ys;
}

abbrev no_json : HeaderJson
no_json = record { marshal = λ headers. none; unmarshal = λ raw. none }

abbrev no_filter : Filter
no_filter = record { method = []; path = []; status = []; search = [] }

-- In place of SHA-256.
abbrev digest : Bytes → Bytes
digest s = 1 ∷ s

abbrev session : Session
session = record {
  id = codes "s1";
  subdomain = codes "abc";
  local_port = pos 3000;
  connection_type = codes "tcp";
  started_at = 5;
  ended_at = some 6;
  auth_token = codes "sha256:" ++ 1 ∷ codes "a1";
  tunnel_token = [];
  hosted = true;
}

abbrev captured : CapturedRequest
captured = record {
  id = codes "r1";
  session_id = codes "s1";
  method = codes "GET";
  path = codes "/";
  query = [];
  headers = [];
  body = [];
  response_status = 200;
  response_headers = [];
  response_body = [];
  duration_ms = 1;
  created_at = 6;
  replay = none;
  decoded_headers = [];
}

abbrev stored : Db
stored = record empty_db { sessions = (codes "s1", session) ∷ []; requests = captured ∷ [] }

abbrev asked_server : TunnelManager
asked_server = new_tunnel_manager cfg stored

abbrev asks : HttpRequest
asks = record {
  method = codes "GET";
  path = codes "/api/requests/r1";
  host = codes "t.io";
  is_tls = true;
  origin = none;
  session_query = [];
  session_header = codes "s1";
  cookie = λ name. some (codes "a1");
}

authorize_iff_example : (authorize digest false asks 7 asked_server ≡ done (codes "s1")) ↔ (
    (codes "s1" ≡ codes "s1")
    × (s : Session) × (token : Bytes) × IsAuthorized digest asks 7 asked_server s token)
unfolding vexlo.Common.str_eq
authorize_iff_example = authorize_iff digest asks 7 asked_server (codes "s1")

handle_requests-own_example :
    (session_id : Bytes) × (authorize digest (no_failure 0) asks 7 asked_server ≡ done session_id)
    × (all_rows
          (λ r. str_eq r.session_id session_id)
          (sanitize_captured_request no_json captured ∷ [])
        ≡ true)
unfolding handle_requests str_eq get constant_time_compare vexlo.Storage.hash_hosted_secret
handle_requests-own_example =
    handle_requests-own digest engine no_json no_failure asks no_filter 7 asked_server
      (sanitize_captured_request no_json captured ∷ []) (λ p rs. refl) refl

stored-IsIntegral : IsIntegral stored
unfolding get vexlo.Common.str_eq
stored-IsIntegral = record { keys = (refl, tt); owned = refl; traced = refl }

prune_hosted_runs_through_example :
    (prune_hosted_before (λ i. false) 9 stored ≡ (pruned 9 stored, true))
    × IsIntegral (pruned 9 stored)
prune_hosted_runs_through_example =
    prune_hosted_runs_through 9 stored (λ i. false) (λ i. refl) stored-IsIntegral

abbrev second : CapturedRequest
second = record captured { id = codes "r2" }

abbrev one_job : Writer
one_job = record (open_writer stored) { queue = request second ∷ [] }

second_run : Runs (open_writer stored) (request second ∷ []) [] one_job
unfolding send
second_run = sends (request second) start refl

abbrev wrote : Writer
unfolding run_job
wrote = record (open_writer stored) { db = run_job false (request second) stored }

second_taken : Runs (open_writer stored) (request second ∷ []) ((false, request second) ∷ []) wrote
unfolding turn
second_taken = takes false (request second) [] second_run refl refl

Runs-refines_example :
    (jobs ((false, request second) ∷ []) ++ [] ≡ [] ++ request second ∷ [])
    × (wrote.db ≡ replayed ((false, request second) ∷ []) stored)
unfolding wrote
Runs-refines_example = Runs-refines second_taken

abbrev last_job : Writer
last_job = record one_job { phase = draining; is_cancelled = true }

drain_ends_example : drain 2 no_failure last_job ≡ record last_job {
  db = run_jobs no_failure (request second ∷ []) stored;
  queue = [];
  phase = stopped;
}
drain_ends_example = drain_ends 2 no_failure last_job refl (omega arith)

abbrev cut_off : Writer
cut_off = record one_job { is_cancelled = true }

cancelled_take_loses_example :
    (v : Writer) × (u : Writer) × (turn (from_queue false) cut_off ≡ some v)
    × (turn otherwise v ≡ some u)
    × ((drain (suc (length u.queue)) no_failure u).db ≡ run_jobs no_failure [] stored)
cancelled_take_loses_example =
    cancelled_take_loses no_failure (request second) [] cut_off refl refl refl
