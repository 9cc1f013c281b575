-- ===== src/Tests/Replays.antt =====
-- Public requests and replays.
use vexlo.Common.{
  ℕ, ◌+◌, ◌-◌, ◌*◌, ◌≤◌, ◌<◌, ◌≡◌, refl, Bytes, codes, Bool, true, false, List, [], ◌∷◌, ◌++◌,
  Option, none, some, arith, pos, length, ◌==◌, if◌then◌else◌,
}
use vexlo.Config.{Config, default_config}
use vexlo.Model.{Session, CapturedRequest}
use vexlo.Headers.{HeaderJson}
use vexlo.Storage.{Db, empty_db, count_replays_for_session}
use vexlo.Storage.Rows.{Engine}
use vexlo.Exchange.{ForwardResponse}
use vexlo.Tunnels.{TunnelManager, no_tunnel, new_tunnel, new_tunnel_manager}
use vexlo.Tunnels.Registry.{install_tunnel, find_by_session}
use vexlo.Slots.{acquire_hosted_slots, admit_public_request}
use vexlo.Slots.Held.{IsCounted, count}
use vexlo.Access.{HttpRequest, done, authorize, same_origin}
use vexlo.Public.{Draw, read, PublicRequest, Outcome, Response, finish_public}
use vexlo.Replay.{ReplayPayload, begin_replay, forward_replay}
use vexlo.Replay.Traffic.{Traffic, start, admits, serves}
use vexlo.Replay.Places.{Traffic-IsCounted}
use vexlo.Replay.Captures.{captures_bounded}
use vexlo.Replay.Allowed.{begin_replay-allowed, IsQueued, forward_replay-IsQueued}

abbrev pub cfg : Config
cfg = record default_config { base_domain = codes "t.io"; hosted = true }

abbrev pub digest : Bytes → Bytes
digest s = 1 ∷ s

abbrev pub engine : Engine
engine = record {
  like = λ a b. false;
  as_text = λ n. [];
  newest_requests = λ rs. rs;
  newest_replays = λ ys. ys;
}

abbrev pub no_json : HeaderJson
no_json = record { marshal = λ headers. none; unmarshal = λ raw. none }

abbrev pub same_spelling : Bytes → Bytes
same_spelling name = name

abbrev pub no_gunzip : ℕ → Bytes → Option Bytes
no_gunzip n raw = none

abbrev pub no_text : CapturedRequest → Bytes
no_text item = []

abbrev pub session : Session
session = record {
  id = codes "s1";
  subdomain = codes "abc";
  local_port = pos 3000;
  connection_type = codes "tcp";
  started_at = 5;
  ended_at = none;
  auth_token = codes "sha256:" ++ 1 ∷ codes "a1";
  tunnel_token = [];
  hosted = true;
}

abbrev pub captured : CapturedRequest
captured = record {
  id = codes "r1";
  session_id = codes "s1";
  method = codes "GET";
  path = codes "/";
  query = [];
  headers = [];
  body = codes "x";
  response_status = 200;
  response_headers = [];
  response_body = [];
  duration_ms = 1;
  created_at = 6;
  replay = none;
  decoded_headers = [];
}

abbrev pub stored : Db
stored = record empty_db { sessions = (codes "s1", session) ∷ []; requests = captured ∷ [] }

-- The tunnel of the session, at the address 0.
abbrev server : TunnelManager
server = install_tunnel (new_tunnel session (codes "1.2.3.4") 198) (new_tunnel_manager cfg stored)

abbrev pub busy : TunnelManager
busy = (admit_public_request same_spelling (codes "9") 0 7 server).0

abbrev pub asked : PublicRequest
asked = record { method = codes "GET"; path = codes "/"; query = []; headers = [] }

abbrev pub reply : ForwardResponse
reply = record {
  id = codes "q";
  status_code = 0;
  headers = [];
  body = codes "ok";
  duration_ms = pos 1;
  error = [];
}

abbrev pub draw : Draw
draw = record { id = codes "r2"; duration_ms = 1; created_at = 8 }

abbrev served : TunnelManager × Outcome Response
served =
    finish_public same_spelling no_json no_gunzip no_text draw 0 asked (read []) (some reply) busy

one_request :
    Traffic digest engine no_json same_spelling no_gunzip no_text same_spelling server served.0 []
      (0 ∷ [])
unfolding admit_public_request install_tunnel vexlo.Common.get new_tunnel finish_public
one_request =
    serves [] [] draw 0 asked (read []) (some reply) served.1 (admits (codes "9") 0 7 start refl)
      refl

at_rest :
    (b : Bool) → (if b then new_tunnel session (codes "1.2.3.4") 198 else no_tunnel).in_flight ≡ 0
unfolding new_tunnel
at_rest true = refl
at_rest false = refl

server-IsCounted : IsCounted server []
unfolding install_tunnel vexlo.Common.get
server-IsCounted = record {
  all = refl;
  of_tunnel = λ r. at_rest (0 == r);
  all_fit = omega arith;
  tunnel_fits = λ r. omega arith;
}

Traffic-IsCounted_example : IsCounted served.0 []
Traffic-IsCounted_example =
    Traffic-IsCounted digest engine no_json same_spelling no_gunzip no_text same_spelling
      one_request server-IsCounted

captures_bounded_example : count 0 (0 ∷ []) ≤ 200 - 198
unfolding install_tunnel new_tunnel
captures_bounded_example =
    captures_bounded digest engine no_json same_spelling no_gunzip no_text same_spelling one_request
      0

abbrev asks : HttpRequest
asks = record {
  method = codes "POST";
  path = codes "/api/replay";
  host = codes "t.io";
  is_tls = true;
  origin = some (record { scheme = codes "https"; host = codes "t.io" });
  session_query = [];
  session_header = codes "s1";
  cookie = λ name. some (codes "a1");
}

abbrev payload : ReplayPayload
payload = record { request_id = codes "r1"; headers = []; body = none }

abbrev no_failure : ℕ → Bool
no_failure i = false

abbrev replaying : TunnelManager
replaying = (acquire_hosted_slots 0 server).0

begin_replay-allowed_example :
    (same_origin asks ≡ true)
    × (authorize digest (no_failure 0) asks 7 server ≡ done (codes "s1"))
    × (find_by_session (codes "s1") server ≡ some 0)
    × (acquire_hosted_slots 0 server ≡ (replaying, true))
    × (count : ℕ) × (count_replays_for_session (no_failure 3) (codes "s1") server.storage
        ≡ some count)
    × (count < 200)
unfolding begin_replay vexlo.Common.str_eq vexlo.Common.get install_tunnel
    vexlo.Compare.constant_time_compare vexlo.Storage.hash_hosted_secret count_replays_for_session
    vexlo.Common.put new_tunnel
begin_replay-allowed_example =
    begin_replay-allowed digest engine no_json no_failure asks (some payload) 7 0 captured server
      replaying refl

forward_replay-IsQueued_example :
    IsQueued no_json captured (codes "x") (
      forward_replay same_spelling no_json no_gunzip draw true captured payload (some reply) server)
forward_replay-IsQueued_example =
    forward_replay-IsQueued same_spelling no_json no_gunzip draw true captured payload (some reply)
      server
