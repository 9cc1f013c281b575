-- ===== src/Client/Run.antt =====
-- internal/client/client.go: Run's loop over runOnce, and dialServer; and main of cmd/client/main.go.
-- serveTunnel returns only with an error, so that runOnce always does. strconv.Atoi and
-- net.SplitHostPort are parameters, with `none` for their errors.
pub mod Presents
pub mod Command
use vexlo.Common.{
  ℕ, ◌*◌, ℤ, pos, Bytes, codes, Bool, true, false, not, ◌&&◌, ◌||◌, List, [], ◌∷◌, ◌++◌, Option,
  none, some, str_eq, int_le, int_gt, if◌then◌else◌,
}
use vexlo.Model.{Register}
use vexlo.RateLimit.{second}
use vexlo.Client.{ResumeState, registration, Reply, after_reply}

-- What a call of runOnce comes to: dialServer's error, or what registerTunnel returns, after which a
-- client that was welcomed serves until the connection ends.
pub data Attempt : Type 0 where
  not_dialled : Attempt
  answered : Reply → Attempt

-- A round of the loop: whether ctx.Err is set after the attempt, and whether the pause ends by
-- ctx.Done.
pub record Round : Type 0 where
  pub attempt : Attempt
  pub is_cancelled : Bool
  pub is_stopped : Bool

-- Run's result: ctx.Err(), or nil
pub data Ended : Type 0 where
  cancelled stopped : Ended

-- The registrations that registerTunnel sent, or failed to send, and how Run ended, if it has.
pub record Course : Type 0 where
  pub sent : List Register
  pub result : Option Ended

abbrev pub fresh : ResumeState
fresh = record { session_id = []; resume_token = [] }

unfoldable pub after_attempt : Attempt → ResumeState → ResumeState
unfolding after_reply
after_attempt not_dialled c = c
after_attempt (answered reply) c = after_reply reply c

unfoldable pub sent_by : ℤ → Attempt → ResumeState → List Register
unfolding registration
sent_by port not_dialled c = []
sent_by port (answered reply) c = registration port c ∷ []

abbrev pub then_course : List Register → Course → Course
then_course sent course = record course { sent = sent ++ course.sent }

-- Run, from the two variables on, over the rounds that there are
unfoldable pub run : ℤ → List Round → ResumeState → Course
unfolding after_attempt sent_by
run port [] c = record { sent = []; result = none }
run port (r ∷ rest) c =
    let later = run port rest (after_attempt r.attempt c) in
    let sent = sent_by port r.attempt c in
    if r.is_cancelled
    then record { sent = sent; result = some cancelled }
    else (if r.is_stopped
        then record { sent = sent; result = some stopped }
        else then_course sent later)

-- Config
pub record ClientConfig : Type 0 where
  pub server_addr : Bytes
  pub local_port : ℤ
  pub enable_tls : Bool
  pub server_name : Bytes
  pub request_timeout : ℕ
  pub max_response_body_bytes : ℤ

-- DefaultConfig
abbrev pub default_client_config : ClientConfig
default_client_config = record {
  server_addr = codes "127.0.0.1:9000";
  local_port = pos 3000;
  enable_tls = false;
  server_name = [];
  request_timeout = 30 * second;
  max_response_body_bytes = pos (2 * 1024 * 1024);
}

-- The connection that is dialled: plain, or by TLS 1.2 or newer under a server's name.
pub data Dial : Type 0 where
  plain : Bytes → Dial
  secure : Bytes → Bytes → Dial

abbrev pub dial_named : ClientConfig → Option (Bytes × Bytes) → Option Dial
dial_named cfg none = none
dial_named cfg (some (host, port)) = some (secure cfg.server_addr host)

-- dialServer, up to the dial; `none` is the error of an address without a port
unfoldable pub dial_server : (Bytes → Option (Bytes × Bytes)) → ClientConfig → Option Dial
dial_server split_host_port cfg =
    if not cfg.enable_tls
    then some (plain cfg.server_addr)
    else (if str_eq cfg.server_name []
        then dial_named cfg (split_host_port cfg.server_addr)
        else some (secure cfg.server_addr cfg.server_name))

-- main: the two texts of log.Fatal, or the configuration that Run is called with
pub data Invocation : Type 0 where
  usage bad_port : Invocation
  runs : ClientConfig → Invocation

abbrev pub invoke_port : Option ℤ → Invocation
invoke_port none = bad_port
invoke_port (some port) =
    if int_le port 0 || int_gt port 65535
    then bad_port
    else runs (record default_client_config {
      local_port = port;
      server_addr = codes "vexlo.duckdns.org:9000";
      enable_tls = true;
      server_name = codes "vexlo.duckdns.org";
    })

unfoldable pub main : (Bytes → Option ℤ) → List Bytes → Invocation
main atoi (program ∷ verb ∷ port ∷ []) =
    if str_eq verb (codes "http") then invoke_port (atoi port) else usage
main atoi args = usage
