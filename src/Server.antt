-- ===== src/Server.antt =====
-- internal/server/server.go: New and a round of runRetention, and handleHealthz of
-- internal/server/http.go. storage.Open is a parameter:
-- the database that it returns, or `none` for its error; a negative duration added to a time is written out.
pub mod Restart
pub mod Start
pub mod Retention
pub mod Whole
use vexlo.Common.{
  ℕ, codes, not, str_eq, ◌+◌, ◌-◌, ◌*◌, ℤ, pos, negsuc, Bool, true, false, Option, none, some,
  int_gt, to_nat, if◌then◌else◌,
}
use vexlo.Config.{Config, is_refused}
use vexlo.Hub.{Hub, new_hub}
use vexlo.Storage.{Db, end_orphaned_sessions, registrations_paused}
use vexlo.Storage.Retention.{prune_before, prune_hosted_before}
use vexlo.Tunnels.{TunnelManager, new_tunnel_manager}
use vexlo.Tunnels.Registry.{expire_hosted_tunnels, active_tunnel_count}
use vexlo.Access.{HttpRequest, Answer, done, check, method_not_allowed}

-- The two channels of slots are empty at first: their capacities.
pub record Server : Type 0 where
  pub manager : TunnelManager
  pub hub : Hub
  pub binary_slots : ℕ
  pub websocket_slots : ℕ

-- The database that New goes on with, and the flag that it reads.
abbrev pub orphans_ended : (ℕ → Bool) → ℕ → Option Db → Option Db
unfolding end_orphaned_sessions
orphans_ended down now none = none
orphans_ended down now (some db) = end_orphaned_sessions (down 0) now db

abbrev pub server_with : Config → Db → Option Bool → Option Server
server_with cfg db none = none
server_with cfg db (some paused) = some (record {
  manager = record (new_tunnel_manager cfg db) { is_paused = paused };
  hub = new_hub;
  binary_slots = to_nat cfg.hosted_max_tunnels + 100;
  websocket_slots = to_nat cfg.hosted_max_tunnels * 2;
})

abbrev pub start_over : (ℕ → Bool) → Config → Option Db → Option Server
unfolding registrations_paused
start_over down cfg none = none
start_over down cfg (some db) = server_with cfg db (registrations_paused (down 1) db)

-- New; `none` is its error, of whichever call.
unfoldable pub new_server : (ℕ → Bool) → Config → Option Db → ℕ → Option Server
unfolding is_refused orphans_ended start_over
new_server down cfg opened now =
    if is_refused cfg then none else start_over down cfg (orphans_ended down now opened)

-- now.Add(-d)
abbrev pub time_before : ℕ → ℤ → ℕ
time_before now (pos d) = now - d
time_before now (negsuc d) = now + d + 1

-- A round of runRetention; an error of the database is logged.
unfoldable pub prune : (ℕ → Bool) → ℕ → TunnelManager → TunnelManager
unfolding prune_before expire_hosted_tunnels prune_hosted_before
prune down now m =
    let old = (prune_before down (time_before now m.cfg.retention_period) m.storage).0 in
    let m1 = if int_gt m.cfg.retention_period 0 then record m { storage = old } else m in
    let m2 = expire_hosted_tunnels now m1 in
    record m2 {
      storage =
          (prune_hosted_before (λ i. down (3 + i)) (time_before now m.cfg.hosted_retention)
            m2.storage).0;
    }

pub record Health : Type 0 where
  pub active_tunnels : ℕ
  pub db_queue_depth : ℕ
  pub retention_secs : ℤ

-- handleHealthz, with the values that it writes under the status "ok"; `down` is Ping's error, and
-- `seconds` is what Duration.Seconds cuts to.
unfoldable pub handle_healthz : (ℤ → ℤ) → Bool → ℕ → HttpRequest → TunnelManager → Answer Health
unfolding active_tunnel_count
handle_healthz seconds down queue_depth req m =
    check (str_eq req.method (codes "GET")) 405 method_not_allowed (
      check (not down) 503 (codes "database unavailable") (
        done (record {
          active_tunnels = active_tunnel_count m;
          db_queue_depth = queue_depth;
          retention_secs = seconds m.cfg.hosted_retention;
        })))
