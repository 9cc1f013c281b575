-- ===== src/Tunnels/Register/Checks.antt =====
-- internal/server/tunnel.go and internal/server/auth.go: the checks of a registration, and the
-- session that it is for. `Outages` says which statements the database engine fails during the
-- call, and `Draws` what randomID returns.
pub use vexlo.Common.{Result, ok, err, ◌>>=◌, ◌>>◌, guard, or_fail}
use vexlo.Common.{
  ℕ, zero, suc, ◌+◌, ◌*◌, ℤ, Bytes, codes, Bool, true, false, not, ◌&&◌, ◌||◌, [], Option, none,
  some, ltb, length, str_eq, if◌then◌else◌, int_le, int_gt, count_values,
}
use vexlo.Model.{Session, Register}
use vexlo.Config.{has_passed}
use vexlo.RateLimit.{
  second, Verdict, allowed, global_limit, table_full, ip_limit, check_registration_rate,
}
use vexlo.Storage.{Db, hash_hosted_secret, get_session, subdomain_exists}
use vexlo.Compare.{constant_time_compare}
use vexlo.Tunnels.{TunnelManager}

-- The errors that Register returns. `storage_failed` is any error of the database engine.
pub data RegisterError : Type 0 where
  unavailable rate_busy ip_rate at_capacity ip_capacity : RegisterError
  invalid_port not_quick invalid_resume invalid_mode expired invalid_token : RegisterError
  no_subdomain storage_failed : RegisterError

-- Their texts, as they go to the client; the engine's is its own.
unfoldable pub message : Bytes → RegisterError → Bytes
message engine unavailable = codes "new quick tunnels are temporarily unavailable"
message engine rate_busy = codes "quick tunnel registration is busy; try again shortly"
message engine ip_rate = codes "too many quick tunnel registrations from this network"
message engine at_capacity = codes "quick tunnel service is at capacity"
message engine ip_capacity = codes "too many active quick tunnels from this network"
message engine invalid_port = codes "invalid local port"
message engine not_quick = codes "client must support quick tunnels"
message engine invalid_resume = codes "invalid session resume"
message engine invalid_mode = codes "invalid session mode"
message engine expired = codes "quick tunnel expired"
message engine invalid_token = codes "invalid resume token"
message engine no_subdomain = codes "could not allocate quick tunnel URL"
message engine storage_failed = engine

pub record Outages : Type 0 where
  pub validate : Bool
  pub resume : Bool
  pub allocate : ℕ → Bool
  pub upsert : Bool
  pub count : Bool

pub record Draws : Type 0 where
  pub id : Bytes
  pub subdomain : Bytes
  pub auth_token : Bytes
  pub tunnel_token : Bytes
  pub retries : ℕ → Bytes
  pub handoff : Bytes

-- The error of a verdict of the registration limiter.
abbrev pub rate_error : Verdict → Option RegisterError
rate_error allowed = none
rate_error global_limit = some rate_busy
rate_error table_full = some rate_busy
rate_error ip_limit = some ip_rate

-- TunnelManager.checkHostedCapacity
unfoldable pub check_hosted_capacity : Bytes → TunnelManager → Option RegisterError
check_hosted_capacity source_ip m =
    if int_le m.cfg.hosted_max_tunnels (length m.by_session)
    then some at_capacity
    else if int_le m.cfg.hosted_max_per_ip
        (count_values (λ r. str_eq (m.heap r).source_ip source_ip) m.by_session)
    then some ip_capacity
    else none

abbrev pub admit_rated : Bytes → Bool → Option RegisterError → TunnelManager → Option RegisterError
admit_rated source_ip is_new (some e) m = some e
admit_rated source_ip is_new none m = if is_new then check_hosted_capacity source_ip m else none

-- TunnelManager.admitHosted
unfoldable pub admit_hosted :
    Bytes → Bool → ℕ → TunnelManager → TunnelManager × Option RegisterError
unfolding check_hosted_capacity
admit_hosted source_ip is_new now m =
    if is_new && m.is_paused
    then (m, some unavailable)
    else (let (l, verdict) = check_registration_rate now source_ip m.registrations in
        let m' = record m { registrations = l } in
        (m', admit_rated source_ip is_new (rate_error verdict) m'))

-- time.Since(*session.EndedAt) > 30*time.Second, for an `EndedAt` that is not nil
abbrev pub is_past_grace : ℕ → Option ℕ → Bool
is_past_grace now none = false
is_past_grace now (some ended) = ltb (ended + 30 * second) now

module _ (sha256_hex : Bytes → Bytes) where
  -- TunnelManager.validateResume
  unfoldable pub validate_resume :
      Bool → ℕ → Register → TunnelManager → Result RegisterError (Unit {0})
  validate_resume down now reg m = do
    session ← or_fail (get_session down reg.session_id m.storage) invalid_resume
    guard session.hosted invalid_mode
    guard
        (not (
          has_passed m.cfg.hosted_lifetime session.started_at now
          || is_past_grace now session.ended_at))
        expired
    guard
        (not (str_eq reg.resume_token [])
          && constant_time_compare (hash_hosted_secret sha256_hex reg.resume_token)
              session.tunnel_token)
        invalid_token

  -- TunnelManager.validateRegistration
  unfoldable pub validate_registration :
      Bool → ℕ → Register → TunnelManager → Result RegisterError (Unit {0})
  unfolding validate_resume
  validate_registration down now reg m = do
    guard (not (int_le reg.local_port 0 || int_gt reg.local_port 65535)) invalid_port
    guard reg.quick not_quick
    if str_eq reg.session_id [] then ok tt else validate_resume down now reg m

-- TunnelManager.newSession
unfoldable pub new_session : Draws → ℕ → ℤ → Session
new_session draws now local_port = record {
  id = draws.id;
  subdomain = draws.subdomain;
  local_port = local_port;
  connection_type = codes "tcp";
  started_at = now;
  ended_at = none;
  auth_token = draws.auth_token;
  tunnel_token = draws.tunnel_token;
  hosted = true;
}

-- TunnelManager.resumeSession
unfoldable pub resume_session :
    Bool → Session → Register → TunnelManager → Result RegisterError Session
resume_session down session reg m = do
  existing ← or_fail (get_session down reg.session_id m.storage) invalid_resume
  ok (record session {
    id = existing.id;
    subdomain = existing.subdomain;
    started_at = existing.started_at;
    local_port = reg.local_port;
    connection_type = codes "tcp";
  })

-- The loop of TunnelManager.allocateHostedSubdomain, with the attempts that are left, the number of
-- the attempt, and the subdomain that it tries.
unfoldable pub allocate_from :
    (ℕ → Bool) → (ℕ → Bytes) → ℕ → ℕ → Bytes → Db → Result RegisterError Bytes
allocate_from down retries zero i subdomain db = err no_subdomain
allocate_from down retries (suc left) i subdomain db =
    elim (subdomain_exists (down i) subdomain db) [
      | none ↦ err storage_failed
      | some false ↦ ok subdomain
      | some true ↦ allocate_from down retries left (i + 1) (retries i) db
    ]

unfoldable pub allocate_hosted_subdomain :
    (ℕ → Bool) → Draws → Session → Db → Result RegisterError Session
unfolding allocate_from
allocate_hosted_subdomain down draws session db = do
  subdomain ← allocate_from down draws.retries 5 0 session.subdomain db
  ok (record session { subdomain = subdomain })

-- TunnelManager.resolveSession
unfoldable pub resolve_session :
    Outages → Draws → ℕ → Register → TunnelManager → Result RegisterError Session
unfolding new_session resume_session allocate_hosted_subdomain
resolve_session outages draws now reg m =
    let session = new_session draws now reg.local_port in
    if str_eq reg.session_id []
    then allocate_hosted_subdomain outages.allocate draws session m.storage
    else resume_session outages.resume session reg m
