-- ===== src/Tunnels/Handoff.antt =====
-- internal/server/tunnel.go: newDashboardHandoff and claimDashboardHandoff, the one-time handoff of
-- a dashboard's cookie. The map's keys are the hashes of the secrets that were handed out.
use vexlo.Common.{
  ℕ, ◌+◌, ◌*◌, Bytes, Bool, Option, none, some, ltb, str_eq, if◌then◌else◌, get, put, delete,
  delete_if,
}
use vexlo.RateLimit.{minute}
use vexlo.Storage.{hash_hosted_secret}
use vexlo.Tunnels.{DashboardHandoff, TunnelManager}
use vexlo.Tunnels.Registry.{find_by_session}

-- now.After(handoff.expires)
abbrev pub is_stale : ℕ → DashboardHandoff → Bool
is_stale now h = ltb h.expires now

abbrev pub token_at : Option ℕ → TunnelManager → Option Bytes
token_at none m = none
token_at (some r) m = some (m.heap r).auth_token

module _ (sha256_hex : Bytes → Bytes) where
  -- TunnelManager.newDashboardHandoff, for the secret that randomID draws
  unfoldable pub new_dashboard_handoff : Bytes → Bytes → ℕ → TunnelManager → TunnelManager
  new_dashboard_handoff session_id raw now m = record m {
    handoffs =
        put (hash_hosted_secret sha256_hex raw)
          (record { session_id = session_id; expires = now + 5 * minute })
          (delete_if (is_stale now) m.handoffs);
  }

  -- The entry of a secret, once it is found.
  unfoldable pub claim_found :
      Bytes → Bytes → ℕ → Option DashboardHandoff → TunnelManager → TunnelManager × Option Bytes
  unfolding find_by_session
  claim_found session_id key now none m = (m, none)
  claim_found session_id key now (some h) m =
      if str_eq h.session_id session_id
      then (let m' = record m { handoffs = delete key m.handoffs } in
          (m', if is_stale now h then none else token_at (find_by_session session_id m') m'))
      else (m, none)

  -- TunnelManager.claimDashboardHandoff
  unfoldable pub claim_dashboard_handoff :
      Bytes → Bytes → ℕ → TunnelManager → TunnelManager × Option Bytes
  unfolding claim_found
  claim_dashboard_handoff session_id raw now m =
      let key = hash_hosted_secret sha256_hex raw in
      claim_found session_id key now (get key m.handoffs) m
