-- ===== src/Operator.antt =====
-- The operator's two handlers: internal/server/adminauth.go, and handleAdminRegistrations,
-- handleAdminTunnel and safeOperatorOrigin of internal/server/http.go. `basic` is r.BasicAuth(), and
-- `payload` the decoded body, with `none` for the decoder's error. The answer of http.NotFound is 404
-- with net/http's own text.
pub mod Guarded
use vexlo.Common.{
  ℕ, Bytes, codes, Bool, true, false, ◌&&◌, ◌||◌, [], Option, none, some, str_eq, has_byte,
  trim_prefix, if◌then◌else◌,
}
use vexlo.Config.{Config}
use vexlo.Compare.{constant_time_compare}
use vexlo.Storage.{Db, set_registrations_paused}
use vexlo.Tunnels.{TunnelManager}
use vexlo.Tunnels.Registry.{revoke_hosted}
use vexlo.Access.{HttpRequest, Answer, fail, done, same_origin}

abbrev pub credentials_match : Config → Option (Bytes × Bytes) → Bool
credentials_match cfg none = false
credentials_match cfg (some (user, pass)) =
    constant_time_compare user cfg.admin_username && constant_time_compare pass cfg.admin_password

-- Server.adminAuthorized
unfoldable pub admin_authorized : Config → Option (Bytes × Bytes) → Bool
admin_authorized cfg basic =
    (str_eq cfg.admin_username [] && str_eq cfg.admin_password []) || credentials_match cfg basic

-- Server.withAdminAuth
unfoldable pub with_admin_auth {ℓ} :
    {A : Type ℓ}
    → Option (Bytes × Bytes)
    → (TunnelManager → TunnelManager × Answer A)
    → TunnelManager
    → TunnelManager × Answer A
unfolding admin_authorized
with_admin_auth basic next m =
    if admin_authorized m.cfg basic
    then next m
    else (m, fail 401 (codes "admin authentication required"))

-- safeOperatorOrigin
unfoldable pub safe_operator_origin : HttpRequest → Bool
unfolding same_origin
safe_operator_origin req = req.is_tls && same_origin req

abbrev pub not_found {ℓ} : {A : Type ℓ} → Answer A
not_found = fail 404 (codes "404 page not found")

abbrev pub pause_stored : Bool → TunnelManager → Option Db → TunnelManager × Answer Bool
pause_stored paused m none = (m, fail 500 (codes "failed to update registration state"))
pause_stored paused m (some db) = (record m { storage = db; is_paused = paused }, done paused)

abbrev pub pause : Bool → Option Bool → TunnelManager → TunnelManager × Answer Bool
unfolding set_registrations_paused
pause down none m = (m, fail 400 (codes "invalid payload"))
pause down (some paused) m = pause_stored paused m (set_registrations_paused down paused m.storage)

-- handleAdminRegistrations
unfoldable pub handle_admin_registrations :
    Bool → HttpRequest → Option Bool → TunnelManager → TunnelManager × Answer Bool
unfolding safe_operator_origin pause
handle_admin_registrations down req payload m =
    if str_eq req.method (codes "POST") && safe_operator_origin req
    then pause down payload m
    else (m, not_found)

abbrev pub revoked_answer : TunnelManager × Bool → TunnelManager × Answer (Unit {0})
revoked_answer (m, true) = (m, done tt)
revoked_answer (m, false) = (m, not_found)

-- handleAdminTunnel; its success is the status 204.
unfoldable pub handle_admin_tunnel :
    Bool → HttpRequest → ℕ → TunnelManager → TunnelManager × Answer (Unit {0})
unfolding safe_operator_origin revoke_hosted has_byte
handle_admin_tunnel down req now m =
    let session_id : Bytes = trim_prefix req.path (codes "/api/admin/tunnels/") in
    if str_eq req.method (codes "DELETE") && safe_operator_origin req
    then (if str_eq session_id [] || has_byte 47 session_id
        then (m, not_found)
        else revoked_answer (revoke_hosted down session_id now m))
    else (m, not_found)

-- The routes of the two handlers.
unfoldable pub admin_registrations :
    Bool
    → HttpRequest
    → Option (Bytes × Bytes)
    → Option Bool
    → TunnelManager
    → TunnelManager × Answer Bool
unfolding with_admin_auth handle_admin_registrations
admin_registrations down req basic payload m =
    with_admin_auth basic (handle_admin_registrations down req payload) m

unfoldable pub admin_tunnel :
    Bool
    → HttpRequest
    → Option (Bytes × Bytes)
    → ℕ
    → TunnelManager
    → TunnelManager × Answer (Unit {0})
unfolding with_admin_auth handle_admin_tunnel
admin_tunnel down req basic now m = with_admin_auth basic (handle_admin_tunnel down req now) m
