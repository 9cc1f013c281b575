-- ===== src/Routes.antt =====
-- internal/server/http.go: routes, serveInstaller, handleRoot and handleDashboard, and
-- internal/dashboard/handler.go. http.ServeMux is the parameter `choose`: the pattern that it chooses
-- for a request among those that are registered, or `none` for an answer of its own, such as a
-- redirect. The embedded files are arguments. The answer of http.Error is its status and text;
-- serveInstaller's 405 also names the methods that it allows.
pub mod Dispatch
pub mod Pages
use vexlo.Common.{
  ℕ, Bytes, codes, Bool, true, false, not, ◌&&◌, ◌||◌, List, [], ◌∷◌, Option, none, some, map,
  length, str_eq, Map, get, put, if◌then◌else◌,
}
use vexlo.Tunnels.{TunnelManager}
use vexlo.Tunnels.Registry.{find_by_host}
use vexlo.Access.{HttpRequest, Answer, fail, done, method_not_allowed}
use vexlo.Operator.{not_found}

-- The handlers, by the names under which withRequestLogging logs them.
pub data Page : Type 0 where
  root dashboard landing_css dashboard_css dashboard_js install_sh install_ps1 healthz : Page
  list_sessions list_requests get_request replay_request events_ws hosted_claim : Page
  admin_registrations admin_tunnels : Page

-- A registered handler: the operator's two are behind withAdminAuth.
pub data Handler : Type 0 where
  open_to_all : Page → Handler
  with_admin : Page → Handler

-- routes: the patterns of the mux
unfoldable pub route_table : Map Handler
route_table =
    (codes "/", open_to_all root)
    ∷ (codes "/app", open_to_all dashboard)
    ∷ (codes "/assets/landing.css", open_to_all landing_css)
    ∷ (codes "/assets/dashboard.css", open_to_all dashboard_css)
    ∷ (codes "/assets/dashboard.js", open_to_all dashboard_js)
    ∷ (codes "/install.sh", open_to_all install_sh)
    ∷ (codes "/install.ps1", open_to_all install_ps1)
    ∷ (codes "/healthz", open_to_all healthz)
    ∷ (codes "/api/sessions", open_to_all list_sessions)
    ∷ (codes "/api/requests", open_to_all list_requests)
    ∷ (codes "/api/requests/", open_to_all get_request)
    ∷ (codes "/api/replay", open_to_all replay_request)
    ∷ (codes "/ws/events", open_to_all events_ws)
    ∷ (codes "/api/hosted/claim", open_to_all hosted_claim)
    ∷ (codes "/api/admin/registrations", with_admin admin_registrations)
    ∷ (codes "/api/admin/tunnels/", with_admin admin_tunnels)
    ∷ []

-- Where a request goes: to the tunnel at an address, to a handler, or to the mux's own answer.
pub data Target : Type 0 where
  to_tunnel : ℕ → Target
  to_handler : Handler → Target
  to_mux : Target

abbrev pub handler_or_mux : Option Handler → Target
handler_or_mux none = to_mux
handler_or_mux (some h) = to_handler h

module _ (choose : HttpRequest → Option Bytes) where
  abbrev pub by_pattern : Option Bytes → Target
  unfolding route_table
  by_pattern none = to_mux
  by_pattern (some pattern) = handler_or_mux (get pattern route_table)

  abbrev pub tunnel_or_page : HttpRequest → Option ℕ → Target
  unfolding by_pattern
  tunnel_or_page req (some r) = to_tunnel r
  tunnel_or_page req none = by_pattern (choose req)

  -- The handler that routes returns.
  unfoldable pub dispatch : HttpRequest → TunnelManager → Target
  unfolding find_by_host tunnel_or_page
  dispatch req m = tunnel_or_page req (find_by_host req.host m)

-- What a page's handler writes, with the status 200.
pub record PageResponse : Type 0 where
  pub headers : Map Bytes
  pub body : Bytes

-- serveAsset, over the headers that are set
unfoldable pub serve_asset : Bytes → Bytes → Map Bytes → PageResponse
serve_asset content_type body headers = record {
  headers = put (codes "Expires") (codes "0") (
      put (codes "Pragma") (codes "no-cache") (
        put (codes "Cache-Control") (codes "no-store, no-cache, must-revalidate, max-age=0")
          (put (codes "Content-Type") content_type headers)));
  body = body;
}

-- handleRoot
unfoldable pub handle_root : Bytes → HttpRequest → Answer PageResponse
unfolding serve_asset
handle_root landing_html req =
    if str_eq req.path (codes "/")
    then done (serve_asset (codes "text/html; charset=utf-8") landing_html [])
    else not_found

abbrev pub content_security_policy : Bytes
content_security_policy =
    codes
      "default-src 'self'; script-src 'self'; style-src 'self'; connect-src 'self' wss:; object-src 'none'; base-uri 'none'; frame-ancestors 'none'"

abbrev pub dashboard_headers : Map Bytes
dashboard_headers = put (codes "Content-Security-Policy") content_security_policy (
    put (codes "Cache-Control") (codes "no-store")
      (put (codes "Referrer-Policy") (codes "no-referrer") []))

-- handleDashboard; `has_token` is whether the query has the name `token`
unfoldable pub handle_dashboard : Bytes → Bool → HttpRequest → Answer PageResponse
unfolding serve_asset
handle_dashboard dashboard_html has_token req =
    if str_eq req.path (codes "/app")
    then (if has_token
        then fail 400 (codes "token URLs are unavailable")
        else done (serve_asset (codes "text/html; charset=utf-8") dashboard_html dashboard_headers))
    else not_found

-- serveInstaller; `decimal` is strconv.Itoa
unfoldable pub serve_installer : (ℕ → Bytes) → Bytes → HttpRequest → Answer PageResponse
serve_installer decimal body req =
    let is_get : Bool = str_eq req.method (codes "GET") in
    if is_get || str_eq req.method (codes "HEAD")
    then done (record {
      headers = put (codes "Content-Length") (decimal (length body)) (
          put (codes "Cache-Control") (codes "no-store") (
            put (codes "X-Content-Type-Options") (codes "nosniff")
              (put (codes "Content-Type") (codes "text/plain; charset=utf-8") [])));
      body = if is_get then body else [];
    })
    else fail 405 method_not_allowed
