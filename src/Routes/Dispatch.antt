-- ===== src/Routes/Dispatch.antt =====
-- Where a request goes.
use vexlo.Common.{
  ℕ, ◌≡◌, ◌≢◌, refl, sym, ap, ◌∙◌, Bytes, Bool, true, false, [], ◌∷◌, ◌++◌, Option, none, some, get,
  has_byte, any_value, any_value-get,
}
use vexlo.Config.{Config}
use vexlo.Storage.{Db}
use vexlo.Host.{normal_host, normal_base, host_key}
use vexlo.Host.Routing.{subdomain_of_sound}
use vexlo.Tunnels.{TunnelManager}
use vexlo.Tunnels.Registry.{find_by_host, find_by_session, look_up}
use vexlo.Tunnels.Consistency.{IsConsistent}
use vexlo.Tunnels.History.{IsTable, Reach, Reach-IsConsistent}
use vexlo.Access.{HttpRequest}
use vexlo.Routes.{
  admin_registrations, admin_tunnels, Handler, open_to_all, route_table, Target, to_tunnel,
  to_handler, to_mux, handler_or_mux, by_pattern, tunnel_or_page, dispatch,
}

-- A page of the operator that anyone could ask for.
abbrev pub is_unguarded : Handler → Bool
is_unguarded (open_to_all admin_registrations) = true
is_unguarded (open_to_all admin_tunnels) = true
is_unguarded h = false

-- What a target is for: a tunnel gets the requests for the label of its own in front of the base domain,
-- and is the tunnel of its session; all others get what is for no tunnel.
abbrev pub IsRight : HttpRequest → TunnelManager → Target → Type 0
IsRight req m (to_tunnel r) =
    (normal_host req.host ≡ (m.heap r).subdomain ++ b'.' ∷ normal_base m.cfg.base_domain)
    × (has_byte b'.' (m.heap r).subdomain ≡ false)
    × ((m.heap r).subdomain ≢ [])
    × (find_by_session (m.heap r).session.id m ≡ some r)
IsRight req m (to_handler h) = (find_by_host req.host m ≡ none) × (is_unguarded h ≡ false)
IsRight req m to_mux = find_by_host req.host m ≡ none

found-IsRight :
    (req : HttpRequest) (m : TunnelManager) (r : ℕ)
    → IsConsistent m
    → (o : Option Bytes) → host_key m.cfg.base_domain req.host ≡ o
    → look_up o m ≡ some r
    → IsRight req m (to_tunnel r)
unfolding host_key find_by_session
found-IsRight req m r c none e h = absurd (cc)
found-IsRight req m r c (some d) e h =
    let (split, label, some_label) =
      subdomain_of_sound (normal_base m.cfg.base_domain) (normal_host req.host) d e in
    let (given, name, session) = c.of_subdomain d r h in
    (
      split ∙ ap (λ (x : Bytes). x ++ b'.' ∷ normal_base m.cfg.base_domain) (sym name),
      ap (has_byte b'.') name ∙ label,
      λ empty. some_label (sym name ∙ empty),
      session,
    )

guarded :
    (pattern : Bytes) (h : Handler) → get pattern route_table ≡ some h → is_unguarded h ≡ false
unfolding route_table any_value
guarded pattern h e = any_value-get is_unguarded pattern route_table h refl e

module _ (sha256_hex : Bytes → Bytes) (choose : HttpRequest → Option Bytes) where
  page-IsRight :
      (req : HttpRequest) (m : TunnelManager) (o : Option Bytes)
      → find_by_host req.host m ≡ none
      → IsRight req m (by_pattern choose o)
  unfolding by_pattern
  page-IsRight req m none e = e
  page-IsRight req m (some pattern) e = of_handler (get pattern route_table) refl
    where
      of_handler :
          (o : Option Handler) → get pattern route_table ≡ o → IsRight req m (handler_or_mux o)
      of_handler none f = e
      of_handler (some h) f = (e, guarded pattern h f)

  -- In every state that the manager reaches by registrations, disconnections, revocations, expiries and
  -- claims from a table with each row under its identifier and no two rows with one subdomain, as long
  -- as no identifier drawn for a new session is in the table, whatever pattern the mux chooses: a request goes to a tunnel only if its
  -- host is that tunnel's subdomain, a single label, in front of the base domain, and then the tunnel is
  -- the one of its session; it goes to a page only if no tunnel has its host, and never to a page of the
  -- operator past the check of the operator's name and password.
  pub dispatch-IsRight :
      {cfg : Config} {db : Db} {m : TunnelManager} (req : HttpRequest)
      → IsTable db.sessions
      → Reach sha256_hex cfg db m
      → IsRight req m (dispatch choose req m)
  unfolding dispatch find_by_host tunnel_or_page
  dispatch-IsRight {m = m} req t reach = of_tunnel (find_by_host req.host m) refl
    where
      of_tunnel :
          (o : Option ℕ) → find_by_host req.host m ≡ o → IsRight req m (tunnel_or_page choose req o)
      of_tunnel (some r) e =
          found-IsRight req m r (Reach-IsConsistent sha256_hex t reach)
            (host_key m.cfg.base_domain req.host) refl e
      of_tunnel none e = page-IsRight req m (choose req) e
