-- ===== src/Routes/Pages.antt =====
-- What the pages tell a browser.
use vexlo.Common.{
  ◌≡◌, refl, sym, ap, Bytes, codes, Bool, true, false, some, get, put, str_eq, str_eq_iff,
  if◌then◌else◌,
}
use vexlo.Access.{HttpRequest, fail, done}
use vexlo.Access.Guarded.{done-injective}
use vexlo.Routes.{
  PageResponse, serve_asset, content_security_policy, dashboard_headers, handle_dashboard,
}

-- The dashboard's page is sent exactly for its own path and without a token in the URL; then no cache
-- keeps it, no referrer leaves it, and its scripts come from the server alone.
pub handle_dashboard-done :
    (dashboard_html : Bytes) (has_token : Bool) (req : HttpRequest) (page : PageResponse)
    → handle_dashboard dashboard_html has_token req ≡ done page
    → (req.path ≡ codes "/app")
      × (has_token ≡ false)
      × (page.body ≡ dashboard_html)
      × (get (codes "Cache-Control") page.headers
          ≡ some (codes "no-store, no-cache, must-revalidate, max-age=0"))
      × (get (codes "Referrer-Policy") page.headers ≡ some (codes "no-referrer"))
      × (get (codes "Content-Security-Policy") page.headers ≡ some content_security_policy)
unfolding handle_dashboard serve_asset get put str_eq
handle_dashboard-done dashboard_html has_token req page h =
    by_guard (str_eq req.path (codes "/app")) refl has_token refl h
  where
    by_guard :
        (b : Bool)
        → str_eq req.path (codes "/app") ≡ b
        → (t : Bool) → has_token ≡ t
        → (if b
            then (if t
                then fail 400 (codes "token URLs are unavailable")
                else done (
                    serve_asset
                      (codes "text/html; charset=utf-8")
                      dashboard_html
                      dashboard_headers))
            else vexlo.Operator.not_found)
          ≡ done page
        → (req.path ≡ codes "/app")
          × (has_token ≡ false)
          × (page.body ≡ dashboard_html)
          × (get (codes "Cache-Control") page.headers
              ≡ some (codes "no-store, no-cache, must-revalidate, max-age=0"))
          × (get (codes "Referrer-Policy") page.headers ≡ some (codes "no-referrer"))
          × (get (codes "Content-Security-Policy") page.headers ≡ some content_security_policy)
    by_guard false e t f h = absurd (cc)
    by_guard true e true f h = absurd (cc)
    by_guard true e false f h =
        let same : page
            ≡ serve_asset (codes "text/html; charset=utf-8") dashboard_html dashboard_headers =
          sym (done-injective h) in
        (
          (str_eq_iff req.path (codes "/app")).0 e,
          f,
          ap (λ (p : PageResponse). p.body) same,
          rw same refl,
          rw same refl,
          rw same refl,
        )
