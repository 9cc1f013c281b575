-- ===== src/Access/Records.antt =====
-- Which captured requests a dashboard gets to see, and which it may replay.
use vexlo.Common.{
  ℕ, sym, ap, subst, trim_prefix, ◌∙◌, ◌<◌, ◌≡◌, refl, Bytes, codes, Bool, true, false, not, List,
  [], ◌∷◌, some, map, arith, leb, str_eq, str_eq_iff, keep,
}
use vexlo.Model.{CapturedRequest}
use vexlo.Headers.{HeaderJson}
use vexlo.Storage.{count_replays_for_session, all_rows}
use vexlo.Storage.Rows.{Engine, Filter, is_listed, get_request, list_requests, decoded}
use vexlo.Capture.{sanitize_captured_request}
use vexlo.Tunnels.{TunnelManager}
use vexlo.Access.{
  HttpRequest, Answer, done, authorize, own_request, handle_request_by_id, handle_requests,
  load_replay_original, request_not_found, method_not_allowed, check, or_fail, ◌>>=◌,
}
use vexlo.Access.Guarded.{bind-eq-done, check-eq-done, or_fail-eq-done, done-injective}

-- The engine's ORDER BY leaves no row out and makes none up, as far as a test of rows can tell.
abbrev pub KeepsRows : Engine → Type 0
KeepsRows engine =
    (p : CapturedRequest → Bool) (rs : List CapturedRequest)
    → all_rows p (engine.newest_requests rs) ≡ all_rows p rs

module _ (sha256_hex : Bytes → Bytes) (engine : Engine) (json : HeaderJson) where
  pub own_request-own :
      (down down_replay : Bool) (session_id id : Bytes) (m : TunnelManager) (item : CapturedRequest)
      → own_request sha256_hex engine json down down_replay session_id id m ≡ done item
      → item.session_id ≡ session_id
  unfolding own_request
  own_request-own down down_replay session_id id m item h =
      let (found, loaded, checked) =
        bind-eq-done
          (or_fail 404 request_not_found (get_request engine json down down_replay id m.storage))
          (λ (r : CapturedRequest).
            check (str_eq r.session_id session_id) 404 request_not_found (done r))
          item h in
      let (own, same) =
        check-eq-done (str_eq found.session_id session_id) 404 request_not_found (done found) item
          checked in
      ap (λ (r : CapturedRequest). r.session_id) (sym (done-injective same))
      ∙ (str_eq_iff found.session_id session_id).0 own

  -- handleRequestByID writes a record only to a request that authorize lets through, and only one
  -- of the session that the request has the token of.
  pub handle_request_by_id-own :
      (down : ℕ → Bool) (req : HttpRequest) (now : ℕ) (m : TunnelManager) (item : CapturedRequest)
      → handle_request_by_id sha256_hex engine json down req now m ≡ done item
      → authorize sha256_hex (down 0) req now m ≡ done item.session_id
  unfolding handle_request_by_id sanitize_captured_request
  handle_request_by_id-own down req now m item h =
      let id : Bytes = trim_prefix req.path (codes "/api/requests/") in
      let own = λ (session_id : Bytes).
        own_request sha256_hex engine json (down 1) (down 2) session_id id m in
      let shown = λ (r : CapturedRequest). Answer.done (sanitize_captured_request json r) in
      let let_in = authorize sha256_hex (down 0) req now m in
      let (is_get, rest) =
        check-eq-done (str_eq req.method (codes "GET")) 405 method_not_allowed
          (let_in >>= λ session_id. own session_id >>= shown) item h in
      let (session_id, passed, looked) =
        bind-eq-done let_in (λ session_id. own session_id >>= shown) item rest in
      let (found, loaded, written) = bind-eq-done (own session_id) shown item looked in
      let mine : found.session_id ≡ session_id =
        own_request-own (down 1) (down 2) session_id id m found loaded in
      let same : item.session_id ≡ found.session_id =
        ap (λ (r : CapturedRequest). r.session_id) (sym (done-injective written)) in
      subst (λ (k : Bytes). let_in ≡ done k) (sym (same ∙ mine)) passed

  -- A request is let through to be replayed only for the session that it was captured for, and only
  -- while fewer than 200 replays of that session's requests are stored.
  pub load_replay_original-limit :
      (down : ℕ → Bool) (session_id id : Bytes) (m : TunnelManager) (item : CapturedRequest)
      → load_replay_original sha256_hex engine json down session_id id m ≡ done item
      → (item.session_id ≡ session_id)
        × (n : ℕ) × (count_replays_for_session (down 3) session_id m.storage ≡ some n)
        × (n < 200)
  unfolding load_replay_original
  load_replay_original-limit down session_id id m item h =
      let replays = count_replays_for_session (down 3) session_id m.storage in
      let (own, found, rest) =
        bind-eq-done (own_request sha256_hex engine json (down 1) (down 2) session_id id m) _ item
          h in
      let (count, counted, rest') =
        bind-eq-done (or_fail 500 (codes "failed to check replay limit") replays) _ item rest in
      let (few, same) =
        check-eq-done (not (leb 200 count)) 429 (codes "quick tunnel replay limit reached")
          (done own) item rest' in
      (
        ap (λ (r : CapturedRequest). r.session_id) (sym (done-injective same))
            ∙ own_request-own (down 1) (down 2) session_id id m own found,
        count,
        or_fail-eq-done 500 (codes "failed to check replay limit") replays count counted,
        ground arith,
      )

  all_rows-map :
      (f : CapturedRequest → CapturedRequest) (p : CapturedRequest → Bool)
      (rs : List CapturedRequest)
      → ((r : CapturedRequest) → p (f r) ≡ p r)
      → all_rows p (map f rs) ≡ all_rows p rs
  all_rows-map f p [] same = refl
  all_rows-map f p (r ∷ rs) same = ground (arith, same r, all_rows-map f p rs same)

  all_rows-keep_listed :
      (session_id : Bytes) (filter : Filter) (rs : List CapturedRequest)
      → all_rows
          (λ r. str_eq r.session_id session_id)
          (keep (is_listed engine session_id filter) rs)
        ≡ true
  unfolding is_listed
  all_rows-keep_listed session_id filter [] = refl
  all_rows-keep_listed session_id filter (r ∷ rs) =
      ground (arith, all_rows-keep_listed session_id filter rs)

  -- handleRequests lists requests only to a request that authorize lets through, and only those of
  -- the session that the request has the token of, if the engine's ORDER BY makes up no row.
  pub handle_requests-own :
      (down : ℕ → Bool) (req : HttpRequest) (filter : Filter) (now : ℕ) (m : TunnelManager)
      (items : List CapturedRequest)
      → KeepsRows engine
      → handle_requests sha256_hex engine json down req filter now m ≡ done items
      → (session_id : Bytes) × (authorize sha256_hex (down 0) req now m ≡ done session_id)
        × (all_rows (λ r. str_eq r.session_id session_id) items ≡ true)
  unfolding handle_requests list_requests sanitize_captured_request
  handle_requests-own down req filter now m items keeps h =
      let let_in = authorize sha256_hex (down 0) req now m in
      let listed = λ (id : Bytes). list_requests engine json (down 1) id filter m.storage in
      let shown =
        λ (rs : List CapturedRequest). Answer.done (map (sanitize_captured_request json) rs) in
      let list_them =
        λ (id : Bytes). or_fail 500 (codes "failed to list requests") (listed id) >>= shown in
      let (is_get, rest) =
        check-eq-done (str_eq req.method (codes "GET")) 405 method_not_allowed
          (let_in >>= list_them) items h in
      let (session_id, passed, looked) = bind-eq-done let_in list_them items rest in
      let (rows, loaded, written) =
        bind-eq-done (or_fail 500 (codes "failed to list requests") (listed session_id)) shown items
          looked in
      let found =
        or_fail-eq-done 500 (codes "failed to list requests") (listed session_id) rows loaded in
      (
        session_id,
        passed,
        subst
            (λ (rs : List CapturedRequest).
              all_rows (λ r. str_eq r.session_id session_id) rs ≡ true)
            (done-injective written)
            (all_rows-map (sanitize_captured_request json) (λ r. str_eq r.session_id session_id)
                rows (λ r. refl)
              ∙ listed-own (down 1) session_id rows found),
      )
    where
      listed-own :
          (is_down : Bool) (session_id : Bytes) (rows : List CapturedRequest)
          → list_requests engine json is_down session_id filter m.storage ≡ some rows
          → all_rows (λ r. str_eq r.session_id session_id) rows ≡ true
      listed-own true session_id rows found = absurd (cc)
      listed-own false session_id rows found =
          let kept = keep (is_listed engine session_id filter) m.storage.requests in
          let same : map (decoded engine json) (engine.newest_requests kept) ≡ rows = cc in
          subst
            (λ (rs : List CapturedRequest).
              all_rows (λ r. str_eq r.session_id session_id) rs ≡ true)
            same
            (all_rows-map (decoded engine json) (λ r. str_eq r.session_id session_id)
                (engine.newest_requests kept) (λ r. refl)
              ∙ keeps (λ r. str_eq r.session_id session_id) kept
              ∙ all_rows-keep_listed session_id filter m.storage.requests)
