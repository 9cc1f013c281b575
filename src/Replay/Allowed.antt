-- ===== src/Replay/Allowed.antt =====
-- Which requests are replayed, and what is stored of a replay.
use vexlo.Common.{
  ℕ, ◌*◌, ◌≤◌, ◌<◌, ◌≡◌, refl, sym, ap, subst, ◌∙◌, Bytes, codes, Bool, true, false, Option, none,
  some, arith, length, str_eq, ltb, if◌then◌else◌,
}
use vexlo.Model.{CapturedRequest, CapturedReplay}
use vexlo.Headers.{HeaderJson}
use vexlo.Capture.{sanitize_captured_replay}
use vexlo.Exchange.{ForwardResponse}
use vexlo.Storage.{count_replays_for_session}
use vexlo.Storage.Rows.{Engine}
use vexlo.Storage.Writer.{replay}
use vexlo.Tunnels.{TunnelManager}
use vexlo.Tunnels.Registry.{find_by_session}
use vexlo.Slots.{acquire_hosted_slots}
use vexlo.Access.{
  HttpRequest, Answer, fail, done, or_fail, same_origin, authorize, load_replay_original,
  method_not_allowed,
}
use vexlo.Access.Guarded.{bind-eq-done, check-eq-done, or_fail-eq-done, done-injective}
use vexlo.Access.Records.{load_replay_original-limit}
use vexlo.Public.{Draw, Outcome, only}
use vexlo.Replay.{
  ReplayPayload, or_original, replay_target, begin_replay, replayed, captured_replay,
  forward_replay,
}
use vexlo.Replay.Places.{take_places-done}

module _ (sha256_hex : Bytes → Bytes) (engine : Engine) (json : HeaderJson) where
  -- A replay that gets its places was asked for by a request of the same origin that authorize lets
  -- through for the session that the stored request was captured for and is made on that session's own
  -- tunnel, and the table held fewer than 200 replays of that session when they were counted.
  pub begin_replay-allowed :
      (down : ℕ → Bool) (req : HttpRequest) (payload : Option ReplayPayload) (now r : ℕ)
      (original : CapturedRequest) (m n : TunnelManager)
      → begin_replay sha256_hex engine json down req payload now m ≡ (n, done (r, original))
      → (same_origin req ≡ true)
        × (authorize sha256_hex (down 0) req now m ≡ done original.session_id)
        × (find_by_session original.session_id m ≡ some r)
        × (acquire_hosted_slots r m ≡ (n, true))
        × (count : ℕ) × (count_replays_for_session (down 3) original.session_id m.storage
            ≡ some count)
        × (count < 200)
  unfolding begin_replay replay_target
  begin_replay-allowed down req payload now r original m n h =
      let target = replay_target sha256_hex engine json down req payload now m in
      let (aimed, acquired) = take_places-done target r original m n h in
      let (is_post, e1) =
        check-eq-done (str_eq req.method (codes "POST")) 405 method_not_allowed _ (r, original)
          aimed in
      let (same, e2) =
        check-eq-done (same_origin req) 403 (codes "invalid request origin") _ (r, original) e1 in
      let (session_id, passed, e3) =
        bind-eq-done (authorize sha256_hex (down 0) req now m) _ (r, original) e2 in
      let (p, decoded, e4) =
        bind-eq-done (or_fail 400 (codes "invalid payload") payload) _ (r, original) e3 in
      let (item, loaded, e5) =
        bind-eq-done (load_replay_original sha256_hex engine json down session_id p.request_id m) _
          (r, original) e4 in
      let (at, found, e6) =
        bind-eq-done (or_fail 502 (codes "session tunnel offline") (find_by_session session_id m)) _
          (r, original) e5 in
      let both : ◌≡◌ {A = ℕ × CapturedRequest} (at, item) (r, original) = done-injective e6 in
      let (own, count, counted, few) =
        load_replay_original-limit sha256_hex engine json down session_id p.request_id m item
          loaded in
      let mine : session_id ≡ original.session_id =
        sym own ∙ ap (λ (q : ℕ × CapturedRequest). q.1.session_id) both in
      (
        same,
        passed ∙ ap (λ (k : Bytes). Answer.done k) mine,
        ap (λ (k : Bytes). find_by_session k m) (sym mine)
            ∙ or_fail-eq-done 502 (codes "session tunnel offline") (find_by_session session_id m) at
                found
            ∙ ap (λ (q : ℕ × CapturedRequest). some q.0) both,
        acquired,
        count,
        ap (λ (k : Bytes). count_replays_for_session (down 3) k m.storage) (sym mine) ∙ counted,
        few,
      )

-- A record goes to the writer just when the replay is answered, as the answer shows it.
abbrev pub IsQueued : HeaderJson → CapturedRequest → Bytes → Outcome CapturedReplay → Type 0
IsQueued json original body o =
    ((y : CapturedReplay)
      → o.job ≡ some (replay y)
      → (o.answer ≡ done (sanitize_captured_replay json y))
        × (y.request_id ≡ original.id)
        × (y.mutated_body ≡ body)
        × (length y.mutated_body ≤ 16 * 1024))
    × ((shown : CapturedReplay)
        → o.answer ≡ done shown
        → (y : CapturedReplay) × (o.job ≡ some (replay y)))

only-IsQueued :
    (json : HeaderJson) (original : CapturedRequest) (body : Bytes) (status : ℕ) (text : Bytes)
    → IsQueued json original body (only (fail status text))
only-IsQueued json original body status text = (λ y h. absurd (cc), λ shown h. absurd (cc))

replay-injective : (y z : CapturedReplay) → Option.some (replay y) ≡ some (replay z) → y ≡ z
replay-injective y z e = cc

module _ (canonical : Bytes → Bytes) (json : HeaderJson) (gunzip : ℕ → Bytes → Option Bytes) where
  replayed-IsQueued :
      (draw : Draw) (original : CapturedRequest) (payload : ReplayPayload) (body : Bytes)
      (reply : Option ForwardResponse) (m : TunnelManager)
      → length body ≤ 16 * 1024
      → IsQueued json original body
          (replayed canonical json gunzip draw original payload body reply m)
  unfolding replayed captured_replay
  replayed-IsQueued draw original payload body none m small =
      only-IsQueued json original body 502 (codes "replay forward failed")
  replayed-IsQueued draw original payload body (some resp) m small =
      let item : CapturedReplay =
        captured_replay canonical json gunzip draw original payload body resp m in
      (
        λ y h.
            let same : item ≡ y = replay-injective item y h in
            (
              ap (λ (z : CapturedReplay). Answer.done (sanitize_captured_replay json z)) same,
              ap (λ (z : CapturedReplay). z.request_id) (sym same),
              ap (λ (z : CapturedReplay). z.mutated_body) (sym same),
              subst (λ (z : CapturedReplay). length z.mutated_body ≤ 16 * 1024) same small,
            ),
        λ shown h. (item, refl),
      )

  -- A replay hands a record to the writer's queue just when it is answered with one, and then the
  -- answer is that record with its sensitive headers blanked; the record names the original request,
  -- and its body is the payload's, or the original's if the payload has none, of at most 16 KiB.
  pub forward_replay-IsQueued :
      (draw : Draw) (is_request : Bool) (original : CapturedRequest) (payload : ReplayPayload)
      (reply : Option ForwardResponse) (m : TunnelManager)
      → IsQueued json original
          (or_original original.body payload.body)
          (forward_replay canonical json gunzip draw is_request original payload reply m)
  unfolding forward_replay
  forward_replay-IsQueued draw is_request original payload reply m =
      by_size (ltb (16 * 1024) (length body)) refl is_request
    where
      body : Bytes
      body = or_original original.body payload.body

      by_size :
          (big : Bool)
          → ltb (16 * 1024) (length body) ≡ big
          → (ok : Bool)
          → IsQueued json original body (
              if big
              then only (fail 413 (codes "quick tunnel replay body exceeds limit"))
              else (if ok
                  then replayed canonical json gunzip draw original payload body reply m
                  else only (fail 400 (codes "stored request cannot be replayed"))))
      by_size true e ok =
          only-IsQueued json original body 413 (codes "quick tunnel replay body exceeds limit")
      by_size false e true = replayed-IsQueued draw original payload body reply m (ground arith)
      by_size false e false =
          only-IsQueued json original body 400 (codes "stored request cannot be replayed")
