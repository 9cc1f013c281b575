-- ===== src/Replay/Captures.antt =====
-- How many requests of a tunnel are captured.
use vexlo.Common.{
  ℕ, suc, ◌+◌, ◌-◌, ◌≤◌, ◌≡◌, refl, ap, subst, Bytes, Bool, true, false, List, [], ◌∷◌, ◌++◌,
  Option, arith, ==_iff, ◌==◌, ltb, if◌then◌else◌,
}
use vexlo.Model.{CapturedRequest}
use vexlo.Headers.{HeaderJson}
use vexlo.RateLimit.{allow_public_request}
use vexlo.Tunnels.{TunnelManager}
use vexlo.Slots.{
  acquire_slot, release_slot, acquire_hosted_slots, release_hosted_slots, admit_public_request,
}
use vexlo.Slots.Held.{count}
use vexlo.Storage.Rows.{Engine}
use vexlo.Access.{Answer, fail, done}
use vexlo.Public.{Outcome, Response, count_capture, serve_public, finish_public}
use vexlo.Public.Effects.{kept, IsCaptured, without_reply, with_reply, serve_public-IsCaptured}
use vexlo.Replay.{take_places, replay_target, begin_replay, finish_replay}
use vexlo.Replay.Traffic.{
  Traffic, start, admits, turns_away, serves, begins_replay, refuses_replay, ends_replay, meanwhile,
}

-- Each tunnel counted its captures beyond those it had at first, and they are not more than 200.
abbrev IsBounded : TunnelManager → TunnelManager → List ℕ → Type 0
IsBounded m n sent =
    (r : ℕ)
    → (count r sent + (m.heap r).capture_count ≤ (n.heap r).capture_count)
      × (count r sent ≤ 200 - (m.heap r).capture_count)

-- Operations that leave the counts.
abbrev SameCaptures : TunnelManager → TunnelManager → Type 0
SameCaptures n n' = (r : ℕ) → (n'.heap r).capture_count ≡ (n.heap r).capture_count

SameCaptures-IsBounded :
    (m n n' : TunnelManager) (sent : List ℕ)
    → SameCaptures n n'
    → IsBounded m n sent
    → IsBounded m n' sent
SameCaptures-IsBounded m n n' sent same b r = (omega (arith, same r, (b r).0), (b r).1)

acquire-SameCaptures : (r : ℕ) (m : TunnelManager) → SameCaptures m (acquire_hosted_slots r m).0
unfolding acquire_hosted_slots acquire_slot release_slot
acquire-SameCaptures r m s = ground (arith, ==_iff r s)

release-SameCaptures : (r : ℕ) (m : TunnelManager) → SameCaptures m (release_hosted_slots r m)
unfolding release_hosted_slots release_slot
release-SameCaptures r m s = ground (arith, ==_iff r s)

verdict-SameCaptures :
    (allowed : Bool) (r : ℕ) (m : TunnelManager)
    → SameCaptures m (
        let p : TunnelManager × Bool = if allowed then acquire_hosted_slots r m else (m, false) in
        p.0)
verdict-SameCaptures true r m s = acquire-SameCaptures r m s
verdict-SameCaptures false r m s = refl

admit-SameCaptures :
    (host_of : Bytes → Bytes) (remote_addr : Bytes) (r now : ℕ) (m : TunnelManager)
    → SameCaptures m (admit_public_request host_of remote_addr r now m).0
unfolding admit_public_request
admit-SameCaptures host_of remote_addr r now m s =
    let verdict = allow_public_request now (host_of remote_addr) m.public in
    verdict-SameCaptures verdict.1 r (record m { public = verdict.0 }) s

take_places-SameCaptures :
    (target : Answer (ℕ × CapturedRequest)) (m : TunnelManager)
    → SameCaptures m (take_places target m).0
unfolding take_places
take_places-SameCaptures (fail status text) m s = refl
take_places-SameCaptures (done (r, original)) m s = acquire-SameCaptures r m s

moved :
    {A : Type 0} (m n : TunnelManager) (p q : TunnelManager × A) (sent : List ℕ)
    → p ≡ q
    → SameCaptures n p.0
    → IsBounded m n sent
    → IsBounded m q.0 sent
moved m n p q sent e same b =
    subst (λ (k : TunnelManager). IsBounded m k sent) (ap (λ p. p.0) e)
      (SameCaptures-IsBounded m n p.0 sent same b)

count_capture-raises :
    (r : ℕ) (n : TunnelManager) (s : ℕ)
    → ((count_capture r n).heap s).capture_count
      ≡ (if r == s then suc (n.heap s).capture_count else (n.heap s).capture_count)
unfolding count_capture
count_capture-raises r n s = ground (arith, ==_iff r s)

-- A request that is captured is counted, and is among the first 200.
captured-IsBounded :
    (r s before : ℕ) (n : TunnelManager) (sent : List ℕ)
    → count s sent + before ≤ (n.heap s).capture_count
    → count s sent ≤ 200 - before
    → (at : ℕ) → at ≡ ((count_capture r n).heap r).capture_count
    → (count s ((if ltb 200 at then [] else r ∷ []) ++ sent) + before
        ≤ ((count_capture r n).heap s).capture_count)
      × (count s ((if ltb 200 at then [] else r ∷ []) ++ sent) ≤ 200 - before)
captured-IsBounded r s before n sent le few at e = (
  ground (arith, count_capture-raises r n s, count_capture-raises r n r, ==_iff r s, ==_iff r r),
  ground (arith, count_capture-raises r n s, count_capture-raises r n r, ==_iff r s, ==_iff r r),
)

IsCaptured-IsBounded :
    (r : ℕ) (m n n' : TunnelManager) (sent more : List ℕ)
    → IsCaptured r n n' more
    → IsBounded m n sent
    → IsBounded m n' (more ++ sent)
IsCaptured-IsBounded r m n n' sent more without_reply b s = b s
IsCaptured-IsBounded r m n n' sent more with_reply b s =
    captured-IsBounded r s (m.heap s).capture_count n sent (b s).0 (b s).1 _ refl

module _ (sha256_hex : Bytes → Bytes) (engine : Engine) (json : HeaderJson)
    (canonical : Bytes → Bytes) (gunzip : ℕ → Bytes → Option Bytes)
    (payload_text : CapturedRequest → Bytes) (host_of : Bytes → Bytes) where
  Traffic-IsBounded :
      {m n : TunnelManager} {held sent : List ℕ}
      → Traffic sha256_hex engine json canonical gunzip payload_text host_of m n held sent
      → IsBounded m n sent
  unfolding finish_public begin_replay finish_replay
  Traffic-IsBounded start = λ r. (omega arith, omega arith)
  Traffic-IsBounded {m} (admits {n} {n'} {held} {sent} remote_addr r now run h) =
      moved m n (admit_public_request host_of remote_addr r now n) (n', true) sent h
        (admit-SameCaptures host_of remote_addr r now n) (Traffic-IsBounded run)
  Traffic-IsBounded {m} (turns_away {n} {n'} {held} {sent} remote_addr r now run h) =
      moved m n (admit_public_request host_of remote_addr r now n) (n', false) sent h
        (admit-SameCaptures host_of remote_addr r now n) (Traffic-IsBounded run)
  Traffic-IsBounded {m} (serves {n} {n'} {sent} before rest draw r req body reply outcome run h) =
      let served = serve_public canonical json gunzip payload_text draw r req body reply n in
      moved m served.0 (release_hosted_slots r served.0, served.1) (n', outcome)
        (kept r outcome.job ++ sent) h (release-SameCaptures r served.0)
        (IsCaptured-IsBounded r m n served.0 sent (kept r outcome.job)
          (subst (λ (o : Outcome Response). IsCaptured r n served.0 (kept r o.job))
            (ap (λ p. p.1) h)
            (serve_public-IsCaptured canonical json gunzip payload_text draw r req body reply n))
          (Traffic-IsBounded run))
  Traffic-IsBounded {m}
        (begins_replay {n} {n'} {held} {sent} down req payload now r original run h) =
      let target = replay_target sha256_hex engine json down req payload now n in
      moved m n (take_places target n) (n', done (r, original)) sent h
        (take_places-SameCaptures target n) (Traffic-IsBounded run)
  Traffic-IsBounded {m}
        (refuses_replay {n} {n'} {held} {sent} down req payload now status text run h) =
      let target = replay_target sha256_hex engine json down req payload now n in
      moved m n (take_places target n) (n', fail status text) sent h
        (take_places-SameCaptures target n) (Traffic-IsBounded run)
  Traffic-IsBounded {m}
        (ends_replay {n} {sent} before rest draw is_request r original payload reply run) =
      SameCaptures-IsBounded m n (release_hosted_slots r n) sent (release-SameCaptures r n)
        (Traffic-IsBounded run)
  Traffic-IsBounded {m} (meanwhile {n} {n'} {held} {sent} run l) =
      λ r. (omega (arith, (Traffic-IsBounded run r).0, l.captures r), (Traffic-IsBounded run r).1)

  -- However requests and replays overlap, at most 200 requests of a tunnel are captured, less those
  -- that the tunnel had counted at first.
  pub captures_bounded :
      {m n : TunnelManager} {held sent : List ℕ}
      → Traffic sha256_hex engine json canonical gunzip payload_text host_of m n held sent
      → (r : ℕ) → count r sent ≤ 200 - (m.heap r).capture_count
  captures_bounded run r = (Traffic-IsBounded run r).1
