-- ===== src/Replay/Places.antt =====
-- The places of public requests and replays.
use vexlo.Common.{
  ℕ, ◌≡◌, refl, sym, ap, ap₂, subst, ◌∙◌, Bytes, Bool, true, false, List, [], ◌∷◌, ◌++◌, Option,
  arith, ==_iff, if◌then◌else◌, to_nat,
}
use vexlo.Model.{CapturedRequest}
use vexlo.Headers.{HeaderJson}
use vexlo.RateLimit.{Limiter, allow_public_request}
use vexlo.Tunnels.{TunnelManager}
use vexlo.Slots.{acquire_hosted_slots, admit_public_request}
use vexlo.Slots.Held.{IsCounted, begin-IsCounted, busy-IsCounted, finish-IsCounted}
use vexlo.Storage.Rows.{Engine}
use vexlo.Access.{Answer, fail, done}
use vexlo.Public.{count_capture, serve_public, finish_public}
use vexlo.Public.Effects.{kept, IsCaptured, without_reply, with_reply, serve_public-IsCaptured}
use vexlo.Replay.{quick_tunnel_busy, take_places, replay_target, begin_replay, finish_replay}
use vexlo.Replay.Traffic.{
  LeavesTraffic, Traffic, start, admits, turns_away, serves, begins_replay, refuses_replay,
  ends_replay, meanwhile,
}

LeavesTraffic-IsCounted :
    (m n : TunnelManager) (held : List ℕ) → LeavesTraffic m n → IsCounted m held → IsCounted n held
LeavesTraffic-IsCounted m n held l c = record {
  all = l.all ∙ c.all;
  of_tunnel = λ r. l.of_tunnel r ∙ c.of_tunnel r;
  all_fit = omega (arith, c.all_fit, ap (λ g. to_nat g.hosted_max_in_flight) l.cfg);
  tunnel_fits = c.tunnel_fits;
}

limited :
    (m : TunnelManager) (l : Limiter) (held : List ℕ)
    → IsCounted m held
    → IsCounted (record m { public = l }) held
limited m l held c = record {
  all = c.all;
  of_tunnel = c.of_tunnel;
  all_fit = c.all_fit;
  tunnel_fits = c.tunnel_fits;
}

-- The places after the limiter's verdict.
verdict-IsCounted :
    (allowed got : Bool) (r : ℕ) (m n : TunnelManager) (held : List ℕ)
    → IsCounted m held
    → (if allowed then acquire_hosted_slots r m else (m, false)) ≡ (n, got)
    → IsCounted n (if got then r ∷ held else held)
verdict-IsCounted true true r m n held c h = begin-IsCounted r m n held c h
verdict-IsCounted true false r m n held c h = busy-IsCounted r m n held c h
verdict-IsCounted false true r m n held c h = absurd (ground arith)
verdict-IsCounted false false r m n held c h =
    subst (λ (k : TunnelManager). IsCounted k held) (ap (λ p. p.0) h) c

admit-IsCounted :
    (host_of : Bytes → Bytes) (remote_addr : Bytes) (r now : ℕ) (got : Bool) (m n : TunnelManager)
    (held : List ℕ)
    → IsCounted m held
    → admit_public_request host_of remote_addr r now m ≡ (n, got)
    → IsCounted n (if got then r ∷ held else held)
unfolding admit_public_request
admit-IsCounted host_of remote_addr r now got m n held c h =
    let verdict = allow_public_request now (host_of remote_addr) m.public in
    verdict-IsCounted verdict.1 got r (record m { public = verdict.0 }) n held
      (limited m verdict.0 held c) h

took-done :
    (r s : ℕ) (got : Bool) (item original : CapturedRequest) (m n : TunnelManager)
    → (let p : TunnelManager × Answer (ℕ × CapturedRequest) =
          (m, if got then done (s, item) else fail 429 quick_tunnel_busy) in
        p)
      ≡ (n, done (r, original))
    → (got ≡ true) × (s ≡ r) × (m ≡ n) × (item ≡ original)
took-done r s true item original m n h = (refl, cc, cc, cc)
took-done r s false item original m n h = absurd (cc)

took-fail :
    (s status : ℕ) (text : Bytes) (got : Bool) (item : CapturedRequest) (m n : TunnelManager)
    → (let p : TunnelManager × Answer (ℕ × CapturedRequest) =
          (m, if got then done (s, item) else fail 429 quick_tunnel_busy) in
        p)
      ≡ (n, fail status text)
    → (got ≡ false) × (m ≡ n)
took-fail s status text true item m n h = absurd (cc)
took-fail s status text false item m n h = (refl, cc)

-- The places of a replay.
pub take_places-done :
    (target : Answer (ℕ × CapturedRequest)) (r : ℕ) (original : CapturedRequest)
    (m n : TunnelManager)
    → take_places target m ≡ (n, done (r, original))
    → (target ≡ done (r, original)) × (acquire_hosted_slots r m ≡ (n, true))
unfolding take_places
take_places-done (fail status text) r original m n h =
    let e : ◌≡◌ {A = Answer (ℕ × CapturedRequest)} (fail status text) (done (r, original)) =
      ap (λ (p : TunnelManager × Answer (ℕ × CapturedRequest)). p.1) h in
    absurd (cc)
take_places-done (done (s, item)) r original m n h =
    let x : TunnelManager × Bool = acquire_hosted_slots s m in
    let (got, at, state, same) = took-done r s x.1 item original x.0 n h in
    (
      cc,
      ap (λ (k : ℕ). acquire_hosted_slots k m) (sym at)
          ∙ ap₂ (λ (k : TunnelManager) (b : Bool). (k, b)) state got,
    )

take_places-fail :
    (target : Answer (ℕ × CapturedRequest)) (status : ℕ) (text : Bytes) (m n : TunnelManager)
    (held : List ℕ)
    → IsCounted m held
    → take_places target m ≡ (n, fail status text)
    → IsCounted n held
unfolding take_places
take_places-fail (fail status' text') status text m n held c h =
    subst (λ (k : TunnelManager). IsCounted k held)
      (ap (λ (p : TunnelManager × Answer (ℕ × CapturedRequest)). p.0) h) c
take_places-fail (done (s, item)) status text m n held c h =
    let x : TunnelManager × Bool = acquire_hosted_slots s m in
    let (got, state) = took-fail s status text x.1 item x.0 n h in
    busy-IsCounted s m n held c (ap₂ (λ (k : TunnelManager) (b : Bool). (k, b)) state got)

count_capture-LeavesPlaces :
    (r : ℕ) (m : TunnelManager) (held : List ℕ)
    → IsCounted m held
    → IsCounted (count_capture r m) held
unfolding count_capture
count_capture-LeavesPlaces r m held c = record {
  all = c.all;
  of_tunnel = λ s. ground (arith, c.of_tunnel s, c.of_tunnel r, ==_iff r s);
  all_fit = c.all_fit;
  tunnel_fits = c.tunnel_fits;
}

IsCaptured-IsCounted :
    (r : ℕ) (m n : TunnelManager) (held sent : List ℕ)
    → IsCaptured r m n sent
    → IsCounted m held
    → IsCounted n held
IsCaptured-IsCounted r m n held sent without_reply c = c
IsCaptured-IsCounted r m n held sent with_reply c = count_capture-LeavesPlaces r m held c

module _ (sha256_hex : Bytes → Bytes) (engine : Engine) (json : HeaderJson)
    (canonical : Bytes → Bytes) (gunzip : ℕ → Bytes → Option Bytes)
    (payload_text : CapturedRequest → Bytes) (host_of : Bytes → Bytes) where
  -- However public requests and replays begin, are turned away, fail and end, both kinds of channels
  -- hold exactly the places of those in progress, and never more than their capacities.
  pub Traffic-IsCounted :
      {m n : TunnelManager} {held sent : List ℕ}
      → Traffic sha256_hex engine json canonical gunzip payload_text host_of m n held sent
      → IsCounted m []
      → IsCounted n held
  unfolding finish_public begin_replay finish_replay
  Traffic-IsCounted start c = c
  Traffic-IsCounted (admits {n} {n'} {held} remote_addr r now run h) c =
      admit-IsCounted host_of remote_addr r now true n n' held (Traffic-IsCounted run c) h
  Traffic-IsCounted (turns_away {n} {n'} {held} remote_addr r now run h) c =
      admit-IsCounted host_of remote_addr r now false n n' held (Traffic-IsCounted run c) h
  Traffic-IsCounted (serves {n} {n'} before after draw r req body reply outcome run h) c =
      let served = serve_public canonical json gunzip payload_text draw r req body reply n in
      subst (λ (k : TunnelManager). IsCounted k (before ++ after)) (ap (λ p. p.0) h)
        (finish-IsCounted r served.0 before after (
          IsCaptured-IsCounted r n served.0 (before ++ r ∷ after) (kept r served.1.job)
            (serve_public-IsCaptured canonical json gunzip payload_text draw r req body reply n)
            (Traffic-IsCounted run c)))
  Traffic-IsCounted (begins_replay {n} {n'} {held} down req payload now r original run h) c =
      begin-IsCounted r n n' held (Traffic-IsCounted run c)
        (take_places-done (replay_target sha256_hex engine json down req payload now n) r original n
          n' h).1
  Traffic-IsCounted (refuses_replay {n} {n'} {held} down req payload now status text run h) c =
      take_places-fail (replay_target sha256_hex engine json down req payload now n) status text n
        n' held (Traffic-IsCounted run c) h
  Traffic-IsCounted (ends_replay {n} before after draw is_request r original payload reply run) c =
      finish-IsCounted r n before after (Traffic-IsCounted run c)
  Traffic-IsCounted (meanwhile {n} {n'} {held} run l) c =
      LeavesTraffic-IsCounted n n' held l (Traffic-IsCounted run c)
