-- ===== src/Slots/Held.antt =====
-- The places in the two kinds of channels, over the requests that are in progress.
use vexlo.Common.{
  ℕ, suc, ◌≤◌, ◌≡◌, refl, true, false, List, [], ◌∷◌, ◌++◌, arith, ◌==◌, ==_iff, length, count_if,
  to_nat, if◌then◌else◌,
}
use vexlo.Tunnels.{TunnelManager}
use vexlo.Slots.{acquire_slot, release_slot, per_tunnel, acquire_hosted_slots, release_hosted_slots}

-- The tunnel of each request that holds its places.
abbrev pub count : ℕ → List ℕ → ℕ
count r held = count_if (λ s. s == r) held

-- Requests begin, are turned away, and end in any order.
pub data Step : TunnelManager → List ℕ → TunnelManager → List ℕ → Type 0 where
  begin :
      (r : ℕ) {m m' : TunnelManager} {held : List ℕ}
      → acquire_hosted_slots r m ≡ (m', true)
      → Step m held m' (r ∷ held)
  busy :
      (r : ℕ) {m m' : TunnelManager} {held : List ℕ}
      → acquire_hosted_slots r m ≡ (m', false)
      → Step m held m' held
  finish :
      (r : ℕ) {m : TunnelManager} (before after : List ℕ)
      → Step m (before ++ r ∷ after) (release_hosted_slots r m) (before ++ after)

pub data Run : TunnelManager → List ℕ → TunnelManager → List ℕ → Type 0 where
  start : {m : TunnelManager} {held : List ℕ} → Run m held m held
  next :
      {m m' m'' : TunnelManager} {held held' held'' : List ℕ}
      → Run m held m' held'
      → Step m' held' m'' held''
      → Run m held m'' held''

-- Each channel has as many elements as there are requests that hold a place in it, and they are
-- not more than its capacity.
pub record IsCounted (m : TunnelManager) (held : List ℕ) : Type 0 where
  pub all : m.in_flight ≡ length held
  pub of_tunnel : (r : ℕ) → (m.heap r).in_flight ≡ count r held
  pub all_fit : length held ≤ to_nat m.cfg.hosted_max_in_flight
  pub tunnel_fits : (r : ℕ) → count r held ≤ per_tunnel

count-middle :
    (s r : ℕ) (before after : List ℕ)
    → count s (before ++ r ∷ after)
      ≡ (if r == s then suc (count s (before ++ after)) else count s (before ++ after))
count-middle s r [] after = ground arith
count-middle s r (b ∷ before) after = ground (arith, count-middle s r before after)

length-middle :
    (r : ℕ) (before after : List ℕ) → length (before ++ r ∷ after) ≡ suc (length (before ++ after))
length-middle r [] after = refl
length-middle r (b ∷ before) after = omega (arith, length-middle r before after)

pub begin-IsCounted :
    (r : ℕ) (m m' : TunnelManager) (held : List ℕ)
    → IsCounted m held
    → acquire_hosted_slots r m ≡ (m', true)
    → IsCounted m' (r ∷ held)
unfolding acquire_hosted_slots acquire_slot
begin-IsCounted r m m' held c h = record {
  all = ground (arith, c.all);
  of_tunnel = λ s. ground (arith, c.of_tunnel s, c.of_tunnel r, ==_iff r s);
  all_fit = ground (arith, c.all);
  tunnel_fits = λ s. ground (arith, c.tunnel_fits s, c.of_tunnel s, c.of_tunnel r, ==_iff r s);
}

pub busy-IsCounted :
    (r : ℕ) (m m' : TunnelManager) (held : List ℕ)
    → IsCounted m held
    → acquire_hosted_slots r m ≡ (m', false)
    → IsCounted m' held
unfolding acquire_hosted_slots acquire_slot release_slot
busy-IsCounted r m m' held c h = record {
  all = ground (arith, c.all);
  of_tunnel = λ s. ground (arith, c.of_tunnel s, c.of_tunnel r, ==_iff r s);
  all_fit = ground (arith, c.all_fit);
  tunnel_fits = c.tunnel_fits;
}

pub finish-IsCounted :
    (r : ℕ) (m : TunnelManager) (before after : List ℕ)
    → IsCounted m (before ++ r ∷ after)
    → IsCounted (release_hosted_slots r m) (before ++ after)
unfolding release_hosted_slots release_slot
finish-IsCounted r m before after c = record {
  all = ground (arith, c.all, length-middle r before after);
  of_tunnel = λ s. ground (
    arith,
    c.of_tunnel s,
    c.of_tunnel r,
    count-middle s r before after,
    count-middle r r before after,
    ==_iff r s,
    ==_iff r r,
  );
  all_fit = ground (arith, c.all_fit, length-middle r before after);
  tunnel_fits = λ s. ground (arith, c.tunnel_fits s, count-middle s r before after, ==_iff r s);
}

Step-IsCounted :
    {m m' : TunnelManager} {held held' : List ℕ}
    → Step m held m' held'
    → IsCounted m held
    → IsCounted m' held'
Step-IsCounted (begin r {m} {m'} {held} h) c = begin-IsCounted r m m' held c h
Step-IsCounted (busy r {m} {m'} {held} h) c = busy-IsCounted r m m' held c h
Step-IsCounted (finish r {m} before after) c = finish-IsCounted r m before after c

-- From channels that count the requests in progress, however requests begin, are turned away and
-- end, the channels count them exactly, and neither a tunnel nor the server has more of them than
-- its capacity.
pub Run-IsCounted :
    {m m' : TunnelManager} {held held' : List ℕ}
    → Run m held m' held'
    → IsCounted m held
    → IsCounted m' held'
Run-IsCounted start c = c
Run-IsCounted (next run step) c = Step-IsCounted step (Run-IsCounted run c)
