-- ===== src/Slots.antt =====
-- internal/server/http.go: acquireSlot, releaseSlot, acquireHostedSlots, releaseHostedSlots and
-- admitPublicRequest. A channel of slots is the number of its elements; its capacity is ten for a
-- tunnel (newTunnel) and HostedMaxInFlight for the manager (NewTunnelManager). No channel is nil.
pub mod Held
use vexlo.Common.{ℕ, suc, ◌+◌, ◌-◌, Bytes, Bool, true, false, ltb, if◌then◌else◌, to_nat}
use vexlo.RateLimit.{Verdict, allow_public_request}
use vexlo.Config.{Config}
use vexlo.Tunnels.{Tunnel, TunnelManager, update}

-- acquireSlot
unfoldable pub acquire_slot : ℕ → ℕ → ℕ × Bool
acquire_slot capacity n = if ltb n capacity then (suc n, true) else (n, false)

-- releaseSlot; the default case leaves an empty channel.
unfoldable pub release_slot : ℕ → ℕ
release_slot n = n - 1

-- The capacity of Tunnel.inFlight.
abbrev pub per_tunnel : ℕ
per_tunnel = 10

abbrev pub set_slots : ℕ → ℕ → ℕ → TunnelManager → TunnelManager
set_slots r of_tunnel of_all m = record m {
  heap = update m.heap r (record (m.heap r) { in_flight = of_tunnel });
  in_flight = of_all;
}

-- Server.acquireHostedSlots
unfoldable pub acquire_hosted_slots : ℕ → TunnelManager → TunnelManager × Bool
unfolding acquire_slot release_slot
acquire_hosted_slots r m =
    let (of_tunnel, got) = acquire_slot per_tunnel (m.heap r).in_flight in
    let (of_all, got_all) = acquire_slot (to_nat m.cfg.hosted_max_in_flight) m.in_flight in
    if got
    then (if got_all
        then (set_slots r of_tunnel of_all m, true)
        else (set_slots r (release_slot of_tunnel) m.in_flight m, false))
    else (m, false)

-- Server.releaseHostedSlots
unfoldable pub release_hosted_slots : ℕ → TunnelManager → TunnelManager
unfolding release_slot
release_hosted_slots r m =
    set_slots r (release_slot (m.heap r).in_flight) (release_slot m.in_flight) m

-- net.SplitHostPort(r.RemoteAddr) is the parameter: the host, or the whole address on its error.
-- Server.admitPublicRequest; it answers 429 when the result is false.
unfoldable pub admit_public_request :
    (Bytes → Bytes) → Bytes → ℕ → ℕ → TunnelManager → TunnelManager × Bool
unfolding acquire_hosted_slots allow_public_request
admit_public_request host_of remote_addr r now m =
    let (limiter, allowed) = allow_public_request now (host_of remote_addr) m.public in
    let m' = record m { public = limiter } in
    if allowed then acquire_hosted_slots r m' else (m', false)
