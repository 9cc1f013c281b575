-- ===== src/Replay/Traffic.antt =====
-- Every public request and every replay, however they overlap: the places that they hold and the
-- captures that they leave.
use vexlo.Common.{ℕ, ◌≤◌, ◌≡◌, Bytes, Bool, true, false, List, [], ◌∷◌, ◌++◌, Option}
use vexlo.Model.{CapturedRequest}
use vexlo.Headers.{HeaderJson}
use vexlo.Exchange.{ForwardResponse}
use vexlo.Tunnels.{TunnelManager}
use vexlo.Slots.{admit_public_request}
use vexlo.Storage.Rows.{Engine}
use vexlo.Access.{HttpRequest, fail, done}
use vexlo.Public.{Body, PublicRequest, Response, Draw, Outcome, finish_public}
use vexlo.Public.Effects.{kept}
use vexlo.Replay.{ReplayPayload, begin_replay, finish_replay}

-- What the other operations do to the places and counts: nothing, but that a new tunnel starts with
-- the count of its session.
pub record LeavesTraffic (m n : TunnelManager) : Type 0 where
  pub all : n.in_flight ≡ m.in_flight
  pub of_tunnel : (r : ℕ) → (n.heap r).in_flight ≡ (m.heap r).in_flight
  pub captures : (r : ℕ) → (m.heap r).capture_count ≤ (n.heap r).capture_count
  pub cfg : n.cfg ≡ m.cfg

module _ (sha256_hex : Bytes → Bytes) (engine : Engine) (json : HeaderJson)
    (canonical : Bytes → Bytes) (gunzip : ℕ → Bytes → Option Bytes)
    (payload_text : CapturedRequest → Bytes) (host_of : Bytes → Bytes) where
  -- Requests and replays begin, are turned away, and end, while other operations run: the manager,
  -- the tunnel of each that is in progress, and that of each request that was captured.
  pub data Traffic (m : TunnelManager) : TunnelManager → List ℕ → List ℕ → Type 0 where
    start : Traffic m m [] []
    admits :
        {n n' : TunnelManager} {held sent : List ℕ} (remote_addr : Bytes) (r now : ℕ)
        → Traffic m n held sent
        → admit_public_request host_of remote_addr r now n ≡ (n', true)
        → Traffic m n' (r ∷ held) sent
    turns_away :
        {n n' : TunnelManager} {held sent : List ℕ} (remote_addr : Bytes) (r now : ℕ)
        → Traffic m n held sent
        → admit_public_request host_of remote_addr r now n ≡ (n', false)
        → Traffic m n' held sent
    serves :
        {n n' : TunnelManager} {sent : List ℕ} (before after : List ℕ) (draw : Draw) (r : ℕ)
        (req : PublicRequest) (body : Body) (reply : Option ForwardResponse)
        (outcome : Outcome Response)
        → Traffic m n (before ++ r ∷ after) sent
        → finish_public canonical json gunzip payload_text draw r req body reply n ≡ (n', outcome)
        → Traffic m n' (before ++ after) (kept r outcome.job ++ sent)
    begins_replay :
        {n n' : TunnelManager} {held sent : List ℕ} (down : ℕ → Bool) (req : HttpRequest)
        (payload : Option ReplayPayload) (now r : ℕ) (original : CapturedRequest)
        → Traffic m n held sent
        → begin_replay sha256_hex engine json down req payload now n ≡ (n', done (r, original))
        → Traffic m n' (r ∷ held) sent
    refuses_replay :
        {n n' : TunnelManager} {held sent : List ℕ} (down : ℕ → Bool) (req : HttpRequest)
        (payload : Option ReplayPayload) (now status : ℕ) (text : Bytes)
        → Traffic m n held sent
        → begin_replay sha256_hex engine json down req payload now n ≡ (n', fail status text)
        → Traffic m n' held sent
    ends_replay :
        {n : TunnelManager} {sent : List ℕ} (before after : List ℕ) (draw : Draw)
        (is_request : Bool) (r : ℕ) (original : CapturedRequest) (payload : ReplayPayload)
        (reply : Option ForwardResponse)
        → Traffic m n (before ++ r ∷ after) sent
        → Traffic m
            (finish_replay canonical json gunzip draw is_request r original payload reply n).0
            (before ++ after)
            sent
    meanwhile :
        {n n' : TunnelManager} {held sent : List ℕ}
        → Traffic m n held sent
        → LeavesTraffic n n'
        → Traffic m n' held sent
