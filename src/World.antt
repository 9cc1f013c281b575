-- ===== src/World.antt =====
-- The whole server at work: the manager's handlers of internal/server/http.go and
-- internal/server/tunnel.go, the retention loop of internal/server/server.go and the writer of
-- internal/storage/db.go over one database. The database is the manager's `storage`: a round of the
-- writer begins with it and leaves it changed, since there is one connection (SetMaxOpenConns(1)) and
-- a transaction holds it. A move is one step of one goroutine, so that a list of moves is an
-- interleaving; what a handler does after Forward, its call of Enqueue and its deferred releases are
-- one move, which waits where Enqueue would. The hub is not part of it. A new process opens the same
-- database, of which a crash leaves what was committed.
-- What crypto, net/http, encoding/json, compress/gzip and SQLite compute is in `Platform`.
pub mod Rows
pub mod Effects
pub mod Traced
pub mod Attributed
use vexlo.Common.{
  ℕ, ℤ, Bytes, Bool, true, false, List, [], ◌∷◌, ◌++◌, Option, none, some, get, if◌then◌else◌, Map,
}
use vexlo.Model.{Register, CapturedRequest}
use vexlo.Config.{Config}
use vexlo.Headers.{HeaderJson}
use vexlo.Storage.{Db}
use vexlo.Storage.Rows.{Engine}
use vexlo.Storage.Writer.{Job, Writer, Choice, open_writer, send, give_up, close, cancel, turn}
use vexlo.Tunnels.{TunnelManager}
use vexlo.Tunnels.Register.{Outages, Draws, register}
use vexlo.Tunnels.Registry.{close_tunnel}
use vexlo.Tunnels.Handoff.{claim_dashboard_handoff}
use vexlo.Slots.{admit_public_request}
use vexlo.Exchange.{ForwardResponse}
use vexlo.Access.{HttpRequest}
use vexlo.Operator.{admin_registrations, admin_tunnel}
use vexlo.Public.{Body, PublicRequest, Draw, finish_public}
use vexlo.Replay.{ReplayPayload, begin_replay, finish_replay}
use vexlo.Server.{Server, new_server, prune}

pub record World : Type 0 where
  pub manager : TunnelManager
  pub writer : Writer

abbrev pub back : World → Option Writer → Option World
back w none = none
back w (some v) = some (record { manager = record w.manager { storage = v.db }; writer = v })

-- What the writer, or a call of it, does over the database that the handlers use.
unfoldable pub on_database : (Writer → Option Writer) → World → Option World
on_database f w = back w (f (record w.writer { db = w.manager.storage }))

abbrev pub as_list : Option Job → List Job
as_list none = []
as_list (some job) = job ∷ []

-- Enqueue: which case its select takes. No step is possible while neither can be.
unfoldable pub enqueue : Bool → Option Job → Writer → Option Writer
unfolding send give_up
enqueue gives_up none v = some v
enqueue true (some job) v = give_up v
enqueue false (some job) v = send job v

-- A handler that has changed the manager and hands a job to the writer.
unfoldable pub hand_over : Bool → Option Job → TunnelManager → World → Option World
unfolding enqueue on_database
hand_over gives_up job m w = on_database (enqueue gives_up job) (record w { manager = m })

-- A process that starts over the database that the last one left.
unfoldable pub restarted : Option Server → Option World
restarted none = none
restarted (some s) = some (record { manager = s.manager; writer = open_writer s.manager.storage })

-- What the program takes from outside.
pub record Platform : Type 0 where
  pub sha256_hex : Bytes → Bytes
  pub engine : Engine
  pub json : HeaderJson
  pub canonical : Bytes → Bytes
  pub gunzip : ℕ → Bytes → Option Bytes
  pub payload_text : CapturedRequest → Bytes
  pub host_of : Bytes → Bytes

-- What a handler does with the manager, for every handler that changes it or the database; a public
-- request and a replay are two operations, as in Public.
pub data Operation : Type 0 where
  registers : Outages → Draws → Bytes → ℕ → Register → Operation
  closes : Bool → ℕ → ℕ → Operation
  claims : Bytes → Bytes → ℕ → Operation
  switches : Bool → HttpRequest → Option (Bytes × Bytes) → Option Bool → Operation
  revokes : Bool → HttpRequest → Option (Bytes × Bytes) → ℕ → Operation
  admits : Bytes → ℕ → ℕ → Operation
  serves : Draw → ℕ → PublicRequest → Body → Option ForwardResponse → Operation
  begins_replay : (ℕ → Bool) → HttpRequest → Option ReplayPayload → ℕ → Operation
  ends_replay :
      Draw → Bool → ℕ → CapturedRequest → ReplayPayload → Option ForwardResponse → Operation

module _ (p : Platform) where
  -- The manager after an operation, and the job that it hands to the writer.
  unfoldable pub perform : Operation → TunnelManager → TunnelManager × Option Job
  unfolding register close_tunnel claim_dashboard_handoff admin_registrations admin_tunnel
      admit_public_request finish_public begin_replay finish_replay
  perform (registers outages draws source_ip now reg) m =
      ((register p.sha256_hex outages draws source_ip now reg m).0, none)
  perform (closes down r now) m = (close_tunnel down r now m, none)
  perform (claims session_id raw now) m =
      ((claim_dashboard_handoff p.sha256_hex session_id raw now m).0, none)
  perform (switches down req basic payload) m =
      ((admin_registrations down req basic payload m).0, none)
  perform (revokes down req basic now) m = ((admin_tunnel down req basic now m).0, none)
  perform (admits remote_addr r now) m =
      ((admit_public_request p.host_of remote_addr r now m).0, none)
  perform (serves draw r req body reply) m =
      let (m', outcome) =
        finish_public p.canonical p.json p.gunzip p.payload_text draw r req body reply m in
      (m', outcome.job)
  perform (begins_replay down req payload now) m =
      ((begin_replay p.sha256_hex p.engine p.json down req payload now m).0, none)
  perform (ends_replay draw is_request r original payload reply) m =
      let (m', outcome) =
        finish_replay p.canonical p.json p.gunzip draw is_request r original payload reply m in
      (m', outcome.job)

-- A step of some goroutine. The Boolean of `operates` is which case Enqueue's select takes.
pub data Move : Type 0 where
  operates : Bool → Operation → Move
  prunes : (ℕ → Bool) → ℕ → Move
  writes : Choice → Move
  stops : Move
  closes_queue : Move
  restarts : (ℕ → Bool) → Config → ℕ → Move

module _ (p : Platform) where
  -- `none` is a move that cannot be made.
  unfoldable pub step : Move → World → Option World
  unfolding perform hand_over prune turn cancel close restarted new_server
  step (operates gives_up op) w =
      let (m, job) = perform p op w.manager in hand_over gives_up job m w
  step (prunes down now) w = some (record w { manager = prune down now w.manager })
  step (writes choice) w = on_database (turn choice) w
  step stops w = some (record w { writer = cancel w.writer })
  step closes_queue w = some (record w { writer = close w.writer })
  step (restarts down cfg now) w = restarted (new_server down cfg (some w.manager.storage) now)

  abbrev pub and_then : Option World → (World → Option World) → Option World
  and_then none f = none
  and_then (some w) f = f w

  unfoldable pub run : List Move → World → Option World
  unfolding step
  run [] w = some w
  run (move ∷ rest) w = and_then (step move w) (λ v. run rest v)

  -- The jobs that the moves have handed to the writer, those that it gave up among them.
  abbrev pub handed_in : Move → World → List Job
  unfolding perform
  handed_in (operates gives_up op) w = as_list (perform p op w.manager).1
  handed_in (prunes down now) w = []
  handed_in (writes choice) w = []
  handed_in stops w = []
  handed_in closes_queue w = []
  handed_in (restarts down cfg now) w = []

  abbrev pub or_nothing : Option World → (World → List Job) → List Job
  or_nothing none f = []
  or_nothing (some w) f = f w

  unfoldable pub handed : List Move → World → List Job
  unfolding step
  handed [] w = []
  handed (move ∷ rest) w = handed_in move w ++ or_nothing (step move w) (λ v. handed rest v)
