-- ===== src/Tunnels.antt =====
-- internal/server/tunnel.go: the tunnel manager. A *Tunnel is an address in `heap`; `next` is the
-- first that has not been given out. The two maps hold addresses, so that a tunnel that has been
-- replaced is told apart from the one in its place. The mutexes make each operation one step; where
-- the code lets go of a mutex inside an operation, the operation has two functions here
-- (`unlink` and `end_session` in removeTunnel). time.Now and randomID enter as arguments; where an
-- operation asks for the time twice, both answers are the same.
pub mod Registry
pub mod Register
pub mod Handoff
pub mod Wiring
pub mod Links
pub mod Consistency
pub mod Settled
pub mod Admission
pub mod History
pub mod Outcome
pub mod Resume
pub mod Revoked
pub mod Capacity
pub mod Claims
pub mod Supersede
pub mod Rows
pub mod Since
pub mod Ended
use vexlo.Common.{
  ℕ, suc, ◌+◌, ◌*◌, ℤ, Bytes, Bool, true, false, List, [], ◌∷◌, Option, none, some, ◌==◌,
  if◌then◌else◌, Map, get, codes, ◌++◌,
}
use vexlo.Model.{Session}
use vexlo.Storage.{Db, empty_db}
use vexlo.RateLimit.{Limiter, new_limiter}
use vexlo.Config.{Config}

-- Tunnel. `is_connected` is whether its connection has not been closed by the server, `is_closed`
-- whether its channel `closed` has been, and `in_flight` how many hold a place in its channel of
-- ten. Its pending replies are in Exchange.
pub record Tunnel : Type 0 where
  pub subdomain : Bytes
  pub local_port : ℤ
  pub session : Session
  pub auth_token : Bytes
  pub source_ip : Bytes
  pub is_connected : Bool
  pub is_closed : Bool
  pub in_flight : ℕ
  pub capture_count : ℕ

-- newTunnel, with the fields that Register sets next
unfoldable pub new_tunnel : Session → Bytes → ℕ → Tunnel
new_tunnel session source_ip count = record {
  subdomain = session.subdomain;
  local_port = session.local_port;
  session = session;
  auth_token = session.auth_token;
  source_ip = source_ip;
  is_connected = true;
  is_closed = false;
  in_flight = 0;
  capture_count = count;
}

-- dashboardHandoff
pub record DashboardHandoff : Type 0 where
  pub session_id : Bytes
  pub expires : ℕ

pub record TunnelManager : Type 0 where
  pub tunnels : Map ℕ
  pub by_session : Map ℕ
  pub heap : ℕ → Tunnel
  pub next : ℕ
  pub storage : Db
  pub cfg : Config
  pub registrations : Limiter
  pub public : Limiter
  pub handoffs : Map DashboardHandoff
  pub in_flight : ℕ
  pub is_paused : Bool

abbrev pub update : (ℕ → Tunnel) → ℕ → Tunnel → ℕ → Tunnel
update heap r t s = if r == s then t else heap s

-- An address that was not given out; nothing reads it.
abbrev pub no_tunnel : Tunnel
no_tunnel = record {
  subdomain = [];
  local_port = ℤ.pos 0;
  session = record {
    id = [];
    subdomain = [];
    local_port = ℤ.pos 0;
    connection_type = [];
    started_at = 0;
    ended_at = none;
    auth_token = [];
    tunnel_token = [];
    hosted = false;
  };
  auth_token = [];
  source_ip = [];
  is_connected = false;
  is_closed = true;
  in_flight = 0;
  capture_count = 0;
}

-- NewTunnelManager, over an opened database
abbrev pub new_tunnel_manager : Config → Db → TunnelManager
new_tunnel_manager cfg db = record {
  tunnels = [];
  by_session = [];
  heap = λ r. no_tunnel;
  next = 0;
  storage = db;
  cfg = cfg;
  registrations = new_limiter;
  public = new_limiter;
  handoffs = [];
  in_flight = 0;
  is_paused = false;
}
