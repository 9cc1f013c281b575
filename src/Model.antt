-- ===== src/Model.antt =====
-- internal/model/model.go: what the server stores, and internal/protocol/protocol.go: the messages
-- of a registration. A time is a number of nanoseconds since Go's zero time; a pointer to a time or
-- a replay that may be nil is an Option.
use vexlo.Common.{ℕ, ℤ, Bytes, Bool, Option, Map}

pub record Session : Type 0 where
  pub id : Bytes
  pub subdomain : Bytes
  pub local_port : ℤ
  pub connection_type : Bytes
  pub started_at : ℕ
  pub ended_at : Option ℕ
  pub auth_token : Bytes
  pub tunnel_token : Bytes
  pub hosted : Bool

pub record CapturedReplay : Type 0 where
  pub id : Bytes
  pub request_id : Bytes
  pub mutated_headers : Bytes
  pub mutated_body : Bytes
  pub response_status : ℕ
  pub response_header : Bytes
  pub response_body : Bytes
  pub duration_ms : ℕ
  pub created_at : ℕ

pub record CapturedRequest : Type 0 where
  pub id : Bytes
  pub session_id : Bytes
  pub method : Bytes
  pub path : Bytes
  pub query : Bytes
  pub headers : Bytes
  pub body : Bytes
  pub response_status : ℕ
  pub response_headers : Bytes
  pub response_body : Bytes
  pub duration_ms : ℕ
  pub created_at : ℕ
  pub replay : Option CapturedReplay
  pub decoded_headers : Map Bytes

-- protocol.Register
pub record Register : Type 0 where
  pub session_id : Bytes
  pub local_port : ℤ
  pub connection_type : Bytes
  pub resume_token : Bytes
  pub quick : Bool

-- protocol.Registered
pub record Registered : Type 0 where
  pub session_id : Bytes
  pub subdomain : Bytes
  pub connect_url : Bytes
  pub dashboard_url : Bytes
  pub connection_type : Bytes
  pub started_at : ℕ
  pub tunnel_token : Bytes
