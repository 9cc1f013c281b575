-- ===== src/Config.antt =====
-- internal/server/config.go, the checks of internal/server/server.go, New, and the flags of
-- cmd/server/main.go. An int, an int64 and a time.Duration, in nanoseconds, are signed.
use vexlo.Common.{
  ℕ, ◌+◌, ◌*◌, ℤ, pos, negsuc, Bytes, codes, Bool, false, not, ◌||◌, [], int_le, leb, str_eq,
  has_prefix,
}
use vexlo.RateLimit.{second, minute}

pub record Config : Type 0 where
  pub http_addr : Bytes
  pub https_addr : Bytes
  pub tcp_addr : Bytes
  pub base_domain : Bytes
  pub db_path : Bytes
  pub host_url : Bytes
  pub enable_tls : Bool
  pub enable_tunnel_tls : Bool
  pub acme_email : Bytes
  pub acme_cache : Bytes
  pub tls_cert_file : Bytes
  pub tls_key_file : Bytes
  pub tls_extra_cert_file : Bytes
  pub tls_extra_key_file : Bytes
  pub capture_body_limit : ℤ
  pub max_request_body_bytes : ℤ
  pub max_api_body_bytes : ℤ
  pub read_timeout : ℤ
  pub write_timeout : ℤ
  pub idle_timeout : ℤ
  pub retention_period : ℤ
  pub admin_username : Bytes
  pub admin_password : Bytes
  pub hosted : Bool
  pub hosted_max_tunnels : ℤ
  pub hosted_max_per_ip : ℤ
  pub hosted_max_in_flight : ℤ
  pub hosted_lifetime : ℤ
  pub hosted_retention : ℤ

abbrev pub hour : ℕ
hour = 60 * minute

-- DefaultConfig
abbrev pub default_config : Config
default_config = record {
  http_addr = codes ":8080";
  https_addr = codes ":8443";
  tcp_addr = codes ":9000";
  base_domain = codes "localhost";
  db_path = codes "vexlo.db";
  host_url = codes "http://localhost:8080";
  enable_tls = false;
  enable_tunnel_tls = false;
  acme_email = [];
  acme_cache = codes "acme-cache";
  tls_cert_file = [];
  tls_key_file = [];
  tls_extra_cert_file = [];
  tls_extra_key_file = [];
  capture_body_limit = pos (256 * 1024);
  max_request_body_bytes = pos (2 * 1024 * 1024);
  max_api_body_bytes = pos (512 * 1024);
  read_timeout = pos (15 * second);
  write_timeout = pos (60 * second);
  idle_timeout = pos (60 * second);
  retention_period = pos (7 * 24 * hour);
  admin_username = [];
  admin_password = [];
  hosted = false;
  hosted_max_tunnels = pos 100;
  hosted_max_per_ip = pos 5;
  hosted_max_in_flight = pos 100;
  hosted_lifetime = pos (8 * hour);
  hosted_retention = pos hour;
}

-- The configuration of main when no flag is given; the operator's name and password are of the
-- environment.
abbrev pub flag_defaults : Bytes → Bytes → Config
flag_defaults user pass = record default_config {
  http_addr = codes ":8080";
  https_addr = codes ":8443";
  tcp_addr = codes ":9000";
  base_domain = codes "localhost";
  db_path = codes "vexlo.db";
  host_url = codes "http://localhost:8080";
  enable_tls = false;
  enable_tunnel_tls = false;
  acme_email = [];
  acme_cache = codes "acme-cache";
  tls_cert_file = [];
  tls_key_file = [];
  tls_extra_cert_file = [];
  tls_extra_key_file = [];
  capture_body_limit = pos (256 * 1024);
  max_request_body_bytes = pos (2 * 1024 * 1024);
  max_api_body_bytes = pos (512 * 1024);
  read_timeout = pos (15 * second);
  write_timeout = pos (60 * second);
  idle_timeout = pos (60 * second);
  retention_period = pos (7 * 24 * hour);
  admin_username = user;
  admin_password = pass;
  hosted = false;
}

-- The condition under which New returns an error before it opens the database.
unfoldable pub is_refused : Config → Bool
is_refused c =
    not c.hosted
    || not c.enable_tls
    || not c.enable_tunnel_tls
    || not (has_prefix c.host_url (codes "https://"))
    || str_eq c.base_domain []
    || str_eq c.base_domain (codes "localhost")
    || int_le c.hosted_max_tunnels 0
    || int_le c.hosted_max_per_ip 0
    || int_le c.hosted_max_in_flight 0
    || int_le c.hosted_lifetime 0
    || int_le c.hosted_retention 0
    || str_eq c.admin_username []
    || str_eq c.admin_password []

-- now.Sub(t) >= d
abbrev pub has_passed : ℤ → ℕ → ℕ → Bool
has_passed (pos d) t now = leb (t + d) now
has_passed (negsuc d) t now = leb t (now + d + 1)
