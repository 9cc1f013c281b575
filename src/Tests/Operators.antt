-- ===== src/Tests/Operators.antt =====
-- The operator, the start of a server and its retention.
use vexlo.Common.{
  ℕ, ◌≡◌, ◌↔◌, ◌⊎◌, refl, sym, ap, ◌∙◌, str_eq_iff, if◌then◌else◌, Bytes, codes, Bool, true, false,
  List, [], ◌∷◌, Option, none, some, arith, pos, Map, get, str_eq,
}
use vexlo.Config.{Config, default_config, is_refused}
use vexlo.Model.{Session}
use vexlo.Storage.{Db, empty_db, is_open}
use vexlo.Tunnels.{TunnelManager, new_tunnel_manager}
use vexlo.Tunnels.Consistency.{IsConsistent}
use vexlo.Tunnels.History.{IsTable}
use vexlo.Access.{HttpRequest, done, same_origin}
use vexlo.Operator.{admin_authorized, handle_admin_registrations, admin_registrations}
use vexlo.Operator.Guarded.{
  IsUnswitched, IsSwitched, admin_authorized_iff, admin_registrations-guarded,
}
use vexlo.Hub.{new_hub}
use vexlo.Server.{Server, new_server}
use vexlo.Server.Start.{start, is_encrypted, is_attended, start-encrypted}
use vexlo.Server.Restart.{restart_keeps_pause, new_server-IsConsistent}

abbrev cfg : Config
cfg = record default_config {
  base_domain = codes "t.io";
  host_url = codes "https://t.io";
  enable_tls = true;
  enable_tunnel_tls = true;
  hosted = true;
  admin_username = codes "op";
  admin_password = codes "pw";
}

abbrev session : Session
session = record {
  id = codes "s1";
  subdomain = codes "abc";
  local_port = pos 3000;
  connection_type = codes "tcp";
  started_at = 5;
  ended_at = none;
  auth_token = [];
  tunnel_token = [];
  hosted = true;
}

abbrev stored : Db
stored = record empty_db { sessions = (codes "s1", session) ∷ [] }

abbrev manager : TunnelManager
manager = new_tunnel_manager cfg stored

abbrev pauses : HttpRequest
pauses = record {
  method = codes "POST";
  path = codes "/api/admin/registrations";
  host = codes "t.io";
  is_tls = true;
  origin = some (record { scheme = codes "https"; host = codes "t.io" });
  session_query = [];
  session_header = [];
  cookie = λ name. none;
}

abbrev credentials : Option (Bytes × Bytes)
credentials = some (codes "op", codes "pw")

abbrev paused_manager : TunnelManager
paused_manager = (handle_admin_registrations false pauses (some true) manager).0

accepted : is_refused cfg ≡ false
unfolding is_refused vexlo.Common.has_prefix str_eq
accepted = refl

admin_authorized_iff_example :
    (admin_authorized cfg credentials ≡ true) ↔ (credentials ≡ some (codes "op", codes "pw"))
admin_authorized_iff_example = admin_authorized_iff cfg credentials accepted

admin_registrations-guarded_example :
    IsUnswitched manager paused_manager (done true)
    ⊎ (IsSwitched false manager paused_manager (done true)
        × (pauses.method ≡ codes "POST")
        × (true ≡ true)
        × (same_origin pauses ≡ true)
        × (credentials ≡ some (codes "op", codes "pw")))
unfolding admin_registrations str_eq vexlo.Compare.constant_time_compare
admin_registrations-guarded_example =
    admin_registrations-guarded false pauses credentials (some true) manager paused_manager
      (done true) accepted refl

restart_keeps_pause_example :
    (paused_manager.is_paused ≡ true)
    × (s : Server) × (new_server (λ i. false) cfg (some paused_manager.storage) 9 ≡ some s)
    × (s.manager.is_paused ≡ true)
unfolding handle_admin_registrations str_eq
restart_keeps_pause_example =
    restart_keeps_pause false pauses (some true) manager paused_manager true cfg 9 refl accepted

-- The only key of the table.
only_key :
    (k : Bytes) (s : Session) → get k stored.sessions ≡ some s → (k ≡ codes "s1") × (s ≡ session)
unfolding str_eq get
only_key k s e = by_key (str_eq (codes "s1") k) refl e
  where
    by_key :
        (b : Bool)
        → str_eq (codes "s1") k ≡ b
        → (if b then some session else none) ≡ some s
        → (k ≡ codes "s1") × (s ≡ session)
    by_key true same h = (sym ((str_eq_iff (codes "s1") k).0 same), cc)
    by_key false differs h = absurd (cc)

stored-IsTable : IsTable stored.sessions
stored-IsTable = record {
  one_name = λ j k s t e f same. (only_key j s e).0 ∙ sym (only_key k t f).0;
  row_ids = λ k s e. ap (λ (x : Session). x.id) (only_key k s e).1 ∙ sym (only_key k s e).0;
}

abbrev ended_session : Session
ended_session = record session { ended_at = some 9 }

abbrev started : Server
started = record {
  manager = new_tunnel_manager cfg (record stored { sessions = (codes "s1", ended_session) ∷ [] });
  hub = new_hub;
  binary_slots = 200;
  websocket_slots = 200;
}

new_server-IsConsistent_example :
    (is_refused cfg ≡ false)
    × IsConsistent started.manager
    × (started.manager.tunnels ≡ [])
    × (started.manager.by_session ≡ [])
    × ((k : Bytes) (row : Session)
        → get k started.manager.storage.sessions ≡ some row
        → row.hosted ≡ true
        → is_open row ≡ false)
unfolding new_server vexlo.Common.has_prefix str_eq vexlo.Common.map_values get
new_server-IsConsistent_example =
    new_server-IsConsistent (λ i. false) cfg stored 9 started stored-IsTable refl

abbrev no_pair : Bytes → Bytes → Option Bytes
no_pair cert_file key_file = none

start-encrypted_example :
    (is_encrypted {A = Bytes} false (start no_pair cfg true true true).0 ≡ true)
    × (is_attended {A = Bytes} false (start no_pair cfg true true true).0 ≡ true)
start-encrypted_example = start-encrypted no_pair cfg true true true accepted
