-- ===== src/Tests/Servers.antt =====
-- Runs of the tunnel manager.
use vexlo.Common.{
  str_eq_iff, ℕ, suc, ◌*◌, ◌≤◌, ◌<◌, ◌≡◌, ◌≢◌, ◌↔◌, ◌⊎◌, refl, Bytes, codes, Bool, true, false,
  List, [], ◌∷◌, Option, none, some, arith, pos, Map, get, length, to_nat,
}
use vexlo.Model.{Session, Register, Registered}
use vexlo.RateLimit.{second}
use vexlo.Config.{Config, default_config}
use vexlo.Storage.{Db, empty_db}
use vexlo.Tunnels.{TunnelManager, new_tunnel, new_tunnel_manager}
use vexlo.Tunnels.Registry.{install_tunnel, unlink, end_stored, revoke_hosted}
use vexlo.Tunnels.Handoff.{new_dashboard_handoff, claim_dashboard_handoff}
use vexlo.Tunnels.Register.{Outages, Draws, ok, validate_resume, register}
use vexlo.Tunnels.Consistency.{IsConsistent}
use vexlo.Tunnels.History.{IsTable, Reach, here, next, registers, Reach-IsConsistent}
use vexlo.Access.{HttpRequest}
use vexlo.Routes.{to_tunnel}
use vexlo.Routes.Dispatch.{IsRight, dispatch-IsRight}
use vexlo.Tunnels.Resume.{IsResumable, validate_resume_iff}
use vexlo.Tunnels.Ended.{revoked_stays}
use vexlo.Tunnels.Since.{still, after}
use vexlo.Tunnels.Capacity.{tunnels_from, register_new_fits}
use vexlo.Tunnels.Claims.{claim_once, claim-new}
use vexlo.Tunnels.Supersede.{end_after_install}

-- In place of SHA-256.
abbrev pub digest : Bytes → Bytes
digest s = 1 ∷ s

abbrev cfg : Config
cfg = record default_config { base_domain = codes "t.io"; hosted = true }

abbrev pub empty_server : TunnelManager
empty_server = new_tunnel_manager cfg empty_db

abbrev pub all_up : Outages
all_up = record {
  validate = false;
  resume = false;
  allocate = λ i. false;
  upsert = false;
  count = false;
}

abbrev pub draws : Draws
draws = record {
  id = codes "s1";
  subdomain = codes "abc";
  auth_token = codes "a1";
  tunnel_token = codes "t1";
  retries = λ i. codes "xyz";
  handoff = codes "h1";
}

abbrev pub noon : ℕ
noon = 43200 * second

abbrev pub new_quick : Register
new_quick = record {
  session_id = [];
  local_port = pos 3000;
  connection_type = codes "tcp";
  resume_token = [];
  quick = true;
}

abbrev resume_quick : Register
resume_quick = record new_quick { session_id = codes "s1"; resume_token = codes "t1" }

abbrev pub home : Bytes
home = codes "10.0.0.1"

empty-IsTable : IsTable empty_server.storage.sessions
unfolding get
empty-IsTable = record { one_name = λ j k s t a b e. absurd (cc); row_ids = λ k s e. absurd (cc) }

abbrev pub registered_server : TunnelManager
registered_server = (register digest all_up draws home noon new_quick empty_server).0

registered-Reach : Reach digest cfg empty_db registered_server
unfolding get
registered-Reach = next here (registers all_up draws home noon new_quick (λ e. refl) refl)

Reach-IsConsistent_example : IsConsistent registered_server
Reach-IsConsistent_example = Reach-IsConsistent digest empty-IsTable registered-Reach

validate_resume_iff_example :
    (validate_resume digest false (suc noon) resume_quick registered_server ≡ ok tt)
    ↔ ((s : Session) × IsResumable digest (suc noon) resume_quick registered_server s)
validate_resume_iff_example = validate_resume_iff digest (suc noon) resume_quick registered_server

abbrev revoked_server : TunnelManager
revoked_server = (revoke_hosted false (codes "s1") (suc noon) registered_server).0

abbrev next_draws : Draws
next_draws = record draws { id = codes "s2"; subdomain = codes "abd"; handoff = codes "h2" }

abbrev after_revocation : TunnelManager
after_revocation =
    (register digest all_up next_draws home (suc (suc noon)) new_quick revoked_server).0

revoked_stays_example :
    validate_resume digest false (suc (suc noon)) resume_quick after_revocation ≢ ok tt
unfolding register revoke_hosted vexlo.Storage.revoke_session get vexlo.Common.str_eq
    vexlo.RateLimit.check_registration_rate vexlo.Common.count_values vexlo.Storage.subdomain_exists
    vexlo.Common.any_value vexlo.Storage.upsert_session vexlo.Storage.count_requests
    vexlo.Common.put vexlo.Storage.session_row vexlo.Common.modify
revoked_stays_example =
    revoked_stays digest false false (suc noon) (suc (suc noon)) resume_quick registered_server
      revoked_server after_revocation empty-IsTable registered-Reach refl
      (after still (registers all_up next_draws home (suc (suc noon)) new_quick (λ e. refl) refl))

abbrev pub registered_reply : Registered
registered_reply = record {
  session_id = codes "s1";
  subdomain = codes "abc";
  connect_url = codes "https://abc.t.io";
  dashboard_url = codes "http://localhost:8080/app#session=s1&handoff=h1";
  connection_type = codes "tcp";
  started_at = noon;
  tunnel_token = codes "t1";
}

register_new_fits_example :
    (empty_server.is_paused ≡ false)
    × (tunnels_from home empty_server < to_nat cfg.hosted_max_per_ip)
    × (length registered_server.by_session ≤ to_nat cfg.hosted_max_tunnels)
unfolding register vexlo.Common.str_eq vexlo.RateLimit.check_registration_rate get
    vexlo.Common.count_values vexlo.Storage.subdomain_exists vexlo.Common.any_value
    vexlo.Storage.upsert_session vexlo.Storage.count_requests
register_new_fits_example =
    register_new_fits digest all_up draws home noon new_quick empty_server registered_server
      registered_reply 0 refl refl

abbrev calm_session : Session
calm_session = record {
  id = codes "s1";
  subdomain = codes "abc";
  local_port = pos 3000;
  connection_type = codes "http";
  started_at = noon;
  ended_at = none;
  auth_token = codes "a1";
  tunnel_token = codes "t1";
  hosted = true;
}

-- The session has the tunnel at 1; the one at 0 was replaced by it.
abbrev replaced_server : TunnelManager
replaced_server = record empty_server {
  tunnels = (codes "abc", 1) ∷ [];
  by_session = (codes "s1", 1) ∷ [];
  heap = λ r. new_tunnel calm_session home 0;
  next = 2;
  storage = record empty_db { sessions = (codes "s1", calm_session) ∷ [] };
}

end_after_install_example :
    let m' =
      end_stored false 1
        (suc noon)
        (install_tunnel (new_tunnel calm_session home 0) (unlink 1 replaced_server).0) in
    (get (codes "s1") m'.by_session ≡ some 2)
    × (get (codes "abc") m'.tunnels ≡ some 2)
    × (get (codes "s1") m'.storage.sessions
        ≡ some (record calm_session { ended_at = some (suc noon) }))
unfolding get vexlo.Common.str_eq new_tunnel
end_after_install_example =
    end_after_install 1 (suc noon) (new_tunnel calm_session home 0) calm_session replaced_server
      (omega arith) refl refl

abbrev handing_server : TunnelManager
handing_server = new_dashboard_handoff digest (codes "s1") (codes "h1") noon replaced_server

abbrev claimed_server : TunnelManager
claimed_server =
    (claim_dashboard_handoff digest (codes "s1") (codes "h1") (suc noon) handing_server).0

claim-new_example :
    (claim_dashboard_handoff digest
      (codes "s1")
      (codes "h1")
      (suc noon)
      (new_dashboard_handoff digest (codes "s1") (codes "h1") noon replaced_server)).1
    ≡ some (codes "a1")
unfolding vexlo.Common.str_eq get new_tunnel
claim-new_example =
    claim-new digest (codes "s1") (codes "s1") (codes "h1") noon (suc noon) replaced_server

abbrev after_claim : TunnelManager
after_claim = (register digest all_up next_draws home (suc noon) new_quick claimed_server).0

other_secret :
    vexlo.Storage.hash_hosted_secret digest (codes "h2")
    ≢ vexlo.Storage.hash_hosted_secret digest (codes "h1")
unfolding vexlo.Common.str_eq vexlo.Storage.hash_hosted_secret
other_secret = λ e.
    let same : false ≡ true =
      (str_eq_iff (vexlo.Storage.hash_hosted_secret digest (codes "h2"))
          (vexlo.Storage.hash_hosted_secret digest (codes "h1"))).1
        e in
    absurd (cc)

claim_once_example :
    claim_dashboard_handoff digest (codes "s1") (codes "h1") (suc noon) after_claim
    ≡ (after_claim, none)
unfolding claim_dashboard_handoff get new_dashboard_handoff vexlo.Common.put vexlo.Common.str_eq
    vexlo.Storage.hash_hosted_secret new_tunnel vexlo.Tunnels.Claims.IsUndrawn
claim_once_example =
    claim_once digest (codes "s1") (codes "s1") (codes "h1") (codes "a1") (suc noon) (suc noon)
      handing_server claimed_server after_claim
      (after still (registers all_up next_draws home (suc noon) new_quick (λ e. refl) refl)) refl
      (tt, other_secret)

abbrev visit : HttpRequest
visit = record {
  method = codes "GET";
  path = codes "/app";
  host = codes "abc.t.io:443";
  is_tls = true;
  origin = none;
  session_query = [];
  session_header = [];
  cookie = λ name. none;
}

abbrev by_path : HttpRequest → Option Bytes
by_path req = some req.path

dispatch-IsRight_example : IsRight visit registered_server (to_tunnel 0)
unfolding vexlo.Routes.dispatch vexlo.Host.host_key vexlo.Common.str_eq vexlo.Common.to_lower
    vexlo.Common.trim_suffix vexlo.Common.trim_space register
    vexlo.RateLimit.check_registration_rate get vexlo.Common.count_values
    vexlo.Storage.subdomain_exists vexlo.Common.any_value vexlo.Storage.upsert_session
    vexlo.Storage.count_requests vexlo.Common.has_byte vexlo.Common.put
dispatch-IsRight_example = dispatch-IsRight digest by_path visit empty-IsTable registered-Reach
