-- ===== src/Tunnels/Capacity.antt =====
-- Who may start a new session, and how many tunnels there can be.
use vexlo.Common.{
  subst, ℕ, suc, ◌≤◌, ◌<◌, ◌≡◌, ap, ℤ, Bytes, Bool, true, false, [], none, arith, length, str_eq,
  str_eq_iff, int_le, to_nat, count_values, length-put-le,
}
use vexlo.Model.{Session, Register, Registered}
use vexlo.Storage.{Db}
use vexlo.Tunnels.{TunnelManager, Tunnel, new_tunnel}
use vexlo.Tunnels.Registry.{install_tunnel}
use vexlo.Tunnels.Register.{ok, Outages, Draws, admit_hosted, registered, register}
use vexlo.Tunnels.Outcome.{register_succeeds, admitted, start_session_announces}

-- How many tunnels an address has.
abbrev pub tunnels_from : Bytes → TunnelManager → ℕ
tunnels_from source_ip m = count_values (λ r. str_eq (m.heap r).source_ip source_ip) m.by_session

-- A new session is let in only while registrations are not paused, and there is room: for one more
-- tunnel, and for one more from the address.
admit_hosted_new :
    (source_ip : Bytes) (now : ℕ) (m : TunnelManager)
    → (admit_hosted source_ip true now m).1 ≡ none
    → (m.is_paused ≡ false)
      × (int_le m.cfg.hosted_max_tunnels (length m.by_session) ≡ false)
      × (int_le m.cfg.hosted_max_per_ip (tunnels_from source_ip m) ≡ false)
unfolding admit_hosted
admit_hosted_new source_ip now m h = ground arith

install-length :
    (t : Tunnel) (m : TunnelManager)
    → length (install_tunnel t m).by_session ≤ suc (length m.by_session)
unfolding install_tunnel
install-length t m = length-put-le t.session.id m.next m.by_session

room_left : (limit : ℤ) (n : ℕ) → int_le limit n ≡ false → suc n ≤ to_nat limit
room_left limit n h = ground arith

admitted-by_session :
    (source_ip : Bytes) (is_new : Bool) (now : ℕ) (m : TunnelManager)
    → (admit_hosted source_ip is_new now m).0.by_session ≡ m.by_session
unfolding admit_hosted
admitted-by_session source_ip is_new now m = ground arith

module _ (sha256_hex : Bytes → Bytes) where
  registered-by_session :
      (s : Session) (raw : Bytes) (now : ℕ) (m m' : TunnelManager) (reply : Registered)
      → registered sha256_hex s raw now m ≡ (m', reply)
      → m'.by_session ≡ m.by_session
  unfolding registered
  registered-by_session s raw now m m' reply h = ground arith

  -- A registration that starts a new session was made while registrations were not paused and the
  -- address had fewer tunnels than its limit, and there are no more tunnels after it than the limit.
  pub register_new_fits :
      (outages : Outages) (draws : Draws) (source_ip : Bytes) (now : ℕ) (reg : Register)
      (m m' : TunnelManager) (reply : Registered) (r : ℕ)
      → reg.session_id ≡ []
      → register sha256_hex outages draws source_ip now reg m ≡ (m', ok (reply, r))
      → (m.is_paused ≡ false)
        × (tunnels_from source_ip m < to_nat m.cfg.hosted_max_per_ip)
        × (length m'.by_session ≤ to_nat m.cfg.hosted_max_tunnels)
  register_new_fits outages draws source_ip now reg m m' reply r new h =
      let (let_in, s, settled, started) =
        register_succeeds sha256_hex outages draws source_ip now reg m m' reply r h in
      let (db, count, stored, counted, announced, at) =
        start_session_announces sha256_hex outages draws source_ip now reg s _ m' reply r started in
      let is_new : str_eq reg.session_id [] ≡ true = (str_eq_iff reg.session_id []).1 new in
      let let_in' : (admit_hosted source_ip true now m).1 ≡ none =
        subst (λ (b : Bool). (admit_hosted source_ip b now m).1 ≡ none) is_new let_in in
      let (running, room, room_ip) = admit_hosted_new source_ip now m let_in' in
      (
        running,
        room_left m.cfg.hosted_max_per_ip (tunnels_from source_ip m) room_ip,
        fits s count db m' reply running room announced,
      )
    where
      fits :
          (s : Session) (count : ℕ) (db : Db) (m' : TunnelManager) (reply : Registered)
          → m.is_paused ≡ false
          → int_le m.cfg.hosted_max_tunnels (length m.by_session) ≡ false
          → registered sha256_hex s draws.handoff now (
              install_tunnel
                (new_tunnel s source_ip count)
                (record (admitted sha256_hex outages draws source_ip now reg m) { storage = db }))
            ≡ (m', reply)
          → length m'.by_session ≤ to_nat m.cfg.hosted_max_tunnels
      fits s count db m' reply running room announced =
          let n : TunnelManager = record (admitted sha256_hex outages draws source_ip now reg m) {
            storage = db;
          } in
          omega (
            arith,
            ap length (registered-by_session s draws.handoff now _ m' reply announced),
            install-length (new_tunnel s source_ip count) n,
            ap length (admitted-by_session source_ip (str_eq reg.session_id []) now m),
            room_left m.cfg.hosted_max_tunnels (length m.by_session) room,
          )
