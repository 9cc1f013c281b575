-- ===== src/Tunnels/Supersede.antt =====
-- A tunnel that has been replaced, and the end of its connection.
use vexlo.Common.{
  ℕ, ◌<◌, ◌≡◌, ◌≢◌, refl, sym, ap, ◌∙◌, Bool, false, Option, none, some, arith, ==_iff, str_eq_iff,
  get, get-put, get-modify,
}
use vexlo.Model.{Session}
use vexlo.Storage.{end_session}
use vexlo.Tunnels.{Tunnel, TunnelManager}
use vexlo.Tunnels.Registry.{
  hang_up, hang_up_found, install_tunnel, unlink, end_stored, close_tunnel,
}

-- The end of a connection whose session has another tunnel by now changes no map and no row.
pub close_tunnel_superseded :
    (down : Bool) (r s now : ℕ) (m : TunnelManager)
    → get (m.heap r).session.id m.by_session ≡ some s
    → s ≢ r
    → let m' = close_tunnel down r now m in
      (m'.tunnels ≡ m.tunnels) × (m'.by_session ≡ m.by_session) × (m'.storage ≡ m.storage)
unfolding close_tunnel
close_tunnel_superseded down r s now m e other = ground (arith, ==_iff s r)

hang_up_found-session :
    (o : Option ℕ) (m : TunnelManager) (r : ℕ)
    → ((hang_up_found o m).heap r).session ≡ (m.heap r).session
unfolding hang_up
hang_up_found-session none m r = refl
hang_up_found-session (some s) m r = ground (arith, ==_iff s r)

install_tunnel-session :
    (t : Tunnel) (m : TunnelManager) (r : ℕ)
    → r ≢ m.next
    → ((install_tunnel t m).heap r).session ≡ (m.heap r).session
unfolding install_tunnel
install_tunnel-session t m r other =
    ground (arith, ==_iff m.next r, hang_up_found-session (get t.session.id m.by_session) m r)

install_tunnel-linked :
    (t : Tunnel) (m : TunnelManager)
    → (get t.session.id (install_tunnel t m).by_session ≡ some m.next)
      × (get t.subdomain (install_tunnel t m).tunnels ≡ some m.next)
unfolding install_tunnel
install_tunnel-linked t m = ground (
  arith,
  get-put t.session.id t.session.id m.next m.by_session,
  get-put t.subdomain t.subdomain m.next m.tunnels,
  str_eq_iff t.session.id t.session.id,
  str_eq_iff t.subdomain t.subdomain,
)

pub install_tunnel-storage :
    (t : Tunnel) (m : TunnelManager) → (install_tunnel t m).storage ≡ m.storage
unfolding install_tunnel hang_up
install_tunnel-storage t m = ground arith

end_stored-row :
    (r now : ℕ) (row : Session) (m : TunnelManager)
    → get (m.heap r).session.id m.storage.sessions ≡ some row
    → get (m.heap r).session.id (end_stored false r now m).storage.sessions
      ≡ some (record row { ended_at = some now })
unfolding end_stored end_session
end_stored-row r now row m e = ground (
  arith,
  get-modify (m.heap r).session.id (m.heap r).session.id (λ s. record s { ended_at = some now })
      m.storage.sessions,
  str_eq_iff (m.heap r).session.id (m.heap r).session.id,
)

unlink-same :
    (r : ℕ) (m : TunnelManager)
    → ((unlink r m).0.heap ≡ m.heap)
      × ((unlink r m).0.next ≡ m.next)
      × ((unlink r m).0.storage ≡ m.storage)
unfolding unlink
unlink-same r m = ground arith

-- removeTunnel lets go of its mutex before it writes the end of the session. If another tunnel of
-- that session, which has a row, is installed in between and the database answers, that tunnel
-- stays in both maps, with a row that says that the session has ended.
pub end_after_install :
    (r now : ℕ) (t : Tunnel) (row : Session) (m : TunnelManager)
    → r < m.next
    → t.session.id ≡ (m.heap r).session.id
    → get t.session.id m.storage.sessions ≡ some row
    → let m' = end_stored false r now (install_tunnel t (unlink r m).0) in
      (get t.session.id m'.by_session ≡ some m.next)
      × (get t.subdomain m'.tunnels ≡ some m.next)
      × (get t.session.id m'.storage.sessions ≡ some (record row { ended_at = some now }))
end_after_install r now t row m below same there =
    let n : TunnelManager = (unlink r m).0 in
    let p : TunnelManager = install_tunnel t n in
    let (heap, next, kept) = unlink-same r m in
    let (by, name) = install_tunnel-linked t n in
    let other : r ≢ n.next = omega arith in
    let id : (p.heap r).session.id ≡ t.session.id =
      ap (λ (s : Session). s.id) (install_tunnel-session t n r other)
      ∙ ap (λ (h : ℕ → Tunnel). (h r).session.id) heap
      ∙ sym same in
    let stored : get t.session.id p.storage.sessions ≡ some row =
      rw (install_tunnel-storage t n, kept) there in
    let ended = end_stored-row r now row p (rw id stored) in
    (
      unfold end_stored in by ∙ ap some next,
      unfold end_stored in name ∙ ap some next,
      rw id at ended,
    )
