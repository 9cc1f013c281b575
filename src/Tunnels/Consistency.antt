-- ===== src/Tunnels/Consistency.antt =====
-- Every operation of the manager keeps its maps, its tunnels and the table of sessions consistent.
use vexlo.Common.{
  ℕ, suc, ◌≡◌, refl, sym, ◌∙◌, subst, inl, inr, Bytes, Bool, true, false, [], ◌∷◌, Option, none,
  some, arith, str_eq, if◌then◌else◌, Bool-cases, Option-cases, Map, get, put, get-modify, modify,
  map_some,
}
use vexlo.Model.{Session}
use vexlo.Config.{has_passed}
use vexlo.Storage.{Db, end_session, revoke_session, revoked, revoke_row}
use vexlo.Tunnels.{Tunnel, TunnelManager, update}
use vexlo.Tunnels.Registry.{
  hang_up, hang_up_found, install_tunnel, is_at, unlink, end_stored, remove_tunnel, close_tunnel,
  revoke_hosted, hang_up_expired, expire_hosted_tunnels,
}
use vexlo.Tunnels.Wiring.{IsWired, SameRows, IsWired-heap, IsWired-rows}
use vexlo.Tunnels.Links.{IsWired-install, IsWired-unlink}

abbrev pub IsConsistent : TunnelManager → Type 0
IsConsistent m = IsWired m.tunnels m.by_session m.next m.heap m.storage.sessions

hang_up-IsConsistent : (r : ℕ) (m : TunnelManager) → IsConsistent m → IsConsistent (hang_up r m)
unfolding hang_up
hang_up-IsConsistent r m c = IsWired-heap c _ (λ s. ground arith)

hang_up_found-IsConsistent :
    (o : Option ℕ) (m : TunnelManager) → IsConsistent m → IsConsistent (hang_up_found o m)
hang_up_found-IsConsistent none m c = c
hang_up_found-IsConsistent (some r) m c = hang_up-IsConsistent r m c

-- Hanging up changes no map, no address and no row.
hang_up_found-same :
    (o : Option ℕ) (m : TunnelManager)
    → ((hang_up_found o m).tunnels ≡ m.tunnels)
      × ((hang_up_found o m).by_session ≡ m.by_session)
      × ((hang_up_found o m).next ≡ m.next)
      × ((hang_up_found o m).storage ≡ m.storage)
unfolding hang_up
hang_up_found-same none m = (refl, refl, refl, refl)
hang_up_found-same (some r) m = (refl, refl, refl, refl)

-- A tunnel is put in the place of the one that its session had.
pub install_tunnel-IsConsistent :
    (t : Tunnel) (s : Session) (m : TunnelManager)
    → IsConsistent m
    → get t.session.id m.storage.sessions ≡ some s
    → s.subdomain ≡ t.subdomain
    → IsConsistent (install_tunnel t m)
unfolding install_tunnel
install_tunnel-IsConsistent t s m c there name = install (get t.session.id m.by_session)
  where
    install :
        (o : Option ℕ)
        → IsWired
            (put t.subdomain m.next m.tunnels)
            (put t.session.id m.next m.by_session)
            (suc m.next)
            (update (hang_up_found o m).heap m.next t)
            (hang_up_found o m).storage.sessions
    install none = IsWired-install c t s there name
    install (some r) = unfold hang_up in IsWired-install (hang_up-IsConsistent r m c) t s there name

-- A change of rows that keeps their identifiers and subdomains.
modify-SameRows :
    (k : Bytes) (f : Session → Session) (rows : Map Session)
    → ((s : Session) → ((f s).subdomain ≡ s.subdomain) × ((f s).id ≡ s.id))
    → SameRows rows (modify k f rows)
modify-SameRows k f rows keeps = record {
  forward = λ j s e. (
    if str_eq k j then f s else s,
    ground (arith, get-modify k j f rows),
    ground (arith, keeps s),
  );
  backward = λ j t e. found j t (get j rows) refl (sym (get-modify k j f rows) ∙ e);
}
  where
    found :
        (j : Bytes) (t : Session) (o : Option Session)
        → get j rows ≡ o
        → (if str_eq k j then map_some f (get j rows) else get j rows) ≡ some t
        → (s : Session) × (get j rows ≡ some s) × (t.subdomain ≡ s.subdomain) × (t.id ≡ s.id)
    found j t none g e = absurd (ground arith)
    found j t (some s) g e = (s, g, ground (arith, keeps s), ground (arith, keeps s))

end_stored-IsConsistent :
    (down : Bool) (r now : ℕ) (m : TunnelManager)
    → IsConsistent m
    → IsConsistent (end_stored down r now m)
unfolding end_stored end_session
end_stored-IsConsistent true r now m c = c
end_stored-IsConsistent false r now m c =
    IsWired-rows c _
      (modify-SameRows (m.heap r).session.id _ m.storage.sessions (λ s. (refl, refl)))

unlink-IsConsistent : (r : ℕ) (m : TunnelManager) → IsConsistent m → IsConsistent (unlink r m).0
unfolding unlink
unlink-IsConsistent r m c = elim (Bool-cases (is_at r (get (m.heap r).session.id m.by_session))) [
  | inl here ↦ rw here (IsWired-unlink c r (ground arith))
  | inr other ↦ rw other c
]

remove_tunnel-IsConsistent :
    (down : Bool) (r now : ℕ) (m : TunnelManager)
    → IsConsistent m
    → IsConsistent (remove_tunnel down r now m)
unfolding remove_tunnel
remove_tunnel-IsConsistent down r now m c = elim (Bool-cases (unlink r m).1) [
  | inl linked ↦
      rw (linked, remove_tunnel)
        (end_stored-IsConsistent down r now (unlink r m).0 (unlink-IsConsistent r m c))
  | inr other ↦ rw (other, remove_tunnel) (unlink-IsConsistent r m c)
]

-- closeTunnel keeps a consistent manager consistent, whichever tunnel it is for and whether or not
-- the database takes the end of the session.
pub close_tunnel-IsConsistent :
    (down : Bool) (r now : ℕ) (m : TunnelManager)
    → IsConsistent m
    → IsConsistent (close_tunnel down r now m)
unfolding close_tunnel
close_tunnel-IsConsistent down r now m c =
    let heap : ℕ → Tunnel = update m.heap r (record (m.heap r) { is_closed = true }) in
    remove_tunnel-IsConsistent down r now (record m { heap = heap })
      (IsWired-heap c heap (λ s. ground arith))

pub expire_hosted_tunnels-IsConsistent :
    (now : ℕ) (m : TunnelManager) → IsConsistent m → IsConsistent (expire_hosted_tunnels now m)
unfolding expire_hosted_tunnels
expire_hosted_tunnels-IsConsistent now m c = loop m.by_session m c
  where
    loop : (l : Map ℕ) (n : TunnelManager) → IsConsistent n → IsConsistent (hang_up_expired now l n)
    loop [] n d = d
    loop ((id, r) ∷ l) n d =
        elim (Bool-cases (has_passed n.cfg.hosted_lifetime (n.heap r).session.started_at now)) [
          | inl e ↦ rw (e, hang_up_expired) (loop l (hang_up r n) (hang_up-IsConsistent r n d))
          | inr e ↦ rw (e, hang_up_expired) (loop l n d)
        ]

revoke_row-SameRows :
    (id : Bytes) (t : ℕ) (db db' : Db) (o : Option Session)
    → revoke_row id t db o ≡ some db'
    → SameRows db.sessions db'.sessions
revoke_row-SameRows id t db db' none e = absurd (cc)
revoke_row-SameRows id t db db' (some s) e =
    let same : record db { sessions = modify id (revoked t) db.sessions } ≡ db' = ground arith in
    subst (λ (d : Db). SameRows db.sessions d.sessions) same
      (modify-SameRows id (revoked t) db.sessions (λ x. (ground arith, ground arith)))

-- revokeHosted keeps a consistent manager consistent, whatever session it is for and whether or not
-- the database takes the revocation.
pub revoke_hosted-IsConsistent :
    (down : Bool) (id : Bytes) (now : ℕ) (m : TunnelManager)
    → IsConsistent m
    → IsConsistent (revoke_hosted down id now m).0
unfolding revoke_hosted revoke_session
revoke_hosted-IsConsistent down id now m c =
    elim (Option-cases (revoke_session down id now m.storage)) [
      | inl e ↦ rw (e, revoke_hosted) c
      | inr (db, e) ↦
          let row : revoke_row id now m.storage (get id m.storage.sessions) ≡ some db =
            ground arith in
          rw (e, revoke_hosted)
            (hang_up_found-IsConsistent (get id m.by_session) (record m { storage = db })
              (IsWired-rows c db.sessions (revoke_row-SameRows id now m.storage db _ row)))
    ]
