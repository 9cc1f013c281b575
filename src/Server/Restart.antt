-- ===== src/Server/Restart.antt =====
-- What a server starts from.
use vexlo.Common.{
  ℕ, ◌≡◌, inl, inr, refl, sym, ap, ◌∙◌, subst, Bytes, Bool, true, false, ◌&&◌, [], Option, none,
  some, arith, if◌then◌else◌, get, map_values, get-map_values, some-injective, map_some, Map,
}
use vexlo.Config.{Config, is_refused}
use vexlo.Model.{Session}
use vexlo.Storage.{Db, is_open, end_orphaned_sessions, registrations_paused}
use vexlo.Tunnels.{TunnelManager, new_tunnel_manager}
use vexlo.Tunnels.Consistency.{IsConsistent}
use vexlo.Tunnels.History.{IsTable, start-IsConsistent}
use vexlo.Access.{HttpRequest, done}
use vexlo.Access.Guarded.{done-injective}
use vexlo.Operator.{handle_admin_registrations}
use vexlo.Operator.Guarded.{handle_admin_registrations-outcome}
use vexlo.Server.{Server, server_with, start_over, new_server}
use vexlo.Storage.Settings.{registrations_paused-set}

-- The database after EndOrphanedHostedSessions.
abbrev pub end_orphan : ℕ → Session → Session
end_orphan now s = if s.hosted && is_open s then record s { ended_at = some now } else s

abbrev pub ended : ℕ → Db → Db
ended now db = record db { sessions = map_values (end_orphan now) db.sessions }

-- New over a database that it can open.
new_server-accepted :
    (cfg : Config) (db : Db) (paused : Bool) (now : ℕ)
    → is_refused cfg ≡ false
    → registrations_paused false (ended now db) ≡ some paused
    → new_server (λ i. false) cfg (some db) now ≡ server_with cfg (ended now db) (some paused)
unfolding new_server end_orphaned_sessions
new_server-accepted cfg db paused now accepted e =
    ap
      (λ (b : Bool).
        if b
        then none
        else server_with cfg (ended now db) (registrations_paused false (ended now db)))
      accepted
    ∙ ap (λ (p : Option Bool). server_with cfg (ended now db) p) e

-- A switch of registrations that the operator was told of holds for the running manager, and for
-- a server that starts later over the same database, if the database answers.
pub restart_keeps_pause :
    (down : Bool) (req : HttpRequest) (payload : Option Bool) (m n : TunnelManager) (paused : Bool)
    (cfg : Config) (now : ℕ)
    → handle_admin_registrations down req payload m ≡ (n, done paused)
    → is_refused cfg ≡ false
    → (n.is_paused ≡ paused)
      × (s : Server) × (new_server (λ i. false) cfg (some n.storage) now ≡ some s)
      × (s.manager.is_paused ≡ paused)
restart_keeps_pause down req payload m n paused cfg now h accepted =
    elim (handle_admin_registrations-outcome down req payload m n (done paused) h) [
      | inl u ↦ absurd (u.1 paused refl)
      | inr s ↦
          let (told, answered, kept, written) = s.0 in
          let same : told ≡ paused = done-injective (sym answered) in
          (
            kept ∙ same,
            _,
            new_server-accepted cfg n.storage told now accepted (
                registrations_paused-set down told m.storage n.storage (ended now n.storage) written
                  refl),
            same,
          )
    ]

end_orphan-same :
    (now : ℕ) (s : Session)
    → ((end_orphan now s).id ≡ s.id) × ((end_orphan now s).subdomain ≡ s.subdomain)
end_orphan-same now s = by_case (s.hosted && is_open s)
  where
    by_case :
        (b : Bool)
        → ((if b then record s { ended_at = some now } else s).id ≡ s.id)
          × ((if b then record s { ended_at = some now } else s).subdomain ≡ s.subdomain)
    by_case true = (refl, refl)
    by_case false = (refl, refl)

-- The row that a row comes from.
ended_row :
    (now : ℕ) (k : Bytes) (rows : Map Session) (s : Session)
    → get k (map_values (end_orphan now) rows) ≡ some s
    → (before : Session) × (get k rows ≡ some before) × (end_orphan now before ≡ s)
ended_row now k rows s h =
    of_row (get k rows) refl (sym (get-map_values (end_orphan now) k rows) ∙ h)
  where
    of_row :
        (o : Option Session)
        → get k rows ≡ o
        → map_some (end_orphan now) o ≡ some s
        → (before : Session) × (get k rows ≡ some before) × (end_orphan now before ≡ s)
    of_row none e h = absurd (cc)
    of_row (some before) e h = (before, e, cc)

ended-IsTable :
    (now : ℕ) (rows : Map Session) → IsTable rows → IsTable (map_values (end_orphan now) rows)
ended-IsTable now rows t = record {
  one_name = λ j k s u e f same.
      let (s0, e0, se) = ended_row now j rows s e in
      let (u0, f0, ue) = ended_row now k rows u f in
      t.one_name j k s0 u0 e0 f0 (
        sym (end_orphan-same now s0).1
        ∙ ap (λ (x : Session). x.subdomain) se
        ∙ same
        ∙ ap (λ (x : Session). x.subdomain) (sym ue)
        ∙ (end_orphan-same now u0).1);
  row_ids = λ k s e.
      let (s0, e0, se) = ended_row now k rows s e in
      ap (λ (x : Session). x.id) (sym se) ∙ (end_orphan-same now s0).0 ∙ t.row_ids k s0 e0;
}

end_orphan-ended :
    (now : ℕ) (s : Session) → (end_orphan now s).hosted ≡ true → is_open (end_orphan now s) ≡ false
end_orphan-ended now s h = ground arith

-- What New returns, if it returns a server.
pub new_server-some :
    (down : ℕ → Bool) (cfg : Config) (db : Db) (now : ℕ) (s : Server)
    → new_server down cfg (some db) now ≡ some s
    → (is_refused cfg ≡ false)
      × (paused : Bool) × (server_with cfg (ended now db) (some paused) ≡ some s)
unfolding new_server end_orphaned_sessions registrations_paused
new_server-some down cfg db now s h = by_case (is_refused cfg) refl (down 0) (down 1) h
  where
    by_case :
        (b : Bool)
        → is_refused cfg ≡ b
        → (orphans_down pause_down : Bool)
        → (if b
            then none
            else start_over (λ i. pause_down) cfg (end_orphaned_sessions orphans_down now db))
          ≡ some s
        → (is_refused cfg ≡ false)
          × (paused : Bool) × (server_with cfg (ended now db) (some paused) ≡ some s)
    by_case true e orphans_down pause_down h = absurd (ground arith)
    by_case false e true pause_down h = absurd (ground arith)
    by_case false e false true h = absurd (ground arith)
    by_case false e false false h = (e, _, h)

-- Over a table with each row under its identifier and no two rows with one subdomain, a server that
-- New returns has a configuration that it accepts, no tunnels in either map, and a table in which
-- every hosted session has ended, so that its manager starts consistent.
pub new_server-IsConsistent :
    (down : ℕ → Bool) (cfg : Config) (db : Db) (now : ℕ) (s : Server)
    → IsTable db.sessions
    → new_server down cfg (some db) now ≡ some s
    → (is_refused cfg ≡ false)
      × IsConsistent s.manager
      × (s.manager.tunnels ≡ [])
      × (s.manager.by_session ≡ [])
      × ((k : Bytes) (row : Session)
          → get k s.manager.storage.sessions ≡ some row
          → row.hosted ≡ true
          → is_open row ≡ false)
new_server-IsConsistent down cfg db now s t h =
    let (accepted, paused, made) = new_server-some down cfg db now s h in
    (
      accepted,
      subst (λ (m : TunnelManager). IsConsistent m) (manager_of paused made)
          (start-IsConsistent (λ b. b) cfg (ended now db) (ended-IsTable now db.sessions t)),
      sym (ap (λ (m : TunnelManager). m.tunnels) (manager_of paused made)),
      sym (ap (λ (m : TunnelManager). m.by_session) (manager_of paused made)),
      λ k row e hosted.
          let (before, found, same) =
            ended_row now k db.sessions row
              (ap (λ (m : TunnelManager). get k m.storage.sessions) (manager_of paused made) ∙ e) in
          subst (λ (r : Session). r.hosted ≡ true → is_open r ≡ false) same
            (end_orphan-ended now before) hosted,
    )
  where
    manager_of :
        (paused : Bool)
        → server_with cfg (ended now db) (some paused) ≡ some s
        → record (new_tunnel_manager cfg (ended now db)) { is_paused = paused } ≡ s.manager
    manager_of paused made = ap (λ (x : Server). x.manager) (some-injective _ s made)
