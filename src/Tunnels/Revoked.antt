-- ===== src/Tunnels/Revoked.antt =====
-- A session that the operator has revoked.
use vexlo.Common.{
  ℕ, ◌≡◌, refl, ap, ◌∙◌, subst, sym, [], modify, if◌then◌else◌, Bytes, Bool, true, false, Option,
  none, some, arith, str_eq_refl, get, get-modify, map_some,
}
use vexlo.Model.{Session}
use vexlo.Storage.{Db, revoke_session, revoke_row, revoked}
use vexlo.Tunnels.{TunnelManager}
use vexlo.Tunnels.Registry.{hang_up, hang_up_found, find_by_session, hang_up_revoked, revoke_hosted}

pub hang_up_found-storage :
    (o : Option ℕ) (m : TunnelManager) → (hang_up_found o m).storage ≡ m.storage
unfolding hang_up
hang_up_found-storage none m = refl
hang_up_found-storage (some r) m = refl

revoke_row-get :
    (id : Bytes) (t : ℕ) (db db' : Db) (o : Option Session)
    → get id db.sessions ≡ o
    → revoke_row id t db o ≡ some db'
    → get id db'.sessions ≡ map_some (revoked t) o
revoke_row-get id t db db' none e h = absurd (cc)
revoke_row-get id t db db' (some s) e h =
    ground (arith, get-modify id id (revoked t) db.sessions, str_eq_refl id)

revoke_session-get :
    (down : Bool) (id : Bytes) (t : ℕ) (db db' : Db)
    → revoke_session down id t db ≡ some db'
    → get id db'.sessions ≡ map_some (revoked t) (get id db.sessions)
unfolding revoke_session
revoke_session-get true id t db db' h = absurd (cc)
revoke_session-get false id t db db' h = revoke_row-get id t db db' (get id db.sessions) refl h

revoke_hosted-get :
    (down : Bool) (id : Bytes) (t : ℕ) (m m' : TunnelManager)
    → revoke_hosted down id t m ≡ (m', true)
    → get id m'.storage.sessions ≡ map_some (revoked t) (get id m.storage.sessions)
unfolding revoke_hosted hang_up_revoked find_by_session
revoke_hosted-get down id t m m' h = stored (revoke_session down id t m.storage) refl h
  where
    stored :
        (o : Option Db)
        → revoke_session down id t m.storage ≡ o
        → hang_up_revoked id m o ≡ (m', true)
        → get id m'.storage.sessions ≡ map_some (revoked t) (get id m.storage.sessions)
    stored none e h = absurd (cc)
    stored (some db) e h =
        let kept = hang_up_found-storage (get id m.by_session) (record m { storage = db }) in
        let same : m'.storage ≡ db = cc in
        subst (λ (d : Db). get id d.sessions ≡ map_some (revoked t) (get id m.storage.sessions))
          (sym same) (revoke_session-get down id t m.storage db e)

revoked-empty : (t : ℕ) (s : Session) → s.hosted ≡ true → (revoked t s).tunnel_token ≡ []
revoked-empty t s h = ground arith

-- Only a hosted session that is in the table is revoked, and then its row has no token.
pub revoke_hosted-row :
    (down : Bool) (id : Bytes) (t : ℕ) (m m' : TunnelManager)
    → revoke_hosted down id t m ≡ (m', true)
    → (s : Session) × (get id m'.storage.sessions ≡ some s) × (s.tunnel_token ≡ [])
unfolding revoke_hosted hang_up_revoked revoke_session
revoke_hosted-row down id t m m' h = by_answer down (get id m.storage.sessions) refl h
  where
    by_answer :
        (b : Bool) (o : Option Session)
        → get id m.storage.sessions ≡ o
        → hang_up_revoked id m (if b then none else revoke_row id t m.storage o) ≡ (m', true)
        → (s : Session) × (get id m'.storage.sessions ≡ some s) × (s.tunnel_token ≡ [])
    by_answer true o e h = absurd (cc)
    by_answer false none e h = absurd (cc)
    by_answer false (some s) e h' = by_hosted s.hosted refl h'
      where
        by_hosted :
            (b : Bool)
            → s.hosted ≡ b
            → hang_up_revoked id m (
                if b
                then some (record m.storage { sessions = modify id (revoked t) m.storage.sessions })
                else none)
              ≡ (m', true)
            → (s : Session) × (get id m'.storage.sessions ≡ some s) × (s.tunnel_token ≡ [])
        by_hosted false hosted h = absurd (cc)
        by_hosted true hosted h' = (
          revoked t s,
          revoke_hosted-get down id t m m' h ∙ ap (map_some (revoked t)) e,
          revoked-empty t s hosted,
        )
