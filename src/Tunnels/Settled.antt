-- ===== src/Tunnels/Settled.antt =====
-- The session that a registration settles on.
pub use vexlo.Common.{bind-eq-ok}
use vexlo.Common.{
  ℕ, zero, suc, ◌+◌, ◌≡◌, ◌≢◌, refl, subst, ◌⊎◌, inl, inr, ℤ, Bytes, Bool, true, false, [], Option,
  none, some, arith, str_eq, str_eq_iff, Bool-cases, Map, get, any_value, any_value-get,
}
use vexlo.Model.{Session, Register}
use vexlo.Storage.{Db, get_session, subdomain_exists}
use vexlo.Tunnels.{TunnelManager}
use vexlo.Tunnels.Register.{
  ok, or_fail, invalid_resume, Outages, Draws, new_session, resume_session, allocate_from,
  allocate_hosted_subdomain, resolve_session,
}

-- A session that is new: its subdomain is in no row.
abbrev pub IsNewIn : Draws → Map Session → Session → Type 0
IsNewIn draws rows s =
    (s.id ≡ draws.id)
    × ((k : Bytes) (t : Session) → get k rows ≡ some t → t.subdomain ≢ s.subdomain)

-- A session that is resumed: its identifier and subdomain are those of the row that was asked for.
abbrev pub IsResumedIn : Bytes → Map Session → Session → Type 0
IsResumedIn id rows s =
    (old : Session) × (get id rows ≡ some old) × (s.id ≡ old.id) × (s.subdomain ≡ old.subdomain)

free_of_exists :
    (down : Bool) (subdomain : Bytes) (db : Db)
    → subdomain_exists down subdomain db ≡ some false
    → (k : Bytes) (t : Session) → get k db.sessions ≡ some t
    → t.subdomain ≢ subdomain
unfolding subdomain_exists
free_of_exists down subdomain db h k t e n =
    let absent_ : any_value (λ s. str_eq s.subdomain subdomain) db.sessions ≡ false =
      ground arith in
    ground (
      arith,
      any_value-get (λ s. str_eq s.subdomain subdomain) k db.sessions t absent_ e,
      str_eq_iff t.subdomain subdomain,
    )

allocate_from-free :
    (down : ℕ → Bool) (retries : ℕ → Bytes) (left i : ℕ) (subdomain found : Bytes) (db : Db)
    → allocate_from down retries left i subdomain db ≡ ok found
    → (k : Bytes) (t : Session) → get k db.sessions ≡ some t
    → t.subdomain ≢ found
unfolding allocate_from
allocate_from-free down retries zero i subdomain found db h = absurd (cc)
allocate_from-free down retries (suc left) i subdomain found db h =
    split (allocate_from-free down retries left (i + 1) (retries i) found db)
      (subdomain_exists (down i) subdomain db) refl
  where
    split :
        (allocate_from down retries left (i + 1) (retries i) db ≡ ok found
          → (k : Bytes) (t : Session) → get k db.sessions ≡ some t
          → t.subdomain ≢ found)
        → (o : Option Bool) → subdomain_exists (down i) subdomain db ≡ o
        → (k : Bytes) (t : Session) → get k db.sessions ≡ some t
        → t.subdomain ≢ found
    split again none e = absurd (ground arith)
    split again (some true) e = again (ground arith)
    split again (some false) e =
        let same : subdomain ≡ found = ground arith in
        subst
          (λ (d : Bytes). (k : Bytes) (t : Session) → get k db.sessions ≡ some t → t.subdomain ≢ d)
          same (free_of_exists (down i) subdomain db e)

pub resume_session_sound :
    (down : Bool) (session s : Session) (reg : Register) (m : TunnelManager)
    → resume_session down session reg m ≡ ok s
    → IsResumedIn reg.session_id m.storage.sessions s
unfolding resume_session get_session
resume_session_sound down session s reg m h =
    let (existing, a, b) =
      bind-eq-ok (or_fail (get_session down reg.session_id m.storage) invalid_resume) _ h in
    (existing, ground arith, ground arith, ground arith)

pub settled_id :
    (down : ℕ → Bool) (draws : Draws) (now : ℕ) (port : ℤ) (s : Session) (db : Db)
    → allocate_hosted_subdomain down draws (new_session draws now port) db ≡ ok s
    → s.id ≡ draws.id
unfolding allocate_hosted_subdomain new_session
settled_id down draws now port s db h =
    let (found, a, b) = bind-eq-ok (allocate_from down draws.retries 5 0 draws.subdomain db) _ h in
    ground arith

-- A session that Register settles on is new, and the registration names none, or it is resumed from
-- the one that the registration names.
pub resolve_session_sound :
    (outages : Outages) (draws : Draws) (now : ℕ) (reg : Register) (m : TunnelManager) (s : Session)
    → resolve_session outages draws now reg m ≡ ok s
    → ((reg.session_id ≡ []) × IsNewIn draws m.storage.sessions s)
      ⊎ IsResumedIn reg.session_id m.storage.sessions s
unfolding resolve_session
resolve_session_sound outages draws now reg m s h = elim (Bool-cases (str_eq reg.session_id [])) [
  | inl e ↦
      let fresh : allocate_hosted_subdomain outages.allocate draws
            (new_session draws now reg.local_port) m.storage
          ≡ ok s =
        ground arith in
      let (found, a, b) =
        bind-eq-ok (allocate_from outages.allocate draws.retries 5 0 draws.subdomain m.storage) _
          fresh in
      let name : found ≡ s.subdomain = ground arith in
      inl (
        (str_eq_iff reg.session_id []).0 e,
        (
          settled_id outages.allocate draws now reg.local_port s m.storage fresh,
          subst
              (λ (d : Bytes).
                (k : Bytes) (t : Session) → get k m.storage.sessions ≡ some t → t.subdomain ≢ d)
              name
              (allocate_from-free outages.allocate draws.retries 5 0 draws.subdomain found m.storage
                a),
        ),
      )
  | inr e ↦
      let old : resume_session outages.resume (new_session draws now reg.local_port) reg m ≡ ok s =
        ground arith in
      inr (resume_session_sound outages.resume (new_session draws now reg.local_port) s reg m old)
]
