-- ===== src/Server/Retention.antt =====
-- The retention keeps the tables whole.
use vexlo.Common.{
  ℕ, ◌+◌, ◌≡◌, refl, sym, ◌∙◌, subst, Bool, true, false, not, ◌&&◌, [], ◌∷◌, Option, none, some,
  arith, int_gt, Map, delete_if, delete_if-Unique, if◌then◌else◌,
}
use vexlo.Model.{Session, CapturedRequest, CapturedReplay}
use vexlo.Storage.{
  Db, names_request, in_session, without, replays_have_requests, requests_have_sessions,
  delete_replays, delete_requests, delete_sessions,
}
use vexlo.Storage.Integrity.{IsIntegral, all_rows-keep}
use vexlo.Storage.Retention.{after, prune_before, prune_hosted_before}
use vexlo.Config.{has_passed}
use vexlo.Tunnels.{TunnelManager}
use vexlo.Tunnels.Registry.{hang_up_expired, expire_hosted_tunnels, hang_up}
use vexlo.Server.{time_before, prune}

-- A statement after which a predicate holds, if it succeeds.
abbrev pub Keeps : (Db → Type 0) → Option Db → Type 0
Keeps P o = (db : Db) → o ≡ some db → P db

pub delete_replays-Keeps :
    (down : Bool) (p : CapturedReplay → Bool) (db : Db)
    → IsIntegral db
    → Keeps IsIntegral (delete_replays down p db)
unfolding delete_replays
delete_replays-Keeps true p db i db' h = absurd (cc)
delete_replays-Keeps false p db i db' h =
    let same : record db { replays = without p db.replays } ≡ db' = cc in
    subst IsIntegral same (record {
      keys = i.keys;
      owned = i.owned;
      traced =
          all_rows-keep (names_request (λ r. true) db.requests)
            (names_request (λ r. true) db.requests) p db.replays (λ y has kept. has) i.traced;
    })

pub delete_requests-Keeps :
    (down : Bool) (p : CapturedRequest → Bool) (db : Db)
    → IsIntegral db
    → Keeps IsIntegral (delete_requests down p db)
unfolding delete_requests
delete_requests-Keeps down p db i db' h =
    by_check (not down && replays_have_requests (record db { requests = without p db.requests }))
      refl h
  where
    by_check :
        (b : Bool)
        → (not down && replays_have_requests (record db { requests = without p db.requests })) ≡ b
        → (if b then some (record db { requests = without p db.requests }) else none) ≡ some db'
        → IsIntegral db'
    by_check true e h =
        let same : record db { requests = without p db.requests } ≡ db' = cc in
        subst IsIntegral same (record {
          keys = i.keys;
          owned =
              all_rows-keep (in_session (λ s. true) db.sessions)
                (in_session (λ s. true) db.sessions) p db.requests (λ r has kept. has) i.owned;
          traced = ground arith;
        })
    by_check false e h = absurd (cc)

pub delete_sessions-Keeps :
    (down : Bool) (p : Session → Bool) (db : Db)
    → IsIntegral db
    → Keeps IsIntegral (delete_sessions down p db)
unfolding delete_sessions
delete_sessions-Keeps down p db i db' h =
    by_check (not down && requests_have_sessions (record db { sessions = delete_if p db.sessions }))
      refl h
  where
    by_check :
        (b : Bool)
        → (not down && requests_have_sessions (record db { sessions = delete_if p db.sessions }))
          ≡ b
        → (if b then some (record db { sessions = delete_if p db.sessions }) else none) ≡ some db'
        → IsIntegral db'
    by_check true e h =
        let same : record db { sessions = delete_if p db.sessions } ≡ db' = cc in
        subst IsIntegral same (record {
          keys = delete_if-Unique p db.sessions i.keys;
          owned = ground arith;
          traced = i.traced;
        })
    by_check false e h = absurd (cc)

-- A predicate that the three kinds of DELETE keep.
pub record IsKept (P : Db → Type 0) : Type 0 where
  pub replays :
      (down : Bool) (p : CapturedReplay → Bool) (db : Db)
      → P db
      → Keeps P (delete_replays down p db)
  pub requests :
      (down : Bool) (p : CapturedRequest → Bool) (db : Db)
      → P db
      → Keeps P (delete_requests down p db)
  pub sessions :
      (down : Bool) (p : Session → Bool) (db : Db) → P db → Keeps P (delete_sessions down p db)

IsIntegral-IsKept : IsKept IsIntegral
IsIntegral-IsKept = record {
  replays = delete_replays-Keeps;
  requests = delete_requests-Keeps;
  sessions = delete_sessions-Keeps;
}

module _ (P : Db → Type 0) (k : IsKept P) where
  after-keeps :
      (o : Option Db) (db : Db) (rest : Db → Db × Bool)
      → P db
      → Keeps P o
      → ((d : Db) → P d → P (rest d).0)
      → P (after o db rest).0
  after-keeps none db rest i h r = i
  after-keeps (some d) db rest i h r = r d (h d refl)

  prune_hosted_before-keeps :
      (down : ℕ → Bool) (cutoff : ℕ) (db : Db) → P db → P (prune_hosted_before down cutoff db).0
  unfolding prune_hosted_before
  prune_hosted_before-keeps down cutoff db i =
      after-keeps _ db _ i (k.replays (down 0) _ db i) λ db1 i1.
        after-keeps _ db1 _ i1 (k.requests (down 1) _ db1 i1)
          λ db2 i2. after-keeps _ db2 _ i2 (k.sessions (down 2) _ db2 i2) λ db3 i3. i3

  prune_before-keeps :
      (down : ℕ → Bool) (cutoff : ℕ) (db : Db) → P db → P (prune_before down cutoff db).0
  unfolding prune_before
  prune_before-keeps down cutoff db i = after-keeps _ db _ i (k.replays (down 0) _ db i) λ db1 i1.
      after-keeps _ db1 _ i1 (k.requests (down 1) _ db1 i1)
        λ db2 i2. after-keeps _ db2 _ i2 (k.sessions (down 2) _ db2 i2) λ db3 i3. i3

hang_up_expired-storage :
    (now : ℕ) (tunnels : Map ℕ) (m : TunnelManager)
    → (hang_up_expired now tunnels m).storage ≡ m.storage
hang_up_expired-storage now [] m = refl
hang_up_expired-storage now ((id, r) ∷ rest) m =
    hang_up_expired-storage now rest (
      if has_passed m.cfg.hosted_lifetime (m.heap r).session.started_at now then hang_up r m else m)
    ∙ by_age (has_passed m.cfg.hosted_lifetime (m.heap r).session.started_at now)
  where
    by_age : (b : Bool) → (if b then hang_up r m else m).storage ≡ m.storage
    by_age true = unfold hang_up in refl
    by_age false = refl

module _ (P : Db → Type 0) (k : IsKept P) where
  pub prune-keeps :
      (down : ℕ → Bool) (now : ℕ) (m : TunnelManager) → P m.storage → P (prune down now m).storage
  unfolding prune expire_hosted_tunnels
  prune-keeps down now m i =
      let old = (prune_before down (time_before now m.cfg.retention_period) m.storage).0 in
      let m1 = if int_gt m.cfg.retention_period 0 then record m { storage = old } else m in
      let m2 = hang_up_expired now m1.by_session m1 in
      prune_hosted_before-keeps P k (λ i. down (3 + i)) (time_before now m.cfg.hosted_retention)
        m2.storage
        (subst P (sym (hang_up_expired-storage now m1.by_session m1))
          (by_period (int_gt m.cfg.retention_period 0)))
    where
      by_period :
          (b : Bool)
          → P
              (if b
                then record m {
                  storage =
                      (prune_before down (time_before now m.cfg.retention_period) m.storage).0;
                }
                else m).storage
      by_period true =
          prune_before-keeps P k down (time_before now m.cfg.retention_period) m.storage i
      by_period false = i

-- Whichever of its statements the engine fails, a round of the retention leaves every captured request
-- its session and every replay its request.
pub prune-IsIntegral :
    (down : ℕ → Bool) (now : ℕ) (m : TunnelManager)
    → IsIntegral m.storage
    → IsIntegral (prune down now m).storage
prune-IsIntegral = prune-keeps IsIntegral IsIntegral-IsKept
