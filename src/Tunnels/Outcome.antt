-- ===== src/Tunnels/Outcome.antt =====
-- A registration that succeeds, taken apart.
use vexlo.Common.{ℕ, ◌≡◌, refl, Bytes, [], Option, none, some, arith, str_eq}
use vexlo.Model.{Session, Register, Registered}
use vexlo.Storage.{Db, upsert_session, count_requests}
use vexlo.Tunnels.{TunnelManager, new_tunnel}
use vexlo.Tunnels.Registry.{install_tunnel}
use vexlo.Tunnels.Register.{
  RegisterError, Result, ok, err, Outages, Draws, admit_hosted, settle, registered, start_counted,
  start_stored, start_session, start_resolved, register_admitted, register,
}

module _ (sha256_hex : Bytes → Bytes) (outages : Outages) (draws : Draws) (source_ip : Bytes)
    (now : ℕ) (reg : Register) where
  -- The manager after the checks of the rates.
  abbrev pub admitted : TunnelManager → TunnelManager
  admitted m = (admit_hosted source_ip (str_eq reg.session_id []) now m).0

  abbrev pub refusal : TunnelManager → Option RegisterError
  refusal m = (admit_hosted source_ip (str_eq reg.session_id []) now m).1

  start_counted_announces :
      (s : Session) (o : Option ℕ) (m m' : TunnelManager) (reply : Registered) (r : ℕ)
      → start_counted sha256_hex draws source_ip now s o m ≡ (m', ok (reply, r))
      → (count : ℕ) × (o ≡ some count)
        × (registered sha256_hex s draws.handoff now
              (install_tunnel (new_tunnel s source_ip count) m)
            ≡ (m', reply))
        × (r ≡ m.next)
  unfolding start_counted
  start_counted_announces s none m m' reply r h = absurd (cc)
  start_counted_announces s (some count) m m' reply r h = (count, refl, ground arith, ground arith)

  pub start_session_announces :
      (s : Session) (m m' : TunnelManager) (reply : Registered) (r : ℕ)
      → start_session sha256_hex outages draws source_ip now s m ≡ (m', ok (reply, r))
      → (db : Db) × (count : ℕ) × (upsert_session sha256_hex outages.upsert s m.storage ≡ some db)
        × (count_requests outages.count s.id db ≡ some count)
        × (registered sha256_hex s draws.handoff now
              (install_tunnel (new_tunnel s source_ip count) (record m { storage = db }))
            ≡ (m', reply))
        × (r ≡ m.next)
  unfolding start_session start_stored
  start_session_announces s m m' reply r h =
      split (upsert_session sha256_hex outages.upsert s m.storage) refl h
    where
      split :
          (o : Option Db)
          → upsert_session sha256_hex outages.upsert s m.storage ≡ o
          → start_stored sha256_hex outages draws source_ip now s o m ≡ (m', ok (reply, r))
          → (db : Db) × (count : ℕ) × (upsert_session sha256_hex outages.upsert s m.storage
              ≡ some db)
            × (count_requests outages.count s.id db ≡ some count)
            × (registered sha256_hex s draws.handoff now
                  (install_tunnel (new_tunnel s source_ip count) (record m { storage = db }))
                ≡ (m', reply))
            × (r ≡ m.next)
      split none e k = absurd (cc)
      split (some db) e k =
          let (count, c, a, n) =
            start_counted_announces s (count_requests outages.count s.id db)
              (record m { storage = db }) m' reply r k in
          (db, count, e, c, a, n)

  abbrev Succeeds : Option RegisterError → TunnelManager → TunnelManager → Registered → ℕ → Type 0
  Succeeds o n m' reply r =
      (o ≡ none)
      × (s : Session) × (settle sha256_hex outages draws now reg n ≡ ok s)
      × (start_session sha256_hex outages draws source_ip now s n ≡ (m', ok (reply, r)))

  register_admitted-Succeeds :
      (o : Option RegisterError) (n m' : TunnelManager) (reply : Registered) (r : ℕ)
      → register_admitted sha256_hex outages draws source_ip now reg o n ≡ (m', ok (reply, r))
      → Succeeds o n m' reply r
  register_admitted-Succeeds (some e) n m' reply r h = absurd (cc)
  register_admitted-Succeeds none n m' reply r h =
      split (settle sha256_hex outages draws now reg n) refl h
    where
      split :
          (x : Result RegisterError Session)
          → settle sha256_hex outages draws now reg n ≡ x
          → start_resolved sha256_hex outages draws source_ip now x n ≡ (m', ok (reply, r))
          → Succeeds none n m' reply r
      split (err e) g k = absurd (cc)
      split (ok s) g k = (refl, s, g, k)

  -- It was admitted, it settled on a session, and that was stored, put in its place and announced.
  pub register_succeeds :
      (m m' : TunnelManager) (reply : Registered) (r : ℕ)
      → register sha256_hex outages draws source_ip now reg m ≡ (m', ok (reply, r))
      → (refusal m ≡ none)
        × (s : Session) × (settle sha256_hex outages draws now reg (admitted m) ≡ ok s)
        × (start_session sha256_hex outages draws source_ip now s (admitted m)
            ≡ (m', ok (reply, r)))
  unfolding register
  register_succeeds m m' reply r h =
      register_admitted-Succeeds (refusal m) (admitted m) m' reply r h
