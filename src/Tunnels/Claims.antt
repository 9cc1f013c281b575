-- ===== src/Tunnels/Claims.antt =====
-- What a dashboard handoff is good for.
use vexlo.Common.{
  ℕ, ◌+◌, ◌*◌, ◌≡◌, ◌≢◌, sym, ap, ◌∙◌, subst, inl, inr, Bytes, Bool-cases, Map, Option, none, some,
  arith, ltb, str_eq, str_eq_iff, if◌then◌else◌, get, put, delete_if, get-put, get-delete,
  get-delete_if-none,
}
use vexlo.RateLimit.{minute}
use vexlo.Storage.{hash_hosted_secret}
use vexlo.Tunnels.{DashboardHandoff, TunnelManager}
use vexlo.Tunnels.Registry.{find_by_session}
use vexlo.Tunnels.Handoff.{
  is_stale, token_at, new_dashboard_handoff, claim_found, claim_dashboard_handoff,
}
use vexlo.Tunnels.History.{registers, closes, revokes, expires, claims}
use vexlo.Tunnels.Since.{
  Since, still, after, register-handoffs, close_tunnel-handoffs, revoke_hosted-handoffs,
  expire_hosted_tunnels-kept,
}

module _ (sha256_hex : Bytes → Bytes) where
  claim_spends :
      (session_id raw token : Bytes) (now : ℕ) (m m' : TunnelManager)
      → claim_dashboard_handoff sha256_hex session_id raw now m ≡ (m', some token)
      → get (hash_hosted_secret sha256_hex raw) m'.handoffs ≡ none
  unfolding claim_dashboard_handoff claim_found
  claim_spends session_id raw token now m m' h =
      let key = hash_hosted_secret sha256_hex raw in spent key (get key m.handoffs) h
    where
      spent :
          (key : Bytes) (o : Option DashboardHandoff)
          → claim_found sha256_hex session_id key now o m ≡ (m', some token)
          → get key m'.handoffs ≡ none
      spent key none h' = absurd (cc)
      spent key (some e) h' = ground (arith, get-delete key key m.handoffs, str_eq_iff key key)

  claim-absent :
      (session_id raw : Bytes) (now : ℕ) (m : TunnelManager)
      → get (hash_hosted_secret sha256_hex raw) m.handoffs ≡ none
      → claim_dashboard_handoff sha256_hex session_id raw now m ≡ (m, none)
  unfolding claim_dashboard_handoff claim_found
  claim-absent session_id raw now m absent =
      ap
        (λ (o : Option DashboardHandoff).
          claim_found sha256_hex session_id (hash_hosted_secret sha256_hex raw) now o m)
        absent

  -- No registration on the way draws a secret with this hash.
  unfoldable pub IsUndrawn : Bytes → {m n : TunnelManager} → Since sha256_hex m n → Type 0
  IsUndrawn key still = Unit
  IsUndrawn key (after since (registers outages draws source_ip now reg fresh e)) =
      IsUndrawn key since × (hash_hosted_secret sha256_hex draws.handoff ≢ key)
  IsUndrawn key (after since (closes down r now e)) = IsUndrawn key since
  IsUndrawn key (after since (revokes down id now e)) = IsUndrawn key since
  IsUndrawn key (after since (expires now e)) = IsUndrawn key since
  IsUndrawn key (after since (claims session_id raw now e)) = IsUndrawn key since

  put-absent :
      (key other : Bytes) (now : ℕ) (h : DashboardHandoff) (hs : Map DashboardHandoff)
      → other ≢ key
      → get key hs ≡ none
      → get key (put other h (delete_if (is_stale now) hs)) ≡ none
  put-absent key other now h hs apart absent = ground (
    arith,
    get-put other key h (delete_if (is_stale now) hs),
    get-delete_if-none (is_stale now) key hs absent,
    str_eq_iff other key,
  )

  claim_found-absent :
      (session_id key other : Bytes) (now : ℕ) (o : Option DashboardHandoff) (m : TunnelManager)
      → get key m.handoffs ≡ none
      → get key (claim_found sha256_hex session_id other now o m).0.handoffs ≡ none
  unfolding claim_found
  claim_found-absent session_id key other now none m absent = absent
  claim_found-absent session_id key other now (some h) m absent =
      elim (Bool-cases (str_eq h.session_id session_id)) [
        | inl e ↦ rw e (ground (arith, get-delete other key m.handoffs))
        | inr e ↦ rw e absent
      ]

  Since-absent :
      (key : Bytes) {m n : TunnelManager} (since : Since sha256_hex m n)
      → IsUndrawn key since
      → get key m.handoffs ≡ none
      → get key n.handoffs ≡ none
  unfolding IsUndrawn claim_dashboard_handoff
  Since-absent key still undrawn absent = absent
  Since-absent key (after {n} {k} since (registers outages draws source_ip now reg fresh e)) undrawn
        absent =
      let before = Since-absent key since undrawn.0 absent in
      subst (λ (x : TunnelManager). get key x.handoffs ≡ none) (sym e)
        (register-handoffs sha256_hex (λ hs. get key hs ≡ none) outages draws source_ip now reg n
          before
          (λ h.
            put-absent key (hash_hosted_secret sha256_hex draws.handoff) now h n.handoffs undrawn.1
              before))
  Since-absent key (after {n} since (closes down r now e)) undrawn absent =
      subst (λ (x : TunnelManager). get key x.handoffs ≡ none) (sym e)
        (ap (get key) (close_tunnel-handoffs down r now n) ∙ Since-absent key since undrawn absent)
  Since-absent key (after {n} since (revokes down id now e)) undrawn absent =
      subst (λ (x : TunnelManager). get key x.handoffs ≡ none) (sym e)
        (ap (get key) (revoke_hosted-handoffs down id now n)
          ∙ Since-absent key since undrawn absent)
  Since-absent key (after {n} since (expires now e)) undrawn absent =
      subst (λ (x : TunnelManager). get key x.handoffs ≡ none) (sym e)
        (ap (get key) (expire_hosted_tunnels-kept now n).1 ∙ Since-absent key since undrawn absent)
  Since-absent key (after {n} since (claims session_id raw now e)) undrawn absent =
      subst (λ (x : TunnelManager). get key x.handoffs ≡ none) (sym e)
        (claim_found-absent session_id key (hash_hosted_secret sha256_hex raw) now
          (get (hash_hosted_secret sha256_hex raw) n.handoffs) n
          (Since-absent key since undrawn absent))

  -- A claim that gives a token has used the secret up: whatever registrations, disconnections,
  -- revocations, expiries and claims follow, no later claim of it gives one or changes anything,
  -- whatever the session and the time, as long as no registration draws a secret with its hash.
  pub claim_once :
      (session_id session_id' raw token : Bytes) (now now' : ℕ) (m m' n : TunnelManager)
      (since : Since sha256_hex m' n)
      → claim_dashboard_handoff sha256_hex session_id raw now m ≡ (m', some token)
      → IsUndrawn (hash_hosted_secret sha256_hex raw) since
      → claim_dashboard_handoff sha256_hex session_id' raw now' n ≡ (n, none)
  claim_once session_id session_id' raw token now now' m m' n since h undrawn =
      claim-absent session_id' raw now' n (
        Since-absent (hash_hosted_secret sha256_hex raw) since undrawn
          (claim_spends session_id raw token now m m' h))

  -- A handoff that was just made under a secret gives the dashboard of its session the token of the
  -- session's tunnel for five minutes, and nothing to another session or at a later time.
  pub claim-new :
      (session_id other raw : Bytes) (now later : ℕ) (m : TunnelManager)
      → let m' = new_dashboard_handoff sha256_hex session_id raw now m in
        (claim_dashboard_handoff sha256_hex other raw later m').1 ≡ (
          if str_eq session_id other
          then (if ltb (now + 5 * minute) later
              then none
              else token_at (get session_id m.by_session) m)
          else none)
  unfolding claim_dashboard_handoff new_dashboard_handoff claim_found find_by_session
  claim-new session_id other raw now later m =
      let key = hash_hosted_secret sha256_hex raw in
      ground (
        arith,
        get-put key key (record { session_id = session_id; expires = now + 5 * minute })
            (delete_if (is_stale now) m.handoffs),
        str_eq_iff key key,
        str_eq_iff session_id other,
      )
