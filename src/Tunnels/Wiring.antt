-- ===== src/Tunnels/Wiring.antt =====
-- The invariant of the manager's two maps, its tunnels and the table of sessions, and how the
-- changes that the operations make keep it.
use vexlo.Common.{
  ℕ, ◌<◌, ◌≡◌, ◌≢◌, refl, sym, ◌∙◌, Bytes, none, some, arith, str_eq, str_eq_iff, inl, inr,
  Bool-cases, Map, get, put, get-put,
}
use vexlo.Model.{Session}
use vexlo.Tunnels.{Tunnel}

-- A session's tunnel is the tunnel of its subdomain and the other way round, and the table has a
-- row for each session with the subdomain of its tunnel; no two rows have one subdomain.
pub record IsWired (tunnels by_session : Map ℕ) (next : ℕ) (heap : ℕ → Tunnel) (rows : Map Session)
    : Type 0 where
  pub of_session :
      (k : Bytes) (r : ℕ)
      → get k by_session ≡ some r
      → (r < next) × ((heap r).session.id ≡ k) × (get (heap r).subdomain tunnels ≡ some r)
  pub of_subdomain :
      (d : Bytes) (r : ℕ)
      → get d tunnels ≡ some r
      → (r < next) × ((heap r).subdomain ≡ d) × (get (heap r).session.id by_session ≡ some r)
  pub stored :
      (k : Bytes) (r : ℕ)
      → get k by_session ≡ some r
      → (s : Session) × (get k rows ≡ some s) × (s.subdomain ≡ (heap r).subdomain)
  pub one_name :
      (j k : Bytes) (s t : Session)
      → get j rows ≡ some s
      → get k rows ≡ some t
      → s.subdomain ≡ t.subdomain
      → j ≡ k
  pub row_ids : (k : Bytes) (s : Session) → get k rows ≡ some s → s.id ≡ k

-- Another heap with the same names in it.
abbrev pub SameNames : (ℕ → Tunnel) → (ℕ → Tunnel) → Type 0
SameNames heap heap' =
    (r : ℕ) → ((heap' r).subdomain ≡ (heap r).subdomain) × ((heap' r).session ≡ (heap r).session)

-- Another table with the same rows, but for columns other than the identifier and the subdomain.
pub record SameRows (rows rows' : Map Session) : Type 0 where
  pub forward :
      (k : Bytes) (s : Session)
      → get k rows ≡ some s
      → (t : Session) × (get k rows' ≡ some t) × (t.subdomain ≡ s.subdomain)
  pub backward :
      (k : Bytes) (t : Session)
      → get k rows' ≡ some t
      → (s : Session) × (get k rows ≡ some s) × (t.subdomain ≡ s.subdomain) × (t.id ≡ s.id)

module _ {tunnels by_session : Map ℕ} {next : ℕ} {heap : ℕ → Tunnel} {rows : Map Session}
    (w : IsWired tunnels by_session next heap rows) where
  pub IsWired-heap :
      (heap' : ℕ → Tunnel) → SameNames heap heap' → IsWired tunnels by_session next heap' rows
  IsWired-heap heap' same = record {
    of_session = λ k r e. ground (arith, w.of_session k r e, same r);
    of_subdomain = λ d r e. ground (arith, w.of_subdomain d r e, same r);
    stored = λ k r e. let (s, f, n) = w.stored k r e in (s, f, n ∙ sym (same r).0);
    one_name = w.one_name;
    row_ids = w.row_ids;
  }

  pub IsWired-rows :
      (rows' : Map Session) → SameRows rows rows' → IsWired tunnels by_session next heap rows'
  IsWired-rows rows' same = record {
    of_session = w.of_session;
    of_subdomain = w.of_subdomain;
    stored = λ k r e.
        let (s, f, n) = w.stored k r e in let (t, g, q) = same.forward k s f in (t, g, q ∙ n);
    one_name = λ j k s t e f n.
        let (s', e', q, q') = same.backward j s e in
        let (t', f', p, p') = same.backward k t f in w.one_name j k s' t' e' f' (sym q ∙ n ∙ p);
    row_ids = λ k t e. let (s, f, q, q') = same.backward k t e in q' ∙ w.row_ids k s f;
  }

  -- A row of its own name for a session that had none.
  pub IsWired-put_new :
      (s : Session)
      → get s.id rows ≡ none
      → ((k : Bytes) (t : Session) → get k rows ≡ some t → t.subdomain ≢ s.subdomain)
      → IsWired tunnels by_session next heap (put s.id s rows)
  IsWired-put_new s fresh alone = record {
    of_session = w.of_session;
    of_subdomain = w.of_subdomain;
    stored = λ k r e.
        let (t, f, n) = w.stored k r e in
        (t, ground (arith, get-put s.id k s rows, str_eq_iff s.id k), n);
    one_name = λ j k a b e f n. ground (
      arith,
      get-put s.id j s rows,
      get-put s.id k s rows,
      str_eq_iff s.id j,
      str_eq_iff s.id k,
      w.one_name j k a b,
      alone j a,
      alone k b,
    );
    row_ids = λ k a e. ground (arith, get-put s.id k s rows, str_eq_iff s.id k, w.row_ids k a);
  }

  -- A row in the place of the one that the session has, of the same name.
  pub IsWired-put_same :
      (s old : Session)
      → get s.id rows ≡ some old
      → s.subdomain ≡ old.subdomain
      → IsWired tunnels by_session next heap (put s.id s rows)
  IsWired-put_same s old there name = IsWired-rows (put s.id s rows) (record {
    forward = λ k t e. elim (Bool-cases (str_eq s.id k)) [
      | inl same ↦ (s, ground (arith, get-put s.id k s rows), ground (arith, str_eq_iff s.id k))
      | inr other ↦ (t, ground (arith, get-put s.id k s rows), refl)
    ];
    backward = λ k t e. elim (Bool-cases (str_eq s.id k)) [
      | inl same ↦ (
        old,
        ground (arith, str_eq_iff s.id k),
        ground (arith, get-put s.id k s rows),
        ground (arith, get-put s.id k s rows, w.row_ids s.id old),
      )
      | inr other ↦ (t, ground (arith, get-put s.id k s rows), refl, refl)
    ];
  })
