-- ===== src/Tunnels/Links.antt =====
-- The invariant of Wiring when a tunnel is put into the two maps, or taken out of them.
use vexlo.Common.{
  ℕ, suc, ◌≡◌, sym, ap, ◌∙◌, Bytes, some, arith, str_eq, str_eq_iff, inl, inr, Bool-cases, Map, get,
  put, delete, get-put, get-delete,
}
use vexlo.Model.{Session}
use vexlo.Tunnels.{Tunnel, update}
use vexlo.Tunnels.Wiring.{IsWired}

some_inj : {a b : Session} → some a ≡ some b → a ≡ b
some_inj h = cc

module _ {tunnels by_session : Map ℕ} {next : ℕ} {heap : ℕ → Tunnel} {rows : Map Session}
    (w : IsWired tunnels by_session next heap rows) where
  -- A new tunnel for a session that has a row with its subdomain.
  pub IsWired-install :
      (t : Tunnel) (s : Session)
      → get t.session.id rows ≡ some s
      → s.subdomain ≡ t.subdomain
      → IsWired
          (put t.subdomain next tunnels)
          (put t.session.id next by_session)
          (suc next)
          (update heap next t)
          rows
  IsWired-install t s there name = record {
    of_session = λ k r e. ground (
      arith,
      get-put t.session.id k next by_session,
      get-put t.subdomain (heap r).subdomain next tunnels,
      get-put t.subdomain t.subdomain next tunnels,
      str_eq_iff t.session.id k,
      str_eq_iff t.subdomain (heap r).subdomain,
      str_eq_iff t.subdomain t.subdomain,
      w.of_session k r,
      clash k r,
    );
    of_subdomain = λ d r e. ground (
      arith,
      get-put t.subdomain d next tunnels,
      get-put t.session.id (heap r).session.id next by_session,
      get-put t.session.id t.session.id next by_session,
      str_eq_iff t.subdomain d,
      str_eq_iff t.session.id (heap r).session.id,
      str_eq_iff t.session.id t.session.id,
      w.of_subdomain d r,
      same_name d r,
    );
    stored = λ k r e. elim (Bool-cases (str_eq t.session.id k)) [
      | inl same ↦ (
        s,
        ground (arith, str_eq_iff t.session.id k),
        ground (arith, get-put t.session.id k next by_session),
      )
      | inr other ↦
          let e' : get k by_session ≡ some r =
            ground (arith, get-put t.session.id k next by_session) in
          let (s', f, n) = w.stored k r e' in (s', f, ground (arith, w.of_session k r e'))
    ];
    one_name = w.one_name;
    row_ids = w.row_ids;
  }
    where
      clash :
          (k : Bytes) (r : ℕ)
          → get k by_session ≡ some r
          → t.subdomain ≡ (heap r).subdomain
          → t.session.id ≡ k
      clash k r e n =
          let (s', f, n') = w.stored k r e in
          w.one_name t.session.id k s s' there f (name ∙ n ∙ sym n')

      same_name :
          (d : Bytes) (r : ℕ)
          → get d tunnels ≡ some r
          → t.session.id ≡ (heap r).session.id
          → t.subdomain ≡ d
      same_name d r e n =
          let (below, is, back) = w.of_subdomain d r e in
          let (s', f, n') = w.stored (heap r).session.id r back in
          let f' : get t.session.id rows ≡ some s' = rw n f in
          sym name ∙ ap (λ (x : Session). x.subdomain) (some_inj (sym there ∙ f')) ∙ n' ∙ is

  -- A session's tunnel taken out of both maps.
  pub IsWired-unlink :
      (r : ℕ)
      → get (heap r).session.id by_session ≡ some r
      → IsWired
          (delete (heap r).subdomain tunnels)
          (delete (heap r).session.id by_session)
          next
          heap
          rows
  IsWired-unlink r here = record {
    of_session = λ k q e. ground (
      arith,
      get-delete (heap r).session.id k by_session,
      get-delete (heap r).subdomain (heap q).subdomain tunnels,
      str_eq_iff (heap r).session.id k,
      str_eq_iff (heap r).subdomain (heap q).subdomain,
      w.of_session k q,
      w.of_session (heap r).session.id r here,
    );
    of_subdomain = λ d q e. ground (
      arith,
      get-delete (heap r).subdomain d tunnels,
      get-delete (heap r).session.id (heap q).session.id by_session,
      str_eq_iff (heap r).subdomain d,
      str_eq_iff (heap r).session.id (heap q).session.id,
      w.of_subdomain d q,
      w.of_session (heap r).session.id r here,
    );
    stored = λ k q e. w.stored k q (ground (arith, get-delete (heap r).session.id k by_session));
    one_name = w.one_name;
    row_ids = w.row_ids;
  }
