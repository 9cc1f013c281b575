-- ===== src/Server/Whole.antt =====
-- What a round of the retention leaves of the rows.
use vexlo.Common.{
  ℕ, ◌≡◌, subst, Bool, true, false, not, ◌&&◌, ◌⊎◌, inl, inr, List, [], ◌∷◌, none, some,
  some-injective, delete_if, if◌then◌else◌,
}
use mathlib.Core.List.{Memᴰ}
use mathlib.Core.List.Memᴰ
use vexlo.Model.{CapturedRequest}
use vexlo.Storage.{
  Db, unless_down, without, replays_have_requests, requests_have_sessions, delete_replays,
  delete_requests, delete_sessions,
}
use vexlo.Tunnels.{TunnelManager}
use vexlo.Server.{prune}
use vexlo.Server.Retention.{IsKept, prune-keeps}

-- What a statement that succeeds has made.
if-some : (b : Bool) (d db : Db) → (if b then some d else none) ≡ some db → d ≡ db
if-some true d db h = some-injective d db h
if-some false d db h = absurd (cc)

replays_if :
    (down : Bool) (d db : Db)
    → unless_down down d ≡ some db
    → (if not down then some d else none) ≡ some db
replays_if true d db h = h
replays_if false d db h = h

-- The rows that a DELETE leaves were there.
of_without :
    {A : Type 0} (drop_row : A → Bool) (a : A) (xs : List A)
    → Memᴰ a (without drop_row xs)
    → Memᴰ a xs
of_without drop_row a [] at = at
of_without {A} drop_row a (x ∷ xs) at = by_row (drop_row x) at (of_without drop_row a xs)
  where
    kept :
        (Memᴰ a (without drop_row xs) → Memᴰ a xs)
        → (a ≡ x) ⊎ Memᴰ a (without drop_row xs)
        → Memᴰ a (x ∷ xs)
    kept ih (inl e) = Memᴰ.head e
    kept ih (inr at') = Memᴰ.tail (ih at')

    by_row :
        (b : Bool)
        → Memᴰ a (if not b then x ∷ without drop_row xs else without drop_row xs)
        → (Memᴰ a (without drop_row xs) → Memᴰ a xs)
        → Memᴰ a (x ∷ xs)
    by_row true at ih = Memᴰ.tail (ih at)
    by_row false at ih = kept ih (Memᴰ.cases_cons at)

-- A database whose captured requests are among those of another.
abbrev IsWithin : Db → Db → Type 0
IsWithin all db = (row : CapturedRequest) → Memᴰ row db.requests → Memᴰ row all.requests

IsWithin-IsKept : (all : Db) → IsKept (IsWithin all)
unfolding delete_replays delete_requests delete_sessions
IsWithin-IsKept all = record {
  replays = λ down p db i db' h.
      let d : Db = record db { replays = without p db.replays } in
      let e : d ≡ db' = if-some (not down) d db' (replays_if down d db' h) in
      subst (IsWithin all) e i;
  requests = λ down p db i db' h.
      let d : Db = record db { requests = without p db.requests } in
      let e : d ≡ db' = if-some (not down && replays_have_requests d) d db' h in
      subst (IsWithin all) e (λ row at. i row (of_without p row db.requests at));
  sessions = λ down p db i db' h.
      let d : Db = record db { sessions = delete_if p db.sessions } in
      let e : d ≡ db' = if-some (not down && requests_have_sessions d) d db' h in
      subst (IsWithin all) e i;
}

pub pruned-requests :
    (down : ℕ → Bool) (now : ℕ) (m : TunnelManager) (row : CapturedRequest)
    → Memᴰ row (prune down now m).storage.requests
    → Memᴰ row m.storage.requests
pruned-requests down now m =
    prune-keeps (IsWithin m.storage) (IsWithin-IsKept m.storage) down now m (λ row at. at)
