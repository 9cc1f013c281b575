-- ===== src/Common/Maps.antt =====
-- Go's map[string]V as an association list. `put` drops the entry that the key had, so a map
-- built by these operations has one entry for each key, and `length` counts keys.
use Prim.Native.Nat.{ℕ, suc, ◌≤◌}
use mathlib.Core.Path.{◌≡◌, refl, ap}
use mathlib.Core.Bool.{Bool, false, ◌||◌}
use mathlib.Core.Option.{Option, none, some}
use mathlib.Core.List.{List, [], ◌∷◌}
use native.Mathlib.Omega.{arith}
use vexlo.Common.Tests.{if◌then◌else◌}
use vexlo.Common.Lists.{length}
use vexlo.Common.Text.{Bytes, str_eq, str_eq_iff}

abbrev pub Map {ℓ} : Type ℓ → Type ℓ
Map V = List (Bytes × V)

module _ {ℓ} {V : Type ℓ} where
  -- m[k], with the ok flag
  unfoldable pub get : Bytes → Map V → Option V
  get k [] = none
  get k ((j, v) ∷ m) = if str_eq j k then some v else get k m

  -- delete(m, k)
  unfoldable pub delete : Bytes → Map V → Map V
  delete k [] = []
  delete k ((j, v) ∷ m) = let rest = delete k m in if str_eq j k then rest else (j, v) ∷ rest

  -- m[k] = v
  unfoldable pub put : Bytes → V → Map V → Map V
  unfolding delete
  put k v m = (k, v) ∷ delete k m

  -- for k, v := range m { if drop(v) { delete(m, k) } }
  unfoldable pub delete_if : (V → Bool) → Map V → Map V
  delete_if p [] = []
  delete_if p ((j, v) ∷ m) = let rest = delete_if p m in if p v then rest else (j, v) ∷ rest

  -- One entry for each key.
  abbrev pub Unique : Map V → Type ℓ
  Unique [] = Unit
  Unique ((j, v) ∷ m) = (get j m ≡ none) × Unique m

  pub get-delete :
      (k j : Bytes) (m : Map V) → get j (delete k m) ≡ (if str_eq k j then none else get j m)
  unfolding get delete
  get-delete k j [] = ground arith
  get-delete k j ((i, v) ∷ m) =
      ground (arith, get-delete k j m, str_eq_iff i k, str_eq_iff i j, str_eq_iff k j)

  pub get-put :
      (k j : Bytes) (v : V) (m : Map V)
      → get j (put k v m) ≡ (if str_eq k j then some v else get j m)
  unfolding get put
  get-put k j v m = ground (arith, get-delete k j m)

  pub length-delete-le : (k : Bytes) (m : Map V) → length (delete k m) ≤ length m
  unfolding delete
  length-delete-le k [] = omega arith
  length-delete-le k ((j, v) ∷ m) = ground (arith, length-delete-le k m)

  pub length-put-le : (k : Bytes) (v : V) (m : Map V) → length (put k v m) ≤ suc (length m)
  unfolding put
  length-put-le k v m = omega (arith, length-delete-le k m)

  pub delete-of_none : (k : Bytes) (m : Map V) → get k m ≡ none → delete k m ≡ m
  unfolding get delete
  delete-of_none k [] h = refl
  delete-of_none k ((j, v) ∷ m) h = ground (arith, delete-of_none k m)

  pub length-put_new :
      (k : Bytes) (v : V) (m : Map V) → get k m ≡ none → length (put k v m) ≡ suc (length m)
  unfolding put
  length-put_new k v m h = ap suc (ap length (delete-of_none k m h))

  pub length-delete_if-le : (p : V → Bool) (m : Map V) → length (delete_if p m) ≤ length m
  unfolding delete_if
  length-delete_if-le p [] = omega arith
  length-delete_if-le p ((j, v) ∷ m) = ground (arith, length-delete_if-le p m)

  pub get-delete_if-none :
      (p : V → Bool) (k : Bytes) (m : Map V) → get k m ≡ none → get k (delete_if p m) ≡ none
  unfolding get delete_if
  get-delete_if-none p k [] h = refl
  get-delete_if-none p k ((j, v) ∷ m) h = ground (arith, get-delete_if-none p k m)

  -- What a lookup finds after the entries that `p` holds of have gone.
  abbrev pub unless : (V → Bool) → Option V → Option V
  unless p none = none
  unless p (some v) = if p v then none else some v

  pub get-delete_if :
      (p : V → Bool) (k : Bytes) (m : Map V) → Unique m → get k (delete_if p m) ≡ unless p (get k m)
  unfolding get delete_if
  get-delete_if p k [] u = refl
  get-delete_if p k ((j, v) ∷ m) u =
      ground (arith, str_eq_iff j k, get-delete_if p k m u.1, get-delete_if-none p k m)

  pub delete-Unique : (k : Bytes) (m : Map V) → Unique m → Unique (delete k m)
  unfolding delete
  delete-Unique k [] u = tt
  delete-Unique k ((j, v) ∷ m) u = ground (arith, delete-Unique k m u.1, get-delete k j m)

  pub put-Unique : (k : Bytes) (v : V) (m : Map V) → Unique m → Unique (put k v m)
  unfolding put
  put-Unique k v m u = ground (arith, delete-Unique k m u, get-delete k k m, str_eq_iff k k)

  pub delete_if-Unique : (p : V → Bool) (m : Map V) → Unique m → Unique (delete_if p m)
  unfolding delete_if
  delete_if-Unique p [] u = tt
  delete_if-Unique p ((j, v) ∷ m) u =
      ground (arith, delete_if-Unique p m u.1, get-delete_if-none p j m)

module _ {ℓ} {V : Type ℓ} where
  -- A row's new value, where there is a row.
  abbrev pub map_some {κ} : {W : Type κ} → (V → W) → Option V → Option W
  map_some f none = none
  map_some f (some v) = some (f v)

  -- Every value through a function: UPDATE of a table with a primary key.
  unfoldable pub map_values : (V → V) → Map V → Map V
  map_values f [] = []
  map_values f ((j, v) ∷ m) = (j, f v) ∷ map_values f m

  -- The value of one key through a function: UPDATE ... WHERE key = k.
  unfoldable pub modify : Bytes → (V → V) → Map V → Map V
  modify k f [] = []
  modify k f ((j, v) ∷ m) = (j, if str_eq j k then f v else v) ∷ modify k f m

  -- Whether some value passes a test.
  unfoldable pub any_value : (V → Bool) → Map V → Bool
  any_value p [] = false
  any_value p ((j, v) ∷ m) = p v || any_value p m

  -- How many values pass a test.
  unfoldable pub count_values : (V → Bool) → Map V → ℕ
  count_values p [] = 0
  count_values p ((j, v) ∷ m) = let rest = count_values p m in if p v then suc rest else rest

  pub get-map_values :
      (f : V → V) (k : Bytes) (m : Map V) → get k (map_values f m) ≡ map_some f (get k m)
  unfolding get map_values
  get-map_values f k [] = refl
  get-map_values f k ((j, v) ∷ m) = ground (arith, get-map_values f k m)

  pub get-modify :
      (k j : Bytes) (f : V → V) (m : Map V)
      → get j (modify k f m) ≡ (if str_eq k j then map_some f (get j m) else get j m)
  unfolding get modify
  get-modify k j f [] = ground arith
  get-modify k j f ((i, v) ∷ m) =
      ground (arith, get-modify k j f m, str_eq_iff i k, str_eq_iff i j, str_eq_iff k j)

  pub any_value-get :
      (p : V → Bool) (k : Bytes) (m : Map V) (v : V)
      → any_value p m ≡ false
      → get k m ≡ some v
      → p v ≡ false
  unfolding any_value get
  any_value-get p k [] v h e = absurd (cc)
  any_value-get p k ((j, w) ∷ m) v h e = ground (arith, any_value-get p k m v)

  pub map_values-Unique : (f : V → V) (m : Map V) → Unique m → Unique (map_values f m)
  unfolding map_values
  map_values-Unique f [] u = tt
  map_values-Unique f ((j, v) ∷ m) u =
      ground (arith, map_values-Unique f m u.1, get-map_values f j m)

  pub modify-Unique : (k : Bytes) (f : V → V) (m : Map V) → Unique m → Unique (modify k f m)
  unfolding modify
  modify-Unique k f [] u = tt
  modify-Unique k f ((j, v) ∷ m) u = ground (arith, modify-Unique k f m u.1, get-modify k j f m)
