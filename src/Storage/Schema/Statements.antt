-- ===== src/Storage/Schema/Statements.antt =====
-- What the statements of migrate make of any file.
use vexlo.Common.{
  ℕ, suc, ◌≡◌, refl, ap, ◌∙◌, subst, Bytes, Bool, true, false, List, [], ◌∷◌, Option, none, some,
  some-injective, arith, str_eq_iff, get, put, get-put, if◌then◌else◌,
}
use vexlo.Storage.Schema.{
  Schema, has_all, has_column, Statement, create_table, create_index, create_missing, index_missing,
  execute, and_then, unless, execute_all,
}

abbrev pub is_there {ℓ} : {A : Type ℓ} → Option A → Bool
is_there none = false
is_there (some a) = true

abbrev pub has_table : Bytes → Schema → Bool
has_table table s = is_there (get table s.tables)

abbrev pub has_index : Bytes → Schema → Bool
has_index index s = is_there (get index s.indexes)

-- A schema that has all that another has.
pub record Extends (s t : Schema) : Type 0 where
  pub tables : (table : Bytes) → has_table table s ≡ true → has_table table t ≡ true
  pub columns :
      (table column : Bytes) → has_column table column s ≡ true → has_column table column t ≡ true
  pub indexes : (index : Bytes) → has_index index s ≡ true → has_index index t ≡ true

pub Extends-refl : (s : Schema) → Extends s s
Extends-refl s = record {
  tables = λ table h. h;
  columns = λ table column h. h;
  indexes = λ index h. h;
}

pub Extends-trans : {s t u : Schema} → Extends s t → Extends t u → Extends s u
Extends-trans e f = record {
  tables = λ table h. f.tables table (e.tables table h);
  columns = λ table column h. f.columns table column (e.columns table column h);
  indexes = λ index h. f.indexes index (e.indexes index h);
}

-- What a statement asks for.
abbrev pub IsDone : Statement → Schema → Type 0
IsDone (create_table table columns) s = has_table table s ≡ true
IsDone (create_index index table columns) s = has_index index s ≡ true

abbrev pub AllDone : List Statement → Schema → Type 0
AllDone [] s = Unit
AllDone (st ∷ rest) s = IsDone st s × AllDone rest s

IsDone-Extends : {s t : Schema} → Extends s t → (st : Statement) → IsDone st s → IsDone st t
IsDone-Extends e (create_table table columns) d = e.tables table d
IsDone-Extends e (create_index index table columns) d = e.indexes index d

pub AllDone-Extends :
    {s t : Schema} → Extends s t → (sts : List Statement) → AllDone sts s → AllDone sts t
AllDone-Extends e [] d = tt
AllDone-Extends e (st ∷ rest) (d, ds) = (IsDone-Extends e st d, AllDone-Extends e rest ds)

created :
    (table : Bytes) (columns : List Bytes) (s : Schema) (o : Option (List Bytes))
    → get table s.tables ≡ o
    → (has_table table (create_missing table columns o s) ≡ true)
      × Extends s (create_missing table columns o s)
created table columns s none e = (
  ground (arith, get-put table table columns s.tables, str_eq_iff table table),
  record {
    tables =
        λ other h. ground (arith, get-put table other columns s.tables, str_eq_iff table other);
    columns = λ other column h.
        ground (arith, get-put table other columns s.tables, str_eq_iff table other);
    indexes = λ index h. h;
  },
)
created table columns s (some there) e = (ap is_there e, Extends-refl s)

indexed :
    (index table : Bytes) (columns : List Bytes) (s t : Schema) (o : Option Bytes)
    (names : Option (List Bytes))
    → get index s.indexes ≡ o
    → index_missing index table columns o names s ≡ some t
    → (has_index index t ≡ true) × Extends s t
indexed index table columns s t (some there) names e h =
    let same : s ≡ t = some-injective s t h in
    subst (λ (x : Schema). (has_index index x ≡ true) × Extends s x) same
      (ap is_there e, Extends-refl s)
indexed index table columns s t none none e h = absurd (cc)
indexed index table columns s t none (some names) e h = by_columns (has_all columns names) h
  where
    by_columns :
        (b : Bool)
        → (if b then some (record s { indexes = put index table s.indexes }) else none) ≡ some t
        → (has_index index t ≡ true) × Extends s t
    by_columns false h = absurd (cc)
    by_columns true h =
        subst (λ (x : Schema). (has_index index x ≡ true) × Extends s x) (some-injective _ t h)
          (
            ground (arith, get-put index index table s.indexes, str_eq_iff index index),
            record {
              tables = λ other h. h;
              columns = λ other column h. h;
              indexes = λ other h. ground (arith, get-put index other table s.indexes);
            },
          )

execute-IsDone : (st : Statement) (s t : Schema) → execute st s ≡ some t → IsDone st t × Extends s t
unfolding execute
execute-IsDone (create_table table columns) s t h =
    subst (λ (x : Schema). (has_table table x ≡ true) × Extends s x) (some-injective _ t h)
      (created table columns s (get table s.tables) refl)
execute-IsDone (create_index index table columns) s t h =
    indexed index table columns s t (get index s.indexes) (get table s.tables) refl h

-- A statement that is done changes nothing.
execute-again : (st : Statement) (s : Schema) → IsDone st s → execute st s ≡ some s
unfolding execute
execute-again (create_table table columns) s d = of_table (get table s.tables) d
  where
    of_table :
        (o : Option (List Bytes))
        → is_there o ≡ true
        → some (create_missing table columns o s) ≡ some s
    of_table none d = absurd (cc)
    of_table (some there) d = refl
execute-again (create_index index table columns) s d = of_index (get index s.indexes) d
  where
    of_index :
        (o : Option Bytes)
        → is_there o ≡ true
        → index_missing index table columns o (get table s.tables) s ≡ some s
    of_index none d = absurd (cc)
    of_index (some there) d = refl

pub and_then-some :
    (o : Option Schema) (f : Schema → Option Schema) (t : Schema)
    → and_then o f ≡ some t
    → (s : Schema) × (o ≡ some s) × (f s ≡ some t)
and_then-some none f t h = absurd (cc)
and_then-some (some s) f t h = (s, refl, h)

pub unless-some :
    (down : Bool) (o : Option Schema) (t : Schema) → unless down o ≡ some t → o ≡ some t
unless-some true o t h = absurd (cc)
unless-some false o t h = h

pub execute_all-AllDone :
    (down : ℕ → Bool) (sts : List Statement) (s t : Schema)
    → execute_all down sts s ≡ some t
    → AllDone sts t × Extends s t
unfolding execute_all
execute_all-AllDone down [] s t h = (tt, subst (Extends s) (some-injective s t h) (Extends-refl s))
execute_all-AllDone down (st ∷ rest) s t h =
    let (u, first, later) = and_then-some (unless (down 0) (execute st s)) _ t h in
    let (done, wider) = execute-IsDone st s u (unless-some (down 0) (execute st s) u first) in
    let (all, widest) = execute_all-AllDone (λ i. down (suc i)) rest u t later in
    ((IsDone-Extends widest st done, all), Extends-trans wider widest)

pub execute_all-again :
    (sts : List Statement) (s : Schema) → AllDone sts s → execute_all (λ i. false) sts s ≡ some s
unfolding execute_all
execute_all-again [] s d = refl
execute_all-again (st ∷ rest) s (d, ds) =
    ap (λ (o : Option Schema). and_then o (λ t. execute_all (λ i. false) rest t))
      (execute-again st s d)
    ∙ execute_all-again rest s ds
