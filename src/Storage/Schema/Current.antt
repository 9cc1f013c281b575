-- ===== src/Storage/Schema/Current.antt =====
-- What migrate makes of any older file.
use vexlo.Common.{
  ℕ, ◌+◌, ◌≡◌, refl, sym, ap, ◌∙◌, subst, Bytes, codes, Bool, true, false, List, [], ◌∷◌, ◌++◌,
  Option, none, some, some-injective, arith, str_eq, str_eq_iff, get, put, get-put, if◌then◌else◌,
  ◌||◌,
}
use vexlo.Storage.Schema.{
  Pragmas, Schema, has_name, has_column, and_then, unless, execute_all, statements, add_column,
  ensure_column, apply_pragmas, migrate,
}
use vexlo.Storage.Schema.Statements.{
  AllDone, Extends, Extends-refl, Extends-trans, AllDone-Extends, and_then-some, unless-some,
  execute_all-AllDone, execute_all-again,
}

abbrev pub current_pragmas : Pragmas
current_pragmas = record {
  is_wal = true;
  has_foreign_keys = true;
  busy_timeout = 5000;
  is_synchronous_normal = true;
}

-- A file as the server needs it.
pub record IsCurrent (s : Schema) : Type 0 where
  pub all_there : AllDone statements s
  pub tunnel_token : has_column (codes "sessions") (codes "tunnel_token") s ≡ true
  pub hosted : has_column (codes "sessions") (codes "hosted") s ≡ true
  pub pragmas : s.pragmas ≡ current_pragmas

has_name-append :
    (name column : Bytes) (names : List Bytes)
    → has_name name (names ++ column ∷ []) ≡ (has_name name names || str_eq column name)
has_name-append name column [] = ground arith
has_name-append name column (other ∷ names) = ground (arith, has_name-append name column names)

added :
    (table column : Bytes) (s t : Schema) (o : Option (List Bytes))
    → get table s.tables ≡ o
    → add_column table column o s ≡ some t
    → (has_column table column t ≡ true) × Extends s t
added table column s t none e h = absurd (cc)
added table column s t (some names) e h = by_name (has_name column names) h
  where
    by_name :
        (b : Bool)
        → (if b
            then none
            else some (record s { tables = put table (names ++ column ∷ []) s.tables }))
          ≡ some t
        → (has_column table column t ≡ true) × Extends s t
    by_name true h = absurd (cc)
    by_name false h =
        subst (λ (x : Schema). (has_column table column x ≡ true) × Extends s x)
          (some-injective _ t h)
          (
            ground (
              arith,
              get-put table table (names ++ column ∷ []) s.tables,
              str_eq_iff table table,
              has_name-append column column names,
              str_eq_iff column column,
            ),
            record {
              tables =
                  λ other h. ground (arith, get-put table other (names ++ column ∷ []) s.tables);
              columns = λ other name h. ground (
                arith,
                get-put table other (names ++ column ∷ []) s.tables,
                str_eq_iff table other,
                has_name-append name column names,
              );
              indexes = λ index h. h;
            },
          )

ensure_column-done :
    (down_read down_alter : Bool) (table column : Bytes) (s t : Schema)
    → ensure_column down_read down_alter table column s ≡ some t
    → (has_column table column t ≡ true) × Extends s t
unfolding ensure_column
ensure_column-done down_read down_alter table column s t h =
    by_column (has_column table column s) refl (unless-some down_read _ t h)
  where
    by_column :
        (b : Bool)
        → has_column table column s ≡ b
        → (if b then some s else unless down_alter (add_column table column (get table s.tables) s))
          ≡ some t
        → (has_column table column t ≡ true) × Extends s t
    by_column true e h =
        subst (λ (x : Schema). (has_column table column x ≡ true) × Extends s x)
          (some-injective s t h) (e, Extends-refl s)
    by_column false e h =
        added table column s t (get table s.tables) refl (unless-some down_alter _ t h)

ensure_column-again :
    (table column : Bytes) (s : Schema)
    → has_column table column s ≡ true
    → ensure_column false false table column s ≡ some s
unfolding ensure_column
ensure_column-again table column s e = rw e refl

apply_pragmas-done :
    (down : ℕ → Bool) (s t : Schema)
    → apply_pragmas down s ≡ some t
    → record s { pragmas = current_pragmas } ≡ t
unfolding apply_pragmas
apply_pragmas-done down s t h = some-injective _ t (
    unless-some (down 3) _ t
      (unless-some (down 2) _ t (unless-some (down 1) _ t (unless-some (down 0) _ t h))))

apply_pragmas-again :
    (s : Schema) → s.pragmas ≡ current_pragmas → apply_pragmas (λ i. false) s ≡ some s
unfolding apply_pragmas
apply_pragmas-again s e = ap (λ (p : Pragmas). some (record s { pragmas = p })) (sym e)

set-Extends : (s : Schema) (p : Pragmas) → Extends s (record s { pragmas = p })
set-Extends s p = record {
  tables = λ table h. h;
  columns = λ table column h. h;
  indexes = λ index h. h;
}

migrate-again : (t : Schema) → IsCurrent t → migrate (λ i. false) t ≡ some t
unfolding migrate
migrate-again t c =
    ap
      (λ (o : Option Schema). and_then o λ s1.
        and_then (ensure_column false false (codes "sessions") (codes "tunnel_token") s1) λ s2.
          and_then (ensure_column false false (codes "sessions") (codes "hosted") s2)
            λ s3. apply_pragmas (λ i. false) s3)
      (execute_all-again statements t c.all_there)
    ∙ ap
        (λ (o : Option Schema). and_then o λ s2.
          and_then (ensure_column false false (codes "sessions") (codes "hosted") s2)
            λ s3. apply_pragmas (λ i. false) s3)
        (ensure_column-again (codes "sessions") (codes "tunnel_token") t c.tunnel_token)
    ∙ ap (λ (o : Option Schema). and_then o λ s3. apply_pragmas (λ i. false) s3)
        (ensure_column-again (codes "sessions") (codes "hosted") t c.hosted)
    ∙ apply_pragmas-again t c.pragmas

-- Whatever file of an older version migrate starts from, if it returns no error then every table and
-- index of this version is there, and so are the two columns that older versions lacked; foreign keys
-- are on; no table, column or index that was there is gone; and a second run changes nothing.
pub migrate-IsCurrent :
    (down : ℕ → Bool) (s t : Schema)
    → migrate down s ≡ some t
    → IsCurrent t × Extends s t × (migrate (λ i. false) t ≡ some t)
unfolding migrate
migrate-IsCurrent down s t h =
    let (s1, ran, h1) = and_then-some (execute_all down statements s) _ t h in
    let (s2, first, h2) =
      and_then-some (ensure_column (down 6) (down 7) (codes "sessions") (codes "tunnel_token") s1) _
        t h1 in
    let (s3, second, h3) =
      and_then-some (ensure_column (down 8) (down 9) (codes "sessions") (codes "hosted") s2) _ t
        h2 in
    let (done, wider1) = execute_all-AllDone down statements s s1 ran in
    let (token, wider2) =
      ensure_column-done (down 6) (down 7) (codes "sessions") (codes "tunnel_token") s1 s2 first in
    let (hosted, wider3) =
      ensure_column-done (down 8) (down 9) (codes "sessions") (codes "hosted") s2 s3 second in
    let same = apply_pragmas-done (λ i. down (10 + i)) s3 t h3 in
    let made : IsCurrent (record s3 { pragmas = current_pragmas }) = record {
      all_there =
          AllDone-Extends
            (Extends-trans (Extends-trans wider2 wider3) (set-Extends s3 current_pragmas))
            statements done;
      tunnel_token = wider3.columns (codes "sessions") (codes "tunnel_token") token;
      hosted = hosted;
      pragmas = refl;
    } in
    let current : IsCurrent t = subst IsCurrent same made in
    (
      current,
      subst (Extends s) same (
          Extends-trans wider1
            (Extends-trans wider2 (Extends-trans wider3 (set-Extends s3 current_pragmas)))),
      migrate-again t current,
    )
