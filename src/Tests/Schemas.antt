-- ===== src/Tests/Schemas.antt =====
-- A file of an older version.
use vexlo.Common.{◌≡◌, refl, Bytes, codes, false, List, [], ◌∷◌, Option, none, some}
use vexlo.Storage.Schema.{Schema, migrate}
use vexlo.Storage.Schema.Statements.{Extends}
use vexlo.Storage.Schema.Current.{IsCurrent, migrate-IsCurrent}

-- Sessions without the two columns, and no other table.
abbrev old_file : Schema
old_file = record {
  tables = (codes "sessions", codes "id" ∷ codes "subdomain" ∷ []) ∷ [];
  indexes = [];
  pragmas = record {
    is_wal = false;
    has_foreign_keys = false;
    busy_timeout = 0;
    is_synchronous_normal = false;
  };
}

abbrev or_old : Option Schema → Schema
or_old none = old_file
or_old (some s) = s

abbrev new_file : Schema
new_file = or_old (migrate (λ i. false) old_file)

migrate-IsCurrent_example :
    IsCurrent new_file × Extends old_file new_file × (migrate (λ i. false) new_file ≡ some new_file)
unfolding migrate vexlo.Common.get vexlo.Common.str_eq vexlo.Common.put
migrate-IsCurrent_example = migrate-IsCurrent (λ i. false) old_file new_file refl
