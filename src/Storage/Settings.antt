-- ===== src/Storage/Settings.antt =====
-- The one setting of the database.
use vexlo.Common.{
  ◌≡◌, refl, sym, ap, ◌∙◌, Bytes, codes, Bool, true, false, Option, none, some, str_eq,
  if◌then◌else◌, Map, get, put, get-put,
}
use vexlo.Storage.{Db, paused_key, set_registrations_paused, registrations_paused}

read_back :
    (paused : Bool) (settings : Map Bytes)
    → (elim (get paused_key
        (put paused_key (if paused then codes "true" else codes "false") settings)) [
          | none ↦ false
          | some value ↦ str_eq value (codes "true")
        ])
      ≡ paused
unfolding str_eq
read_back true settings = rw (get-put paused_key paused_key (codes "true") settings) refl
read_back false settings = rw (get-put paused_key paused_key (codes "false") settings) refl

-- A flag that is stored is the one that is read, over any tables with the same settings.
pub registrations_paused-set :
    (down paused : Bool) (db db' db'' : Db)
    → set_registrations_paused down paused db ≡ some db'
    → db''.settings ≡ db'.settings
    → registrations_paused false db'' ≡ some paused
unfolding set_registrations_paused registrations_paused
registrations_paused-set true paused db db' db'' h same = absurd (cc)
registrations_paused-set false paused db db' db'' h same =
    let written : put paused_key (if paused then codes "true" else codes "false") db.settings
        ≡ db'.settings =
      settings_of db' h in
    ap some (
      ap
        (λ (m : Map Bytes). elim (get paused_key m) [
          | none ↦ false
          | some value ↦ str_eq value (codes "true")
        ])
        (same ∙ sym written)
      ∙ read_back paused db.settings)
  where
    settings_of :
        (d : Db)
        → Option.some (record db {
          settings = put paused_key (if paused then codes "true" else codes "false") db.settings;
        })
          ≡ some d
        → put paused_key (if paused then codes "true" else codes "false") db.settings ≡ d.settings
    settings_of d e =
        let whole : record db {
          settings = put paused_key (if paused then codes "true" else codes "false") db.settings;
        }
            ≡ d =
          cc in
        ap (λ (x : Db). x.settings) whole
