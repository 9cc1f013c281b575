-- ===== src/Storage/Whole.antt =====
-- A change that leaves the captured requests and replays, and every session its row.
pub mod Sessions
use vexlo.Common.{
  ◌≡◌, refl, sym, ap, ap₂, ◌∙◌, subst, Bytes, Bool, true, false, List, [], ◌∷◌, arith, Unique,
  if◌then◌else◌,
}
use vexlo.Model.{CapturedRequest, CapturedReplay}
use vexlo.Storage.{Db, names_request, in_session, without, all_rows}
use vexlo.Storage.Integrity.{IsIntegral}
use vexlo.Storage.Rows.{has_request, has_replay}

pub record KeepsRows (db db' : Db) : Type 0 where
  pub requests : db'.requests ≡ db.requests
  pub replays : db'.replays ≡ db.replays
  pub keys : Unique db.sessions → Unique db'.sessions
  pub sessions :
      (r : CapturedRequest)
      → in_session (λ s. true) db.sessions r ≡ true
      → in_session (λ s. true) db'.sessions r ≡ true

pub same-KeepsRows : {db db' : Db} → db' ≡ db → KeepsRows db db'
same-KeepsRows {db} {db'} same = record {
  requests = ap (λ (d : Db). d.requests) same;
  replays = ap (λ (d : Db). d.replays) same;
  keys = subst (λ (d : Db). Unique d.sessions) (sym same);
  sessions = λ r. subst (λ (d : Db). in_session (λ s. true) d.sessions r ≡ true) (sym same);
}
