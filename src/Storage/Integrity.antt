-- ===== src/Storage/Integrity.antt =====
-- Referential integrity: every captured request belongs to a session, and every replay to a
-- request. The hosted prune keeps it, and is never stopped by a foreign key.
use vexlo.Common.{
  ℕ, ◌≡◌, refl, Bool, true, false, List, [], ◌∷◌, arith, Map, delete_if, Unique, get-delete_if,
  delete_if-Unique,
}
use vexlo.Model.{Session, CapturedRequest, CapturedReplay}
use vexlo.Storage.{
  Db, names_request, in_session, without, all_rows, replays_have_requests, requests_have_sessions,
  delete_replays, delete_requests, delete_sessions,
}
use vexlo.Storage.Retention.{is_expired, prune_hosted_before}

pub record IsIntegral (db : Db) : Type 0 where
  pub keys : Unique db.sessions
  pub owned : requests_have_sessions db ≡ true
  pub traced : replays_have_requests db ≡ true

-- A test that holds of the rows that stay.
pub all_rows-keep {ℓ} :
    {A : Type ℓ} (p q drop_row : A → Bool) (xs : List A)
    → ((a : A) → p a ≡ true → drop_row a ≡ false → q a ≡ true)
    → all_rows p xs ≡ true
    → all_rows q (without drop_row xs) ≡ true
all_rows-keep p q drop_row [] h a = refl
all_rows-keep p q drop_row (x ∷ xs) h a = ground (arith, h x, all_rows-keep p q drop_row xs h)

-- A replay of a request that stays still has it.
names_request-without :
    (q : CapturedRequest → Bool) (rs : List CapturedRequest) (y : CapturedReplay)
    → names_request (λ r. true) rs y ≡ true
    → names_request q rs y ≡ false
    → names_request (λ r. true) (without q rs) y ≡ true
names_request-without q [] y h k = absurd (cc)
names_request-without q (r ∷ rs) y h k = ground (arith, names_request-without q rs y)

-- A request of a session that stays still has it.
in_session-delete_if :
    (p : Session → Bool) (sessions : Map Session) (r : CapturedRequest)
    → Unique sessions
    → in_session (λ s. true) sessions r ≡ true
    → in_session p sessions r ≡ false
    → in_session (λ s. true) (delete_if p sessions) r ≡ true
in_session-delete_if p sessions r u h k = ground (arith, get-delete_if p r.session_id sessions u)

module _ (cutoff : ℕ) (db : Db) where
  abbrev pub expired_requests : CapturedRequest → Bool
  expired_requests = in_session (is_expired cutoff) db.sessions

  -- The tables without the hosted sessions that ended before the cutoff, and all that is theirs.
  abbrev pub pruned : Db
  pruned = record db {
    sessions = delete_if (is_expired cutoff) db.sessions;
    requests = without expired_requests db.requests;
    replays = without (names_request expired_requests db.requests) db.replays;
  }

  pruned-traced : IsIntegral db → replays_have_requests pruned ≡ true
  pruned-traced i =
      all_rows-keep (names_request (λ r. true) db.requests)
        (names_request (λ r. true) (without expired_requests db.requests))
        (names_request expired_requests db.requests) db.replays
        (names_request-without expired_requests db.requests) i.traced

  pruned-owned : IsIntegral db → requests_have_sessions pruned ≡ true
  pruned-owned i =
      all_rows-keep (in_session (λ s. true) db.sessions)
        (in_session (λ s. true) (delete_if (is_expired cutoff) db.sessions)) expired_requests
        db.requests (λ r. in_session-delete_if (is_expired cutoff) db.sessions r i.keys) i.owned

  pub pruned-IsIntegral : IsIntegral db → IsIntegral pruned
  pruned-IsIntegral i = record {
    keys = delete_if-Unique (is_expired cutoff) db.sessions i.keys;
    owned = pruned-owned i;
    traced = pruned-traced i;
  }

  -- With foreign keys on and an engine that answers, the hosted prune runs through: it removes the
  -- hosted sessions that ended before the cutoff with their requests and their replays, leaves all
  -- other rows, and the tables whole.
  pub prune_hosted_runs_through :
      (down : ℕ → Bool)
      → ((i : ℕ) → down i ≡ false)
      → IsIntegral db
      → (prune_hosted_before down cutoff db ≡ (pruned, true)) × IsIntegral pruned
  unfolding prune_hosted_before delete_replays delete_requests delete_sessions
  prune_hosted_runs_through down up i =
      (rw (up 0, up 1, pruned-traced i, up 2, pruned-owned i), pruned-IsIntegral i)
