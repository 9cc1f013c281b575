-- ===== src/Logging.antt =====
-- internal/server/logging.go: statusRecorder, and what withRequestLogging makes of it. A handler is the
-- sequence of its calls of the writer; Write's argument is what the writer behind it took. `sent` is
-- the status that net/http documents for such calls: that of the first WriteHeader or Write.
use vexlo.Common.{
  ℕ, ◌+◌, ◌≡◌, refl, ap, ◌∙◌, Bool, false, List, [], ◌∷◌, leb, ◌==◌, if◌then◌else◌, arith,
}

pub data Call : Type 0 where
  write_header : ℕ → Call
  write : ℕ → Call

-- statusRecorder
pub record StatusRecorder : Type 0 where
  pub status : ℕ
  pub bytes : ℕ

abbrev pub or_ok : ℕ → ℕ
or_ok status = if status == 0 then 200 else status

-- statusRecorder.WriteHeader and statusRecorder.Write
unfoldable pub record_call : Call → StatusRecorder → StatusRecorder
record_call (write_header status) r = record r { status = status }
record_call (write n) r = record { status = or_ok r.status; bytes = r.bytes + n }

unfoldable pub record_calls : List Call → StatusRecorder → StatusRecorder
unfolding record_call
record_calls [] r = r
record_calls (call ∷ calls) r = record_calls calls (record_call call r)

pub data Level : Type 0 where
  info warn error : Level

-- The level that withRequestLogging and writeError log at.
unfoldable pub level_of : ℕ → Level
level_of status = if leb 500 status then error else (if leb 400 status then warn else info)

-- The status and the bytes that withRequestLogging logs for a handler.
unfoldable pub logged : List Call → StatusRecorder
unfolding record_calls
logged calls =
    let r = record_calls calls (record { status = 0; bytes = 0 }) in
    record r { status = or_ok r.status }

abbrev sent : List Call → ℕ
sent [] = 200
sent (write_header status ∷ calls) = status
sent (write n ∷ calls) = 200

abbrev written : List Call → ℕ
written [] = 0
written (write_header status ∷ calls) = written calls
written (write n ∷ calls) = n + written calls

-- No call of WriteHeader.
abbrev OnlyWrites : List Call → Type 0
OnlyWrites [] = Unit
OnlyWrites (write_header status ∷ calls) = ⊥
OnlyWrites (write n ∷ calls) = OnlyWrites calls

-- A handler that calls WriteHeader at most once, and first, with a status.
abbrev IsProper : List Call → Type 0
IsProper [] = Unit
IsProper (write_header status ∷ calls) = ((status == 0) ≡ false) × OnlyWrites calls
IsProper (write n ∷ calls) = OnlyWrites calls

record_calls-bytes :
    (calls : List Call) (r : StatusRecorder)
    → (record_calls calls r).bytes ≡ r.bytes + written calls
unfolding record_calls record_call
record_calls-bytes [] r = omega arith
record_calls-bytes (write_header status ∷ calls) r =
    record_calls-bytes calls (record r { status = status })
record_calls-bytes (write n ∷ calls) r =
    omega
      (arith, record_calls-bytes calls (record { status = or_ok r.status; bytes = r.bytes + n }))

OnlyWrites-status :
    (calls : List Call) (r : StatusRecorder)
    → OnlyWrites calls
    → (r.status == 0) ≡ false
    → (record_calls calls r).status ≡ r.status
unfolding record_calls record_call
OnlyWrites-status [] r o some_status = refl
OnlyWrites-status (write_header status ∷ calls) r o some_status = absurd o
OnlyWrites-status (write n ∷ calls) r o some_status =
    OnlyWrites-status calls (record { status = or_ok r.status; bytes = r.bytes + n }) o
      (ap (λ (b : Bool). (if b then 200 else r.status) == 0) some_status ∙ some_status)
    ∙ ap (λ (b : Bool). if b then 200 else r.status) some_status

from_zero : (n : ℕ) → 0 + n ≡ n
from_zero n = omega arith

-- What is logged of a handler that sets its status at most once, and first, is the status that is sent
-- and the number of bytes that were written.
logged-IsProper :
    (calls : List Call)
    → IsProper calls
    → ((logged calls).status ≡ sent calls) × ((logged calls).bytes ≡ written calls)
unfolding logged record_calls record_call
logged-IsProper [] p = (refl, refl)
logged-IsProper (write_header status ∷ calls) (some_status, o) = (
  ap or_ok (OnlyWrites-status calls (record { status = status; bytes = 0 }) o some_status)
      ∙ ap (λ (b : Bool). if b then 200 else status) some_status,
  record_calls-bytes calls (record { status = status; bytes = 0 }) ∙ from_zero (written calls),
)
logged-IsProper (write n ∷ calls) o = (
  ap or_ok (OnlyWrites-status calls (record { status = 200; bytes = 0 + n }) o refl),
  record_calls-bytes calls (record { status = 200; bytes = 0 + n })
      ∙ ap (λ (k : ℕ). k + written calls) (from_zero n),
)
