-- ===== src/Client/Run/Presents.antt =====
-- Which session a client asks for.
use vexlo.Common.{
  ℤ, ◌≡◌, refl, sym, ap, ◌∙◌, Bytes, codes, Bool, true, false, ◌&&◌, ◌||◌, not, List, [], ◌∷◌, ◌++◌,
  str_eq, str_eq_iff, arith, append_assoc, if◌then◌else◌,
}
use vexlo.Model.{Register}
use vexlo.Client.{ResumeState, lost, refused, welcomed, is_resume_rejected, after_reply}
use vexlo.Client.Run.{
  Attempt, not_dialled, answered, Round, Course, fresh, after_attempt, sent_by, then_course, run,
}

-- The four refusals that end a session.
abbrev pub is_final : Bytes → Bool
is_final text =
    str_eq text (codes "quick tunnel expired")
    || str_eq text (codes "invalid session resume")
    || str_eq text (codes "invalid session mode")
    || str_eq text (codes "invalid resume token")

-- From the newest attempt back: the session of the latest welcome, if no refusal since has ended it.
abbrev pub session_of : List Attempt → Bytes
session_of [] = []
session_of (not_dialled ∷ older) = session_of older
session_of (answered lost ∷ older) = session_of older
session_of (answered (refused text) ∷ older) =
    let before = session_of older in if is_final text then [] else before
session_of (answered (welcomed r) ∷ older) = r.session_id

-- The attempts of some rounds, before others, the newest first.
abbrev pub newest_first : List Round → List Attempt → List Attempt
newest_first [] older = older
newest_first (r ∷ rest) older = newest_first rest (r.attempt ∷ older)

-- No round in which the context is done.
abbrev pub go_on : List Round → Bool
go_on [] = true
go_on (r ∷ rest) = not r.is_cancelled && not r.is_stopped && go_on rest

after_attempt-session :
    (a : Attempt) (older : List Attempt) (c : ResumeState)
    → c.session_id ≡ session_of older
    → (after_attempt a c).session_id ≡ session_of (a ∷ older)
unfolding after_attempt after_reply is_resume_rejected
after_attempt-session not_dialled older c h = h
after_attempt-session (answered lost) older c h = h
after_attempt-session (answered (refused text)) older c h =
    by_refusal (is_final text) (str_eq c.session_id []) refl
  where
    by_refusal :
        (final none_held : Bool)
        → str_eq c.session_id [] ≡ none_held
        → (if not none_held && final
            then record { session_id = []; resume_token = [] }
            else c).session_id
          ≡ (if final then [] else session_of older)
    by_refusal true true e = (str_eq_iff c.session_id []).0 e
    by_refusal true false e = refl
    by_refusal false true e = h
    by_refusal false false e = h
after_attempt-session (answered (welcomed r)) older c h = refl

then_course-nested :
    (a b : List Register) (x : Course) → then_course a (then_course b x) ≡ then_course (a ++ b) x
then_course-nested a b x =
    ap (λ (l : List Register). record { sent = l; result = x.result })
      (sym (append_assoc a b x.sent))

-- A round with which the loop goes on.
run-goes_on :
    (port : ℤ) (r : Round) (rest : List Round) (c : ResumeState)
    → r.is_cancelled ≡ false
    → r.is_stopped ≡ false
    → run port (r ∷ rest) c
      ≡ then_course (sent_by port r.attempt c) (run port rest (after_attempt r.attempt c))
unfolding run
run-goes_on port r rest c e f = rw (e, f) refl

goes_on_from :
    (port : ℤ) (earlier later : List Round) (older : List Attempt) (c : ResumeState)
    → c.session_id ≡ session_of older
    → go_on earlier ≡ true
    → (d : ResumeState) × (d.session_id ≡ session_of (newest_first earlier older))
      × (run port (earlier ++ later) c ≡ then_course (run port earlier c).sent (run port later d))
unfolding run
goes_on_from port [] later older c h g = (c, h, refl)
goes_on_from port (r ∷ rest) later older c h g =
    let running : r.is_cancelled ≡ false = ground arith in
    let unstopped : r.is_stopped ≡ false = ground arith in
    let (d, session, course) =
      goes_on_from port rest later (r.attempt ∷ older) (after_attempt r.attempt c)
        (after_attempt-session r.attempt older c h) (ground arith) in
    (
      d,
      session,
      run-goes_on port r (rest ++ later) c running unstopped
          ∙ ap (then_course (sent_by port r.attempt c)) course
          ∙ then_course-nested (sent_by port r.attempt c)
              (run port rest (after_attempt r.attempt c)).sent (run port later d)
          ∙ ap (λ (x : Course). then_course x.sent (run port later d))
              (sym (run-goes_on port r rest c running unstopped)),
    )

-- Run goes on through every round in which its context is not done, and in the next round it asks for
-- the session of the latest welcome, if none of the four final refusals has come since, and for a new
-- one otherwise.
pub run_presents :
    (port : ℤ) (earlier later : List Round)
    → go_on earlier ≡ true
    → (c : ResumeState) × (c.session_id ≡ session_of (newest_first earlier []))
      × (run port (earlier ++ later) fresh
          ≡ then_course (run port earlier fresh).sent (run port later c))
run_presents port earlier later g = goes_on_from port earlier later [] fresh refl g
