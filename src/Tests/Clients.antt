-- ===== src/Tests/Clients.antt =====
-- The client's next connection, and the replies of a tunnel.
use vexlo.Common.{
  get, ◌++◌, ℤ, Option, Bool, true, ◌||◌, int_le, int_gt, str_eq, ℕ, suc, ◌≡◌, ◌≢◌, ◌↔◌, ◌⊎◌, refl,
  Bytes, codes, false, List, [], ◌∷◌, Option, some, none, pos, arith, ◌==◌, if◌then◌else◌,
}
use vexlo.Tunnels.Register.{
  RegisterError, rate_busy, invalid_resume, invalid_mode, expired, invalid_token, ok, err,
  validate_resume, validate_registration,
}
use vexlo.Client.{ResumeState, registration, after_reply, answer, welcomed, refused}
use vexlo.Client.Run.{Round, answered, not_dialled, fresh, then_course, run}
use vexlo.Client.Run.Presents.{run_presents}
use vexlo.Client.Reconnect.{IsFinal, after_welcome_resumes, after_refusal_forgets}
use vexlo.Exchange.{
  ForwardResponse, Exchange, no_exchange, ask, reply, take_reply, give_up, replied,
}
use vexlo.Exchange.Finish.{IsReplyTo, finish_forward-IsReplyTo}
use vexlo.Exchange.Delivery.{Reach, here, next, asks, replies, reply_never_hangs}
use vexlo.Tests.Servers.{
  digest, all_up, draws, noon, home, empty_server, registered_server, registered_reply,
}

abbrev fresh_client : ResumeState
fresh_client = record { session_id = []; resume_token = [] }

after_welcome_resumes_example :
    validate_resume digest false
      (suc noon)
      (registration (pos 3000) (after_reply (answer [] (ok (registered_reply, 0))) fresh_client))
      registered_server
    ≡ ok tt
unfolding vexlo.Tunnels.Register.register vexlo.Common.str_eq registration
    vexlo.RateLimit.check_registration_rate vexlo.Common.get vexlo.Common.count_values
    vexlo.Storage.subdomain_exists vexlo.Common.any_value vexlo.Storage.upsert_session
    vexlo.Storage.count_requests
after_welcome_resumes_example =
    after_welcome_resumes digest all_up draws home [] noon (suc noon) (pos 3000) fresh_client
      empty_server registered_server registered_reply 0 refl (λ e. absurd (cc)) refl

abbrev old_client : ResumeState
old_client = record { session_id = codes "s1"; resume_token = codes "t1" }

after_refusal_forgets_example :
    let next = after_reply (answer (codes "disk I/O error") (err rate_busy)) old_client in
    ((next.session_id ≡ []) ↔ IsFinal rate_busy)
    × (¬ IsFinal rate_busy
        → (next ≡ old_client) × (registration (pos 3000) next ≡ registration (pos 3000) old_client))
unfolding vexlo.Client.is_resume_rejected vexlo.Common.str_eq
after_refusal_forgets_example =
    after_refusal_forgets (codes "disk I/O error") (pos 3000) rate_busy old_client
      (λ e. absurd (cc)) refl

abbrev fine : ForwardResponse
fine = record {
  id = codes "q1";
  status_code = 200;
  headers = [];
  body = [];
  duration_ms = pos 1;
  error = [];
}

abbrev asked_exchange : Exchange
asked_exchange = ask (codes "q1") no_exchange

asked-Reach : Reach asked_exchange
asked-Reach = next here (asks (codes "q1") refl)

reply_never_hangs_example : (y : Exchange) × (reply fine asked_exchange ≡ some y)
reply_never_hangs_example = reply_never_hangs fine asked-Reach

abbrev answered_exchange : Exchange
answered_exchange = record asked_exchange {
  pending = [];
  inbox = λ c. if 0 == c then fine ∷ [] else asked_exchange.inbox c;
}

answered-Reach : Reach answered_exchange
unfolding reply vexlo.Common.get ask vexlo.Common.put vexlo.Common.str_eq
answered-Reach = next asked-Reach (replies fine refl)

abbrev finished_exchange : Exchange
finished_exchange = give_up (codes "q1") (take_reply 0 [] answered_exchange)

finish_forward-IsReplyTo_example :
    Reach finished_exchange
    × (get (codes "q1") finished_exchange.pending ≡ none)
    × IsReplyTo (codes "q1") (some fine)
unfolding vexlo.Exchange.finish_forward ask
finish_forward-IsReplyTo_example =
    finish_forward-IsReplyTo replied false 0 (some fine) answered-Reach refl

abbrev welcome_then_refused : List Round
welcome_then_refused =
    record {
      attempt = answered (welcomed registered_reply);
      is_cancelled = false;
      is_stopped = false;
    }
    ∷ record { attempt = not_dialled; is_cancelled = false; is_stopped = false }
    ∷ record {
      attempt = answered (refused (codes "quick tunnel expired"));
      is_cancelled = false;
      is_stopped = false;
    }
    ∷ []

run_presents_example :
    (c : ResumeState) × (c.session_id ≡ [])
    × (run (pos 3000) (welcome_then_refused ++ welcome_then_refused) fresh
        ≡ then_course
            (run (pos 3000) welcome_then_refused fresh).sent
            (run (pos 3000) welcome_then_refused c))
unfolding vexlo.Common.str_eq
run_presents_example = run_presents (pos 3000) welcome_then_refused welcome_then_refused refl
