-- ===== src/Client.antt =====
-- internal/client/client.go: what Run keeps from one connection to the next, with the registration
-- that registerTunnel sends and what becomes of its answer; and the answer that handleBinaryConn of
-- internal/server/binary.go gives. The messages on the connection are in Serve and in Handshake.
pub mod Reconnect
pub mod Serve
pub mod Run
use vexlo.Common.{ℕ, ℤ, Bytes, codes, Bool, true, not, ◌&&◌, ◌||◌, [], str_eq, if◌then◌else◌}
use vexlo.Model.{Register, Registered}
use vexlo.Tunnels.Register.{RegisterError, message, Result, ok, err}

-- The variables sessionID and resumeToken of Run.
pub record ResumeState : Type 0 where
  pub session_id : Bytes
  pub resume_token : Bytes

-- The registration of registerTunnel.
unfoldable pub registration : ℤ → ResumeState → Register
registration local_port c = record {
  session_id = c.session_id;
  local_port = local_port;
  connection_type = codes "tcp";
  resume_token = c.resume_token;
  quick = true;
}

-- What a connection brings: no answer that can be read, an error message, or a registration.
pub data Reply : Type 0 where
  lost : Reply
  refused : Bytes → Reply
  welcomed : Registered → Reply

-- The condition under which registerTunnel returns a resumeRejectedError.
unfoldable pub is_resume_rejected : Bytes → Bytes → Bool
is_resume_rejected session_id text =
    not (str_eq session_id [])
    && (str_eq text (codes "quick tunnel expired")
        || str_eq text (codes "invalid session resume")
        || str_eq text (codes "invalid session mode")
        || str_eq text (codes "invalid resume token"))

-- The variables after runOnce, and after Run has looked at its error.
unfoldable pub after_reply : Reply → ResumeState → ResumeState
unfolding is_resume_rejected
after_reply lost c = c
after_reply (refused text) c =
    if is_resume_rejected c.session_id text
    then record { session_id = []; resume_token = [] }
    else c
after_reply (welcomed r) c = record { session_id = r.session_id; resume_token = r.tunnel_token }

-- The answer of handleBinaryConn. `engine` is the text of an error of the database.
unfoldable pub answer : Bytes → Result RegisterError (Registered × ℕ) → Reply
unfolding message
answer engine (err e) = refused (message engine e)
answer engine (ok (registered, r)) = welcomed registered
