-- ===== src/World/Rows.antt =====
-- What an operation of a handler leaves of the tables.
use vexlo.Common.{
  ℕ, ◌≡◌, refl, sym, ◌∙◌, ap, subst, Bytes, Bool, true, false, ◌&&◌, ◌||◌, List, [], ◌∷◌, ◌++◌,
  Option, none, some, some-injective, inl, inr, Bool-cases, if◌then◌else◌, codes, str_eq, has_byte,
  trim_prefix,
}
use vexlo.Model.{CapturedRequest}
use vexlo.RateLimit.{allow_public_request}
use vexlo.Storage.{Db, set_registrations_paused}
use vexlo.Storage.Whole.{same-KeepsRows}
use vexlo.Storage.Whole.Sessions.{set_registrations_paused-KeepsRows}
use vexlo.Tunnels.{TunnelManager}
use vexlo.Tunnels.Registry.{revoke_hosted}
use vexlo.Tunnels.Rows.{
  LeavesRows, register-LeavesRows, close_tunnel-LeavesRows, revoke_hosted-LeavesRows,
  claim-LeavesRows,
}
use vexlo.Slots.{
  acquire_slot, acquire_hosted_slots, release_hosted_slots, admit_public_request, per_tunnel,
}
use vexlo.Access.{HttpRequest, Answer, fail, done}
use vexlo.Operator.{
  admin_authorized, with_admin_auth, handle_admin_registrations, handle_admin_tunnel,
  safe_operator_origin, admin_registrations, admin_tunnel, pause, pause_stored, revoked_answer,
}
use vexlo.Public.{finish_public, count_capture}
use vexlo.Public.Effects.{IsCaptured, without_reply, with_reply, serve_public-IsCaptured}
use vexlo.Replay.{take_places, replay_target, begin_replay, finish_replay}
use vexlo.World.{
  Platform, Operation, registers, closes, claims, switches, revokes, admits, serves, begins_replay,
  ends_replay, perform,
}

-- A choice between two states.
either :
    {A : Type 0} (P : TunnelManager → Type 0) (b : Bool) (x y : TunnelManager × A)
    → P x.0
    → P y.0
    → P (if b then x else y).0
either P true x y p q = p
either P false x y p q = q

switched-LeavesRows :
    (down : Bool) (req : HttpRequest) (basic : Option (Bytes × Bytes)) (payload : Option Bool)
    (m : TunnelManager)
    → LeavesRows m (admin_registrations down req basic payload m).0
unfolding admin_registrations with_admin_auth handle_admin_registrations
switched-LeavesRows down req basic payload m =
    either (LeavesRows m) (admin_authorized m.cfg basic) _ _
      (either (LeavesRows m) (str_eq req.method (codes "POST") && safe_operator_origin req) _ _
        (paused payload) (same-KeepsRows refl))
      (same-KeepsRows refl)
  where
    stored :
        (switch : Bool) (o : Option Db)
        → set_registrations_paused down switch m.storage ≡ o
        → LeavesRows m (pause_stored switch m o).0
    stored switch none e = same-KeepsRows refl
    stored switch (some db) e = set_registrations_paused-KeepsRows down switch m.storage db e

    paused : (payload : Option Bool) → LeavesRows m (pause down payload m).0
    paused none = same-KeepsRows refl
    paused (some switch) = stored switch (set_registrations_paused down switch m.storage) refl

revoked-LeavesRows :
    (down : Bool) (req : HttpRequest) (basic : Option (Bytes × Bytes)) (now : ℕ) (m : TunnelManager)
    → LeavesRows m (admin_tunnel down req basic now m).0
unfolding admin_tunnel with_admin_auth handle_admin_tunnel
revoked-LeavesRows down req basic now m =
    let session_id : Bytes = trim_prefix req.path (codes "/api/admin/tunnels/") in
    either (LeavesRows m) (admin_authorized m.cfg basic) _ _
      (either (LeavesRows m) (str_eq req.method (codes "DELETE") && safe_operator_origin req) _ _
        (either (LeavesRows m) (str_eq session_id [] || has_byte 47 session_id) _ _
          (same-KeepsRows refl)
          (answered (revoke_hosted down session_id now m)
            (revoke_hosted-LeavesRows down session_id now m)))
        (same-KeepsRows refl))
      (same-KeepsRows refl)
  where
    answered : (x : TunnelManager × Bool) → LeavesRows m x.0 → LeavesRows m (revoked_answer x).0
    answered (n, true) k = k
    answered (n, false) k = k

acquire-storage : (r : ℕ) (m : TunnelManager) → (acquire_hosted_slots r m).0.storage ≡ m.storage
unfolding acquire_hosted_slots
acquire-storage r m =
    either (λ (n : TunnelManager). n.storage ≡ m.storage)
      (acquire_slot per_tunnel (m.heap r).in_flight).1 _ _
      (either (λ (n : TunnelManager). n.storage ≡ m.storage)
        (acquire_slot (vexlo.Common.to_nat m.cfg.hosted_max_in_flight) m.in_flight).1 _ _ refl refl)
      refl

admitted-storage :
    (host_of : Bytes → Bytes) (remote_addr : Bytes) (r now : ℕ) (m : TunnelManager)
    → (admit_public_request host_of remote_addr r now m).0.storage ≡ m.storage
unfolding admit_public_request
admitted-storage host_of remote_addr r now m =
    let verdict = allow_public_request now (host_of remote_addr) m.public in
    either (λ (n : TunnelManager). n.storage ≡ m.storage) verdict.1 _ _
      (acquire-storage r (record m { public = verdict.0 })) refl

took-storage :
    (target : Answer (ℕ × CapturedRequest)) (m : TunnelManager)
    → (take_places target m).0.storage ≡ m.storage
unfolding take_places
took-storage (fail status text) m = refl
took-storage (done (r, original)) m = acquire-storage r m

captured-storage :
    (r : ℕ) (m n : TunnelManager) (sent : List ℕ) → IsCaptured r m n sent → n.storage ≡ m.storage
unfolding count_capture
captured-storage r m n sent without_reply = refl
captured-storage r m n sent with_reply = refl

-- What an operation of the manager leaves.
pub perform-LeavesRows :
    (p : Platform) (op : Operation) (m : TunnelManager) → LeavesRows m (perform p op m).0
unfolding perform finish_public begin_replay finish_replay release_hosted_slots
perform-LeavesRows p (registers outages draws source_ip now reg) m =
    register-LeavesRows p.sha256_hex outages draws source_ip now reg m
perform-LeavesRows p (closes down r now) m = close_tunnel-LeavesRows down r now m
perform-LeavesRows p (claims session_id raw now) m =
    claim-LeavesRows p.sha256_hex session_id raw now m
perform-LeavesRows p (switches down req basic payload) m =
    switched-LeavesRows down req basic payload m
perform-LeavesRows p (revokes down req basic now) m = revoked-LeavesRows down req basic now m
perform-LeavesRows p (admits remote_addr r now) m =
    same-KeepsRows (admitted-storage p.host_of remote_addr r now m)
perform-LeavesRows p (serves draw r req body reply) m = same-KeepsRows (
    captured-storage r m _ _
      (serve_public-IsCaptured p.canonical p.json p.gunzip p.payload_text draw r req body reply m))
perform-LeavesRows p (begins_replay down req payload now) m =
    same-KeepsRows
      (took-storage (replay_target p.sha256_hex p.engine p.json down req payload now m) m)
perform-LeavesRows p (ends_replay draw is_request r original payload reply) m = same-KeepsRows refl
