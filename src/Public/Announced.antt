-- ===== src/Public/Announced.antt =====
-- What a public request leaves behind it: a row for the table and an event for the dashboards.
use vexlo.Common.{
  ℕ, ◌≡◌, refl, ap, subst, Bytes, codes, Bool, true, false, not, List, Option, none, some, ltb,
  if◌then◌else◌, arith,
}
use vexlo.Model.{CapturedRequest}
use vexlo.Headers.{HeaderJson}
use vexlo.Exchange.{ForwardResponse}
use vexlo.Hub.{Event}
use vexlo.Capture.{sanitize_captured_request}
use vexlo.Tunnels.{TunnelManager}
use vexlo.Storage.Writer.{request}
use vexlo.Access.{done}
use vexlo.Slots.{release_hosted_slots}
use vexlo.Public.Effects.{IsCaptured, without_reply, with_reply, serve_public-IsCaptured}
use vexlo.Public.{
  Body, read, too_large, unreadable, PublicRequest, Response, Draw, Outcome, only, count_capture,
  forwarded, serve_public, finish_public, captured_request, new_request_event,
  write_forward_response,
}

-- Neither a row nor an event.
abbrev pub IsSilent : Outcome Response → Type 0
IsSilent o = (o.job ≡ none) × (o.event ≡ none)

-- Whether a public request is captured: its body was read, its tunnel answered, and fewer than 200
-- requests of the tunnel were counted before it.
abbrev pub is_kept : ℕ → Body → Option ForwardResponse → TunnelManager → Bool
is_kept r (read body) (some resp) m = ltb (m.heap r).capture_count 200
is_kept r body reply m = false

-- One item for both, of the tunnel's session and with the status that the visitor gets: the row has
-- the request as it came, and the event has the row's text with the sensitive headers blanked.
pub record IsAnnounced (json : HeaderJson) (payload_text : CapturedRequest → Bytes)
    (session_id : Bytes) (req : PublicRequest) (o : Outcome Response) : Type 0 where
  pub item : CapturedRequest
  pub response : Response
  pub queued : o.job ≡ some (request item)
  pub sent :
      o.event
      ≡ some (record {
        kind = codes "new_request";
        session_id = session_id;
        payload = payload_text (sanitize_captured_request json item);
      })
  pub answered : o.answer ≡ done response
  pub item_session : item.session_id ≡ session_id
  pub asked : (item.method ≡ req.method) × (item.path ≡ req.path) × (item.query ≡ req.query)
  pub status : item.response_status ≡ response.status

captured-maps :
    (r : ℕ) (m n : TunnelManager) (sent : List ℕ)
    → IsCaptured r m n sent
    → (n.storage ≡ m.storage) × (n.by_session ≡ m.by_session) × (n.tunnels ≡ m.tunnels)
unfolding count_capture
captured-maps r m n sent without_reply = (refl, refl, refl)
captured-maps r m n sent with_reply = (refl, refl, refl)

counted-session :
    (r : ℕ) (m : TunnelManager) → ((count_capture r m).heap r).session.id ≡ (m.heap r).session.id
unfolding count_capture
counted-session r m = ground arith

module _ (canonical : Bytes → Bytes) (json : HeaderJson) (gunzip : ℕ → Bytes → Option Bytes)
    (payload_text : CapturedRequest → Bytes) where
  -- What is left behind, by whether the request is captured.
  abbrev pub IsReported : Bool → Bytes → PublicRequest → Outcome Response → Type 0
  IsReported kept session_id req o =
      (kept ≡ false → IsSilent o) × (kept ≡ true → IsAnnounced json payload_text session_id req o)

  silent :
      (session_id : Bytes) (req : PublicRequest) (o : Outcome Response)
      → IsSilent o
      → IsReported false session_id req o
  silent session_id req o s = (λ e. s, λ e. absurd (cc))

  loud :
      (session_id : Bytes) (req : PublicRequest) (o : Outcome Response)
      → IsAnnounced json payload_text session_id req o
      → IsReported true session_id req o
  loud session_id req o s = (λ e. absurd (cc), λ e. s)

  counted :
      (r : ℕ) (m : TunnelManager)
      → not (ltb 200 ((count_capture r m).heap r).capture_count) ≡ ltb (m.heap r).capture_count 200
  unfolding count_capture
  counted r m = ground arith

  forwarded-announces :
      (draw : Draw) (r : ℕ) (req : PublicRequest) (body : Bytes) (resp : ForwardResponse)
      (m : TunnelManager)
      → IsReported
          (ltb (m.heap r).capture_count 200)
          (m.heap r).session.id
          req
          (forwarded canonical json gunzip payload_text draw r req body resp m).1
  unfolding forwarded count_capture captured_request new_request_event write_forward_response
  forwarded-announces draw r req body resp m =
      subst
        (λ (b : Bool).
          IsReported b (m.heap r).session.id req
            (forwarded canonical json gunzip payload_text draw r req body resp m).1)
        (counted r m) (by_count (ltb 200 ((count_capture r m).heap r).capture_count))
    where
      n : TunnelManager
      n = count_capture r m

      item : CapturedRequest
      item = captured_request canonical json gunzip payload_text draw r req body resp n

      event_of : Bytes → Event
      event_of k = record {
        kind = codes "new_request";
        session_id = k;
        payload = payload_text (sanitize_captured_request json item);
      }

      by_count :
          (b : Bool)
          → let p : TunnelManager × Outcome Response =
              if b then (n, only (done (write_forward_response canonical resp))) else (
                n,
                record {
                  answer = done (write_forward_response canonical resp);
                  job = some (request item);
                  event = some (new_request_event canonical json gunzip payload_text item);
                },
              ) in
            IsReported (not b) (m.heap r).session.id req p.1
      by_count true = silent _ req _ (refl, refl)
      by_count false = loud _ req _ (record {
        item = item;
        response = write_forward_response canonical resp;
        queued = refl;
        sent = ap (λ (k : Bytes). some (event_of k)) (counted-session r m);
        answered = refl;
        item_session = counted-session r m;
        asked = (refl, refl, refl);
        status = refl;
      })

  serve_public-announces :
      (draw : Draw) (r : ℕ) (req : PublicRequest) (body : Body) (reply : Option ForwardResponse)
      (m : TunnelManager)
      → IsReported
          (is_kept r body reply m)
          (m.heap r).session.id
          req
          (serve_public canonical json gunzip payload_text draw r req body reply m).1
  unfolding serve_public
  serve_public-announces draw r req too_large reply m = silent _ req _ (refl, refl)
  serve_public-announces draw r req unreadable reply m = silent _ req _ (refl, refl)
  serve_public-announces draw r req (read body) none m = silent _ req _ (refl, refl)
  serve_public-announces draw r req (read body) (some resp) m =
      forwarded-announces draw r req body resp m

  pub finish_public-announces :
      (draw : Draw) (r : ℕ) (req : PublicRequest) (body : Body) (reply : Option ForwardResponse)
      (m : TunnelManager)
      → let (n, o) = finish_public canonical json gunzip payload_text draw r req body reply m in
        (is_kept r body reply m ≡ false → IsSilent o)
        × (is_kept r body reply m ≡ true
            → IsAnnounced json payload_text (m.heap r).session.id req o)
        × (n.storage ≡ m.storage)
        × (n.by_session ≡ m.by_session)
        × (n.tunnels ≡ m.tunnels)
  unfolding finish_public release_hosted_slots
  finish_public-announces draw r req body reply m =
      let (stored, of_session, of_subdomain) =
        captured-maps r m _ _
          (serve_public-IsCaptured canonical json gunzip payload_text draw r req body reply m) in
      let (quiet, told) = serve_public-announces draw r req body reply m in
      (quiet, told, stored, of_session, of_subdomain)
