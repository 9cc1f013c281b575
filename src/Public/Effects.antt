-- ===== src/Public/Effects.antt =====
-- What a public request does to the manager and to the writer's queue.
use vexlo.Common.{
  ℕ, ◌≡◌, refl, sym, ap, subst₂, Bytes, Bool, true, false, List, [], ◌∷◌, Option, none, some, ltb,
  if◌then◌else◌,
}
use vexlo.Model.{CapturedRequest}
use vexlo.Headers.{HeaderJson}
use vexlo.Exchange.{ForwardResponse}
use vexlo.Tunnels.{TunnelManager}
use vexlo.Storage.Writer.{Job, request, replay}
use vexlo.Public.{
  Body, read, too_large, unreadable, PublicRequest, Draw, Outcome, count_capture, forwarded,
  serve_public,
}

-- The tunnel of a request that is handed to the database's writer.
abbrev pub kept : ℕ → Option Job → List ℕ
kept r none = []
kept r (some (request item)) = r ∷ []
kept r (some (replay y)) = []

same_state :
    {A : Type 0} (b : Bool) (m : TunnelManager) (x y : A)
    → (let p : TunnelManager × A = if b then (m, x) else (m, y) in p.0) ≡ m
same_state true m x y = refl
same_state false m x y = refl

kept_if :
    {A : Type 0} (b : Bool) (r : ℕ) (m : TunnelManager) (x y : Outcome A) (item : CapturedRequest)
    → x.job ≡ none
    → y.job ≡ some (request item)
    → kept r (let p : TunnelManager × Outcome A = if b then (m, x) else (m, y) in p.1.job)
      ≡ (if b then [] else r ∷ [])
kept_if true r m x y item nothing something = ap (kept r) nothing
kept_if false r m x y item nothing something = ap (kept r) something

-- A public request counts itself and is captured, or does neither.
pub data IsCaptured (r : ℕ) (m : TunnelManager) : TunnelManager → List ℕ → Type 0 where
  without_reply : IsCaptured r m m []
  with_reply :
      IsCaptured r m
        (count_capture r m)
        (if ltb 200 ((count_capture r m).heap r).capture_count then [] else r ∷ [])

module _ (canonical : Bytes → Bytes) (json : HeaderJson) (gunzip : ℕ → Bytes → Option Bytes)
    (payload_text : CapturedRequest → Bytes) where
  forwarded-counts :
      (draw : Draw) (r : ℕ) (req : PublicRequest) (body : Bytes) (resp : ForwardResponse)
      (m : TunnelManager)
      → (forwarded canonical json gunzip payload_text draw r req body resp m).0 ≡ count_capture r m
  unfolding forwarded
  forwarded-counts draw r req body resp m =
      same_state (ltb 200 ((count_capture r m).heap r).capture_count) (count_capture r m) _ _

  forwarded-keeps :
      (draw : Draw) (r : ℕ) (req : PublicRequest) (body : Bytes) (resp : ForwardResponse)
      (m : TunnelManager)
      → kept r (forwarded canonical json gunzip payload_text draw r req body resp m).1.job
        ≡ (if ltb 200 ((count_capture r m).heap r).capture_count then [] else r ∷ [])
  unfolding forwarded
  forwarded-keeps draw r req body resp m =
      kept_if (ltb 200 ((count_capture r m).heap r).capture_count) r (count_capture r m) _ _ _ refl
        refl

  pub serve_public-IsCaptured :
      (draw : Draw) (r : ℕ) (req : PublicRequest) (body : Body) (reply : Option ForwardResponse)
      (m : TunnelManager)
      → let served = serve_public canonical json gunzip payload_text draw r req body reply m in
        IsCaptured r m served.0 (kept r served.1.job)
  unfolding serve_public
  serve_public-IsCaptured draw r req too_large reply m = without_reply
  serve_public-IsCaptured draw r req unreadable reply m = without_reply
  serve_public-IsCaptured draw r req (read body) none m = without_reply
  serve_public-IsCaptured draw r req (read body) (some resp) m =
      subst₂ (λ (n : TunnelManager) (sent : List ℕ). IsCaptured r m n sent)
        (sym (forwarded-counts draw r req body resp m))
        (sym (forwarded-keeps draw r req body resp m)) with_reply
