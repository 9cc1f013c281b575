-- ===== src/World/Attributed.antt =====
-- Whose the captured requests of the table are.
use vexlo.Common.{
  ℕ, Bytes, ◌≡◌, refl, sym, ap, ◌∙◌, inl, inr, ◌⊎◌, ◌*◌, Bool, true, false, ltb, length,
  if◌then◌else◌, List, [], ◌∷◌, ◌++◌, Option, none, some, some-injective,
}
use mathlib.Core.List.{Memᴰ}
use mathlib.Core.List.Memᴰ
use vexlo.Model.{CapturedRequest}
use vexlo.Storage.Rows.{request_columns}
use vexlo.Storage.Writer.{Job, request, replay}
use vexlo.Storage.Writer.Rows.{ComesFrom}
use vexlo.Headers.{HeaderJson}
use vexlo.Public.{Body, PublicRequest, Draw, Response, Outcome}
use vexlo.Public.Announced.{is_kept, IsSilent, IsAnnounced, finish_public-announces}
use vexlo.Exchange.{ForwardResponse}
use vexlo.Tunnels.{TunnelManager}
use vexlo.Replay.{ReplayPayload, or_original, replayed, forward_replay, finish_replay}
use vexlo.World.{
  World, Platform, registers, closes, claims, switches, revokes, admits, serves, begins_replay,
  ends_replay, perform, Move, operates, prunes, writes, stops, closes_queue, restarts, as_list,
  and_then, step, run, handed_in, or_nothing, handed,
}
use vexlo.World.Traced.{run-ComesFrom}

-- A job that one of the moves has handed over: a public request's, which was on its way through a
-- tunnel of that session, in the world that the moves before it have led to.
pub record IsServed (p : Platform) (moves : List Move) (w : World) (item : CapturedRequest)
    : Type 0 where
  pub before : List Move
  pub after : List Move
  pub gives_up : Bool
  pub draw : Draw
  pub tunnel : ℕ
  pub req : PublicRequest
  pub body : Body
  pub reply : Option ForwardResponse
  pub split : moves ≡ before ++ operates gives_up (serves draw tunnel req body reply) ∷ after
  pub at : World
  pub reached : run p before w ≡ some at
  pub handed_over :
      (perform p (serves draw tunnel req body reply) at.manager).1 ≡ some (request item)
  pub session : item.session_id ≡ (at.manager.heap tunnel).session.id

request-injective : (x y : CapturedRequest) → request x ≡ request y → x ≡ y
request-injective x y h = cc

as_list-some : (o : Option Job) (job : Job) → Memᴰ job (as_list o) → o ≡ some job
as_list-some none job at = absurd (Memᴰ.not-nil at)
as_list-some (some other) job at = ap Option.some (sym (Memᴰ.eq_of_singleton at))

no_job : {P : Type 0} (item : CapturedRequest) → ◌≡◌ {A = Option Job} none (some (request item)) → P
no_job item h = absurd (cc)

announced-session :
    (json : HeaderJson) (payload_text : CapturedRequest → Bytes) (session_id : Bytes)
    (req : PublicRequest) (item : CapturedRequest) (o : Outcome Response) (b : Bool)
    → (b ≡ false → IsSilent o)
    → (b ≡ true → IsAnnounced json payload_text session_id req o)
    → o.job ≡ some (request item)
    → item.session_id ≡ session_id
announced-session json payload_text session_id req item o false quiet told h =
    no_job item (sym (quiet refl).0 ∙ h)
announced-session json payload_text session_id req item o true quiet told h =
    let a = told refl in
    let same : item ≡ a.item =
      request-injective item a.item (some-injective _ _ (sym h ∙ a.queued)) in
    ap (λ (x : CapturedRequest). x.session_id) same ∙ a.item_session

serves-IsServed :
    (p : Platform) (gives_up : Bool) (draw : Draw) (r : ℕ) (req : PublicRequest) (body : Body)
    (reply : Option ForwardResponse) (rest : List Move) (w : World) (item : CapturedRequest)
    → Memᴰ (request item) (handed_in p (operates gives_up (serves draw r req body reply)) w)
    → IsServed p (operates gives_up (serves draw r req body reply) ∷ rest) w item
unfolding run perform
serves-IsServed p gives_up draw r req body reply rest w item at =
    let outcome =
      finish_public-announces p.canonical p.json p.gunzip p.payload_text draw r req body reply
        w.manager in
    let over = as_list-some _ (request item) at in
    record {
      before = [];
      after = rest;
      gives_up = gives_up;
      draw = draw;
      tunnel = r;
      req = req;
      body = body;
      reply = reply;
      split = refl;
      at = w;
      reached = refl;
      handed_over = over;
      session =
          announced-session p.json p.payload_text (w.manager.heap r).session.id req item _
            (is_kept r body reply w.manager) outcome.0 outcome.1 over;
    }

-- A job that is no captured request.
abbrev IsOther : Option Job → Type 0
IsOther none = Unit
IsOther (some (request item)) = ⊥
IsOther (some (replay y)) = Unit

other-absurd :
    {P : Type 0} (item : CapturedRequest) (o : Option Job)
    → IsOther o
    → Memᴰ (request item) (as_list o)
    → P
other-absurd item none other at = absurd (Memᴰ.not-nil at)
other-absurd item (some (request other_item)) other at = absurd other
other-absurd item (some (replay y)) other at =
    let same : request item ≡ replay y = Memᴰ.eq_of_singleton at in absurd (cc)

if-IsOther :
    {A : Type 0} (b : Bool) (x y : Outcome A)
    → IsOther x.job
    → IsOther y.job
    → IsOther (if b then x else y).job
if-IsOther true x y i j = i
if-IsOther false x y i j = j

replayed-IsOther :
    (p : Platform) (draw : Draw) (is_request : Bool) (original : CapturedRequest)
    (payload : ReplayPayload) (reply : Option ForwardResponse) (m : TunnelManager)
    → IsOther
        (forward_replay p.canonical p.json p.gunzip draw is_request original payload reply m).job
unfolding forward_replay replayed
replayed-IsOther p draw is_request original payload reply m =
    if-IsOther (ltb (16 * 1024) (length (or_original original.body payload.body))) _ _ tt
      (if-IsOther is_request _ _ (of_reply reply) tt)
  where
    of_reply :
        (reply : Option ForwardResponse)
        → IsOther
            (replayed p.canonical p.json p.gunzip draw original payload
              (or_original original.body payload.body)
              reply
              m).job
    of_reply none = tt
    of_reply (some resp) = tt

handed_in-IsServed :
    (p : Platform) (move : Move) (rest : List Move) (w : World) (item : CapturedRequest)
    → Memᴰ (request item) (handed_in p move w)
    → IsServed p (move ∷ rest) w item
unfolding perform finish_replay
handed_in-IsServed p (operates gives_up (serves draw r req body reply)) rest w item at =
    serves-IsServed p gives_up draw r req body reply rest w item at
handed_in-IsServed p (operates gives_up (ends_replay draw is_request r original payload reply)) rest
      w item at =
    other-absurd item _ (replayed-IsOther p draw is_request original payload reply w.manager) at
handed_in-IsServed p (operates gives_up (registers outages draws source_ip time reg)) rest w item
      at =
    absurd (Memᴰ.not-nil at)
handed_in-IsServed p (operates gives_up (closes down r time)) rest w item at =
    absurd (Memᴰ.not-nil at)
handed_in-IsServed p (operates gives_up (claims session_id raw time)) rest w item at =
    absurd (Memᴰ.not-nil at)
handed_in-IsServed p (operates gives_up (switches down req basic payload)) rest w item at =
    absurd (Memᴰ.not-nil at)
handed_in-IsServed p (operates gives_up (revokes down req basic time)) rest w item at =
    absurd (Memᴰ.not-nil at)
handed_in-IsServed p (operates gives_up (admits remote_addr r time)) rest w item at =
    absurd (Memᴰ.not-nil at)
handed_in-IsServed p (operates gives_up (begins_replay down req payload time)) rest w item at =
    absurd (Memᴰ.not-nil at)
handed_in-IsServed p (prunes down time) rest w item at = absurd (Memᴰ.not-nil at)
handed_in-IsServed p (writes choice) rest w item at = absurd (Memᴰ.not-nil at)
handed_in-IsServed p stops rest w item at = absurd (Memᴰ.not-nil at)
handed_in-IsServed p closes_queue rest w item at = absurd (Memᴰ.not-nil at)
handed_in-IsServed p (restarts down cfg time) rest w item at = absurd (Memᴰ.not-nil at)

after_move :
    (p : Platform) (move : Move) (rest : List Move) (w u : World) (item : CapturedRequest)
    → step p move w ≡ some u
    → IsServed p rest u item
    → IsServed p (move ∷ rest) w item
unfolding run
after_move p move rest w u item moved s = record {
  before = move ∷ s.before;
  after = s.after;
  gives_up = s.gives_up;
  draw = s.draw;
  tunnel = s.tunnel;
  req = s.req;
  body = s.body;
  reply = s.reply;
  split = ap (λ (moves : List Move). move ∷ moves) s.split;
  at = s.at;
  reached = ap (λ (o : Option World). and_then p o (λ v. run p s.before v)) moved ∙ s.reached;
  handed_over = s.handed_over;
  session = s.session;
}

handed-IsServed :
    (p : Platform) (moves : List Move) (w : World) (item : CapturedRequest)
    → Memᴰ (request item) (handed p moves w)
    → IsServed p moves w item
unfolding handed
handed-IsServed p [] w item at = absurd (Memᴰ.not-nil at)
handed-IsServed p (move ∷ rest) w item at =
    by_part (λ u. handed-IsServed p rest u item) (Memᴰ.append_cases (handed_in p move w) at)
  where
    later :
        ((u : World) → Memᴰ (request item) (handed p rest u) → IsServed p rest u item)
        → (o : Option World) → step p move w ≡ o
        → Memᴰ (request item) (or_nothing p o (λ v. handed p rest v))
        → IsServed p (move ∷ rest) w item
    later ih none moved at' = absurd (Memᴰ.not-nil at')
    later ih (some u) moved at' = after_move p move rest w u item moved (ih u at')

    by_part :
        ((u : World) → Memᴰ (request item) (handed p rest u) → IsServed p rest u item)
        → Memᴰ (request item) (handed_in p move w)
          ⊎ Memᴰ (request item) (or_nothing p (step p move w) (λ v. handed p rest v))
        → IsServed p (move ∷ rest) w item
    by_part ih (inl first) = handed_in-IsServed p move rest w item first
    by_part ih (inr at') = later ih (step p move w) refl at'

-- A row that was there, one that was on its way, or one of a tunnel's session.
abbrev pub IsAccounted : Platform → List Move → World → CapturedRequest → Type 0
IsAccounted p moves w row =
    Memᴰ row w.manager.storage.requests
    ⊎ ((item : CapturedRequest) × (row ≡ request_columns item)
        × (Memᴰ (request item) w.writer.queue ⊎ IsServed p moves w item))

-- In every interleaving and over any number of restarts, a captured request that the table holds was
-- in the table at the start, or was in the writer's queue at the start, or was handed to the writer by
-- a public request among these moves, as a request of the session of the tunnel that it went through,
-- in the state that the moves before it have led to.
pub run-IsAccounted :
    (p : Platform) (moves : List Move) (w v : World) (row : CapturedRequest)
    → run p moves w ≡ some v
    → Memᴰ row v.manager.storage.requests
    → IsAccounted p moves w row
run-IsAccounted p moves w v row h at = of_row (run-ComesFrom p moves w v row h at)
  where
    of_item :
        (item : CapturedRequest)
        → Memᴰ (request item) w.writer.queue ⊎ Memᴰ (request item) (handed p moves w)
        → Memᴰ (request item) w.writer.queue ⊎ IsServed p moves w item
    of_item item (inl queued) = inl queued
    of_item item (inr there) = inr (handed-IsServed p moves w item there)

    of_row :
        ComesFrom w.manager.storage (w.writer.queue ++ handed p moves w) row
        → IsAccounted p moves w row
    of_row (inl old) = inl old
    of_row (inr (item, there, same)) =
        inr (item, same, of_item item (Memᴰ.append_cases w.writer.queue there))
