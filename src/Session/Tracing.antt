-- ===== src/Session/Tracing.antt =====
-- The runs that an engine has started and not finished, kept beside its state: what the routes of a
-- connection should agree with.
use iso.Base.{
  ℕ, ◌+◌, ◌≡◌, refl, sym, ap, ◌∙◌, subst, Option, none, some, List, [], ◌∷◌, ok, err, length, map,
  ◌==◌, Option-cases, inl, inr, if◌then◌else◌, Result,
}
use iso.Wire.Bytes.{Bytes}
use iso.Types.{RunRequest, PrefixRunRequest}
use iso.Reply.Types.{RunErrorPayload, RunCompletion}
use iso.Link.{Outbound, Inbound, LinkError, too_large, closed}
use iso.Completion.{bare, substitute, send_completion, after_send}
use iso.Frame.Kinds.{RustToTsMessageType}
use iso.Session.ConnLink.{
  RunHandle, RunRoute, Conn, Outlet, frame_for, oversize, admit_frame, checked_frame, send_frame,
  send, route_of, conn_link,
}
use iso.Session.Start.{Start, refuse}
use iso.Session.Demux.{EngineOps}

-- The live runs, by wire id.
abbrev pub Live : Type 0
Live = List (ℕ × RunHandle)

abbrev pub noted : ℕ → Option RunHandle → Option RunErrorPayload → Live → Live
noted run_id registered (some error) live = live
noted run_id none none live = live
noted run_id (some handle) none live = (run_id, handle) ∷ live

abbrev pub gone : ℕ → Live → Live
gone run_id [] = []
gone run_id ((id, handle) ∷ rest) = if id == run_id then rest else (id, handle) ∷ gone run_id rest

abbrev pub noting : {E : Type 0} → ℕ → E × Start → Live → (E × Live) × Start
noting run_id (engine, s) live = ((engine, noted run_id s.registered s.refusal live), s)

-- An engine that notes what it starts.
abbrev pub traced : {E A : Type 0} → EngineOps E A → EngineOps (E × Live) A
traced ops = record {
  run = λ answers e req. noting req.run_id (ops.run answers e.0 req) e.1;
  prefix_run = λ answers e req. noting req.run_id (ops.prefix_run answers e.0 req) e.1;
  prepare = λ e code filename globals imports.
      let (engine, prefix_id) = ops.prepare e.0 code filename globals imports in
      ((engine, e.1), prefix_id);
  dispose_prefix = λ e prefix_id. (ops.dispose_prefix e.0 prefix_id, e.1);
  stats = λ answers e. ops.stats answers e.0;
}

-- What a session relies on: a run that is not refused has been registered.
pub record Lawful {E A : Type 0} (ops : EngineOps E A) : Type 0 where
  pub run_registers :
      (answers : A) (e : E) (req : RunRequest)
      → (ops.run answers e req).1.refusal ≡ none
      → (h : RunHandle) × ((ops.run answers e req).1.registered ≡ some h)
  pub prefix_run_registers :
      (answers : A) (e : E) (req : PrefixRunRequest)
      → (ops.prefix_run answers e req).1.refusal ≡ none
      → (h : RunHandle) × ((ops.prefix_run answers e req).1.registered ≡ some h)

abbrev pub pair_of : ℕ × RunRoute → ℕ × RunHandle
pair_of r = (r.0, (r.1).handle)

abbrev pub Distinct : List (ℕ × RunRoute) → Type 0
Distinct [] = Unit
Distinct ((id, route) ∷ rest) = (route_of id rest ≡ none) × Distinct rest

-- The routes are those of the live runs, each under an id of its own.
pub record Agrees (live : Live) (conn : Conn) : Type 0 where
  pub same_runs : map pair_of conn.runs ≡ live
  pub distinct : Distinct conn.runs

-- What does not touch the routes keeps that.
pub same-Agrees :
    {live : Live} {conn after : Conn}
    → after.runs ≡ conn.runs
    → Agrees live conn
    → Agrees live after
same-Agrees h a = record {
  same_runs = ap (map pair_of) h ∙ a.same_runs;
  distinct = subst Distinct (sym h) a.distinct;
}

-- What is sent changes the frames alone: any view of the routes and of what was delivered is kept.
module _ {X : Type 0} (view : List (ℕ × RunRoute) → List (RunHandle × Inbound) → X) where
  abbrev pub seen : Conn → X
  seen conn = view conn.runs conn.delivered

  pub send_frame-seen :
      (out : Outlet) (conn : Conn) (t : RustToTsMessageType) (head tail : Bytes)
      → seen (send_frame out conn t head tail).0 ≡ seen conn
  unfolding send_frame checked_frame admit_frame
  send_frame-seen out conn t head tail =
      elim (Option-cases (oversize (length head + length tail))) [
        | inr (detail, h) ↦ rw h refl
        | inl h ↦ elim (Option-cases (out.refuses (length conn.frames))) [
          | inr (reason, q) ↦ rw (h, q) refl
          | inl q ↦ rw (h, q) refl
        ]
      ]

  pub send-seen :
      (out : Outlet) (conn : Conn) (run_id : ℕ) (msg : Outbound)
      → seen (send out conn run_id msg).0 ≡ seen conn
  unfolding send
  send-seen out conn run_id msg =
      let f = frame_for (out.slot_allowance (length conn.frames)) run_id msg in
      send_frame-seen out conn f.0 f.1 f.2

  after_send-seen :
      (out : Outlet) (run_id : ℕ) (msg : Outbound) (r : Conn × Result LinkError (Unit {0}))
      → seen (after_send (conn_link out) run_id msg r).0 ≡ seen r.0
  unfolding after_send conn_link
  after_send-seen out run_id msg (conn, ok sent) = refl
  after_send-seen out run_id msg (conn, err (closed d)) = refl
  after_send-seen out run_id msg (conn, err (too_large d)) =
      send-seen out conn run_id (substitute msg d)

  pub send_completion-seen :
      (out : Outlet) (conn : Conn) (run_id : ℕ) (msg : Outbound)
      → seen (send_completion (conn_link out) conn run_id msg) ≡ seen conn
  unfolding send_completion conn_link
  send_completion-seen out conn run_id msg =
      after_send-seen out run_id msg (send out conn run_id msg) ∙ send-seen out conn run_id msg

abbrev pub runs_seen : List (ℕ × RunRoute) → List (RunHandle × Inbound) → List (ℕ × RunRoute)
runs_seen runs delivered = runs

abbrev pub delivered_seen :
    List (ℕ × RunRoute) → List (RunHandle × Inbound) → List (RunHandle × Inbound)
delivered_seen runs delivered = delivered

pub send_frame-runs :
    (out : Outlet) (conn : Conn) (t : RustToTsMessageType) (head tail : Bytes)
    → (send_frame out conn t head tail).0.runs ≡ conn.runs
send_frame-runs out conn t head tail = send_frame-seen runs_seen out conn t head tail

pub refuse-runs :
    (out : Outlet) (conn : Conn) (run_id : ℕ) (error : RunErrorPayload)
    → (refuse out conn run_id error).runs ≡ conn.runs
unfolding refuse
refuse-runs out conn run_id error =
    send_completion-seen runs_seen out conn run_id
      (Outbound.result (RunCompletion.failed (bare error)))
