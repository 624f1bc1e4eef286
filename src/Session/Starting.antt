-- ===== src/Session/Starting.antt =====
-- How a start leaves the connection: refused and answered, or routed.
use iso.Base.{
  ℕ, ◌≡◌, refl, sym, ap, ◌∙◌, subst, Option, none, some, List, [], ◌∷◌, length, ◌==◌, Option-cases,
  Bool-cases, inl, inr, ==_refl,
}
use iso.Errors.{internal_error, to_payload}
use iso.Completion.{bare}
use iso.Link.{Outbound}
use iso.Reply.Types.{RunErrorPayload, RunCompletion}
use iso.Session.ConnLink.{RunHandle, RunRoute, Conn, Outlet, route_of, unrouted, finished}
use iso.Session.Start.{Start, start_run, register, concluded, refuse, duplicate_text}
use iso.Session.Answers.{IsAnswered, send_completion-IsAnswered}

-- An id that is not routed is taken out in vain.
pub unrouted-absent :
    (run_id : ℕ) (runs : List (ℕ × RunRoute))
    → route_of run_id runs ≡ none
    → unrouted run_id runs ≡ runs
unrouted-absent run_id [] h = refl
unrouted-absent run_id ((id, route) ∷ rest) h = elim (Bool-cases (id == run_id)) [
  | inl q ↦ let impossible = simp q at h in cc
  | inr q ↦ rw q (ap (◌∷◌ (id, route)) (unrouted-absent run_id rest (simp q at h)))
]

-- What was registered for a run that is refused in the end is taken back.
pub finished-register :
    (conn : Conn) (run_id cap : ℕ) (handle : Option ℕ)
    → route_of run_id conn.runs ≡ none
    → finished (register conn run_id cap handle) run_id ≡ conn
unfolding finished register
finished-register conn run_id cap none h =
    ap (λ r. record conn { runs = r }) (unrouted-absent run_id conn.runs h)
finished-register conn run_id cap (some handle) h =
    rw (==_refl run_id)
      (let gone = unrouted-absent run_id conn.runs h in ap (λ r. record conn { runs = r }) gone)

-- The completion of a run that was refused.
abbrev pub refusal : RunErrorPayload → Outbound
refusal error = Outbound.result (RunCompletion.failed (bare error))

refuse-IsAnswered :
    (out : Outlet) (conn : Conn) (run_id : ℕ) (error : RunErrorPayload)
    → out.refuses (length conn.frames) ≡ none
    → IsAnswered out conn run_id (refusal error) (refuse out conn run_id error)
unfolding refuse
refuse-IsAnswered out conn run_id error free =
    send_completion-IsAnswered out conn run_id (Outbound.result (RunCompletion.failed (bare error)))
      free tt

-- A start: of an id in flight, refused by the engine, or under way.
pub data IsStarted {E : Type 0} (out : Outlet) (engine : E) (conn : Conn) (run_id cap : ℕ)
    (start : E → E × Start) (after : E × Conn) : Type 0 where
  duplicate :
      (route : RunRoute)
      → route_of run_id conn.runs ≡ some route
      → after.0 ≡ engine
      → IsAnswered out conn run_id
          (refusal (to_payload (internal_error (duplicate_text run_id))))
          after.1
      → IsStarted out engine conn run_id cap start after
  refused :
      (error : RunErrorPayload)
      → route_of run_id conn.runs ≡ none
      → (start engine).1.refusal ≡ some error
      → after.0 ≡ (start engine).0
      → IsAnswered out conn run_id (refusal error) after.1
      → IsStarted out engine conn run_id cap start after
  under_way :
      (handle : RunHandle)
      → route_of run_id conn.runs ≡ none
      → (start engine).1.refusal ≡ none
      → (start engine).1.registered ≡ some handle
      → after ≡ (
        (start engine).0,
        record conn { runs = (run_id, record { handle = handle; frame_cap = cap }) ∷ conn.runs },
      )
      → IsStarted out engine conn run_id cap start after

-- A registered run is routed to its handle under its allowance, before the routes there were.
register-fresh :
    (conn : Conn) (run_id cap : ℕ) (handle : RunHandle)
    → route_of run_id conn.runs ≡ none
    → register conn run_id cap (some handle)
      ≡ record conn { runs = (run_id, record { handle = handle; frame_cap = cap }) ∷ conn.runs }
unfolding register
register-fresh conn run_id cap handle absent =
    ap (λ r. record conn { runs = (run_id, record { handle = handle; frame_cap = cap }) ∷ r })
      (unrouted-absent run_id conn.runs absent)

concluded-some :
    (out : Outlet) (conn : Conn) (run_id cap : ℕ) (s : Start) (error : RunErrorPayload)
    → route_of run_id conn.runs ≡ none
    → out.refuses (length conn.frames) ≡ none
    → s.refusal ≡ some error
    → IsAnswered out conn run_id
        (refusal error)
        (concluded out (register conn run_id cap s.registered) run_id s.refusal)
unfolding concluded
concluded-some out conn run_id cap s error absent free h = rw h (
    subst (λ c. IsAnswered out conn run_id (refusal error) (refuse out c run_id error))
      (sym (finished-register conn run_id cap s.registered absent))
      (refuse-IsAnswered out conn run_id error free))

module _ {E : Type 0} (out : Outlet) (engine : E) (conn : Conn) (run_id cap : ℕ)
    (start : E → E × Start) where
  unfoldable pub taken_in : Conn
  taken_in =
      concluded out (register conn run_id cap (start engine).1.registered) run_id
        (start engine).1.refusal

  pub start_run-duplicate :
      {route : RunRoute}
      → route_of run_id conn.runs ≡ some route
      → start_run out engine conn run_id cap start
        ≡ (engine, refuse out conn run_id (to_payload (internal_error (duplicate_text run_id))))
  unfolding start_run
  start_run-duplicate h = rw h refl

  pub start_run-fresh :
      route_of run_id conn.runs ≡ none
      → start_run out engine conn run_id cap start ≡ ((start engine).0, taken_in)
  unfolding start_run taken_in
  start_run-fresh h = rw h refl

  fresh-IsStarted :
      out.refuses (length conn.frames) ≡ none
      → ((start engine).1.refusal ≡ none → (h : RunHandle) × ((start engine).1.registered ≡ some h))
      → route_of run_id conn.runs ≡ none
      → IsStarted out engine conn run_id cap start ((start engine).0, taken_in)
  unfolding taken_in concluded
  fresh-IsStarted free law h = elim (Option-cases (start engine).1.refusal) [
    | inl q ↦
        let (handle, r) = law q in
        under_way handle h q r (
          ap (λ c. ((start engine).0, c))
            (ap (λ r. concluded out (register conn run_id cap (start engine).1.registered) run_id r)
                q
              ∙ ap (register conn run_id cap) r
              ∙ register-fresh conn run_id cap handle h))
    | inr (error, q) ↦
        refused error h q refl (concluded-some out conn run_id cap (start engine).1 error h free q)
  ]

-- While the outbox takes frames, and the engine registers what it does not refuse, a start leaves the
-- connection in one of three ways. A run whose id is in flight is answered with that error without the
-- engine being asked, and the routes stay. A run that the engine refuses is answered with its error, and
-- no route of it is left. Any other is routed to the handle that the engine registered, under its frame
-- allowance, and nothing else changes.
pub start_run-IsStarted :
    {E : Type 0} (out : Outlet) (engine : E) (conn : Conn) (run_id cap : ℕ) (start : E → E × Start)
    → out.refuses (length conn.frames) ≡ none
    → ((start engine).1.refusal ≡ none → (h : RunHandle) × ((start engine).1.registered ≡ some h))
    → IsStarted out engine conn run_id cap start (start_run out engine conn run_id cap start)
start_run-IsStarted out engine conn run_id cap start free law =
    let error = to_payload (internal_error (duplicate_text run_id)) in
    elim (Option-cases (route_of run_id conn.runs)) [
      | inr (route, h) ↦
          subst (IsStarted out engine conn run_id cap start)
            (sym (start_run-duplicate out engine conn run_id cap start h))
            (duplicate route h refl (refuse-IsAnswered out conn run_id error free))
      | inl h ↦
          subst (IsStarted out engine conn run_id cap start)
            (sym (start_run-fresh out engine conn run_id cap start h))
            (fresh-IsStarted out engine conn run_id cap start free law h)
    ]
