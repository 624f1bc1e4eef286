-- ===== src/Session/Routing.antt =====
-- A connection among its runs: the loop's turns, interleaved with the runs that send and end.
use iso.Base.{
  ℕ, ◌≡◌, ◌⊎◌, refl, sym, ap, ◌∙◌, subst, Option, none, some, List, [], ◌∷◌, map, Option-cases, inl,
  inr,
}
use iso.Reply.Types.{RunErrorPayload}
use iso.Errors.{internal_error, to_payload}
use iso.Link.{Inbound, connection_lost}
use iso.Session.ConnLink.{RunHandle, Conn, Outlet, route_of, finished}
use iso.Session.Start.{Start, start_run, register, concluded, duplicate_text}
use iso.Session.Starting.{
  unrouted-absent, finished-register, start_run-duplicate, start_run-fresh, taken_in,
}
use iso.Session.Tracing.{Live, noted, noting, pair_of, Distinct, Agrees, same-Agrees, refuse-runs}

-- The message is among those that were delivered.
abbrev pub Heard : RunHandle × Inbound → List (RunHandle × Inbound) → Type 0
Heard m [] = ⊥
Heard m (x ∷ xs) = (m ≡ x) ⊎ Heard m xs

-- The run has been told that its connection is gone.
abbrev pub Told : List (RunHandle × Inbound) → ℕ × RunHandle → Type 0
Told delivered run = Heard (run.1, connection_lost none) delivered

-- A start keeps the routes in step with the live runs.
module _ {E : Type 0} (out : Outlet) (run_id cap : ℕ) (start : E → E × Start) where
  abbrev noting_start : E × Live → (E × Live) × Start
  noting_start e = noting run_id (start e.0) e.1

  refused-Agrees :
      (live : Live) (conn : Conn) (handle : Option RunHandle) (error : RunErrorPayload)
      → route_of run_id conn.runs ≡ none
      → Agrees live conn
      → Agrees live (concluded out (register conn run_id cap handle) run_id (some error))
  unfolding concluded
  refused-Agrees live conn handle error absent a =
      same-Agrees
        (refuse-runs out (finished (register conn run_id cap handle) run_id) run_id error
          ∙ ap (λ c. c.runs) (finished-register conn run_id cap handle absent))
        a

  under_way-Agrees :
      (live : Live) (conn : Conn) (handle : RunHandle)
      → route_of run_id conn.runs ≡ none
      → Agrees live conn
      → Agrees ((run_id, handle) ∷ live) (register conn run_id cap (some handle))
  unfolding register
  under_way-Agrees live conn handle absent a =
      let same = unrouted-absent run_id conn.runs absent in
      record {
        same_runs = ap (◌∷◌ (run_id, handle)) (ap (map pair_of) same ∙ a.same_runs);
        distinct =
            subst (λ r. (route_of run_id r ≡ none) × Distinct r) (sym same) (absent, a.distinct);
      }

  settled-Agrees :
      (live : Live) (conn : Conn) (registered : Option RunHandle) (refusal : Option RunErrorPayload)
      → route_of run_id conn.runs ≡ none
      → (refusal ≡ none → (h : RunHandle) × (registered ≡ some h))
      → Agrees live conn
      → Agrees
          (noted run_id registered refusal live)
          (concluded out (register conn run_id cap registered) run_id refusal)
  unfolding concluded
  settled-Agrees live conn registered (some error) absent law a =
      refused-Agrees live conn registered error absent a
  settled-Agrees live conn (some handle) none absent law a =
      under_way-Agrees live conn handle absent a
  settled-Agrees live conn none none absent law a = let (h, impossible) = law refl in cc

  pub start_run-Agrees :
      (e : E × Live) (conn : Conn)
      → ((start e.0).1.refusal ≡ none → (h : RunHandle) × ((start e.0).1.registered ≡ some h))
      → Agrees e.1 conn
      → Agrees
          (start_run out e conn run_id cap noting_start).0.1
          (start_run out e conn run_id cap noting_start).1
  unfolding taken_in
  start_run-Agrees e conn law a =
      let Right = λ (r : (E × Live) × Conn). Agrees r.0.1 r.1 in
      elim (Option-cases (route_of run_id conn.runs)) [
        | inr (route, h) ↦
            subst Right (sym (start_run-duplicate out e conn run_id cap noting_start h)) (
              same-Agrees
                (refuse-runs out conn run_id (to_payload (internal_error (duplicate_text run_id))))
                a)
        | inl h ↦
            subst Right (sym (start_run-fresh out e conn run_id cap noting_start h))
              (settled-Agrees e.1 conn (start e.0).1.registered (start e.0).1.refusal h law a)
      ]
