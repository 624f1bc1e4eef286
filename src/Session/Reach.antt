-- ===== src/Session/Reach.antt =====
-- A connection's life after the handshake: the loop's turns, interleaved with runs that send, end and
-- are answered on other threads, and with whatever else changes the engine.
use iso.Base.{
  ℕ, ◌≡◌, refl, sym, ap, ◌∙◌, subst, Bool, true, false, Option, none, some, List, [], ◌∷◌, Result,
  ErrorKind, map, ◌==◌, Bool-cases, inl, inr, if◌then◌else◌, All,
}
use iso.Wire.Reader.{Allocator}
use iso.Frame.{TypedFrame}
use iso.Link.{Outbound}
use iso.Completion.{send_completion}
use iso.Session.ConnLink.{
  RunHandle, RunRoute, Conn, new_conn, Outlet, send, route_of, unrouted, finished, conn_link,
}
use iso.Session.Demux.{EngineOps, Session, on_read, demux_turn}
use iso.Session.Tracing.{
  Live, gone, traced, Lawful, pair_of, Distinct, same-Agrees, send-seen, send_completion-seen,
  runs_seen, delivered_seen,
}
use iso.Session.Routing.{Told}
use iso.Session.Turns.{IsRouted, at_work, over, on_read-IsRouted}

-- The handle of a live run.
abbrev pub live_of : ℕ → Live → Option RunHandle
live_of run_id [] = none
live_of run_id ((id, handle) ∷ rest) = if id == run_id then some handle else live_of run_id rest

route_of-unrouted :
    (id run_id : ℕ) (runs : List (ℕ × RunRoute))
    → route_of id runs ≡ none
    → route_of id (unrouted run_id runs) ≡ none
route_of-unrouted id run_id [] h = refl
route_of-unrouted id run_id ((j, route) ∷ rest) h = elim (Bool-cases (j == id)) [
  | inl q ↦ let impossible = simp q at h in cc
  | inr q ↦ elim (Bool-cases (j == run_id)) [
    | inl p ↦ rw p (simp q at h)
    | inr p ↦ rw (p, q) (route_of-unrouted id run_id rest (simp q at h))
  ]
]

Distinct-unrouted :
    (run_id : ℕ) (runs : List (ℕ × RunRoute)) → Distinct runs → Distinct (unrouted run_id runs)
Distinct-unrouted run_id [] d = tt
Distinct-unrouted run_id ((id, route) ∷ rest) d = elim (Bool-cases (id == run_id)) [
  | inl h ↦ rw h d.1
  | inr h ↦ rw h (route_of-unrouted id run_id rest d.0, Distinct-unrouted run_id rest d.1)
]

map-unrouted :
    (run_id : ℕ) (runs : List (ℕ × RunRoute))
    → map pair_of (unrouted run_id runs) ≡ gone run_id (map pair_of runs)
map-unrouted run_id [] = refl
map-unrouted run_id ((id, route) ∷ rest) = elim (Bool-cases (id == run_id)) [
  | inl h ↦ rw h refl
  | inr h ↦ rw h (ap (◌∷◌ (id, route.handle)) (map-unrouted run_id rest))
]

All-gone :
    (P : ℕ × RunHandle → Type 0) (run_id : ℕ) (live : Live) → All P live → All P (gone run_id live)
All-gone P run_id [] a = tt
All-gone P run_id ((id, handle) ∷ rest) a = elim (Bool-cases (id == run_id)) [
  | inl h ↦ rw h a.1
  | inr h ↦ rw h (a.0, All-gone P run_id rest a.1)
]

chosen : {X : Type 0} {b : Bool} (x y : X) → b ≡ true → (if b then x else y) ≡ x
chosen x y h = rw h refl

passed : {X : Type 0} {b : Bool} (x y : X) → b ≡ false → (if b then x else y) ≡ y
passed x y h = rw h refl

module _ ⦃alloc : Allocator⦄ {E A : Type 0} (ops : EngineOps E A) where
  -- A turn of the loop; a live run that ends, whose route goes first; a message or a completion on its
  -- way out; and a change of the engine's own.
  pub data Step : Session (traced ops) → Session (traced ops) → Type 0 where
    reads :
        (s : Session (traced ops)) (out : Outlet) (answers : A) (read : Result ErrorKind TypedFrame)
        → Step s (demux_turn (traced ops) out answers s read)
    finishes :
        (s : Session (traced ops)) (run_id : ℕ) (handle : RunHandle)
        → live_of run_id (s.engine).1 ≡ some handle
        → Step s (record s {
          conn = finished s.conn run_id;
          engine = ((s.engine).0, gone run_id (s.engine).1);
        })
    sends :
        (s : Session (traced ops)) (out : Outlet) (run_id : ℕ) (msg : Outbound)
        → Step s (record s { conn = (send out s.conn run_id msg).0 })
    answers_run :
        (s : Session (traced ops)) (out : Outlet) (run_id : ℕ) (msg : Outbound)
        → Step s (record s { conn = send_completion (conn_link out) s.conn run_id msg })
    works : (s : Session (traced ops)) (e : E) → Step s (record s { engine = (e, (s.engine).1) })

  pub data Reach (s : Session (traced ops)) : Session (traced ops) → Type 0 where
    here : Reach s s
    next : {t u : Session (traced ops)} → Reach s t → Step t u → Reach s u

  abbrev pub new_session : E → Session (traced ops)
  new_session e = record { engine = (e, []); conn = new_conn; is_open = true }

  new_session-IsRouted : (e : E) → IsRouted ops (new_session e)
  new_session-IsRouted e = at_work refl (record { same_runs = refl; distinct = tt })

  demux_turn-IsRouted :
      (law : Lawful ops) (s : Session (traced ops)) (out : Outlet) (answers : A)
      (read : Result ErrorKind TypedFrame)
      → IsRouted ops s
      → IsRouted ops (demux_turn (traced ops) out answers s read)
  unfolding demux_turn
  demux_turn-IsRouted law s out answers read (at_work h a) =
      subst (IsRouted ops) (sym (chosen (on_read (traced ops) out answers s read) s h))
        (on_read-IsRouted ops s h a law out answers read)
  demux_turn-IsRouted law s out answers read (over h none_left told) =
      subst (IsRouted ops) (sym (passed (on_read (traced ops) out answers s read) s h))
        (over h none_left told)

  -- A change of the frames alone.
  framed-IsRouted :
      (s : Session (traced ops)) (after : Conn)
      → after.runs ≡ (s.conn).runs
      → after.delivered ≡ (s.conn).delivered
      → IsRouted ops s
      → IsRouted ops (record s { conn = after })
  framed-IsRouted s after r d (at_work h a) = at_work h (same-Agrees r a)
  framed-IsRouted s after r d (over h none_left told) =
      over h (r ∙ none_left) (subst (λ x. All (Told x) (s.engine).1) (sym d) told)

  finished-IsRouted :
      (s : Session (traced ops)) (run_id : ℕ)
      → IsRouted ops s
      → IsRouted ops (record s {
        conn = finished s.conn run_id;
        engine = ((s.engine).0, gone run_id (s.engine).1);
      })
  unfolding finished
  finished-IsRouted s run_id (at_work h a) = at_work h (record {
    same_runs = map-unrouted run_id (s.conn).runs ∙ ap (gone run_id) a.same_runs;
    distinct = Distinct-unrouted run_id (s.conn).runs a.distinct;
  })
  finished-IsRouted s run_id (over h none_left told) =
      over h (ap (unrouted run_id) none_left)
        (All-gone (Told (s.conn).delivered) run_id (s.engine).1 told)

  worked-IsRouted :
      (s : Session (traced ops)) (e : E)
      → IsRouted ops s
      → IsRouted ops (record s { engine = (e, (s.engine).1) })
  worked-IsRouted s e (at_work h a) = at_work h a
  worked-IsRouted s e (over h none_left told) = over h none_left told

  Step-IsRouted :
      (law : Lawful ops) {s t : Session (traced ops)} → Step s t → IsRouted ops s → IsRouted ops t
  Step-IsRouted law (reads s out answers read) k = demux_turn-IsRouted law s out answers read k
  Step-IsRouted law (finishes s run_id handle live) k = finished-IsRouted s run_id k
  Step-IsRouted law (sends s out run_id msg) k =
      framed-IsRouted s (send out s.conn run_id msg).0 (send-seen runs_seen out s.conn run_id msg)
        (send-seen delivered_seen out s.conn run_id msg) k
  Step-IsRouted law (answers_run s out run_id msg) k =
      framed-IsRouted s (send_completion (conn_link out) s.conn run_id msg)
        (send_completion-seen runs_seen out s.conn run_id msg)
        (send_completion-seen delivered_seen out s.conn run_id msg) k
  Step-IsRouted law (works s e) k = worked-IsRouted s e k

  Reach-IsRouted :
      (law : Lawful ops) {s t : Session (traced ops)} → IsRouted ops s → Reach s t → IsRouted ops t
  Reach-IsRouted law k here = k
  Reach-IsRouted law k (next r st) = Step-IsRouted law st (Reach-IsRouted law k r)

  -- However the loop's turns interleave with runs that send, end and are answered, over an engine that
  -- registers every run it does not refuse: while the loop is at work the routes are exactly the live
  -- runs, each under an id of its own, and once it is over there are no routes and each run that is
  -- still live has been told that its connection is gone.
  pub reachable-IsRouted :
      (law : Lawful ops) (e : E) (s : Session (traced ops))
      → Reach (new_session e) s
      → IsRouted ops s
  reachable-IsRouted law e s h = Reach-IsRouted law (new_session-IsRouted e) h
