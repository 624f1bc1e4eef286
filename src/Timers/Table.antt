-- ===== src/Timers/Table.antt =====
-- Every operation on a timer table keeps it in order and does to the pending timers what it should.
use iso.Base.{ℕ, ◌+◌, ◌^◌, ◌≤◌, ◌<◌, ◌≡◌, ◌⊎◌, not, none, some, keep, length, ◌==◌}
use iso.Timers.{max_pending_timers, TimerTable, peek_deadline, pop_earliest, arm, clear}
use iso.Timers.Pending.{pending}
use iso.Timers.Refines.{fire_insert, IsPop, head_deadline}

pub data TimerOp (C V : Type 0) : Type 0 where
  arms : C → V → ℕ → TimerOp C V
  clears : ℕ → TimerOp C V
  pops peeks : TimerOp C V

module _ {C V : Type 0} where
  abbrev pub after : TimerOp C V → TimerTable C V → TimerTable C V
  after (arms c v at) t = (arm t c v at).1
  after (clears id) t = (clear t id).1
  after pops t = (pop_earliest t).1
  after peeks t = (peek_deadline t).1

  -- Fewer than 2 ^ 32 - 1 timers were registered before.
  abbrev pub HasIds : TimerTable C V → Type 0
  HasIds t = t.last_id + 1 < 2 ^ 32

  -- What an operation answers, and what it does to the pending timers.
  abbrev pub IsDone : TimerOp C V → TimerTable C V → Type 0
  IsDone (arms c v at) t =
      ((max_pending_timers ≤ length t.entries) × (arm t c v at ≡ (none, t)))
      ⊎ ((length t.entries < max_pending_timers)
          × ((arm t c v at).0 ≡ some (t.last_id + 1))
          × (pending (arm t c v at).1
              ≡ fire_insert
                  (
                    record { at = at; seq = t.next_seq; id = t.last_id + 1 },
                    record { callback = c; deadline = at; virtual_ms = v },
                  )
                  (pending t)))
  IsDone (clears id) t = pending (clear t id).1 ≡ keep (λ x. not ((x.0).id == id)) (pending t)
  IsDone pops t = IsPop (pending t) (pop_earliest t)
  IsDone peeks t =
      ((peek_deadline t).0 ≡ head_deadline (pending t)) × (pending (peek_deadline t).1 ≡ pending t)
