-- ===== src/Timers.antt =====
-- crates/core/src/v8/timers.rs: a run's pending timers. Instants are numbers; the callback with its
-- arguments and the clock reading that goes with it are opaque. The heap's order is a list from the
-- earliest on, what `BinaryHeap` pops in turn.
pub mod Pending
pub mod Refines
pub mod Table
use iso.Base.{
  ℕ, zero, suc, ◌+◌, ◌^◌, ◌%◌, ◌*◌, max, Bool, true, false, not, ◌&&◌, ◌||◌, Option, none, some,
  List, [], ◌∷◌, length, keep, ltb, leb, ◌==◌, if◌then◌else◌,
}

abbrev pub max_pending_timers : ℕ
max_pending_timers = 10_000

-- A heap item: the deadline, the order of creation and the id.
pub record Due : Type 0 where
  pub at : ℕ
  pub seq : ℕ
  pub id : ℕ

-- The order of the heap's tuples.
abbrev pub due_before : Due → Due → Bool
due_before a b =
    ltb a.at b.at || ((a.at == b.at) && (ltb a.seq b.seq || ((a.seq == b.seq) && ltb a.id b.id)))

-- `push`, behind the items that are not later.
abbrev pub push : Due → List Due → List Due
push d [] = d ∷ []
push d (e ∷ order) = if due_before d e then d ∷ e ∷ order else e ∷ push d order

abbrev pub first_deadline : List Due → Option ℕ
first_deadline [] = none
first_deadline (d ∷ order) = some d.at

-- `wrapping_add(1).max(1)`.
abbrev pub next_id : ℕ → ℕ
next_id last_id = max ((last_id + 1) % 2 ^ 32) 1

pub record TimerEntry (C V : Type 0) : Type 0 where
  pub callback : C
  pub deadline : ℕ
  pub virtual_ms : V

pub record TimerTable (C V : Type 0) : Type 0 where
  pub last_id : ℕ
  pub next_seq : ℕ
  pub entries : List (ℕ × TimerEntry C V)
  pub order : List Due

module _ {C V : Type 0} where
  -- The map of the entries by their ids.
  abbrev pub get : ℕ → List (ℕ × TimerEntry C V) → Option (TimerEntry C V)
  get id [] = none
  get id ((k, e) ∷ entries) = if k == id then some e else get id entries

  abbrev pub delete : ℕ → List (ℕ × TimerEntry C V) → List (ℕ × TimerEntry C V)
  delete id = keep (λ e. not (e.0 == id))

  abbrev pub set : ℕ → TimerEntry C V → List (ℕ × TimerEntry C V) → List (ℕ × TimerEntry C V)
  set id e entries = (id, e) ∷ delete id entries

  abbrev pub new_table : TimerTable C V
  new_table = record { last_id = 0; next_seq = 0; entries = []; order = [] }

  -- `is_some_and(|e| e.deadline == at)`.
  abbrev pub live : Option (TimerEntry C V) → ℕ → Option (TimerEntry C V)
  live none at = none
  live (some e) at = if e.deadline == at then some e else none

  abbrev pub live_entry : List (ℕ × TimerEntry C V) → Due → Option (TimerEntry C V)
  live_entry entries d = live (get d.id entries) d.at

  abbrev pub if_live : {A : Type 0} → Option (TimerEntry C V) → A → A → A
  if_live none x y = y
  if_live (some e) x y = x

  -- The heap from the first item on that is not cleared.
  abbrev pub skip_cleared : List (ℕ × TimerEntry C V) → List Due → List Due
  skip_cleared entries [] = []
  skip_cleared entries (d ∷ order) =
      if_live (live_entry entries d) (d ∷ order) (skip_cleared entries order)

  unfoldable pub peek_deadline : TimerTable C V → Option ℕ × TimerTable C V
  peek_deadline t =
      let order = skip_cleared t.entries t.order in
      (first_deadline order, record t { order = order })

  -- The loop of `pop_earliest`.
  unfoldable pub pop_from : TimerTable C V → List Due → Option (TimerEntry C V) × TimerTable C V
  pop_from t [] = (none, record t { order = [] })
  pop_from t (d ∷ order) =
      if_live (live_entry t.entries d)
        (get d.id t.entries, record t { entries = delete d.id t.entries; order = order })
        (pop_from t order)

  unfoldable pub pop_earliest : TimerTable C V → Option (TimerEntry C V) × TimerTable C V
  unfolding pop_from
  pop_earliest t = pop_from t t.order

  -- The registration by `setTimeout`; `none` is the error for too many timers.
  unfoldable pub arm : TimerTable C V → C → V → ℕ → Option ℕ × TimerTable C V
  arm t callback virtual_ms deadline =
      let id = next_id t.last_id in
      if leb max_pending_timers (length t.entries) then (none, t) else (
        some id,
        record {
          last_id = id;
          next_seq = t.next_seq + 1;
          entries =
              set id (record { callback = callback; deadline = deadline; virtual_ms = virtual_ms })
                t.entries;
          order = push (record { at = deadline; seq = t.next_seq; id = id }) t.order;
        },
      )

  abbrev pub is_some : Option (TimerEntry C V) → Bool
  is_some none = false
  is_some (some e) = true

  -- `clearTimeout` of a valid id, and whether it removed one.
  unfoldable pub clear : TimerTable C V → ℕ → Bool × TimerTable C V
  clear t id = (is_some (get id t.entries), record t { entries = delete id t.entries })
