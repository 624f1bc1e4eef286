-- ===== src/Warm/Reach.antt =====
-- The registry as a state machine: every operation is a step, and what the steps can reach.
use iso.Base.{ℕ, ◌<◌, Bool, Option}
use iso.Float.{F64}
use iso.Wire.Bytes.{Bytes}
use iso.Warm.State.{HeapCaps, RegistryInner, new_registry, Marks}
use iso.Warm.Acquire.{World, acquire, reserve_oneoff}
use iso.Warm.Release.{Finish, release_oneoff, release, dispose_prefix}
use iso.Warm.Invariant.{IsConsistent, new_registry-IsConsistent}
use iso.Warm.Acquiring.{acquire-IsAnswered, reserve_oneoff-IsConsistent}
use iso.Warm.Releasing.{
  IsRunning, release_oneoff-IsConsistent, release-IsConsistent, dispose_prefix-IsConsistent,
}

module _ ⦃fl : F64⦄ where
  open fl use {Carrier}

  -- One operation, whatever the surroundings answer. A run is released only while it is in flight.
  pub data Step : RegistryInner → RegistryInner → Type 0 where
    acquires :
        (marks : Marks) (r : RegistryInner) (id : Bytes) (caps : HeapCaps) (w : World)
        → Step r (acquire marks r id caps w).0
    reserves :
        (marks : Marks) (r : RegistryInner) (run_cap : ℕ) (w : World)
        → Step r (reserve_oneoff marks r run_cap w).0
    releases :
        (marks : Marks) (r : RegistryInner) (prefix_id : Bytes) (id : ℕ) (f : Finish)
        (wall cpu : Carrier)
        → IsRunning r prefix_id id
        → Step r (release marks r prefix_id id f wall cpu)
    releases_oneoff :
        (marks : Marks) (r : RegistryInner) (tainted : Bool) (wall cpu : Carrier)
        (reading : Option ℕ) (now pass_now : ℕ)
        → 0 < r.oneoff_running
        → Step r (release_oneoff marks r tainted wall cpu reading now pass_now)
    disposes : (r : RegistryInner) (prefix_id : Bytes) → Step r (dispose_prefix r prefix_id)

  pub data Reach (s : RegistryInner) : RegistryInner → Type 0 where
    here : Reach s s
    next : {t u : RegistryInner} → Reach s t → Step t u → Reach s u

  Step-IsConsistent : {r s : RegistryInner} → Step r s → IsConsistent r → IsConsistent s
  Step-IsConsistent (acquires marks r id caps w) k =
      (acquire-IsAnswered marks r id caps w k).consistent
  Step-IsConsistent (reserves marks r run_cap w) k = reserve_oneoff-IsConsistent marks r run_cap w k
  Step-IsConsistent (releases marks r prefix_id id f wall cpu h) k =
      release-IsConsistent marks r prefix_id id f wall cpu k h
  Step-IsConsistent (releases_oneoff marks r tainted wall cpu reading now pass_now h) k =
      release_oneoff-IsConsistent marks r tainted wall cpu reading now pass_now k h
  Step-IsConsistent (disposes r prefix_id) k = dispose_prefix-IsConsistent r prefix_id k

  Reach-IsConsistent : {s t : RegistryInner} → IsConsistent s → Reach s t → IsConsistent t
  Reach-IsConsistent k here = k
  Reach-IsConsistent k (next r st) = Step-IsConsistent st (Reach-IsConsistent k r)

  -- After any sequence of acquisitions, reservations, releases of runs in flight and disposals, the
  -- total counts the pooled instances and the one-off runs, the idle total counts the idle instances,
  -- no prefix and no id of a prefix stands twice, ids are below the next one, and every pooled
  -- instance is alive or busy.
  pub reachable-IsConsistent :
      (cores : ℕ) (r : RegistryInner) → Reach (new_registry cores) r → IsConsistent r
  reachable-IsConsistent cores r h = Reach-IsConsistent (new_registry-IsConsistent cores) h
