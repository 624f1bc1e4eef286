-- ===== src/Engine/Reach.antt =====
-- What an engine may go through, and the one-off slots on the way.
use iso.Base.{ℕ, refl, ◌∙◌, Option, List}
use iso.Float.{F64}
use iso.Wire.Bytes.{Bytes}
use iso.Types.{HostGlobalDef, ImportBinding, RunRequest, PrefixRunRequest}
use iso.Completion.{CallOutcome}
use iso.Warm.State.{Marks, new_registry}
use iso.Engine.{Answers, Engine, new_engine, prepare, dispose, run, prefix_run}
use iso.Engine.Ending.{conclude}
use iso.Engine.Registry.{dispose_prefix-oneoff}
use iso.Engine.Slots.{IsHeld, run-IsHeld, on_entry-IsHeld, conclude-IsHeld}

module _ ⦃fl : F64⦄ where
  open fl use {Carrier}

  -- What an engine does, whatever its surroundings answer; a run ends with any outcome, once.
  pub data Step (marks : Marks) (from_bits : ℕ → Carrier) : Engine → Engine → Type 0 where
    prepares :
        (e : Engine) (code : Bytes) (filename : Option Bytes) (globals : List HostGlobalDef)
        (imports : List ImportBinding)
        → Step marks from_bits e (prepare e code filename globals imports).0
    disposes : (e : Engine) (prefix_id : Bytes) → Step marks from_bits e (dispose e prefix_id)
    runs :
        (a : Answers) (e : Engine) (req : RunRequest) → Step marks from_bits e (run marks a e req).0
    prefix_runs :
        (a : Answers) (e : Engine) (req : PrefixRunRequest)
        → Step marks from_bits e (prefix_run marks a e req).0
    concludes :
        (a : Answers) (e : Engine) (token : ℕ) (o : CallOutcome)
        → Step marks from_bits e (conclude marks from_bits a e token o)

  pub data Reach (marks : Marks) (from_bits : ℕ → Carrier) (s : Engine) : Engine → Type 0 where
    here : Reach marks from_bits s s
    next :
        {t u : Engine}
        → Reach marks from_bits s t
        → Step marks from_bits t u
        → Reach marks from_bits s u

  Step-IsHeld :
      (marks : Marks) (from_bits : ℕ → Carrier) {e f : Engine}
      → Step marks from_bits e f
      → IsHeld e
      → IsHeld f
  unfolding prepare dispose prefix_run
  Step-IsHeld marks from_bits (prepares e code filename globals imports) k = k
  Step-IsHeld marks from_bits (disposes e prefix_id) k = dispose_prefix-oneoff e.warm prefix_id ∙ k
  Step-IsHeld marks from_bits (runs a e req) k = run-IsHeld marks a e req k
  Step-IsHeld marks from_bits (prefix_runs a e req) k = on_entry-IsHeld marks a e req _ k
  Step-IsHeld marks from_bits (concludes a e token o) k =
      conclude-IsHeld marks from_bits a e token o k

  Reach-IsHeld :
      (marks : Marks) (from_bits : ℕ → Carrier) {e f : Engine}
      → IsHeld e
      → Reach marks from_bits e f
      → IsHeld f
  Reach-IsHeld marks from_bits k here = k
  Reach-IsHeld marks from_bits k (next r st) =
      Step-IsHeld marks from_bits st (Reach-IsHeld marks from_bits k r)

  new_engine-IsHeld : (cores : ℕ) → IsHeld (new_engine cores)
  unfolding new_engine new_registry
  new_engine-IsHeld cores = refl

  -- Whatever an engine is asked and is answered, and in whatever order its runs end: the one-off slots
  -- that the registry counts are those of the runs in flight that hold one.
  pub reachable-IsHeld :
      (marks : Marks) (from_bits : ℕ → Carrier) (cores : ℕ) (e : Engine)
      → Reach marks from_bits (new_engine cores) e
      → IsHeld e
  reachable-IsHeld marks from_bits cores e h =
      Reach-IsHeld marks from_bits (new_engine-IsHeld cores) h
