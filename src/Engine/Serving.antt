-- ===== src/Engine/Serving.antt =====
-- How the engine answers a start, and that it is what sessions rely on.
use iso.Base.{
  ok, err, ◌⊎◌, Result, ℕ, ◌≡◌, refl, sym, subst, Bool, true, false, Option, none, some, ◌∷◌,
  Bool-cases, inl, inr,
}
use iso.Float.{F64}
use iso.Wire.Bytes.{Bytes}
use iso.Types.{PrefixRunRequest}
use iso.Reply.Types.{RunErrorPayload}
use iso.Prefix.{
  validate_global_rebinds, validate_import_rebinds, PrefixData, PrefixEntry, ready, broken,
  RebindError,
}
use iso.Warm.Map.{lookup}
use iso.Warm.State.{HeapCaps, RegistryInner, Marks}
use iso.Warm.Acquire.{Acquired, attached, cold, refused, spawn_failed, panicked, acquire}
use iso.Warm.Invariant.{IsConsistent}
use iso.Warm.Attaching.{IsAnswer}
use iso.Warm.Acquiring.{acquire-IsAnswered}
use iso.Session.ConnLink.{RunHandle}
use iso.Session.Start.{Start}
use iso.Session.Tracing.{Lawful}
use iso.Engine.{
  first_error, prefix_disposed, prefix_broken, binding, denied, pooled, unpooled, Answers, Engine,
  launched, unstarted, on_reserved, run, on_acquired, on_checked, on_entry, prefix_run, caps_of,
  violation, rebind_error, engine_ops,
}

-- Both checks pass, or the first that fails gives the error.
abbrev pub Found :
    Result RebindError (Unit {0}) → Result RebindError (Unit {0}) → Option RebindError → Type 0
Found first second none = (first ≡ ok tt) × (second ≡ ok tt)
Found first second (some error) = (first ≡ err error) ⊎ (first ≡ ok tt) × (second ≡ err error)

first_error-Found :
    (first second : Result RebindError (Unit {0})) → Found first second (first_error first second)
first_error-Found (err e) second = inl refl
first_error-Found (ok passed) (err e) = inr (refl, refl)
first_error-Found (ok passed) (ok also) = (refl, refl)

module _ ⦃fl : F64⦄ where
  abbrev under_way : Engine → Start
  under_way e = record { registered = some e.next_token; refusal = none }

  -- Where a run that may be served goes: to a live instance of its prefix with its own heap limits,
  -- to an instance of its own, or nowhere.
  pub data IsPlaced (e : Engine) (prefix_id : Bytes) (caps : HeapCaps) (after : Engine × Start)
      : Type 0 where
    on_pooled :
        (id : ℕ)
        → after.1 ≡ under_way e
        → (after.0).jobs ≡ (e.next_token, pooled prefix_id id) ∷ e.jobs
        → IsAnswer caps prefix_id ((after.0).warm).prefixes (attached id)
        → IsPlaced e prefix_id caps after
    on_its_own :
        after.1 ≡ under_way e
        → (after.0).jobs ≡ (e.next_token, unpooled prefix_id) ∷ e.jobs
        → IsPlaced e prefix_id caps after
    turned_away :
        (refusal : RunErrorPayload)
        → after.1 ≡ record { registered = none; refusal = some refusal }
        → (after.0).jobs ≡ e.jobs
        → IsPlaced e prefix_id caps after

  -- What the two checks of the rebinds find, the globals first.
  abbrev pub Checked : PrefixRunRequest → PrefixData → Option RebindError → Type 0
  Checked req stored =
      Found (validate_global_rebinds req.globals stored.declared_globals stored.globals)
        (validate_import_rebinds req.import_rebinds stored.declared_imports)

  -- How a prefix run ends up.
  pub data IsServed (a : Answers) (e : Engine) (req : PrefixRunRequest) (after : Engine × Start)
      : Type 0 where
    unknown :
        lookup req.prefix_id e.prefixes ≡ none
        → after ≡ (e, denied (prefix_disposed req.prefix_id))
        → IsServed a e req after
    broken_before :
        (cause : RunErrorPayload)
        → lookup req.prefix_id e.prefixes ≡ some (broken cause)
        → after ≡ (e, denied (prefix_broken req.prefix_id cause))
        → IsServed a e req after
    misbound :
        (stored : PrefixData) (error : RebindError)
        → lookup req.prefix_id e.prefixes ≡ some (ready stored)
        → Checked req stored (some error)
        → after ≡ (e, denied (binding (rebind_error a.rebind_text error)))
        → IsServed a e req after
    placed :
        (stored : PrefixData)
        → lookup req.prefix_id e.prefixes ≡ some (ready stored)
        → Checked req stored none
        → (after.0).prefixes ≡ e.prefixes
        → IsConsistent (after.0).warm
        → IsPlaced e req.prefix_id (caps_of req.limits) after
        → IsServed a e req after

  on_acquired-IsPlaced :
      (a : Answers) (e : Engine) (prefix_id : Bytes) (caps : HeapCaps) (r : RegistryInner)
      (x : Acquired)
      → IsAnswer caps prefix_id r.prefixes x
      → IsPlaced e prefix_id caps (on_acquired a e prefix_id (r, x))
  unfolding on_acquired launched
  on_acquired-IsPlaced a e prefix_id caps r (attached id) w = on_pooled id refl refl w
  on_acquired-IsPlaced a e prefix_id caps r cold w = on_its_own refl refl
  on_acquired-IsPlaced a e prefix_id caps r refused w = turned_away _ refl refl
  on_acquired-IsPlaced a e prefix_id caps r spawn_failed w = turned_away _ refl refl
  on_acquired-IsPlaced a e prefix_id caps r panicked w = absurd w

  on_acquired-keeps :
      (a : Answers) (e : Engine) (prefix_id : Bytes) (r : RegistryInner) (x : Acquired)
      → ((on_acquired a e prefix_id (r, x)).0.prefixes ≡ e.prefixes)
        × ((on_acquired a e prefix_id (r, x)).0.warm ≡ r)
  unfolding on_acquired launched
  on_acquired-keeps a e prefix_id r (attached id) = (refl, refl)
  on_acquired-keeps a e prefix_id r cold = (refl, refl)
  on_acquired-keeps a e prefix_id r refused = (refl, refl)
  on_acquired-keeps a e prefix_id r spawn_failed = (refl, refl)
  on_acquired-keeps a e prefix_id r panicked = (refl, refl)

  violation-Checked :
      (req : PrefixRunRequest) (stored : PrefixData) → Checked req stored (violation req stored)
  unfolding violation
  violation-Checked req stored = first_error-Found _ _

  on_checked-IsServed :
      (marks : Marks) (a : Answers) (e : Engine) (req : PrefixRunRequest) (stored : PrefixData)
      (o : Option RebindError)
      → IsConsistent e.warm
      → lookup req.prefix_id e.prefixes ≡ some (ready stored)
      → violation req stored ≡ o
      → IsServed a e req (on_checked marks a e req o)
  unfolding on_checked
  on_checked-IsServed marks a e req stored (some error) k h v =
      misbound stored error h (subst (Checked req stored) v (violation-Checked req stored)) refl
  on_checked-IsServed marks a e req stored none k h v =
      let x = acquire marks e.warm req.prefix_id (caps_of req.limits) a.world in
      let w = acquire-IsAnswered marks e.warm req.prefix_id (caps_of req.limits) a.world k in
      let kept = on_acquired-keeps a e req.prefix_id x.0 x.1 in
      placed stored h (subst (Checked req stored) v (violation-Checked req stored)) kept.0
        (subst IsConsistent (sym kept.1) w.consistent)
        (on_acquired-IsPlaced a e req.prefix_id (caps_of req.limits) x.0 x.1 w.answer)

  on_entry-IsServed :
      (marks : Marks) (a : Answers) (e : Engine) (req : PrefixRunRequest) (o : Option PrefixEntry)
      → IsConsistent e.warm
      → lookup req.prefix_id e.prefixes ≡ o
      → IsServed a e req (on_entry marks a e req o)
  unfolding on_entry
  on_entry-IsServed marks a e req none k h = unknown h refl
  on_entry-IsServed marks a e req (some (broken cause)) k h = broken_before cause h refl
  on_entry-IsServed marks a e req (some (ready stored)) k h =
      on_checked-IsServed marks a e req stored _ k h refl

  -- Over a consistent registry, a run of an unknown prefix, of a broken one, or with a rebind that the
  -- prefix does not allow is refused with that reason and changes nothing. Any other keeps the stored
  -- prefixes and a consistent registry, and either goes under the next token to a live instance of its
  -- prefix with its own heap limits or to one of its own, or is refused and leaves no job.
  pub prefix_run-IsServed :
      (marks : Marks) (a : Answers) (e : Engine) (req : PrefixRunRequest)
      → IsConsistent e.warm
      → IsServed a e req (prefix_run marks a e req)
  unfolding prefix_run
  prefix_run-IsServed marks a e req k = on_entry-IsServed marks a e req _ k refl

  abbrev Registers : Start → Type 0
  Registers s = s.refusal ≡ none → (h : RunHandle) × (s.registered ≡ some h)

  on_reserved-Registers :
      (marks : Marks) (a : Answers) (e : Engine) (r : RegistryInner × Bool)
      → Registers (on_reserved marks a e r).1
  unfolding on_reserved launched unstarted
  on_reserved-Registers marks a e (warm, false) = λ impossible. cc
  on_reserved-Registers marks a e (warm, true) = elim (Bool-cases a.spawns_worker) [
    | inl q ↦ rw q (λ h. (e.next_token, refl))
    | inr q ↦ rw q (λ impossible. cc)
  ]

  on_acquired-Registers :
      (a : Answers) (e : Engine) (prefix_id : Bytes) (r : RegistryInner) (x : Acquired)
      → Registers (on_acquired a e prefix_id (r, x)).1
  unfolding on_acquired launched
  on_acquired-Registers a e prefix_id r (attached id) = λ h. (e.next_token, refl)
  on_acquired-Registers a e prefix_id r cold = λ h. (e.next_token, refl)
  on_acquired-Registers a e prefix_id r refused = λ impossible. cc
  on_acquired-Registers a e prefix_id r spawn_failed = λ impossible. cc
  on_acquired-Registers a e prefix_id r panicked = λ impossible. cc

  on_checked-Registers :
      (marks : Marks) (a : Answers) (e : Engine) (req : PrefixRunRequest) (o : Option RebindError)
      → Registers (on_checked marks a e req o).1
  unfolding on_checked
  on_checked-Registers marks a e req (some error) = λ impossible. cc
  on_checked-Registers marks a e req none = on_acquired-Registers a e req.prefix_id _ _

  on_entry-Registers :
      (marks : Marks) (a : Answers) (e : Engine) (req : PrefixRunRequest) (o : Option PrefixEntry)
      → Registers (on_entry marks a e req o).1
  unfolding on_entry
  on_entry-Registers marks a e req none = λ impossible. cc
  on_entry-Registers marks a e req (some (broken cause)) = λ impossible. cc
  on_entry-Registers marks a e req (some (ready stored)) = on_checked-Registers marks a e req _

  -- The engine is what a session relies on: each run that it does not refuse, one-off or of a prefix,
  -- has been registered.
  pub engine-Lawful : (marks : Marks) → Lawful (engine_ops marks)
  unfolding run prefix_run
  engine-Lawful marks = record {
    run_registers = λ a e req. on_reserved-Registers marks a e _;
    prefix_run_registers = λ a e req. on_entry-Registers marks a e req _;
  }
