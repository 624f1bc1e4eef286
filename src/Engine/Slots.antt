-- ===== src/Engine/Slots.antt =====
-- The one-off slots of the registry against the runs that hold them, whatever an engine does.
use iso.Base.{
  ℕ, ◌+◌, ◌-◌, ◌≡◌, refl, sym, ap, ◌∙◌, Bool, true, false, Option, none, some, List, [], ◌∷◌,
  Result, ok, err, arith, Bool-cases, inl, inr, ◌==◌,
}
use iso.Float.{F64}
use iso.Wire.Bytes.{Bytes}
use iso.Types.{RunRequest, PrefixRunRequest}
use iso.Completion.{Output, FailureOutput, CallOutcome}
use iso.Prefix.{PrefixEntry, ready, broken, RebindError}
use iso.Warm.State.{RegistryInner, Marks}
use iso.Warm.Acquire.{
  Acquired, attached, cold, refused, spawn_failed, panicked, acquire, reserve_oneoff,
}
use iso.Engine.{
  Job, oneoff, pooled, unpooled, job_of, jobs_without, Answers, Engine, launched, unstarted,
  on_reserved, run, on_acquired, on_checked, on_entry, caps_of, mb,
}
use iso.Engine.Ending.{break_entry, note_failure, give_back, conclude}
use iso.Engine.Registry.{
  slot_taken, slot_if, acquire-Takes, reserve_oneoff-Takes, release_oneoff-oneoff, release-oneoff,
  dispose_prefix-oneoff,
}

-- The slots that a job holds.
abbrev pub slot_of : Job → ℕ
slot_of oneoff = 1
slot_of (pooled prefix_id id) = 0
slot_of (unpooled prefix_id) = 1

abbrev pub slots : List (ℕ × Job) → ℕ
slots [] = 0
slots ((token, job) ∷ rest) = slot_of job + slots rest

abbrev slot_back : Option Job → ℕ
slot_back none = 0
slot_back (some job) = slot_of job

slots-jobs_without :
    (token : ℕ) (jobs : List (ℕ × Job))
    → slots jobs ≡ slot_back (job_of token jobs) + slots (jobs_without token jobs)
slots-jobs_without token [] = refl
slots-jobs_without token ((t, job) ∷ rest) = elim (Bool-cases (t == token)) [
  | inl h ↦ rw h refl
  | inr h ↦ rw h (let ih = slots-jobs_without token rest in omega (arith, ih))
]

module _ ⦃fl : F64⦄ where
  open fl use {Carrier, of_nat}

  -- The slots taken are those of the runs in flight.
  abbrev pub IsHeld : Engine → Type 0
  IsHeld e = e.warm.oneoff_running ≡ slots e.jobs

  launched-IsHeld :
      (e : Engine) (job : Job)
      → e.warm.oneoff_running ≡ slot_of job + slots e.jobs
      → IsHeld (launched e job).0
  unfolding launched
  launched-IsHeld e job h = h

  on_reserved-IsHeld :
      (marks : Marks) (a : Answers) (e : Engine) (r : RegistryInner × Bool)
      → r.0.oneoff_running ≡ slot_if r.1 + slots e.jobs
      → IsHeld (on_reserved marks a e r).0
  unfolding on_reserved unstarted
  on_reserved-IsHeld marks a e (warm, false) h = omega (arith, h)
  on_reserved-IsHeld marks a e (warm, true) h = elim (Bool-cases a.spawns_worker) [
    | inl q ↦ rw q (launched-IsHeld (record e { warm = warm }) oneoff h)
    | inr q ↦
        let back =
          release_oneoff-oneoff marks warm true (of_nat 0) (of_nat 0) a.reading a.now a.pass_now in
        rw q (omega (arith, h, back))
  ]

  pub run-IsHeld :
      (marks : Marks) (a : Answers) (e : Engine) (req : RunRequest)
      → IsHeld e
      → IsHeld (run marks a e req).0
  unfolding run
  run-IsHeld marks a e req k = on_reserved-IsHeld marks a e _ (
      reserve_oneoff-Takes marks e.warm (mb req.limits.hard_memory_mb) a.world
      ∙ ap (λ n. slot_if (reserve_oneoff marks e.warm (mb req.limits.hard_memory_mb) a.world).1 + n)
          k)

  on_acquired-IsHeld :
      (a : Answers) (e : Engine) (prefix_id : Bytes) (r : RegistryInner × Acquired)
      → r.0.oneoff_running ≡ slot_taken r.1 + slots e.jobs
      → IsHeld (on_acquired a e prefix_id r).0
  unfolding on_acquired
  on_acquired-IsHeld a e id (warm, attached i) h =
      launched-IsHeld (record e { warm = warm }) (pooled id i) h
  on_acquired-IsHeld a e id (warm, cold) h =
      launched-IsHeld (record e { warm = warm }) (unpooled id) h
  on_acquired-IsHeld a e id (warm, refused) h = omega (arith, h)
  on_acquired-IsHeld a e id (warm, spawn_failed) h = omega (arith, h)
  on_acquired-IsHeld a e id (warm, panicked) h = omega (arith, h)

  on_checked-IsHeld :
      (marks : Marks) (a : Answers) (e : Engine) (req : PrefixRunRequest) (o : Option RebindError)
      → IsHeld e
      → IsHeld (on_checked marks a e req o).0
  unfolding on_checked
  on_checked-IsHeld marks a e req (some error) k = k
  on_checked-IsHeld marks a e req none k = on_acquired-IsHeld a e req.prefix_id _ (
      acquire-Takes marks e.warm req.prefix_id (caps_of req.limits) a.world
      ∙ ap (λ n. slot_taken (acquire marks e.warm req.prefix_id (caps_of req.limits) a.world).1 + n)
          k)

  pub on_entry-IsHeld :
      (marks : Marks) (a : Answers) (e : Engine) (req : PrefixRunRequest) (o : Option PrefixEntry)
      → IsHeld e
      → IsHeld (on_entry marks a e req o).0
  unfolding on_entry
  on_entry-IsHeld marks a e req none k = k
  on_entry-IsHeld marks a e req (some (broken cause)) k = k
  on_entry-IsHeld marks a e req (some (ready stored)) k = on_checked-IsHeld marks a e req _ k

  break_entry-oneoff :
      (e : Engine) (id : Bytes) (f : FailureOutput) (o : Option PrefixEntry)
      → (break_entry e id f o).warm.oneoff_running ≡ e.warm.oneoff_running
  unfolding break_entry
  break_entry-oneoff e id f none = refl
  break_entry-oneoff e id f (some (broken cause)) = refl
  break_entry-oneoff e id f (some (ready stored)) = dispose_prefix-oneoff e.warm id

  note_failure-oneoff :
      (e : Engine) (id : Bytes) (failed : Bool) (r : Result FailureOutput Output)
      → (note_failure e id failed r).warm.oneoff_running ≡ e.warm.oneoff_running
  unfolding note_failure
  note_failure-oneoff e id false r = refl
  note_failure-oneoff e id true (ok output) = refl
  note_failure-oneoff e id true (err f) = break_entry-oneoff e id f _

  break_entry-jobs :
      (e : Engine) (id : Bytes) (f : FailureOutput) (o : Option PrefixEntry)
      → (break_entry e id f o).jobs ≡ e.jobs
  unfolding break_entry
  break_entry-jobs e id f none = refl
  break_entry-jobs e id f (some (broken cause)) = refl
  break_entry-jobs e id f (some (ready stored)) = refl

  note_failure-jobs :
      (e : Engine) (id : Bytes) (failed : Bool) (r : Result FailureOutput Output)
      → (note_failure e id failed r).jobs ≡ e.jobs
  unfolding note_failure
  note_failure-jobs e id false r = refl
  note_failure-jobs e id true (ok output) = refl
  note_failure-jobs e id true (err f) = break_entry-jobs e id f _

  -- What a job gives back is the slot that it held.
  give_back-IsHeld :
      (marks : Marks) (from_bits : ℕ → Carrier) (a : Answers) (e : Engine) (o : CallOutcome)
      (job : Option Job)
      → e.warm.oneoff_running ≡ slot_back job + slots e.jobs
      → IsHeld (give_back marks from_bits a e o job)
  unfolding give_back
  give_back-IsHeld marks from_bits a e o none h = omega (arith, h)
  give_back-IsHeld marks from_bits a e o (some oneoff) h =
      let back = release_oneoff-oneoff marks e.warm _ _ _ a.reading a.now a.pass_now in
      back ∙ omega (arith, h)
  give_back-IsHeld marks from_bits a e o (some (unpooled id)) h =
      let noted = note_failure e id o.prefix_failed o.outcome in
      release_oneoff-oneoff marks noted.warm o.tainted _ _ a.reading a.now a.pass_now
      ∙ ap (λ n. n - 1) (note_failure-oneoff e id o.prefix_failed o.outcome)
      ∙ omega (arith, h)
      ∙ ap slots (sym (note_failure-jobs e id o.prefix_failed o.outcome))
  give_back-IsHeld marks from_bits a e o (some (pooled id i)) h =
      let noted = note_failure e id o.prefix_failed o.outcome in
      release-oneoff marks noted.warm id i _ _ _
      ∙ note_failure-oneoff e id o.prefix_failed o.outcome
      ∙ omega (arith, h)
      ∙ ap slots (sym (note_failure-jobs e id o.prefix_failed o.outcome))

  pub conclude-IsHeld :
      (marks : Marks) (from_bits : ℕ → Carrier) (a : Answers) (e : Engine) (token : ℕ)
      (o : CallOutcome)
      → IsHeld e
      → IsHeld (conclude marks from_bits a e token o)
  unfolding conclude
  conclude-IsHeld marks from_bits a e token o k =
      give_back-IsHeld marks from_bits a (record e { jobs = jobs_without token e.jobs }) o
        (job_of token e.jobs) (k ∙ slots-jobs_without token e.jobs)
