-- ===== src/Engine/Breaking.antt =====
-- A prefix whose cold start failed.
use iso.Base.{false, ℕ, ◌≡◌, sym, ap, ◌∙◌, subst, Bool, true, Option, none, some, err}
use mathlib.Core.Option.{some-injective}
use iso.Float.{F64}
use iso.Wire.Bytes.{Bytes}
use iso.Types.{PrefixRunRequest}
use iso.Errors.{to_payload, code, name, message, stack_and_fields, reset_of}
use iso.Reply.Types.{RunErrorPayload, run_error, no_cause}
use iso.Reply.Clamp.{clamp_error_text}
use iso.Completion.{FailureOutput, CallOutcome}
use iso.Prefix.{PrefixData, PrefixEntry, ready, broken}
use iso.Warm.Map.{lookup, lookup-put}
use iso.Warm.State.{Marks}
use iso.Engine.{
  prefix_broken, denied, Job, oneoff, pooled, unpooled, job_of, jobs_without, Answers, Engine,
  on_entry, prefix_run,
}
use iso.Engine.Ending.{kept_cause, break_entry, note_failure, give_back, conclude}

-- The prefix that a job runs.
abbrev pub prefix_of : Job → Option Bytes
prefix_of oneoff = none
prefix_of (pooled prefix_id id) = some prefix_id
prefix_of (unpooled prefix_id) = some prefix_id

-- A cold start that failed.
abbrev pub failed_start : FailureOutput → Bool → ℕ → CallOutcome
failed_start f tainted heap = record {
  outcome = err f;
  tainted = tainted;
  heap_used_bytes = heap;
  prefix_failed = true;
}

-- The failure that a broken prefix is stored with: the payload's own parts, the texts clamped.
abbrev pub kept_failure : FailureOutput → RunErrorPayload
kept_failure f =
    run_error (code f.failure) (name f.failure) (clamp_error_text (message f.failure))
      (elim (stack_and_fields f.failure).0 [ none ↦ none | some s ↦ some (clamp_error_text s) ])
      none (reset_of f.failure) false no_cause

abbrev pub broken_by : FailureOutput → PrefixEntry
broken_by f = broken (kept_failure f)

module _ ⦃fl : F64⦄ where
  open fl use {Carrier}

  note_failure-breaks :
      (e : Engine) (id : Bytes) (f : FailureOutput) (stored : PrefixData)
      → lookup id e.prefixes ≡ some (ready stored)
      → lookup id (note_failure e id true (err f)).prefixes ≡ some (broken_by f)
  unfolding note_failure break_entry kept_cause to_payload
  note_failure-breaks e id f stored h =
      ap (λ o. lookup id (break_entry e id f o).prefixes) h ∙ lookup-put id (broken_by f) e.prefixes

  same_failure-breaks :
      (e : Engine) (p id : Bytes) (f : FailureOutput) (stored : PrefixData)
      → some p ≡ some id
      → lookup id e.prefixes ≡ some (ready stored)
      → lookup id (note_failure e p true (err f)).prefixes ≡ some (broken_by f)
  same_failure-breaks e p id f stored q h =
      let same = some-injective p id q in
      subst (λ x. lookup id (note_failure e x true (err f)).prefixes ≡ some (broken_by f))
        (sym same) (note_failure-breaks e id f stored h)

  module _ (marks : Marks) (from_bits : ℕ → Carrier) (a : Answers) (f : FailureOutput)
      (tainted : Bool) (heap : ℕ) where
    give_back-breaks :
        (e : Engine) (job : Job) (id : Bytes) (stored : PrefixData)
        → prefix_of job ≡ some id
        → lookup id e.prefixes ≡ some (ready stored)
        → lookup id
            (give_back marks from_bits a e (failed_start f tainted heap) (some job)).prefixes
          ≡ some (broken_by f)
    unfolding give_back
    give_back-breaks e oneoff id stored impossible h = cc
    give_back-breaks e (pooled p i) id stored q h = same_failure-breaks e p id f stored q h
    give_back-breaks e (unpooled p) id stored q h = same_failure-breaks e p id f stored q h

    -- Once a cold start of a ready prefix has failed, the next run of the prefix is refused as broken,
    -- with that failure as the cause, its texts clamped and its fields dropped, and changes nothing.
    pub conclude-breaks :
        (later : Answers) (e : Engine) (token : ℕ) (job : Job) (stored : PrefixData)
        (req : PrefixRunRequest)
        → job_of token e.jobs ≡ some job
        → prefix_of job ≡ some req.prefix_id
        → lookup req.prefix_id e.prefixes ≡ some (ready stored)
        → prefix_run marks later
            (conclude marks from_bits a e token (failed_start f tainted heap))
            req
          ≡ (
            conclude marks from_bits a e token (failed_start f tainted heap),
            denied (prefix_broken req.prefix_id (kept_failure f)),
          )
    unfolding prefix_run conclude on_entry
    conclude-breaks later e token job stored req j q h =
        let rest = record e { jobs = jobs_without token e.jobs } in
        let after = conclude marks from_bits a e token (failed_start f tainted heap) in
        let there : lookup req.prefix_id after.prefixes ≡ some (broken_by f) =
          ap
            (λ o.
              lookup req.prefix_id
                (give_back marks from_bits a rest (failed_start f tainted heap) o).prefixes)
            j
          ∙ give_back-breaks rest job req.prefix_id stored q h in
        ap (on_entry marks later after req) there
