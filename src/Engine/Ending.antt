-- ===== src/Engine/Ending.antt =====
-- crates/core/src/engine.rs: the end of a run, with the release hooks of `run` and `prefix_run`.
use iso.Base.{ℕ, Bool, true, false, Option, none, some, Result, ok, err}
use iso.Float.{F64}
use iso.Wire.Bytes.{Bytes}
use iso.Reply.Types.{RunErrorPayload, run_error}
use iso.Reply.Clamp.{clamp_error_text}
use iso.Errors.{to_payload}
use iso.Completion.{Output, FailureOutput, CallOutcome}
use iso.Prefix.{PrefixEntry, ready, broken}
use iso.Warm.Map.{lookup, put}
use iso.Warm.State.{Marks}
use iso.Warm.Release.{Finish, release_oneoff, release, dispose_prefix}
use iso.Engine.{Job, oneoff, pooled, unpooled, job_of, jobs_without, Answers, Engine}

abbrev pub is_err : {A B : Type 0} → Result A B → Bool
is_err (ok x) = false
is_err (err e) = true

-- The wall and CPU time of an outcome.
abbrev pub times : Result FailureOutput Output → ℕ × ℕ
times (ok output) = (output.wall_time_ms, output.cpu_time_ms)
times (err f) = (f.wall_time_ms, f.cpu_time_ms)

-- The cause that a broken prefix keeps: clamped as on the wire, without the fields.
unfoldable pub kept_cause : RunErrorPayload → RunErrorPayload
kept_cause (run_error code name message stack blob reset prefix_stage cause) =
    run_error code name (clamp_error_text message)
      (elim stack [ none ↦ none | some s ↦ some (clamp_error_text s) ]) none reset prefix_stage
      cause

module _ ⦃fl : F64⦄ where
  open fl use {Carrier}

  -- The first failed cold start breaks the prefix, and its instances go as in a disposal.
  unfoldable pub break_entry : Engine → Bytes → FailureOutput → Option PrefixEntry → Engine
  unfolding kept_cause
  break_entry e prefix_id f none = e
  break_entry e prefix_id f (some (broken cause)) = e
  break_entry e prefix_id f (some (ready stored)) = record e {
    prefixes = put prefix_id (broken (kept_cause (to_payload f.failure))) e.prefixes;
    warm = dispose_prefix e.warm prefix_id;
  }

  unfoldable pub note_failure : Engine → Bytes → Bool → Result FailureOutput Output → Engine
  unfolding break_entry
  note_failure e prefix_id false result = e
  note_failure e prefix_id true (ok output) = e
  note_failure e prefix_id true (err f) = break_entry e prefix_id f (lookup prefix_id e.prefixes)

  abbrev pub is_ready : Option PrefixEntry → Bool
  is_ready none = false
  is_ready (some (broken cause)) = false
  is_ready (some (ready stored)) = true

  -- The registry gets back what a job held. `from_bits` reads a float from its bits.
  unfoldable pub give_back :
      Marks → (ℕ → Carrier) → Answers → Engine → CallOutcome → Option Job → Engine
  unfolding note_failure
  give_back marks from_bits a e o none = e
  give_back marks from_bits a e o (some oneoff) =
      let (wall, cpu) = times o.outcome in
      record e {
        warm =
            release_oneoff marks e.warm (is_err o.outcome) (from_bits wall) (from_bits cpu)
              a.reading a.now a.pass_now;
      }
  give_back marks from_bits a e o (some (unpooled prefix_id)) =
      let (wall, cpu) = times o.outcome in
      let noted = note_failure e prefix_id o.prefix_failed o.outcome in
      record noted {
        warm =
            release_oneoff marks noted.warm o.tainted (from_bits wall) (from_bits cpu) a.reading
              a.now a.pass_now;
      }
  give_back marks from_bits a e o (some (pooled prefix_id id)) =
      let (wall, cpu) = times o.outcome in
      let noted = note_failure e prefix_id o.prefix_failed o.outcome in
      let finish : Finish = record {
        tainted = o.tainted;
        heap_used_bytes = o.heap_used_bytes;
        prefix_alive = is_ready (lookup prefix_id noted.prefixes);
        reading = a.reading;
        sampled_at = a.now;
        now = a.settled_at;
        pass_now = a.pass_now;
      } in
      record noted {
        warm = release marks noted.warm prefix_id id finish (from_bits wall) (from_bits cpu);
      }

  -- The end of the run with that token.
  unfoldable pub conclude : Marks → (ℕ → Carrier) → Answers → Engine → ℕ → CallOutcome → Engine
  unfolding give_back
  conclude marks from_bits a e token o =
      give_back marks from_bits a (record e { jobs = jobs_without token e.jobs }) o
        (job_of token e.jobs)
