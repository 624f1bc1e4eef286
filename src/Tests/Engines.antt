-- ===== src/Tests/Engines.antt =====
-- An engine that stores a prefix, serves a run of it, and breaks it.
use iso.Base.{◌≡◌, refl, true, none, some, [], ◌∷◌}
use iso.Float.{whole}
use iso.Wire.Bytes.{Bytes}
use iso.Types.{PrefixRunRequest}
use iso.Reply.Clamp.{digits}
use iso.Errors.{aborted}
use iso.Completion.{FailureOutput}
use iso.Prefix.{PrefixData, ready, same}
use iso.Warm.Map.{lookup}
use iso.Warm.Invariant.{IsConsistent, new_registry-IsConsistent}
use iso.Session.Tracing.{Lawful}
use iso.Engine.{
  prefix_broken, denied, unpooled, Answers, Engine, new_engine, prepare, prefix_run, engine_ops,
}
use iso.Engine.Ending.{conclude}
use iso.Engine.Slots.{IsHeld}
use iso.Engine.Reach.{here, next, prepares, prefix_runs, concludes, reachable-IsHeld}
use iso.Engine.Serving.{IsServed, prefix_run-IsServed, engine-Lawful}
use iso.Engine.Breaking.{kept_failure, failed_start, conclude-breaks}
use iso.Tests.Registry.{marks, calm}

abbrev some_answers : Answers
some_answers = record {
  world = calm;
  spawns_worker = true;
  capacity_text = [];
  rebind_text = [];
  thread_text = [];
  reading = none;
  now = 4;
  settled_at = 4;
  pass_now = 5;
  container_bytes = none;
  rss = none;
}

-- The id "0".
abbrev first_id : Bytes
first_id = 48 ∷ []

abbrev a_request : PrefixRunRequest
a_request = record {
  run_id = 7;
  prefix_id = first_id;
  limits = record {
    soft_memory_mb = 64;
    hard_memory_mb = 96;
    cpu_time_ms = 0;
    wall_time_ms = 0;
    max_export_bytes = 0;
    max_stdout_bytes = 0;
    max_stderr_bytes = 0;
    max_bridge_call_bytes = 0;
    max_bridge_calls = 0;
    grace_ms = 0;
  };
  globals = [];
  import_rebinds = [];
  call = record { export_path = 102 ∷ []; args_blob = [] };
}

abbrev started_engine : Engine ⦃fl = whole⦄
started_engine = new_engine ⦃fl = whole⦄ 4

abbrev stored_engine : Engine ⦃fl = whole⦄
stored_engine = (prepare ⦃fl = whole⦄ started_engine (1 ∷ []) none [] []).0

stored-IsConsistent : IsConsistent ⦃fl = whole⦄ stored_engine.warm
unfolding prepare new_engine
stored-IsConsistent = new_registry-IsConsistent ⦃fl = whole⦄ 4

prefix_run-IsServed_example :
    IsServed ⦃fl = whole⦄ some_answers stored_engine a_request
      (prefix_run ⦃fl = whole⦄ marks some_answers stored_engine a_request)
prefix_run-IsServed_example =
    prefix_run-IsServed ⦃fl = whole⦄ marks some_answers stored_engine a_request stored-IsConsistent

engine-Lawful_example : Lawful (engine_ops ⦃fl = whole⦄ marks)
engine-Lawful_example = engine-Lawful ⦃fl = whole⦄ marks

abbrev a_failure : FailureOutput
a_failure = record {
  failure = aborted;
  stdout = [];
  stderr = [];
  duration_ms = 2;
  wall_time_ms = 1;
  cpu_time_ms = 1;
  bridge_calls = [];
}

abbrev served_engine : Engine ⦃fl = whole⦄
served_engine = (prefix_run ⦃fl = whole⦄ marks some_answers stored_engine a_request).0

abbrev ended_engine : Engine ⦃fl = whole⦄
ended_engine =
    conclude ⦃fl = whole⦄ marks (λ n. n) some_answers served_engine 1
      (failed_start a_failure true 9)

reachable-IsHeld_example : IsHeld ⦃fl = whole⦄ ended_engine
reachable-IsHeld_example =
    reachable-IsHeld ⦃fl = whole⦄ marks (λ n. n) 4 ended_engine
      (next
        (next (next here (prepares started_engine (1 ∷ []) none [] []))
          (prefix_runs some_answers stored_engine a_request))
        (concludes some_answers served_engine 1 (failed_start a_failure true 9)))

-- With a run in flight on an instance of its own.
abbrev busy_engine : Engine ⦃fl = whole⦄
busy_engine = record stored_engine { jobs = (1, unpooled first_id) ∷ [] }

abbrev stored_first : PrefixData
stored_first = record {
  id = 0;
  code = 1 ∷ [];
  filename = none;
  globals = [];
  declared_globals = [];
  declared_imports = [];
}

first-ready : lookup first_id busy_engine.prefixes ≡ some (ready stored_first)
unfolding prepare new_engine digits same
first-ready = refl

conclude-breaks_example :
    prefix_run ⦃fl = whole⦄ marks some_answers
      (conclude ⦃fl = whole⦄ marks
        (λ n. n)
        some_answers
        busy_engine
        1
        (failed_start a_failure true 9))
      a_request
    ≡ (
      conclude ⦃fl = whole⦄ marks
          (λ n. n)
          some_answers
          busy_engine
          1
          (failed_start a_failure true 9),
      denied (prefix_broken first_id (kept_failure a_failure)),
    )
conclude-breaks_example =
    conclude-breaks ⦃fl = whole⦄ marks (λ n. n) some_answers a_failure true 9 some_answers
      busy_engine 1 (unpooled first_id) stored_first a_request refl refl first-ready
