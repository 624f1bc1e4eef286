-- ===== src/Engine.antt =====
-- crates/core/src/engine.rs: the prefixes that are stored, and the runs that are started. What the
-- surroundings answer during one operation is an argument.
pub mod Ending
pub mod Registry
pub mod Slots
pub mod Reach
pub mod Breaking
pub mod Serving
use iso.Base.{
  ℕ, ◌+◌, ◌*◌, ◌%◌, ◌^◌, Bool, true, false, not, Option, none, some, List, [], ◌∷◌, ◌++◌, Result,
  ok, err, ◌==◌, if◌then◌else◌, map, ascii,
}
use iso.Float.{F64}
use iso.Wire.Bytes.{Bytes}
use iso.Limits.{ResourceLimits}
use iso.Types.{HostGlobalDef, bridge_stub_name, ImportBinding, RunRequest, PrefixRunRequest}
use iso.Reply.Types.{RunErrorPayload, run_error, no_cause, caused_by}
use iso.Reply.Clamp.{digits, clamp_error_text}
use iso.Errors.{RunError, frozen_binding, undeclared_binding, internal_error, to_payload}
use iso.Completion.{Output, FailureOutput, CallOutcome}
use iso.Prefix.{
  PrefixData, PrefixEntry, ready, broken, RebindError, validate_global_rebinds,
  validate_import_rebinds,
}
use iso.Warm.Map.{lookup, put, remove}
use iso.Warm.State.{HeapCaps, RegistryInner, new_registry, Marks}
use iso.Warm.Acquire.{
  World, Acquired, attached, cold, refused, spawn_failed, panicked, acquire, reserve_oneoff,
}
use iso.Warm.Release.{Finish, release_oneoff, release, dispose_prefix}
use iso.Warm.Stats.{stats}
use iso.Session.Start.{Start}
use iso.Session.Demux.{EngineOps}

pub data Refusal : Type 0 where
  capacity prefix_disposed : Bytes → Refusal
  prefix_broken : (prefix_id : Bytes) (cause : RunErrorPayload) → Refusal
  binding : RunError → Refusal
  internal : Bytes → Refusal

abbrev pub code_of : RunErrorPayload → Bytes
code_of (run_error code name message stack blob reset prefix_stage cause) = code

abbrev pub message_of : RunErrorPayload → Bytes
message_of (run_error code name message stack blob reset prefix_stage cause) = message

-- `Refusal::to_payload`.
unfoldable pub refusal_payload : Refusal → RunErrorPayload
unfolding ascii to_payload
refusal_payload (capacity detail) = to_payload (RunError.capacity detail)
refusal_payload (internal detail) = to_payload (internal_error detail)
refusal_payload (binding e) = to_payload e
refusal_payload (prefix_disposed id) =
    run_error (ascii "ERR_PREFIX_DISPOSED") (ascii "Error")
      (ascii "prefix '" ++ (id ++ ascii "' has been disposed or never existed")) none none none
      false no_cause
refusal_payload (prefix_broken id cause) =
    run_error (ascii "ERR_PREFIX_BROKEN") (ascii "Error")
      (ascii "prefix '"
        ++ (id
            ++ (ascii "' is broken: its cold start failed with "
                ++ (code_of cause ++ (ascii ": " ++ message_of cause)))))
      none none none false (caused_by cause)

-- What a started run holds until it ends: a one-off slot, with or without an instance of its own, or
-- a place on a pooled instance.
pub data Job : Type 0 where
  oneoff : Job
  pooled : (prefix_id : Bytes) (id : ℕ) → Job
  unpooled : (prefix_id : Bytes) → Job

abbrev pub job_of : ℕ → List (ℕ × Job) → Option Job
job_of token [] = none
job_of token ((t, job) ∷ rest) = if t == token then some job else job_of token rest

abbrev pub jobs_without : ℕ → List (ℕ × Job) → List (ℕ × Job)
jobs_without token [] = []
jobs_without token ((t, job) ∷ rest) =
    if t == token then rest else (t, job) ∷ jobs_without token rest

-- What the source reads or is told during one operation: the registry's readings, whether a worker's
-- thread starts, the texts of refusals that the model leaves out, and the readings of a release and of
-- the statistics.
pub record Answers : Type 0 where
  pub world : World
  pub spawns_worker : Bool
  pub capacity_text : Bytes
  pub rebind_text : Bytes
  pub thread_text : Bytes
  pub reading : Option ℕ
  pub now : ℕ
  pub settled_at : ℕ
  pub pass_now : ℕ
  pub container_bytes : Option ℕ
  pub rss : Option ℕ

abbrev pub stub_names : List HostGlobalDef → List Bytes
stub_names [] = []
stub_names (def ∷ rest) = elim (bridge_stub_name def) [
  | none ↦ stub_names rest
  | some name ↦ name ∷ stub_names rest
]

abbrev pub rebind_error : Bytes → RebindError → RunError
rebind_error text RebindError.frozen_binding = frozen_binding text
rebind_error text RebindError.undeclared_binding = undeclared_binding text

-- `.err().or_else(|| ...)`.
abbrev pub first_error :
    Result RebindError (Unit {0}) → Result RebindError (Unit {0}) → Option RebindError
first_error (err e) second = some e
first_error (ok passed) (err e) = some e
first_error (ok passed) (ok also) = none

-- Globals first, then import rebinds.
unfoldable pub violation : PrefixRunRequest → PrefixData → Option RebindError
violation req data_of =
    first_error (validate_global_rebinds req.globals data_of.declared_globals data_of.globals)
      (validate_import_rebinds req.import_rebinds data_of.declared_imports)

abbrev pub mb : ℕ → ℕ
mb n = n * 1024 * 1024

abbrev pub denied : Refusal → Start
denied r = record { registered = none; refusal = some (refusal_payload r) }

module _ ⦃fl : F64⦄ where
  open fl use {Carrier, of_nat}

  -- `jobs` are the started runs by token, each with what its release gives back.
  pub record Engine : Type 0 where
    pub prefixes : List (Bytes × PrefixEntry)
    pub next_prefix_id : ℕ
    pub warm : RegistryInner
    pub next_token : ℕ
    pub jobs : List (ℕ × Job)

  unfoldable pub new_engine : ℕ → Engine
  new_engine cores = record {
    prefixes = [];
    next_prefix_id = 0;
    warm = new_registry cores;
    next_token = 1;
    jobs = [];
  }

  unfoldable pub prepare :
      Engine → Bytes → Option Bytes → List HostGlobalDef → List ImportBinding → Engine × Bytes
  prepare e code filename globals imports =
      let prefix_id = digits 20 e.next_prefix_id in
      let stored : PrefixData = record {
        id = e.next_prefix_id;
        code = code;
        filename = filename;
        globals = globals;
        declared_globals = stub_names globals;
        declared_imports = imports;
      } in
      (
        record e {
          next_prefix_id = (e.next_prefix_id + 1) % 2 ^ 64;
          prefixes = put prefix_id (ready stored) e.prefixes;
        },
        prefix_id,
      )

  unfoldable pub dispose : Engine → Bytes → Engine
  dispose e prefix_id = record e {
    prefixes = remove prefix_id e.prefixes;
    warm = dispose_prefix e.warm prefix_id;
  }

  -- A run goes out under the next token, and is registered.
  unfoldable pub launched : Engine → Job → Engine × Start
  launched e job = (
    record e { next_token = (e.next_token + 1) % 2 ^ 64; jobs = (e.next_token, job) ∷ e.jobs },
    record { registered = some e.next_token; refusal = none },
  )

  -- A worker that does not start gives its slot back; the run has been registered by then.
  unfoldable pub unstarted : Marks → Answers → Engine → Engine × Start
  unstarted marks a e = (
    record e {
      next_token = (e.next_token + 1) % 2 ^ 64;
      warm = release_oneoff marks e.warm true (of_nat 0) (of_nat 0) a.reading a.now a.pass_now;
    },
    record {
      registered = some e.next_token;
      refusal = some (refusal_payload (internal a.thread_text));
    },
  )

  unfoldable pub on_reserved : Marks → Answers → Engine → RegistryInner × Bool → Engine × Start
  unfolding launched unstarted
  on_reserved marks a e (warm, false) =
      (record e { warm = warm }, denied (capacity a.capacity_text))
  on_reserved marks a e (warm, true) =
      if a.spawns_worker
      then launched (record e { warm = warm }) oneoff
      else unstarted marks a (record e { warm = warm })

  unfoldable pub run : Marks → Answers → Engine → RunRequest → Engine × Start
  unfolding on_reserved
  run marks a e req =
      on_reserved marks a e (reserve_oneoff marks e.warm (mb req.limits.hard_memory_mb) a.world)

  -- The run's token is drawn before the acquisition. `panicked` is never reached. A job that the
  -- instance's thread does not take ends as any other does, with the outcome of a dead instance.
  unfoldable pub on_acquired : Answers → Engine → Bytes → RegistryInner × Acquired → Engine × Start
  unfolding launched
  on_acquired a e prefix_id (warm, outcome) =
      let kept = record e { warm = warm } in
      let drawn = record kept { next_token = (e.next_token + 1) % 2 ^ 64 } in
      elim outcome [
        | attached id ↦ launched kept (pooled prefix_id id)
        | cold ↦ launched kept (unpooled prefix_id)
        | refused ↦ (drawn, denied (capacity a.capacity_text))
        | spawn_failed ↦ (drawn, denied (internal a.thread_text))
        | panicked ↦ (drawn, denied (internal []))
      ]

  abbrev pub caps_of : ResourceLimits → HeapCaps
  caps_of limits = record {
    soft_bytes = mb limits.soft_memory_mb;
    hard_bytes = mb limits.hard_memory_mb;
  }

  unfoldable pub on_checked :
      Marks → Answers → Engine → PrefixRunRequest → Option RebindError → Engine × Start
  unfolding on_acquired
  on_checked marks a e req (some error) = (e, denied (binding (rebind_error a.rebind_text error)))
  on_checked marks a e req none =
      on_acquired a e req.prefix_id
        (acquire marks e.warm req.prefix_id (caps_of req.limits) a.world)

  unfoldable pub on_entry :
      Marks → Answers → Engine → PrefixRunRequest → Option PrefixEntry → Engine × Start
  unfolding on_checked violation
  on_entry marks a e req none = (e, denied (prefix_disposed req.prefix_id))
  on_entry marks a e req (some (broken cause)) = (e, denied (prefix_broken req.prefix_id cause))
  on_entry marks a e req (some (ready stored)) = on_checked marks a e req (violation req stored)

  unfoldable pub prefix_run : Marks → Answers → Engine → PrefixRunRequest → Engine × Start
  unfolding on_entry
  prefix_run marks a e req = on_entry marks a e req (lookup req.prefix_id e.prefixes)

  -- The engine as a session's.
  abbrev pub engine_ops : Marks → EngineOps Engine Answers
  engine_ops marks = record {
    run = run marks;
    prefix_run = prefix_run marks;
    prepare = prepare;
    dispose_prefix = dispose;
    stats = λ a e. stats marks e.warm a.container_bytes a.rss;
  }
