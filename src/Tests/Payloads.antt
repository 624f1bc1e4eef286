-- ===== src/Tests/Payloads.antt =====
-- Request payloads with every kind of part, encoded and parsed.
use iso.Base.{◌≡◌, refl, true, false, none, some, List, [], ◌∷◌, ok, arith}
use iso.Wire.Bytes.{Bytes, is_utf8, utf8_lead, utf8_loop}
use iso.Wire.Reader.{Allocator}
use iso.Wire.Reader.Reads.{IsText, IsServing}
use iso.Limits.{strict, managed}
use iso.Types.{
  HostGlobalDef, HostModuleEntries, function, object, no_entries, entry, ImportModule,
  ImportBinding, ImportRebind, CallSpec,
}
use iso.Payload.{parse_run_payload, parse_precompile_payload, parse_prefix_run_payload}
use iso.Host.{
  WireResourceLimits, no_limits, GlobalDefPayload, RunPayloadOptions, encode_run_payload,
  PrecompilePayloadOptions, encode_precompile_payload, PrefixRunPayloadOptions,
  encode_prefix_run_payload,
}
use iso.Host.Fits.{LimitsFit, resolved, NodeFits, EntriesFit}
use iso.Host.RoundTrip.{
  RunFits, PrecompileFits, PrefixRunFits, parse-encode_run, parse-encode_precompile,
  parse-encode_prefix_run,
}

-- An allocator that serves every reservation.
abbrev pub generous : Allocator
generous = record { try_reserve = λ n. true }

generous-IsServing : IsServing ⦃alloc = generous⦄
generous-IsServing n u = refl

-- "f()", and "é" in two bytes.
abbrev call_f : Bytes
call_f = 102 ∷ 40 ∷ 41 ∷ []

abbrev accent : Bytes
accent = 0xc3 ∷ 0xa9 ∷ []

call_f-IsText : IsText call_f
unfolding is_utf8 utf8_loop utf8_lead
call_f-IsText = (omega arith, refl)

accent-IsText : IsText accent
unfolding is_utf8 utf8_loop utf8_lead
accent-IsText = (omega arith, refl)

abbrev some_limits : WireResourceLimits
some_limits = record no_limits { memory_mb = some 64; hard_memory_mb = some 96 }

some_limits-LimitsFit : LimitsFit some_limits
some_limits-LimitsFit = record {
  memory_mb = omega arith;
  cpu_time_ms = tt;
  wall_time_ms = tt;
  max_export_bytes = tt;
  max_stdout_bytes = tt;
  max_stderr_bytes = tt;
  max_bridge_call_bytes = tt;
  max_bridge_calls = tt;
  grace_ms = tt;
  hard_memory_mb = omega arith;
}

abbrev two_globals : List GlobalDefPayload
two_globals =
    GlobalDefPayload.bridge call_f none
    ∷ GlobalDefPayload.data_blob accent (255 ∷ []) (some false)
    ∷ []

-- { "é": { "f()": function } }
abbrev nested : HostModuleEntries
nested = entry accent (object (entry call_f function no_entries)) no_entries

abbrev an_import : ImportBinding
an_import = record { specifier = accent; binding = ImportModule.host nested }

nested-EntriesFit : EntriesFit 64 nested
unfolding EntriesFit NodeFits
nested-EntriesFit = (accent-IsText, (omega arith, (call_f-IsText, tt, tt)), tt)

abbrev a_call : CallSpec
a_call = record { export_path = call_f; args_blob = 1 ∷ 2 ∷ [] }

abbrev pub a_run : RunPayloadOptions
a_run = record {
  run_id = 7;
  code = call_f;
  filename = some accent;
  limits = some some_limits;
  globals = some two_globals;
  imports = some (an_import ∷ []);
  call = some a_call;
}

a_run-RunFits : RunFits a_run
a_run-RunFits = record {
  run_id = omega arith;
  code = call_f-IsText;
  filename = accent-IsText;
  limits = some_limits-LimitsFit;
  globals = (omega arith, (call_f-IsText, ((accent-IsText, omega arith), tt)));
  imports = (omega arith, ((accent-IsText, (omega arith, nested-EntriesFit)), tt));
  call = (call_f-IsText, omega arith);
}

parse-encode_run_example :
    parse_run_payload ⦃alloc = generous⦄ (encode_run_payload a_run)
    ≡ ok (record {
      run_id = 7;
      code = call_f;
      filename = some accent;
      limits = resolved strict some_limits;
      globals =
          HostGlobalDef.bridge call_f true ∷ HostGlobalDef.data_blob accent (255 ∷ []) false ∷ [];
      imports = an_import ∷ [];
      call = some a_call;
    })
parse-encode_run_example =
    parse-encode_run ⦃alloc = generous⦄ generous-IsServing a_run a_run-RunFits

abbrev a_precompile : PrecompilePayloadOptions
a_precompile = record {
  request_id = 8;
  code = call_f;
  filename = none;
  limits = none;
  globals = some two_globals;
  imports = some (an_import ∷ []);
}

no_limits-LimitsFit : LimitsFit no_limits
no_limits-LimitsFit = record {
  memory_mb = tt;
  cpu_time_ms = tt;
  wall_time_ms = tt;
  max_export_bytes = tt;
  max_stdout_bytes = tt;
  max_stderr_bytes = tt;
  max_bridge_call_bytes = tt;
  max_bridge_calls = tt;
  grace_ms = tt;
  hard_memory_mb = tt;
}

a_precompile-PrecompileFits : PrecompileFits a_precompile
a_precompile-PrecompileFits = record {
  request_id = omega arith;
  code = call_f-IsText;
  filename = tt;
  limits = no_limits-LimitsFit;
  globals = (omega arith, (call_f-IsText, ((accent-IsText, omega arith), tt)));
  imports = (omega arith, ((accent-IsText, (omega arith, nested-EntriesFit)), tt));
}

parse-encode_precompile_example :
    parse_precompile_payload ⦃alloc = generous⦄ (encode_precompile_payload a_precompile)
    ≡ ok (record {
      request_id = 8;
      code = call_f;
      filename = none;
      globals =
          HostGlobalDef.bridge call_f true ∷ HostGlobalDef.data_blob accent (255 ∷ []) false ∷ [];
      imports = an_import ∷ [];
    })
parse-encode_precompile_example =
    parse-encode_precompile ⦃alloc = generous⦄ generous-IsServing a_precompile
      a_precompile-PrecompileFits

abbrev a_rebind : ImportRebind
a_rebind = record { specifier = accent; path = accent ∷ call_f ∷ [] }

abbrev a_prefix_run : PrefixRunPayloadOptions
a_prefix_run = record {
  run_id = 9;
  prefix_id = accent;
  limits = some some_limits;
  globals = none;
  import_rebinds = some (a_rebind ∷ []);
  call = a_call;
}

a_prefix_run-PrefixRunFits : PrefixRunFits a_prefix_run
a_prefix_run-PrefixRunFits = record {
  run_id = omega arith;
  prefix_id = accent-IsText;
  limits = some_limits-LimitsFit;
  globals = (omega arith, tt);
  import_rebinds =
      (omega arith, ((accent-IsText, omega arith, (accent-IsText, (call_f-IsText, tt))), tt));
  call = (call_f-IsText, omega arith);
}

parse-encode_prefix_run_example :
    parse_prefix_run_payload ⦃alloc = generous⦄ (encode_prefix_run_payload a_prefix_run)
    ≡ ok (record {
      run_id = 9;
      prefix_id = accent;
      limits = resolved managed some_limits;
      globals = [];
      import_rebinds = a_rebind ∷ [];
      call = a_call;
    })
parse-encode_prefix_run_example =
    parse-encode_prefix_run ⦃alloc = generous⦄ generous-IsServing a_prefix_run
      a_prefix_run-PrefixRunFits
