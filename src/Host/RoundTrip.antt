-- ===== src/Host/RoundTrip.antt =====
-- The runtime reads back what the host wrote, payload by payload.
use iso.Base.{
  ℕ, if◌then◌else◌, ◌≡◌, Bool, true, false, Option, List, [], ◌++◌, map, ok, append_assoc,
}
use iso.Wire.Bytes.{Bytes, IsU32}
use iso.Wire.Reader.{Allocator}
use iso.Wire.Reader.Reads.{
  Reads, Reads-bind, Reads-last, Reads-pure, Reads-u8, Reads-u32, Reads-string, parse_all-Reads,
  IsText, WhenSome, IsServing, sized, bool_byte,
}
use iso.Limits.{BandPolicy, managed, strict}
use iso.Types.{soft, hard}
use iso.Payload.Blocks.{unwrap_or}
use iso.Payload.{
  parse_code_fields, run_fields, parse_run_payload, precompile_fields, parse_precompile_payload,
  prefix_run_fields, parse_prefix_run_payload, parse_dispose_prefix_payload, terminate_mode_of,
  terminate_fields, parse_terminate_payload,
}
use iso.Host.{
  WireResourceLimits, no_limits, GlobalDefPayload, write_optional_string, write_resource_limits,
  write_global_defs, RunPayloadOptions, encode_run_payload, PrecompilePayloadOptions,
  encode_precompile_payload, PrefixRunPayloadOptions, encode_prefix_run_payload,
  encode_dispose_prefix_payload, encode_terminate_payload,
}
use iso.Host.Fits.{
  LimitsFit, resolved, GlobalFits, declared, ImportFits, RebindFits, CallFits, ListFits,
}
use iso.Host.Blocks.{
  Reads-optional_string, Reads-resource_limits, Reads-call, Reads-optional_call, Reads-imports,
  Reads-rebinds, Reads-global_defs,
}

pub record RunFits (o : RunPayloadOptions) : Type 0 where
  pub run_id : IsU32 o.run_id
  pub code : IsText o.code
  pub filename : WhenSome IsText o.filename
  pub limits : LimitsFit (unwrap_or o.limits no_limits)
  pub globals : ListFits GlobalFits (unwrap_or o.globals [])
  pub imports : ListFits ImportFits (unwrap_or o.imports [])
  pub call : WhenSome CallFits o.call

pub record PrecompileFits (o : PrecompilePayloadOptions) : Type 0 where
  pub request_id : IsU32 o.request_id
  pub code : IsText o.code
  pub filename : WhenSome IsText o.filename
  pub limits : LimitsFit (unwrap_or o.limits no_limits)
  pub globals : ListFits GlobalFits (unwrap_or o.globals [])
  pub imports : ListFits ImportFits (unwrap_or o.imports [])

pub record PrefixRunFits (o : PrefixRunPayloadOptions) : Type 0 where
  pub run_id : IsU32 o.run_id
  pub prefix_id : IsText o.prefix_id
  pub limits : LimitsFit (unwrap_or o.limits no_limits)
  pub globals : ListFits GlobalFits (unwrap_or o.globals [])
  pub import_rebinds : ListFits RebindFits (unwrap_or o.import_rebinds [])
  pub call : CallFits o.call

module _ ⦃alloc : Allocator⦄ (serves : IsServing) where
  Reads-code_fields :
      (band : BandPolicy) (code : Bytes) (filename : Option Bytes) (l : WireResourceLimits)
      (ds : List GlobalDefPayload)
      → IsText code
      → WhenSome IsText filename
      → LimitsFit l
      → ListFits GlobalFits ds
      → Reads
          (parse_code_fields band)
          (sized code
            ++ (write_optional_string filename
                ++ (write_resource_limits l ++ write_global_defs ds)))
          (record {
            code = code;
            filename = filename;
            limits = resolved band l;
            globals = map declared ds;
          })
  unfolding parse_code_fields
  Reads-code_fields band code filename l ds c f m g = Reads-bind _ _ (Reads-string _ c) (
      Reads-bind _ _ (Reads-optional_string _ f) (
        Reads-bind _ _ (Reads-resource_limits band l m)
          (Reads-last _ _ (Reads-global_defs serves ds g) (Reads-pure _))))

  -- The four shared fields stand in the middle of a payload.
  regroup : (a b c d e : Bytes) → a ++ (b ++ (c ++ (d ++ e))) ≡ (a ++ (b ++ (c ++ d))) ++ e
  regroup a b c d e = simp append_assoc

  -- If the allocator serves reservations, and the ids, lengths, counts, texts and depths fit the format,
  -- a `Run` payload that the host encodes is parsed to what the host meant: every field as sent, the
  -- limits resolved under the strict policy, an absent list empty and each global enumerable unless
  -- the host said otherwise.
  pub parse-encode_run :
      (o : RunPayloadOptions)
      → RunFits o
      → parse_run_payload (encode_run_payload o)
        ≡ ok (record {
          run_id = o.run_id;
          code = o.code;
          filename = o.filename;
          limits = resolved strict (unwrap_or o.limits no_limits);
          globals = map declared (unwrap_or o.globals []);
          imports = unwrap_or o.imports [];
          call = o.call;
        })
  unfolding parse_run_payload run_fields encode_run_payload
  parse-encode_run o f = rw (regroup (sized o.code) (write_optional_string o.filename) _ _ _) (
      parse_all-Reads (
        Reads-bind _ _ (Reads-u32 _ f.run_id) (
          Reads-bind _ _ (Reads-code_fields strict _ _ _ _ f.code f.filename f.limits f.globals) (
            Reads-bind _ _ (Reads-imports serves _ f.imports)
              (Reads-last _ _ (Reads-optional_call _ f.call) (Reads-pure _))))))

  -- If the allocator serves reservations and the parts fit the format, a `Precompile` payload that the
  -- host encodes is parsed to what the host meant; its limits are read and dropped.
  pub parse-encode_precompile :
      (o : PrecompilePayloadOptions)
      → PrecompileFits o
      → parse_precompile_payload (encode_precompile_payload o)
        ≡ ok (record {
          request_id = o.request_id;
          code = o.code;
          filename = o.filename;
          globals = map declared (unwrap_or o.globals []);
          imports = unwrap_or o.imports [];
        })
  unfolding parse_precompile_payload precompile_fields encode_precompile_payload
  parse-encode_precompile o f =
      rw (regroup (sized o.code) (write_optional_string o.filename) _ _ _) (
        parse_all-Reads (
          Reads-bind _ _ (Reads-u32 _ f.request_id) (
            Reads-bind _ _ (Reads-code_fields managed _ _ _ _ f.code f.filename f.limits f.globals)
              (Reads-last _ _ (Reads-imports serves _ f.imports) (Reads-pure _)))))

  -- If the allocator serves reservations and the parts fit the format, a `PrefixRun` payload that the
  -- host encodes is parsed to what the host meant, its limits resolved under the managed policy.
  pub parse-encode_prefix_run :
      (o : PrefixRunPayloadOptions)
      → PrefixRunFits o
      → parse_prefix_run_payload (encode_prefix_run_payload o)
        ≡ ok (record {
          run_id = o.run_id;
          prefix_id = o.prefix_id;
          limits = resolved managed (unwrap_or o.limits no_limits);
          globals = map declared (unwrap_or o.globals []);
          import_rebinds = unwrap_or o.import_rebinds [];
          call = o.call;
        })
  unfolding parse_prefix_run_payload prefix_run_fields encode_prefix_run_payload
  parse-encode_prefix_run o f = parse_all-Reads (
      Reads-bind _ _ (Reads-u32 _ f.run_id) (
        Reads-bind _ _ (Reads-string _ f.prefix_id) (
          Reads-bind _ _ (Reads-resource_limits managed _ f.limits) (
            Reads-bind _ _ (Reads-global_defs serves _ f.globals) (
              Reads-bind _ _ (Reads-rebinds serves _ f.import_rebinds)
                (Reads-last _ _ (Reads-call _ f.call) (Reads-pure _)))))))

-- A `Terminate` payload for a run id that is a u32 carries the mode that the host asked for.
pub parse-encode_terminate :
    (run_id : ℕ) (is_hard : Bool)
    → IsU32 run_id
    → parse_terminate_payload (encode_terminate_payload run_id is_hard)
      ≡ ok (run_id, (if is_hard then hard else soft))
unfolding parse_terminate_payload terminate_fields terminate_mode_of encode_terminate_payload
    bool_byte
parse-encode_terminate run_id true u = parse_all-Reads (
    Reads-bind _ _ (Reads-u32 _ u)
      (Reads-last _ _ (Reads-u8 1) (Reads-last _ _ (Reads-pure _) (Reads-pure _))))
parse-encode_terminate run_id false u = parse_all-Reads (
    Reads-bind _ _ (Reads-u32 _ u)
      (Reads-last _ _ (Reads-u8 0) (Reads-last _ _ (Reads-pure _) (Reads-pure _))))

-- The prefix id of a `DisposePrefix` payload is read back, if it is UTF-8 and fits its length.
pub parse-encode_dispose_prefix :
    (id : Bytes)
    → IsText id
    → parse_dispose_prefix_payload (encode_dispose_prefix_payload id) ≡ ok id
unfolding parse_dispose_prefix_payload encode_dispose_prefix_payload
parse-encode_dispose_prefix id t = parse_all-Reads (Reads-string id t)
