-- ===== src/Tests/Policies.antt =====
-- Pressure facts, heap lines and join facts at concrete numbers.
use iso.Base.{◌≡◌, ◌≤◌, ◌<◌, ◌*◌, ◌/◌, ◌⊎◌, ◌↔◌, true, some, List, [], ◌∷◌, arith}
use iso.Limits.{managed, resolve_heap_lines}
use iso.Limits.Lines.{LinesSpec, resolve_heap_lines-LinesSpec}
use iso.Policy.{
  PressureFacts, watermark_action, AdmitFacts, JoinFact, pick_join_target, join_fallback,
}
use iso.Policy.Watermark.{
  watermark_action-shedding, watermark_action-evicts, HasMove, HasRest, latch, latch-between,
}
use iso.Policy.Routing.{
  JoinSpec, pick_join_target-JoinSpec, FallbackSpec, join_fallback-FallbackSpec,
}

resolve_heap_lines-LinesSpec_example :
    LinesSpec 128 (some 100) managed (resolve_heap_lines 128 (some 100) managed)
resolve_heap_lines-LinesSpec_example =
    resolve_heap_lines-LinesSpec 128 (some 100) managed (omega arith)

-- 900 of 1000 bytes while shedding, after a pass that acted on 1000, and 25 idle instances.
abbrev pressed : PressureFacts
pressed = record {
  usage_bytes = 900;
  budget_bytes = 1000;
  was_shedding = true;
  last_pass = some (record { usage_at_pass = 1000 });
  idle_count = 25;
}

watermark_action-shedding_example :
    ((watermark_action pressed).shedding ≡ true)
    ↔ ((0 < 1000) × ((1000 ≤ 900) ⊎ (true ≡ true) × (1000 / 5 * 4 < 900)))
watermark_action-shedding_example = watermark_action-shedding pressed

watermark_action-evicts_example :
    HasMove pressed pressed.last_pass ⊎ HasRest pressed pressed.last_pass
watermark_action-evicts_example = watermark_action-evicts pressed

latch-between_example : latch 1000 true (pressed ∷ record pressed { usage_bytes = 999 } ∷ []) ≡ true
latch-between_example =
    latch-between 1000 true (pressed ∷ record pressed { usage_bytes = 999 } ∷ [])
      ((omega arith, omega arith), ((omega arith, omega arith), tt))

abbrev capped : AdmitFacts
capped = record { usage_bytes = 70; run_cap_bytes = 30; hard_line_bytes = 100; budget_bytes = 80 }

abbrev three_instances : List JoinFact
three_instances =
    record { in_flight = 5; util_permille = 900 }
    ∷ record { in_flight = 2; util_permille = 300 }
    ∷ record { in_flight = 4; util_permille = 700 }
    ∷ []

pick_join_target-JoinSpec_example : JoinSpec three_instances (pick_join_target three_instances)
pick_join_target-JoinSpec_example = pick_join_target-JoinSpec three_instances

join_fallback-FallbackSpec_example : FallbackSpec three_instances (join_fallback three_instances)
join_fallback-FallbackSpec_example = join_fallback-FallbackSpec three_instances
