-- ===== src/Limits.antt =====
-- crates/types/src/lib.rs: resource limits, their defaults and the two heap lines.
pub mod Lines
use iso.Base.{
  ℕ, zero, suc, ◌+◌, ◌-◌, ◌*◌, ◌/◌, ◌^◌, Bool, true, false, Option, none, some, leb, ◌==◌,
  if◌then◌else◌, min,
}

-- The arithmetic of a `u32` that saturates.
abbrev pub u32_max : ℕ
u32_max = 2 ^ 32 - 1

abbrev pub saturating_add32 : ℕ → ℕ → ℕ
saturating_add32 a b = min (a + b) u32_max

abbrev pub default_memory_mb : ℕ
default_memory_mb = 128

abbrev pub default_cpu_time_ms : ℕ
default_cpu_time_ms = 5000

abbrev pub default_wall_time_ms : ℕ
default_wall_time_ms = 30000

abbrev pub default_max_export_bytes : ℕ
default_max_export_bytes = 16 * 1024 * 1024

abbrev pub default_max_stdout_bytes : ℕ
default_max_stdout_bytes = 1024 * 1024

abbrev pub default_max_stderr_bytes : ℕ
default_max_stderr_bytes = 1024 * 1024

abbrev pub default_max_bridge_call_bytes : ℕ
default_max_bridge_call_bytes = 16 * 1024 * 1024

abbrev pub default_max_bridge_calls : ℕ
default_max_bridge_calls = 10

abbrev pub default_grace_ms : ℕ
default_grace_ms = 30000

abbrev pub stream_chunk_max_bytes : ℕ
stream_chunk_max_bytes = 64 * 1024

abbrev pub stream_credit_window_bytes : ℕ
stream_credit_window_bytes = 256 * 1024

pub record ResourceLimits : Type 0 where
  pub soft_memory_mb : ℕ
  pub hard_memory_mb : ℕ
  pub cpu_time_ms : ℕ
  pub wall_time_ms : ℕ
  pub max_export_bytes : ℕ
  pub max_stdout_bytes : ℕ
  pub max_stderr_bytes : ℕ
  pub max_bridge_call_bytes : ℕ
  pub max_bridge_calls : ℕ
  pub grace_ms : ℕ

-- The integer square root, a pair of bits at a time; exact below 4 ^ `bits`.
unfoldable pub isqrt : ℕ → ℕ → ℕ
isqrt zero n = 0
isqrt (suc bits) n =
    let r = 2 * isqrt bits (n / 4) in if leb ((r + 1) * (r + 1)) n then r + 1 else r

-- `(8.0 * cap).sqrt().round()`. No integer's root lies within 1 / 2 ^ 20 of a half, so the rounding
-- of the correctly rounded f64 root is that of the root itself: the integer part of
-- (sqrt(32 cap) + 1) / 2. Below 2 ^ 32 the product 32 cap is below 4 ^ 19.
unfoldable pub heap_band_mb : ℕ → ℕ
heap_band_mb cap_mb = if cap_mb == 0 then 0 else (isqrt 19 (32 * cap_mb) + 1) / 2

pub data BandPolicy : Type 0 where
  managed strict : BandPolicy

-- The pair of the soft line and the hard line.
unfoldable pub resolve_heap_lines : ℕ → Option ℕ → BandPolicy → ℕ × ℕ
resolve_heap_lines cap_mb none strict = (0, cap_mb)
resolve_heap_lines cap_mb none managed = (cap_mb, saturating_add32 cap_mb (heap_band_mb cap_mb))
resolve_heap_lines cap_mb (some zero) band = (0, 0)
resolve_heap_lines cap_mb (some (suc h)) strict = (0, suc h)
resolve_heap_lines cap_mb (some (suc h)) managed =
    if leb (suc h) cap_mb then (0, suc h) else (cap_mb, suc h)

-- `ResourceLimits::default()`.
unfoldable pub default_limits : ResourceLimits
default_limits = record {
  soft_memory_mb = default_memory_mb;
  hard_memory_mb = default_memory_mb + heap_band_mb default_memory_mb;
  cpu_time_ms = default_cpu_time_ms;
  wall_time_ms = default_wall_time_ms;
  max_export_bytes = default_max_export_bytes;
  max_stdout_bytes = default_max_stdout_bytes;
  max_stderr_bytes = default_max_stderr_bytes;
  max_bridge_call_bytes = default_max_bridge_call_bytes;
  max_bridge_calls = default_max_bridge_calls;
  grace_ms = default_grace_ms;
}
