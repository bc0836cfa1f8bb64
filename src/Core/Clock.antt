-- ===== src/Core/Clock.antt =====
-- crates/lens-core/src/lib.rs: saturating u64 arithmetic, and `FixedClock`. `SystemClock` reads
-- the operating system's clocks and is not modelled.
use lens.Prelude.{ℕ, ◌+◌, ◌-◌, ◌%◌, ◌≤◌, min, arith}
use lens.Core.Flow.{TimestampPair}

abbrev pub u64_mod : ℕ
u64_mod = 18_446_744_073_709_551_616

-- `u64::saturating_add`
unfoldable pub saturating_add : ℕ → ℕ → ℕ
saturating_add a b = min (a + b) (u64_mod - 1)

pub saturating_add_bounds :
    (a b : ℕ) → a ≤ u64_mod - 1 → (a ≤ saturating_add a b) × (saturating_add a b ≤ u64_mod - 1)
unfolding saturating_add
saturating_add_bounds a b h = omega arith

pub record FixedClock : Type 0 where
  pub mono_nanos : ℕ
  pub wall_nanos : ℕ

-- The `Duration` is its number of nanoseconds, a u128 that `as u64` cuts to its low 64 bits.
pub advance : FixedClock → ℕ → FixedClock
advance c duration_nanos =
    let delta = duration_nanos % u64_mod in
    record {
      mono_nanos = saturating_add c.mono_nanos delta;
      wall_nanos = saturating_add c.wall_nanos delta;
    }

abbrev pub set_clock : FixedClock → ℕ → ℕ → FixedClock
set_clock c mono wall = record { mono_nanos = mono; wall_nanos = wall }

abbrev pub now : FixedClock → TimestampPair
now c = record { mono_nanos = c.mono_nanos; wall_nanos = c.wall_nanos }
