-- ===== src/Ring/Config.antt =====
-- The slot count: what `index & MASK` and the wraparound of the counters rest on.
use embarch_outpost.Prelude.{ℕ, ◌*◌, ◌%◌, ◌^◌, ◌≤◌, ◌<◌, ◌∣◌, ◌≡◌, arith}
use native.Mathlib.Nat.{dvd_of_mod-eq-zero}
use embarch_outpost.Ring.{ring_slots, slot_bytes}

-- What the ring needs of its slot count.
pub record IsSlots (n : ℕ) : Type 0 where
  pub two : 2 ≤ n
  pub small : n ≤ 2 ^ 13
  pub wraps : n ∣ 2 ^ 32

ring_slots_divides : (ring_bytes : ℕ) → 2 ^ 32 % ring_slots ring_bytes ≡ 0
unfolding ring_slots
ring_slots_divides ring_bytes = ground arith

-- Every budget gives a slot count between 2 and 8192 that divides 2 ^ 32.
pub ring_slots-IsSlots : (ring_bytes : ℕ) → IsSlots (ring_slots ring_bytes)
unfolding ring_slots
ring_slots-IsSlots ring_bytes = record {
  two = ground arith;
  small = ground arith;
  wraps = dvd_of_mod-eq-zero (ring_slots ring_bytes) (ring_slots_divides ring_bytes);
}

-- For a budget from 320 to 262144 bytes the slots fit the budget, and twice as many would not.
pub ring_slots_budget :
    (ring_bytes : ℕ)
    → 320 ≤ ring_bytes
    → ring_bytes ≤ 262144
    → (ring_slots ring_bytes * slot_bytes ≤ ring_bytes)
      × (ring_bytes < 2 * ring_slots ring_bytes * slot_bytes)
unfolding ring_slots
ring_slots_budget ring_bytes lo hi = ground arith

-- For a budget below 320 bytes the slots take more than the budget.
pub ring_slots_over_budget :
    (ring_bytes : ℕ) → ring_bytes < 320 → ring_bytes < ring_slots ring_bytes * slot_bytes
unfolding ring_slots
ring_slots_over_budget ring_bytes h = ground arith
