-- ===== src/Ring/Stale.antt =====
-- A producer that is interrupted between its loads of the head and of the tail.
use embarch_outpost.Prelude.{ℕ, ◌-◌, ◌^◌, ◌≤◌, ◌<◌, ◌≡◌, false, le→leb, arith}
use embarch_outpost.Ring.{Ring, Call, Phase, add32, sub32, after_loads, put_step}
use embarch_outpost.Ring.Config.{IsSlots}

module _ {n : ℕ} (s : IsSlots n) where
  -- A producer that may not block, whose head the tail has passed between its two loads by at most
  -- 2 ^ 32 less the slot count, goes on to drop its record, whatever the ring holds.
  pub put_step-stale :
      (c : Call) (r : Ring) (head k : ℕ)
      → c.may_block ≡ false
      → head < 2 ^ 32
      → 0 < k
      → k ≤ 2 ^ 32 - n
      → r.tail ≡ add32 head k
      → put_step n c (Phase.load_tail head) r ≡ (Phase.drop_count, r)
  unfolding put_step after_loads
  put_step-stale c r head k no_block h lo hi passed =
      rw (passed, no_block, le→leb n (sub32 head (add32 head k)) (omega (arith, s.small)))
