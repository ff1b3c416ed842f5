-- ===== src/Ring/Seq.antt =====
-- The publish sequence: never the unpublished mark, and no confusion within a slot.
use embarch_outpost.Prelude.{ℕ, ◌%◌, ◌^◌, ◌+◌, ◌-◌, ◌<◌, ◌≡◌, ◌≢◌, sym, ◌∙◌, arith}
use native.Mathlib.Decide.{dec_lt}
use native.Mathlib.Nat.{mod-mod_of_dvd, mod-add-mod, mod-eq_of_lt, mod-eq-sub-mod}
use embarch_outpost.Ring.{add32, seq_for, seq_unpublished}
use embarch_outpost.Ring.Config.{IsSlots}

-- No reservation publishes the mark of an unpublished slot.
pub seq_for-ne-unpublished : (idx : ℕ) → seq_for idx ≢ seq_unpublished
unfolding seq_for
seq_for-ne-unpublished idx = ground arith

module _ {n : ℕ} (v : IsSlots n) where
  -- The index of a reservation number that has wrapped.
  pub wrapped-mod : (a : ℕ) → a % 2 ^ 32 % n ≡ a % n
  wrapped-mod a = mod-mod_of_dvd n a v.wraps

  -- Fewer than `n` reservations apart means different slots, across the wrap too.
  pub index_ne : (t k : ℕ) → 0 < k → k < n → add32 t k % n ≢ t % n
  index_ne t k lo hi e = elim (dec_lt (t % n + k) n) [
    | yes p ↦ omega (arith, same, mod-eq_of_lt p)
    | no p ↦ omega (
      arith,
      same,
      mod-eq-sub-mod {n = t % n + k} {m = n} (omega arith),
      mod-eq_of_lt {n = t % n + k - n} {m = n} (omega (arith, v.two)),
    )
  ]
    where
      same : (t % n + k) % n ≡ t % n
      same = mod-add-mod t n k ∙ sym (wrapped-mod (t + k)) ∙ e

  -- Two reservation numbers below 2 ^ 32 that share a slot and publish the same sequence are equal,
  -- for every slot count that divides 2 ^ 32 and is at least 2: the alias at the wraparound is
  -- harmless.
  pub seq_for-injective :
      (i j : ℕ) → i < 2 ^ 32 → j < 2 ^ 32 → i % n ≡ j % n → seq_for i ≡ seq_for j → i ≡ j
  unfolding seq_for
  seq_for-injective i j hi hj same e = ground (
    arith,
    index_ne i 1 (omega arith) (omega (arith, v.two)),
    index_ne j 1 (omega arith) (omega (arith, v.two)),
  )
