-- ===== src/Interleaving/Window.antt =====
-- The window of the slots: reservations less than the slot count apart have slots of their own.
use embarch_outpost.Prelude.{
  ℕ, zero, suc, ◌+◌, ◌-◌, ◌%◌, ◌^◌, ◌≤◌, ◌<◌, ◌≡◌, ◌≢◌, refl, sym, ap, ap₂, ◌∙◌, [], ◌∷◌, ◌++◌,
  ==_refl, ==_ne, arith,
}
use native.Mathlib.Decide.{dec_lt, ℕ_discrete}
use embarch_outpost.Wire.{Rec}
use embarch_outpost.Ring.{Ring, Slot, edit}
use embarch_outpost.Ring.Config.{IsSlots}
use embarch_outpost.Ring.Seq.{index_ne, wrapped-mod}
use embarch_outpost.Interleaving.Invariant.{span, slot}

pub span_keep :
    (log log' : ℕ → Rec) (first count : ℕ)
    → ((pos : ℕ) → pos < first + count → log' pos ≡ log pos)
    → span log' first count ≡ span log first count
span_keep log log' first zero h = refl
span_keep log log' first (suc count) h =
    ap₂ (λ x l. x ∷ l) (h first (omega arith))
      (span_keep log log' (suc first) count (λ pos lt. h pos (omega arith)))

pub span-snoc :
    (log : ℕ → Rec) (first count : ℕ)
    → span log first (suc count) ≡ span log first count ++ log (first + count) ∷ []
span-snoc log first zero = let e : first ≡ first + 0 = omega arith in ap (λ k. log k ∷ []) e
span-snoc log first (suc count) =
    let e : suc first + count ≡ first + suc count = omega arith in
    ap (λ l. log first ∷ l)
      (span-snoc log (suc first) count ∙ ap (λ k. span log (suc first) count ++ log k ∷ []) e)

module _ {n : ℕ} (s : IsSlots n) where
  apart_below : (a b : ℕ) → a < b → b < a + n → a % n ≢ b % n
  apart_below a b lo hi e =
      let k : a + (b - a) ≡ b = omega arith in
      index_ne s a (b - a) (omega arith) (omega arith)
        (wrapped-mod s (a + (b - a)) ∙ ap (λ c. c % n) k ∙ sym e)

  -- Two reservations of one window with one slot are the same.
  pub same_slot :
      (first a b : ℕ)
      → first ≤ a
      → a < first + n
      → first ≤ b
      → b < first + n
      → a % n ≡ b % n
      → a ≡ b
  same_slot first a b la ha lb hb e = elim (dec_lt a b) [
    | yes below ↦ absurd (apart_below a b below (omega arith) e)
    | no above ↦ elim (ℕ_discrete a b) [
      | yes same ↦ same
      | no ne ↦ absurd (apart_below b a (omega arith) (omega arith) (sym e))
    ]
  ]

  -- A write to the slot of reservation `mine`, whose number is `head`.
  module _ (r : Ring) (head mine first : ℕ) (f : Slot → Slot) (local : head ≡ mine % 2 ^ 32)
      (lower : first ≤ mine) (upper : mine < first + n) where
    index_lem : head % n ≡ mine % n
    index_lem = ap (λ h. h % n) local ∙ wrapped-mod s mine

    pub slot_mine : slot n (edit n r head f) mine ≡ f (slot n r mine)
    slot_mine = rw (index_lem, ==_refl (mine % n))

    pub slot_other :
        (pos : ℕ)
        → first ≤ pos
        → pos < first + n
        → mine ≢ pos
        → slot n (edit n r head f) pos ≡ slot n r pos
    slot_other pos lo hi ne = rw (
      index_lem,
      ==_ne (mine % n) (pos % n) (λ e. ne (same_slot first mine pos lower upper lo hi e)),
    )
