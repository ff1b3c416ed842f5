-- ===== src/Interleaving/Between.antt =====
-- Between calls: the ring of an interleaved run is the ring of whole calls.
use embarch_outpost.Prelude.{
  ℕ, zero, suc, ◌+◌, ◌-◌, ◌%◌, ◌^◌, ◌≤◌, ◌<◌, ◌≡◌, ◌⊎◌, inl, inr, refl, ap, ap₂, ◌∙◌, false, List,
  ◌∷◌, arith,
}
use embarch_outpost.Wire.{Rec}
use embarch_outpost.Ring.{Ring, add32}
use embarch_outpost.Ring.Config.{IsSlots}
use embarch_outpost.Ring.Seq.{wrapped-mod}
use embarch_outpost.Ring.Window.{window, Published}
use embarch_outpost.Ring.Refine.{IsValid, view, count}
use embarch_outpost.Interleaving.{Context, World, Pick, opening, Prompt}
use embarch_outpost.Interleaving.Invariant.{span, writes, slot, IsOut, Owner, Inv}
use embarch_outpost.Interleaving.Run.{after, inv}

module _ {n : ℕ} (s : IsSlots n) where
  next_tail : (pos : ℕ) → add32 (pos % 2 ^ 32) 1 ≡ suc pos % 2 ^ 32
  next_tail pos = omega arith

  Published-span :
      (r : Ring) (first k : ℕ)
      → ((pos : ℕ) → first ≤ pos → pos < first + k → IsOut n r pos)
      → Published n r.slots (first % 2 ^ 32) k
  Published-span r first zero out = tt
  Published-span r first (suc k) out = (
    ap (λ i. (r.slots i).seq) (wrapped-mod s first) ∙ out first (omega arith) (omega arith),
    rw (next_tail first)
        (Published-span r (suc first) k (λ pos lo hi. out pos (omega arith) (omega arith))),
  )

  window-span :
      (r : Ring) (log : ℕ → Rec) (first k : ℕ)
      → ((pos : ℕ) → first ≤ pos → pos < first + k → (slot n r pos).rec ≡ log pos)
      → window n r.slots (first % 2 ^ 32) k ≡ span log first k
  window-span r log first zero same = refl
  window-span r log first (suc k) same =
      ap₂ (λ x l. x ∷ l)
        (ap (λ i. (r.slots i).rec) (wrapped-mod s first) ∙ same first (omega arith) (omega arith))
        (ap (λ t. window n r.slots t k) (next_tail first)
          ∙ window-span r log (suc first) k (λ pos lo hi. same pos (omega arith) (omega arith)))

  module _ (start : ℕ) (r : Ring) (x : Context) (small : start < 2 ^ 32) (picks : List Pick)
      (prompt : Prompt n picks (opening n start r x)) where
    abbrev w : World
    w = after s start r x small picks prompt

    abbrev i : Inv n start (after s start r x small picks prompt)
    i = inv s start r x small picks prompt

    all-IsOut :
        ((k : ℕ) → writes (w.contexts k).phase ≡ false)
        → (pos : ℕ) → w.taken ≤ pos
        → pos < w.reserved
        → IsOut n w.ring pos
    all-IsOut quiet pos lo hi = by_owner (i.covered pos lo hi)
      where
        by_owner : IsOut n w.ring pos ⊎ Owner w pos → IsOut n w.ring pos
        by_owner (inl o) = o
        by_owner (inr (k, wr, e)) = ground (arith, quiet k)

    -- In such a run, at any moment when no context is between its reservation and its publication,
    -- the ring is valid as between calls, and its queue holds the records of the reservations that
    -- are not taken, in their order.
    pub interleave-IsValid :
        ((k : ℕ) → writes (w.contexts k).phase ≡ false)
        → IsValid n w.ring × ((view n w.ring).queued ≡ span w.log w.taken (w.reserved - w.taken))
    interleave-IsValid quiet =
        let out = all-IsOut quiet in
        let many : count w.ring ≡ w.reserved - w.taken =
          omega (arith, i.head, i.tail, i.order, i.room, s.small) in
        (
          record {
            head = omega (arith, i.head);
            tail = omega (arith, i.tail);
            bounded = omega (arith, many, i.room);
            published =
                rw (many, i.tail)
                  (Published-span w.ring w.taken (w.reserved - w.taken)
                    (λ pos lo hi. out pos lo (omega arith)));
          },
          rw (many, i.tail)
              (window-span w.ring w.log w.taken (w.reserved - w.taken) (λ pos lo hi.
                (i.fresh pos lo (omega (arith, i.room)) (out pos lo (omega arith))).1)),
        )
