-- ===== src/Interleaving/Budget.antt =====
-- How much is left of a call of `outpost_ring_put` that may not block, and its own steps.
use embarch_outpost.Prelude.{
  ℕ, ◌+◌, ◌-◌, ◌*◌, ◌%◌, ◌^◌, ◌≤◌, ◌<◌, ◌≡◌, ◌≢◌, refl, sym, ap, ◌∙◌, inl, inr, false, Bool-cases,
  List, [], ◌∷◌, Option, none, some, ==_refl, ==_ne, leb, arith,
}
use native.Mathlib.Decide.{ℕ_discrete}
use embarch_outpost.Wire.{Rec}
use embarch_outpost.Ring.{Phase, Gap, put_step, after_loads, sub32}
use embarch_outpost.Ring.Reader.{get_step}
use embarch_outpost.Ring.Taker.{take_step}
use embarch_outpost.Interleaving.{
  World, Pick, call, go, read, take, logged, handed, told, move, interleave, put_world,
}
use embarch_outpost.Interleaving.Invariant.{IsContext, Inv}
use embarch_outpost.Interleaving.Quiet.{override_same}

-- The steps that are left of a call, if there will be `most` reservations at most.
abbrev pub budget : (most reserved : ℕ) → Phase → (seen : ℕ) → ℕ
budget most reserved Phase.load_head seen = 8 + 3 * (most - reserved)
budget most reserved (Phase.load_tail head) seen = 7 + 3 * (most - seen)
budget most reserved (Phase.cas head) seen = 6 + 3 * (most - seen)
budget most reserved (Phase.write_cycles head) seen = 5
budget most reserved (Phase.write_kind head) seen = 4
budget most reserved (Phase.write_a head) seen = 3
budget most reserved (Phase.write_b head) seen = 2
budget most reserved (Phase.publish head) seen = 1
budget most reserved Phase.drop_count seen = 3
budget most reserved Phase.drop_first seen = 2
budget most reserved Phase.drop_last seen = 1
budget most reserved Phase.done seen = 0

abbrev pub left : ℕ → ℕ → World → ℕ
left most i w = budget most w.reserved (w.contexts i).phase (w.contexts i).seen

budget-le :
    (most a b : ℕ) (p : Phase) (seen : ℕ) → a ≤ b → budget most b p seen ≤ budget most a p seen
budget-le most a b Phase.load_head seen h = omega arith
budget-le most a b _ seen h = omega arith

pub same_left :
    (most i : ℕ) (w w' : World)
    → w'.contexts i ≡ w.contexts i
    → w.reserved ≤ w'.reserved
    → left most i w' ≤ left most i w
same_left most i w w' e h =
    rw e (budget-le most w.reserved w'.reserved (w.contexts i).phase (w.contexts i).seen h)

module _ (n : ℕ) where
  logged-reserved : (p : Phase) (rec : Rec) (w : World) → w.reserved ≤ (logged p rec w).reserved
  logged-reserved (Phase.cas head) rec w = ground arith
  logged-reserved _ rec w = omega arith

  handed-reserved : (out : Option Rec) (w : World) → (handed out w).reserved ≡ w.reserved
  handed-reserved none w = refl
  handed-reserved (some rec) w = refl

  told-reserved : (out : Option Gap) (w : World) → (told out w).reserved ≡ w.reserved
  told-reserved none w = refl
  told-reserved (some gap) w = refl

  pub move-reserved : (pick : Pick) (w : World) → w.reserved ≤ (move n pick w).reserved
  unfolding move
  move-reserved (call i c) w = omega arith
  move-reserved (go i) w = logged-reserved (w.contexts i).phase (w.contexts i).call.rec w
  move-reserved read w = omega (arith, handed-reserved (get_step n w.reader w.ring).2 w)
  move-reserved take w = omega (arith, told-reserved (take_step w.taker w.ring).2 w)

  pub interleave-reserved :
      (picks : List Pick) (w : World) → w.reserved ≤ (interleave n picks w).reserved
  unfolding interleave
  interleave-reserved [] w = omega arith
  interleave-reserved (pick ∷ picks) w =
      omega (arith, move-reserved pick w, interleave-reserved picks (move n pick w))

  -- More reservations leave no more to do.
  loads-budget :
      (most reserved head tail seen : ℕ)
      → budget most reserved (after_loads n false head tail) seen < 7 + 3 * (most - seen)
  unfolding after_loads
  loads-budget most reserved head tail seen = elim (Bool-cases (leb n (sub32 head tail))) [
    | inl full ↦ rw full (omega arith)
    | inr room ↦ rw room (omega arith)
  ]

  cas-left :
      (most start i head : ℕ) (w : World)
      → Inv n start w
      → w.reserved ≤ most
      → IsContext n w (w.contexts i) (Phase.cas head)
      → left most i (put_world n i (Phase.cas head) (w.contexts i) w)
        ≤ 5 + 3 * (most - (w.contexts i).seen)
  unfolding put_step
  cas-left most start i head w inv h known = elim (ℕ_discrete w.ring.head head) [
    | yes e ↦ rw (override_same w.contexts i) (rw (e, ==_refl head) (omega arith))
    | no ne ↦
        let late : (w.contexts i).seen ≢ w.reserved =
          λ e. ne (inv.head ∙ ap (λ seen. seen % 2 ^ 32) (sym e) ∙ sym known.0) in
        rw (override_same w.contexts i)
          (rw (==_ne w.ring.head head ne) (omega (arith, late, known.1)))
  ]

  -- The context's own step.
  pub put_world-left :
      (most start i : ℕ) (p : Phase) (w : World)
      → Inv n start w
      → w.reserved ≤ most
      → IsContext n w (w.contexts i) p
      → (w.contexts i).call.may_block ≡ false
      → left most i (put_world n i p (w.contexts i) w)
        ≤ budget most w.reserved p (w.contexts i).seen - 1
  unfolding put_step
  put_world-left most start i Phase.load_head w inv h known free =
      rw (override_same w.contexts i) (omega arith)
  put_world-left most start i (Phase.load_tail head) w inv h known free =
      rw (override_same w.contexts i, free)
        (omega (arith, loads-budget most w.reserved head w.ring.tail (w.contexts i).seen))
  put_world-left most start i (Phase.cas head) w inv h known free =
      omega (arith, cas-left most start i head w inv h known)
  put_world-left most start i Phase.drop_count w inv h known free =
      rw (override_same w.contexts i) (ground arith)
  put_world-left most start i p w inv h known free = rw (override_same w.contexts i) (omega arith)
