-- ===== src/Interleaving/LockFree.antt =====
-- A call of `outpost_ring_put` that may not block is delayed only by the reservations of others.
use embarch_outpost.Prelude.{
  ℕ, ◌+◌, ◌-◌, ◌*◌, ◌^◌, ◌≤◌, ◌<◌, ◌≡◌, ◌≢◌, refl, sym, ap, ◌∙◌, Bool, true, false, List, [], ◌∷◌,
  ◌==◌, ==_refl, ==_ne, if◌then◌else◌, arith,
}
use native.Mathlib.Decide.{ℕ_discrete}
use mathlib.Core.Path.{subst}
use embarch_outpost.Ring.{Ring, Call, Phase}
use embarch_outpost.Ring.Config.{IsSlots}
use embarch_outpost.Ring.Reader.{get_step}
use embarch_outpost.Ring.Taker.{take_step}
use embarch_outpost.Interleaving.{
  Context, World, Pick, call, go, read, take, begun, noted, move, interleave, opening, Prompt,
}
use embarch_outpost.Interleaving.Invariant.{Inv}
use embarch_outpost.Interleaving.Quiet.{override_same, override_ne}
use embarch_outpost.Interleaving.Calls.{handed-contexts, told-contexts}
use embarch_outpost.Interleaving.Budget.{
  budget, left, put_world-left, same_left, move-reserved, interleave-reserved,
}
use embarch_outpost.Interleaving.Run.{move-Inv, opening-Inv, interleave-Inv}

abbrev pub goes : ℕ → Pick → Bool
goes i (go j) = j == i
goes i pick = false

-- The own steps of a context in a run.
abbrev pub own : ℕ → List Pick → ℕ
own i [] = 0
own i (pick ∷ picks) = (if goes i pick then 1 else 0) + own i picks

-- The context begins no call.
abbrev pub StayingPick : ℕ → Pick → Type 0
StayingPick i (call j c) = j ≢ i
StayingPick i pick = Unit

abbrev pub Staying : ℕ → List Pick → Type 0
Staying i [] = Unit
Staying i (pick ∷ picks) = StayingPick i pick × Staying i picks

noted-call : (reserved : ℕ) (p : Phase) (x : Context) → (noted reserved p x).call ≡ x.call
noted-call reserved p x = ground arith

module _ (n : ℕ) where
  module _ (s : IsSlots n) (most start i : ℕ) where
    abbrev IsDelayed : World → World → Bool → Type 0
    IsDelayed w w' own =
        ((w'.contexts i).call ≡ (w.contexts i).call)
        × (left most i w' ≤ left most i w - (if own then 1 else 0))

    other-left :
        (w w' : World)
        → w'.contexts i ≡ w.contexts i
        → w.reserved ≤ w'.reserved
        → IsDelayed w w' false
    other-left w w' e h = (ap (λ (x : Context). x.call) e, omega (arith, same_left most i w w' e h))

    own-left :
        (w : World)
        → Inv n start w
        → w.reserved ≤ most
        → (w.contexts i).call.may_block ≡ false
        → IsDelayed w (move n (go i) w) true
    unfolding move
    own-left w inv h free = (
      ap (λ (x : Context). x.call) (override_same w.contexts i _)
          ∙ noted-call w.reserved (w.contexts i).phase (w.contexts i),
      put_world-left n most start i (w.contexts i).phase w inv h (inv.context i) free,
    )

    go-left :
        (j : ℕ) (w : World)
        → Inv n start w
        → w.reserved ≤ most
        → (w.contexts i).call.may_block ≡ false
        → IsDelayed w (move n (go j) w) (j == i)
    unfolding move
    go-left j w inv h free = elim (ℕ_discrete j i) [
      | yes e ↦
          subst (λ j. IsDelayed w (move n (go j) w) (j == i)) (sym e)
            (subst (λ own. IsDelayed w (move n (go i) w) own) (sym (==_refl i))
              (own-left w inv h free))
      | no ne ↦
          subst (λ own. IsDelayed w (move n (go j) w) own) (sym (==_ne j i ne))
            (other-left w (move n (go j) w) (override_ne w.contexts j i _ ne)
              (move-reserved n (go j) w))
    ]

    move-left :
        (pick : Pick) (w : World)
        → Inv n start w
        → w.reserved ≤ most
        → StayingPick i pick
        → (w.contexts i).call.may_block ≡ false
        → IsDelayed w (move n pick w) (goes i pick)
    unfolding move
    move-left (call j c) w inv h stays free =
        other-left w (move n (call j c) w) (override_ne w.contexts j i _ stays)
          (move-reserved n (call j c) w)
    move-left (go j) w inv h stays free = go-left j w inv h free
    move-left read w inv h stays free =
        other-left w (move n read w)
          (ap (λ (f : ℕ → Context). f i) (handed-contexts (get_step n w.reader w.ring).2 w))
          (move-reserved n read w)
    move-left take w inv h stays free =
        other-left w (move n take w)
          (ap (λ (f : ℕ → Context). f i) (told-contexts (take_step w.taker w.ring).2 w))
          (move-reserved n take w)

    ended : (w : World) → left most i w ≤ 0 → (w.contexts i).phase ≡ Phase.done
    ended w h = phase_ended w.reserved (w.contexts i).phase (w.contexts i).seen h
      where
        phase_ended :
            (reserved : ℕ) (p : Phase) (seen : ℕ) → budget most reserved p seen ≤ 0 → p ≡ Phase.done
        phase_ended reserved Phase.done seen h = refl
        phase_ended reserved p seen h = absurd (omega arith)

    -- As many own steps as are left, and the call is over.
    pub steps_end :
        (picks : List Pick) (w : World)
        → Inv n start w
        → Prompt n picks w
        → Staying i picks
        → (interleave n picks w).reserved ≤ most
        → (w.contexts i).call.may_block ≡ false
        → left most i w ≤ own i picks
        → ((interleave n picks w).contexts i).phase ≡ Phase.done
    unfolding interleave
    steps_end [] w inv prompt stays h free enough = ended w enough
    steps_end (pick ∷ picks) w inv prompt stays h free enough =
        let w' : World = move n pick w in
        let more : w.reserved ≤ w'.reserved = move-reserved n pick w in
        let later : w'.reserved ≤ (interleave n picks w').reserved =
          interleave-reserved n picks w' in
        let (same, less) = move-left pick w inv (omega arith) stays.0 free in
        steps_end picks w' (move-Inv s start pick picks w prompt inv) prompt.1 stays.1 h
          (ap (λ (c : Call). c.may_block) same ∙ free) (ground arith)

module _ {n : ℕ} (s : IsSlots n) (start : ℕ) (r : Ring) (x : Context) (small : start < 2 ^ 32)
    (before : List Pick) (prompt_before : Prompt n before (opening n start r x)) where
  abbrev pub before_call : World
  before_call = interleave n before (opening n start r x)

  module _ (i : ℕ) (c : Call) (after : List Pick) where
    called :
        (before_call.contexts i).phase ≡ Phase.done
        → (move n (call i c) before_call).contexts i
          ≡ record (before_call.contexts i) { call = c; phase = Phase.load_head }
    unfolding move
    called rests =
        override_same before_call.contexts i _
        ∙ ap (λ (p : Phase). begun p c (before_call.contexts i)) rests

    call-reserved : (w : World) → (move n (call i c) w).reserved ≡ w.reserved
    unfolding move
    call-reserved w = refl

    called-left :
        (most : ℕ)
        → (before_call.contexts i).phase ≡ Phase.done
        → left most i (move n (call i c) before_call) ≡ 8 + 3 * (most - before_call.reserved)
    called-left most rests =
        ap (λ (x : Context). budget most (move n (call i c) before_call).reserved x.phase x.seen)
          (called rests)
        ∙ ap (λ reserved. 8 + 3 * (most - reserved)) (call-reserved before_call)

    abbrev pub after_call : World
    after_call = interleave n (call i c ∷ after) before_call

    -- A context that is in no call of `outpost_ring_put`, after such a run, begins one that may not
    -- block, and begins no other: however the other contexts and the consumer go on, the call has
    -- returned once its context has made 8 steps, and 3 more for each reservation that any context
    -- made since the call began.
    pub interleave_ends :
        (before_call.contexts i).phase ≡ Phase.done
        → c.may_block ≡ false
        → Prompt n (call i c ∷ after) before_call
        → Staying i after
        → 8 + 3 * (after_call.reserved - before_call.reserved) ≤ own i after
        → (after_call.contexts i).phase ≡ Phase.done
    unfolding interleave
    interleave_ends rests free prompt stays enough =
        let prior = opening-Inv s start r x small in
        let inv = interleave-Inv s start before (opening n start r x) prompt_before prior in
        steps_end n s after_call.reserved start i after (move n (call i c) before_call)
          (move-Inv s start (call i c) after before_call prompt inv) prompt.1 stays (omega arith)
          (ap (λ (x : Context). x.call.may_block) (called rests) ∙ free)
          (omega (arith, enough, called-left after_call.reserved rests))
