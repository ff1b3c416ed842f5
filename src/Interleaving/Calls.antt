-- ===== src/Interleaving/Calls.antt =====
-- Every call ends in a reservation or in the account of the losses.
use embarch_outpost.Prelude.{
  ℕ, zero, suc, ◌+◌, ◌≤◌, ◌<◌, ◌≡◌, refl, ap, ◌∙◌, Option, none, some, Bool, Bool-cases, inl, inr,
  List, [], ◌∷◌, leb, arith,
}
use native.Mathlib.Decide.{ℕ_discrete}
use embarch_outpost.Wire.{Rec}
use embarch_outpost.Ring.{Phase, Gap, after_loads, sub32}
use embarch_outpost.Ring.Reader.{get_step}
use embarch_outpost.Ring.Taker.{take_step}
use embarch_outpost.Interleaving.{
  Context, World, Pick, call, go, read, take, begun, handed, told, move, interleave, override,
}
use embarch_outpost.Interleaving.Quiet.{override_same, override_ne}

-- A call that has neither reserved a slot nor counted a loss.
abbrev pub undecided : Phase → ℕ
undecided Phase.load_head = 1
undecided (Phase.load_tail head) = 1
undecided (Phase.cas head) = 1
undecided Phase.drop_count = 1
undecided phase = 0

-- Such calls among the first contexts.
abbrev pub in_flight : ℕ → (ℕ → Context) → ℕ
in_flight zero contexts = 0
in_flight (suc many) contexts = undecided (contexts many).phase + in_flight many contexts

-- The calls that begin in a step, and in a run.
abbrev pub starting : Phase → ℕ
starting Phase.done = 1
starting phase = 0

abbrev pub starts : Pick → World → ℕ
starts (call i c) w = starting (w.contexts i).phase
starts pick w = 0

abbrev pub calls : ℕ → List Pick → World → ℕ
calls n [] w = 0
calls n (pick ∷ picks) w = starts pick w + calls n picks (move n pick w)

-- Only the first contexts move.
abbrev pub Within : ℕ → List Pick → Type 0
Within many [] = Unit
Within many (call i c ∷ picks) = (i < many) × Within many picks
Within many (go i ∷ picks) = (i < many) × Within many picks
Within many (pick ∷ picks) = Within many picks

in_flight_above :
    (many i : ℕ) (contexts : ℕ → Context) (x : Context)
    → many ≤ i
    → in_flight many (override contexts i x) ≡ in_flight many contexts
in_flight_above zero i contexts x h = refl
in_flight_above (suc many) i contexts x h =
    rw
      (
        override_ne contexts i many x (λ e. absurd (omega (arith, e, h))),
        in_flight_above many i contexts x (omega arith),
      )
      refl

pub in_flight-override :
    (many i : ℕ) (contexts : ℕ → Context) (x : Context)
    → i < many
    → in_flight many (override contexts i x) + undecided (contexts i).phase
      ≡ in_flight many contexts + undecided x.phase
in_flight-override zero i contexts x h = absurd (omega arith)
in_flight-override (suc many) i contexts x h = elim (ℕ_discrete i many) [
  | yes e ↦
      rw (← e, override_same contexts i x, in_flight_above i i contexts x (omega arith))
        (omega arith)
  | no ne ↦
      rw (override_ne contexts i many x ne)
        (omega (arith, in_flight-override many i contexts x (omega arith)))
]

pub undecided-after_loads :
    (n head tail : ℕ) (block : Bool) → undecided (after_loads n block head tail) ≡ 1
unfolding after_loads
undecided-after_loads n head tail block = elim (Bool-cases (leb n (sub32 head tail))) [
  | inl full ↦ rw full (elim (Bool-cases block) [ inl b ↦ rw b refl | inr b ↦ rw b refl ])
  | inr room ↦ rw room refl
]

pub handed-contexts : (out : Option Rec) (w : World) → (handed out w).contexts ≡ w.contexts
handed-contexts none w = refl
handed-contexts (some rec) w = refl

pub told-contexts : (out : Option Gap) (w : World) → (told out w).contexts ≡ w.contexts
told-contexts none w = refl
told-contexts (some gap) w = refl

-- A context that does not move stays as it is.
module _ (n many j : ℕ) (h : many ≤ j) where
  other_context :
      (contexts : ℕ → Context) (i : ℕ) (x : Context)
      → i < many
      → override contexts i x j ≡ contexts j
  other_context contexts i x k = override_ne contexts i j x (λ e. absurd (omega (arith, e)))

  pub untouched :
      (picks : List Pick) (w : World)
      → Within many picks
      → (interleave n picks w).contexts j ≡ w.contexts j
  unfolding interleave move
  untouched [] w within = refl
  untouched (call i c ∷ picks) w within =
      untouched picks (move n (call i c) w) within.1
      ∙ other_context w.contexts i (begun (w.contexts i).phase c (w.contexts i)) within.0
  untouched (go i ∷ picks) w within =
      untouched picks (move n (go i) w) within.1 ∙ other_context w.contexts i _ within.0
  untouched (read ∷ picks) w within =
      untouched picks (move n read w) within
      ∙ ap (λ (f : ℕ → Context). f j) (handed-contexts (get_step n w.reader w.ring).2 w)
  untouched (take ∷ picks) w within =
      untouched picks (move n take w) within
      ∙ ap (λ (f : ℕ → Context). f j) (told-contexts (take_step w.taker w.ring).2 w)
