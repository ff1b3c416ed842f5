-- ===== src/Interleaving/Losses.antt =====
-- The account of the losses, while producers count and the consumer takes it.
use embarch_outpost.Prelude.{
  ℕ, ◌+◌, ◌%◌, ◌^◌, ◌≡◌, refl, Bool-cases, inl, inr, List, [], ◌∷◌, ◌++◌, ◌==◌, ==_iff, arith,
}
use embarch_outpost.Ring.{Ring, Phase, Gap, put_step, sub32, ring_init_at}
use embarch_outpost.Ring.Reader.{Reader, get_step}
use embarch_outpost.Ring.Taker.{Taker, gap_of, take_step}
use embarch_outpost.Interleaving.{
  Context, World, Pick, call, go, read, take, move, interleave, opening, put_world, get_world,
  take_world, told,
}

-- Records that are given up in the next step, and in a run.
abbrev pub losing : Phase → ℕ
losing Phase.drop_count = 1
losing phase = 0

abbrev pub loses : Pick → World → ℕ
loses (go i) w = losing (w.contexts i).phase
loses pick w = 0

abbrev pub losses : ℕ → List Pick → World → ℕ
losses n [] w = 0
losses n (pick ∷ picks) w = loses pick w + losses n picks (move n pick w)

-- The losses that the consumer has been told of.
abbrev pub total : List Gap → ℕ
total [] = 0
total (gap ∷ gaps) = gap.dropped + total gaps

pub total-snoc : (gaps : List Gap) (gap : Gap) → total (gaps ++ gap ∷ []) ≡ total gaps + gap.dropped
total-snoc [] gap = omega arith
total-snoc (g ∷ gaps) gap = omega (arith, total-snoc gaps gap)

abbrev pub tally : World → ℕ
tally w = total w.reported + w.ring.gap_dropped

module _ (n : ℕ) where
  put_world-tally :
      (i : ℕ) (p : Phase) (x : Context) (w : World)
      → tally (put_world n i p x w) % 2 ^ 32 ≡ (tally w + losing p) % 2 ^ 32
  unfolding put_step
  put_world-tally i Phase.load_head x w = omega arith
  put_world-tally i (Phase.load_tail head) x w = omega arith
  put_world-tally i (Phase.cas head) x w = elim (Bool-cases (w.ring.head == head)) [
    | inl won ↦ rw won (omega arith)
    | inr lost ↦ rw lost (omega arith)
  ]
  put_world-tally i (Phase.write_cycles head) x w = omega arith
  put_world-tally i (Phase.write_kind head) x w = omega arith
  put_world-tally i (Phase.write_a head) x w = omega arith
  put_world-tally i (Phase.write_b head) x w = omega arith
  put_world-tally i (Phase.publish head) x w = omega arith
  put_world-tally i Phase.drop_count x w = omega arith
  put_world-tally i Phase.drop_first x w = omega arith
  put_world-tally i Phase.drop_last x w = omega arith
  put_world-tally i Phase.done x w = omega arith

  pub get_world-tally : (p : Reader) (w : World) → tally (get_world n p w) ≡ tally w
  unfolding get_step
  get_world-tally Reader.rest w = refl
  get_world-tally (Reader.get_head tail) w = refl
  get_world-tally (Reader.get_seq tail) w = refl
  get_world-tally (Reader.copy_cycles tail) w = refl
  get_world-tally (Reader.copy_kind tail out) w = refl
  get_world-tally (Reader.copy_a tail out) w = refl
  get_world-tally (Reader.copy_b tail out) w = refl
  get_world-tally (Reader.set_tail tail out) w = refl

  -- What is taken out of the count is told.
  told-tally :
      (first last count : ℕ) (w : World)
      → total (told (gap_of first last count) w).reported ≡ total w.reported + count
  told-tally first last count w = elim (Bool-cases (count == 0)) [
    | inl t ↦ rw t (omega (arith, (==_iff count 0).0 t))
    | inr t ↦ rw t (
        total-snoc w.reported
          (record { dropped = count; first_cycles = first; cycle_span = sub32 last first }))
  ]

  pub take_world-tally : (p : Taker) (w : World) → tally (take_world p w) ≡ tally w
  unfolding take_step
  take_world-tally Taker.rest w = refl
  take_world-tally (Taker.read_last first) w = refl
  take_world-tally (Taker.clear first last) w =
      omega (arith, told-tally first last w.ring.gap_dropped w)

  move-tally :
      (pick : Pick) (w : World) → tally (move n pick w) % 2 ^ 32 ≡ (tally w + loses pick w) % 2 ^ 32
  unfolding move
  move-tally (call i c) w = omega arith
  move-tally (go i) w = put_world-tally i (w.contexts i).phase (w.contexts i) w
  move-tally read w = omega (arith, get_world-tally w.reader w)
  move-tally take w = omega (arith, take_world-tally w.taker w)

  run-tally :
      (picks : List Pick) (w : World)
      → tally (interleave n picks w) % 2 ^ 32 ≡ (tally w + losses n picks w) % 2 ^ 32
  unfolding interleave
  run-tally [] w = omega arith
  run-tally (pick ∷ picks) w = omega (arith, run-tally picks (move n pick w), move-tally pick w)

  pub interleave-losses :
      (start : ℕ) (r : Ring) (x : Context) (picks : List Pick)
      → (total (interleave n picks (opening n start r x)).reported
            + (interleave n picks (opening n start r x)).ring.gap_dropped)
          % 2 ^ 32
        ≡ losses n picks (opening n start r x) % 2 ^ 32
  unfolding ring_init_at
  interleave-losses start r x picks = omega (arith, run-tally picks (opening n start r x))
