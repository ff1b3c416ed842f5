-- ===== src/Ring/Taker.antt =====
-- `outpost_ring_take_gap` with a step for each access to shared memory, as hooks can interrupt it.
use embarch_outpost.Prelude.{
  ℕ, ◌≡◌, refl, Option, none, some, Bool-cases, inl, inr, if◌then◌else◌, ◌==◌,
}
use embarch_outpost.Ring.{Ring, Gap, sub32, ring_take_gap}

-- Where the consumer stands, with its locals.
pub data Taker : Type 0 where
  rest : Taker
  read_last : (first : ℕ) → Taker
  clear : (first last : ℕ) → Taker

-- What is handed over when `atomic_clear` has returned `count`.
abbrev pub gap_of : (first last count : ℕ) → Option Gap
gap_of first last count =
    if count == 0
    then none
    else some (record { dropped = count; first_cycles = first; cycle_span = sub32 last first })

-- From `rest` a call starts; it ends at `rest`, with an account where it has returned `true`.
unfoldable pub take_step : Taker → Ring → Taker × Ring × Option Gap
take_step rest r = (read_last r.gap_first, r, none)
take_step (read_last first) r = (clear first r.gap_last, r, none)
take_step (clear first last) r =
    (rest, record r { gap_dropped = 0 }, gap_of first last r.gap_dropped)

-- A call that nobody interrupts.
unfoldable pub take_run : Ring → Option Gap × Ring
take_run r =
    let (p, r1, _) = take_step rest r in
    let (q, r2, _) = take_step p r1 in let (_, r3, out) = take_step q r2 in (out, r3)

pub take_run_lem : (r : Ring) → take_run r ≡ ring_take_gap r
unfolding take_run take_step ring_take_gap
take_run_lem r = elim (Bool-cases (r.gap_dropped == 0)) [
  | inl none_lost ↦ rw none_lost refl
  | inr some_lost ↦ rw some_lost refl
]
