-- ===== src/Ring/Reader.antt =====
-- `outpost_ring_get` with a step for each access to shared memory, as hooks can interrupt it.
use embarch_outpost.Prelude.{ℕ, zero, suc, ◌≡◌, Option, none, some, if◌then◌else◌, ◌==◌, arith}
use embarch_outpost.Wire.{Rec}
use embarch_outpost.Ring.{Ring, Slot, index, add32, seq_for, ring_get}

-- Where the consumer stands, with its locals; `out` is the record that it has copied so far.
pub data Reader : Type 0 where
  rest : Reader
  get_head : (tail : ℕ) → Reader
  get_seq : (tail : ℕ) → Reader
  copy_cycles : (tail : ℕ) → Reader
  copy_kind : (tail : ℕ) → (out : Rec) → Reader
  copy_a : (tail : ℕ) → (out : Rec) → Reader
  copy_b : (tail : ℕ) → (out : Rec) → Reader
  set_tail : (tail : ℕ) → (out : Rec) → Reader

module _ (ring_slots : ℕ) where
  abbrev slot_at : Ring → ℕ → Slot
  slot_at r tail = r.slots (index ring_slots tail)

  -- From `rest` a call starts; it ends at `rest`, with a record where it has returned `true`.
  unfoldable pub get_step : Reader → Ring → Reader × Ring × Option Rec
  get_step rest r = (get_head r.tail, r, none)
  get_step (get_head tail) r = (if tail == r.head then rest else get_seq tail, r, none)
  get_step (get_seq tail) r =
      (if (slot_at r tail).seq == seq_for tail then copy_cycles tail else rest, r, none)
  get_step (copy_cycles tail) r = (
    copy_kind tail (record { cycles = (slot_at r tail).rec.cycles; kind = 0; a = 0; b = 0 }),
    r,
    none,
  )
  get_step (copy_kind tail out) r =
      (copy_a tail (record out { kind = (slot_at r tail).rec.kind }), r, none)
  get_step (copy_a tail out) r = (copy_b tail (record out { a = (slot_at r tail).rec.a }), r, none)
  get_step (copy_b tail out) r =
      (set_tail tail (record out { b = (slot_at r tail).rec.b }), r, none)
  get_step (set_tail tail out) r = (rest, record r { tail = add32 tail 1 }, some out)

  -- What is left of a call that nobody interrupts.
  abbrev get_rest : ℕ → Reader × Ring × Option Rec → Option Rec × Ring
  get_rest fuel (rest, r, out) = (out, r)
  get_rest zero (_, r, out) = (out, r)
  get_rest (suc fuel) (p, r, out) = get_rest fuel (get_step p r)

  -- Eight steps are the longest way through.
  unfoldable pub get_run : Ring → Option Rec × Ring
  get_run r = get_rest 7 (get_step rest r)

  -- `outpost_ring_get` a step for each access to shared memory, when nobody interrupts it, is the
  -- whole call, on every ring.
  pub get_run_lem : (r : Ring) → get_run r ≡ ring_get ring_slots r
  unfolding get_run get_step ring_get
  get_run_lem r = ground arith
