-- ===== src/Concurrent/Fits.antt =====
-- The records in the ring come from hooks and fit their types, and so do the numbers of the account.
use embarch_outpost.Prelude.{
  ℕ, ◌^◌, ◌<◌, ◌≡◌, refl, inl, inr, Bool-cases, ◌==◌, Option, none, some, arith,
}
use native.Mathlib.Decide.{ℕ_discrete}
use embarch_outpost.Wire.{Rec}
use embarch_outpost.Wire.Fields.{IsRec}
use embarch_outpost.Ring.{Ring, Call, Phase, Gap, put_step}
use embarch_outpost.Ring.Taker.{Taker, gap_of, take_step}
use embarch_outpost.Ring.Reader.{Reader, get_step}
use embarch_outpost.Drain.{gap_record}
use embarch_outpost.Thread.Progress.{IsHooked}
use embarch_outpost.Interleaving.{
  Context, World, Pick, call, go, read, take, begun, told, override, move, put_world, get_world,
  take_world,
}
use embarch_outpost.Interleaving.Quiet.{override_same, override_ne}

abbrev pub IsGood : Rec → Type 0
IsGood rec = IsRec rec × IsHooked rec

-- The local `first` of `outpost_ring_take_gap`.
abbrev pub IsTaker : Taker → Type 0
IsTaker Taker.rest = Unit
IsTaker (Taker.read_last first) = first < 2 ^ 32
IsTaker (Taker.clear first last) = first < 2 ^ 32

pub record Fits (w : World) : Type 0 where
  pub calls : (i : ℕ) → IsGood (w.contexts i).call.rec
  pub log : (pos : ℕ) → IsGood (w.log pos)
  pub dropped : w.ring.gap_dropped < 2 ^ 32
  pub first : w.ring.gap_first < 2 ^ 32
  pub taker : IsTaker w.taker

abbrev pub IsPick : Pick → Type 0
IsPick (call i c) = IsGood c.rec
IsPick pick = Unit

override-IsGood :
    (contexts : ℕ → Context) (i : ℕ) (x : Context)
    → ((j : ℕ) → IsGood (contexts j).call.rec)
    → IsGood x.call.rec
    → (j : ℕ) → IsGood (override contexts i x j).call.rec
override-IsGood contexts i x old now j = elim (ℕ_discrete i j) [
  | yes e ↦ rw (← e, override_same contexts i x) now
  | no ne ↦ rw (override_ne contexts i j x ne) (old j)
]

log-IsGood :
    (log : ℕ → Rec) (pos : ℕ) (rec : Rec)
    → ((k : ℕ) → IsGood (log k))
    → IsGood rec
    → (k : ℕ) → IsGood (override log pos rec k)
log-IsGood log pos rec old now k = elim (Bool-cases (pos == k)) [
  | inl t ↦ rw t now
  | inr t ↦ rw t (old k)
]

module _ (n : ℕ) (w : World) (f : Fits w) where
  -- A context moves on, with the account unchanged.
  context_moves :
      (i : ℕ) (x : Context) (ring : Ring)
      → IsGood x.call.rec
      → ring.gap_dropped < 2 ^ 32
      → ring.gap_first < 2 ^ 32
      → Fits (record w { ring = ring; contexts = override w.contexts i x })
  context_moves i x ring good dropped first = record {
    calls = override-IsGood w.contexts i x f.calls good;
    log = f.log;
    dropped = dropped;
    first = first;
    taker = f.taker;
  }

  put_world-Fits :
      (i : ℕ) (p : Phase) (x : Context) → IsGood x.call.rec → Fits (put_world n i p x w)
  unfolding put_step
  put_world-Fits i Phase.load_head x good = context_moves i _ _ good f.dropped f.first
  put_world-Fits i (Phase.load_tail head) x good = context_moves i _ _ good f.dropped f.first
  put_world-Fits i (Phase.cas head) x good = elim (Bool-cases (w.ring.head == head)) [
    | inl won ↦ rw won (record {
      calls = override-IsGood w.contexts i _ f.calls good;
      log = log-IsGood w.log w.reserved x.call.rec f.log good;
      dropped = f.dropped;
      first = f.first;
      taker = f.taker;
    })
    | inr lost ↦ rw lost (context_moves i _ _ good f.dropped f.first)
  ]
  put_world-Fits i (Phase.write_cycles head) x good = context_moves i _ _ good f.dropped f.first
  put_world-Fits i (Phase.write_kind head) x good = context_moves i _ _ good f.dropped f.first
  put_world-Fits i (Phase.write_a head) x good = context_moves i _ _ good f.dropped f.first
  put_world-Fits i (Phase.write_b head) x good = context_moves i _ _ good f.dropped f.first
  put_world-Fits i (Phase.publish head) x good = context_moves i _ _ good f.dropped f.first
  put_world-Fits i Phase.drop_count x good = elim (Bool-cases (w.ring.gap_dropped == 0)) [
    | inl t ↦ rw t (context_moves i _ _ good (omega arith) f.first)
    | inr t ↦ rw t (context_moves i _ _ good (omega arith) f.first)
  ]
  put_world-Fits i Phase.drop_first x good = context_moves i _ _ good f.dropped good.0.cycles
  put_world-Fits i Phase.drop_last x good = context_moves i _ _ good f.dropped f.first
  put_world-Fits i Phase.done x good = context_moves i _ _ good f.dropped f.first

  reader_moves :
      (p : Reader) (ring : Ring)
      → ring.gap_dropped ≡ w.ring.gap_dropped
      → ring.gap_first ≡ w.ring.gap_first
      → Fits (record w { reader = p; ring = ring })
  reader_moves p ring d e = record {
    calls = f.calls;
    log = f.log;
    dropped = omega (arith, f.dropped);
    first = omega (arith, f.first);
    taker = f.taker;
  }

  get_world-Fits : (p : Reader) → Fits (get_world n p w)
  unfolding get_step
  get_world-Fits Reader.rest = reader_moves _ _ refl refl
  get_world-Fits (Reader.get_head tail) = reader_moves _ _ refl refl
  get_world-Fits (Reader.get_seq tail) = reader_moves _ _ refl refl
  get_world-Fits (Reader.copy_cycles tail) = reader_moves _ _ refl refl
  get_world-Fits (Reader.copy_kind tail out) = reader_moves _ _ refl refl
  get_world-Fits (Reader.copy_a tail out) = reader_moves _ _ refl refl
  get_world-Fits (Reader.copy_b tail out) = reader_moves _ _ refl refl
  get_world-Fits (Reader.set_tail tail out) = record {
    calls = f.calls;
    log = f.log;
    dropped = f.dropped;
    first = f.first;
    taker = f.taker;
  }

  taker_moves :
      (gap : Option Gap) (p : Taker) (ring : Ring)
      → IsTaker p
      → ring.gap_dropped < 2 ^ 32
      → ring.gap_first < 2 ^ 32
      → Fits (record (told gap w) { taker = p; ring = ring })
  taker_moves none p ring now dropped first = record {
    calls = f.calls;
    log = f.log;
    dropped = dropped;
    first = first;
    taker = now;
  }
  taker_moves (some gap) p ring now dropped first = record {
    calls = f.calls;
    log = f.log;
    dropped = dropped;
    first = first;
    taker = now;
  }

  take_world-Fits : (p : Taker) → IsTaker p → Fits (take_world p w)
  unfolding take_step
  take_world-Fits Taker.rest v = taker_moves none _ _ f.first f.dropped f.first
  take_world-Fits (Taker.read_last first) v = taker_moves none _ _ v f.dropped f.first
  take_world-Fits (Taker.clear first last) v =
      taker_moves (gap_of first last w.ring.gap_dropped) _ _ tt (omega arith) f.first

  begun-IsGood :
      (p : Phase) (cl : Call) (x : Context)
      → IsGood x.call.rec
      → IsGood cl.rec
      → IsGood (begun p cl x).call.rec
  begun-IsGood Phase.done cl x old now = now
  begun-IsGood _ cl x old now = old

  pub move-Fits : (pick : Pick) → IsPick pick → Fits (move n pick w)
  unfolding move
  move-Fits (call i cl) good =
      context_moves i _ w.ring
        (begun-IsGood (w.contexts i).phase cl (w.contexts i) (f.calls i) good) f.dropped f.first
  move-Fits (go i) good = put_world-Fits i (w.contexts i).phase (w.contexts i) (f.calls i)
  move-Fits read good = get_world-Fits w.reader
  move-Fits take good = take_world-Fits w.taker f.taker

-- What the account is made of fits a record.
pub gap_of-IsRec :
    (first last count : ℕ) (g : Gap)
    → first < 2 ^ 32
    → count < 2 ^ 32
    → gap_of first last count ≡ some g
    → IsRec (gap_record g)
gap_of-IsRec first last count g small few e = ground arith
