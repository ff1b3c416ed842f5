-- ===== src/Tests/Races.antt =====
-- Two producers and the consumer, interleaved, at the wraparound of the counters.
use embarch_outpost.Prelude.{
  length, ◌%◌, ◌^◌, ℕ, ◌+◌, ◌-◌, ◌≤◌, ◌≡◌, ◌≢◌, ◌++◌, refl, true, false, List, [], ◌∷◌, arith,
}
use embarch_outpost.Ring.{Phase, index, put_step, after_loads, seq_for, ring_init_at, unpublish}
use embarch_outpost.Ring.Refine.{IsValid, view}
use embarch_outpost.Ring.Reader.{get_step}
use embarch_outpost.Interleaving.{
  Context, World, Pick, call, go, read, take, move, interleave, opening, Prompt,
}
use embarch_outpost.Interleaving.Invariant.{span, writes, copies, head_of, tail_of}
use embarch_outpost.Interleaving.Run.{interleave-given, interleave-apart}
use embarch_outpost.Ring.Taker.{take_step}
use embarch_outpost.Interleaving.Losses.{total}
use embarch_outpost.Interleaving.Calls.{calls, Within}
use embarch_outpost.Interleaving.Accounts.{interleave-accounts}
use embarch_outpost.Interleaving.Between.{interleave-IsValid}
use embarch_outpost.Interleaving.LockFree.{Staying, interleave_ends}
use embarch_outpost.Interleaving.Short.{Prompt-short}
use embarch_outpost.Tests.Data.{IsSlots-16, bss, marker_call, isr_call, isr_rec}

abbrev pub idle : Context
idle = record { call = marker_call; phase = Phase.done; seen = 0; mine = 0 }

-- Context 1 interrupts context 0 between its loads and its compare-and-swap, which then fails; both
-- store their records, and the consumer takes the first.
abbrev pub race : List Pick
race =
    call 0 marker_call
    ∷ go 0
    ∷ go 0
    ∷ call 1 isr_call
    ∷ go 1
    ∷ go 1
    ∷ go 1
    ∷ go 0
    ∷ go 1
    ∷ go 0
    ∷ go 1
    ∷ go 0
    ∷ go 1
    ∷ go 0
    ∷ go 1
    ∷ go 0
    ∷ go 1
    ∷ read
    ∷ read
    ∷ read
    ∷ go 0
    ∷ read
    ∷ go 0
    ∷ read
    ∷ go 0
    ∷ go 0
    ∷ read
    ∷ read
    ∷ read
    ∷ []

abbrev raced : World
raced = interleave 16 race (opening 16 0xFFFFFFFF bss idle)

race-Prompt : Prompt 16 race (opening 16 0xFFFFFFFF bss idle)
race-Prompt = Prompt-short 16 0xFFFFFFFF bss idle race (omega arith)

-- The interrupt's record comes first.
race_given : raced.given ≡ isr_rec ∷ []
unfolding interleave move put_step after_loads seq_for get_step ring_init_at unpublish
race_given = refl

interleave-given_example :
    (raced.given ++ span raced.log raced.taken (raced.reserved - raced.taken)
      ≡ span raced.log 0xFFFFFFFF (raced.reserved - 0xFFFFFFFF))
    × (raced.taken ≤ raced.reserved)
    × (raced.reserved ≤ raced.taken + 16)
interleave-given_example =
    interleave-given IsSlots-16 0xFFFFFFFF bss idle (omega arith) race race-Prompt

interleave-apart_example :
    ((i j : ℕ)
      → writes (raced.contexts i).phase ≡ true
      → writes (raced.contexts j).phase ≡ true
      → index 16 (head_of (raced.contexts i).phase) ≡ index 16 (head_of (raced.contexts j).phase)
      → i ≡ j)
    × ((i : ℕ)
        → writes (raced.contexts i).phase ≡ true
        → copies raced.reader ≡ true
        → index 16 (head_of (raced.contexts i).phase) ≢ index 16 (tail_of raced.reader))
interleave-apart_example =
    interleave-apart IsSlots-16 0xFFFFFFFF bss idle (omega arith) race race-Prompt

race_over : (k : ℕ) → writes (raced.contexts k).phase ≡ false
unfolding interleave move put_step after_loads seq_for get_step ring_init_at unpublish
race_over k = ground arith

interleave-IsValid_example :
    IsValid 16 raced.ring
    × ((view 16 raced.ring).queued ≡ span raced.log raced.taken (raced.reserved - raced.taken))
interleave-IsValid_example =
    interleave-IsValid IsSlots-16 0xFFFFFFFF bss idle (omega arith) race race-Prompt race_over

race_done : (k : ℕ) → (raced.contexts k).phase ≡ Phase.done
unfolding interleave move put_step after_loads seq_for get_step ring_init_at unpublish
race_done k = ground arith

race-Within : Within 2 race
race-Within = ground arith

interleave-accounts_example :
    (length raced.given
        + length (view 16 raced.ring).queued
        + total raced.reported
        + raced.ring.gap_dropped)
      % 2 ^ 32
    ≡ calls 16 race (opening 16 0xFFFFFFFF bss idle) % 2 ^ 32
interleave-accounts_example =
    interleave-accounts IsSlots-16 2 0xFFFFFFFF bss idle (omega arith) race race-Prompt race-Within
      race_done

-- Context 0 calls again, and context 1 makes a reservation between its loads and its
-- compare-and-swap: with the two reservations since, 14 own steps are enough.
abbrev crossed : List Pick
crossed =
    go 0
    ∷ go 0
    ∷ call 1 isr_call
    ∷ go 1
    ∷ go 1
    ∷ go 1
    ∷ read
    ∷ go 0
    ∷ go 0
    ∷ go 0
    ∷ go 0
    ∷ go 0
    ∷ go 0
    ∷ go 0
    ∷ go 0
    ∷ go 0
    ∷ go 0
    ∷ go 0
    ∷ go 0
    ∷ []

crossed-Prompt : Prompt 16 (call 0 marker_call ∷ crossed) raced
unfolding interleave move put_step after_loads seq_for get_step ring_init_at unpublish
crossed-Prompt = ground arith

crossed_reserved :
    (interleave 16 (call 0 marker_call ∷ crossed) raced).reserved ≡ raced.reserved + 2
unfolding interleave move put_step after_loads seq_for get_step ring_init_at unpublish
crossed_reserved = refl

crossed-Staying : Staying 0 crossed
crossed-Staying = ground arith

interleave_ends_example :
    ((interleave 16 (call 0 marker_call ∷ crossed) raced).contexts 0).phase ≡ Phase.done
interleave_ends_example =
    interleave_ends IsSlots-16 0xFFFFFFFF bss idle (omega arith) race race-Prompt 0 marker_call
      crossed (race_done 0) refl crossed-Prompt crossed-Staying (omega (arith, crossed_reserved))

-- Eight steps of context 0.
abbrev whole : List Pick → List Pick
whole picks = go 0 ∷ go 0 ∷ go 0 ∷ go 0 ∷ go 0 ∷ go 0 ∷ go 0 ∷ go 0 ∷ picks

-- On a ring of two slots the third record is lost. Its producer counts it, and before it stores
-- `gap_first` the consumer takes the account.
abbrev torn : List Pick
torn =
    call 0 marker_call
    ∷ whole (
        call 0 marker_call
        ∷ whole (call 0 marker_call ∷ go 0 ∷ go 0 ∷ go 0 ∷ take ∷ take ∷ take ∷ []))

-- The account has the stamps that the ring began with, not the record's.
torn_reported :
    (interleave 2 torn (opening 2 0 bss idle)).reported
    ≡ record { dropped = 1; first_cycles = 0; cycle_span = 0 } ∷ []
unfolding interleave move put_step after_loads seq_for take_step ring_init_at unpublish
torn_reported = refl

torn_cycles : marker_call.rec.cycles ≢ 0
torn_cycles = λ e. absurd (omega (arith, e))
