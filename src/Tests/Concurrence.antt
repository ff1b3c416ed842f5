-- ===== src/Tests/Concurrence.antt =====
-- The whole system: a hook in one context interrupts the drain thread, and a hook in another interrupts
-- the first, at the wraparound of the ring's counters.
use embarch_outpost.Prelude.{
  ℕ, zero, suc, ◌+◌, ◌-◌, ◌*◌, ◌%◌, ◌^◌, ◌≤◌, ◌<◌, ◌≡◌, refl, ap, false, List, [], ◌∷◌, ◌++◌,
  length, arith,
}
use embarch_outpost.Wire.{Rec}
use embarch_outpost.Config.{batch_records_target}
use embarch_outpost.Ring.{
  Phase, ring_slots, ring_pending, put_step, after_loads, seq_for, ring_init_at, unpublish,
}
use embarch_outpost.Ring.Refine.{view}
use embarch_outpost.Ring.Reader.{Reader, get_step}
use embarch_outpost.Ring.Taker.{Taker, take_step}
use embarch_outpost.Host.{decode_stream}
use embarch_outpost.Wire.{put_varint_loop, put_varint, put_string, emit_varint}
use embarch_outpost.Frame.{frame, cobs_encode, cobs_finish, cobs_loop, cobs_step, crc_bytes}
use embarch_outpost.Drain.{
  started, finish, send_header, header_fields, append_byte, emit_string, send_body, header_flags,
}
use embarch_outpost.Hooks.{
  Event, hook, isr_hook, active_vector, is_self_vector, outpost_marker, kind_code,
}
use embarch_outpost.Thread.Progress.{not_gap, lost_in, trace, concat}
use embarch_outpost.Interleaving.{World, move, opening, Prompt}
use embarch_outpost.Interleaving.Invariant.{span}
use embarch_outpost.Interleaving.Losses.{total}
use embarch_outpost.Concurrent.{Desk, System, Deed, Stand, desk_step, perform, run, boot, no_call}
use embarch_outpost.Concurrent.Runs.{AllDeeds, picks, picks-Prompt}
use embarch_outpost.Concurrent.Delivery.{InBatch, run_delivers}
use embarch_outpost.Concurrent.Accounts.{offers, run_accounts}
use embarch_outpost.Concurrent.Alone.{alone}
use embarch_outpost.Concurrent.Whole.{at}
use embarch_outpost.Concurrent.Burst.{Burst, run-alone-Burst}
use embarch_outpost.Concurrent.Liveness.{Delivered, run_drains}
use embarch_outpost.Concurrent.Rounds.{Turn, round_steps, run_returns}
use embarch_outpost.Tests.Data.{
  board, image, checksum, checksum_word, small, small-IsConfig, fresh_drain, fresh_drain-IsDrain,
  bss, image-IsImage, lossy, lossy-IsLive,
}

-- So many steps of the thread, and of a context.
abbrev steps : ℕ → ℕ → List Deed → List Deed
steps zero now deeds = deeds
steps (suc k) now deeds = Deed.thread now ∷ steps k now deeds

abbrev moves : ℕ → ℕ → List Deed → List Deed
moves zero i deeds = deeds
moves (suc k) i deeds = Deed.go_on i ∷ moves k i deeds

-- A marker's hook has loaded the head when an interrupt enters; the thread reads between them.
abbrev deeds : List Deed
deeds = steps 4 3 (
    Deed.event 0 5000 false (Event.marked 1 77)
    ∷ moves 2 0 (
        Deed.event 1 5100 false (Event.isr_entered 20)
        ∷ moves 8 1 (steps 5 60 (moves 9 0 (steps 24 60 [])))))

deeds-AllDeeds : AllDeeds deeds
deeds-AllDeeds = ground arith

deeds-Prompt :
    Prompt
      (ring_slots small.ring_bytes)
      (picks checksum small board image deeds (boot small 3 fresh_drain 0xFFFFFFFF bss))
      (opening (ring_slots small.ring_bytes) 0xFFFFFFFF bss no_call)
deeds-Prompt =
    picks-Prompt checksum small board image deeds 3 fresh_drain 0xFFFFFFFF bss (omega arith)

abbrev ran : System
ran = run small board image checksum deeds (boot small 3 fresh_drain 0xFFFFFFFF bss)

run_delivers_example :
    (held : List Rec) × InBatch ran.desk.drain held ran.desk.stand
    × (let w = ran.world in
        let ds = decode_stream checksum (concat ran.desk.drain.sent) in
        (not_gap (trace ds) ++ (not_gap held ++ span w.log w.taken (w.reserved - w.taken))
          ≡ span w.log 0xFFFFFFFF (w.reserved - 0xFFFFFFFF))
        × (lost_in (trace ds) + lost_in held ≡ total w.reported))
run_delivers_example =
    run_delivers checksum checksum_word small small-IsConfig board image image-IsImage fresh_drain
      fresh_drain-IsDrain refl 3 0xFFFFFFFF (omega arith) bss deeds deeds-AllDeeds deeds-Prompt

-- The two hooks return, one inside the other, while the thread takes the account of the losses.
abbrev nested : List Deed
nested = steps 2 3 (
    Deed.event 0 5000 false (Event.marked 1 77)
    ∷ moves 2 0 (
        Deed.event 1 5100 false (Event.isr_entered 20)
        ∷ moves 3 1 (steps 4 60 (moves 5 1 (steps 2 60 (moves 9 0 (steps 3 60 [])))))))

abbrev nested_ran : System
nested_ran = run small board image checksum nested (boot small 3 fresh_drain 0xFFFFFFFF bss)

nested_done : (i : ℕ) → i < 2 → (nested_ran.world.contexts i).phase ≡ Phase.done
unfolding run perform desk_step move put_step after_loads seq_for ring_init_at unpublish hook
    isr_hook active_vector is_self_vector outpost_marker kind_code get_step take_step started finish
    ring_slots ring_pending batch_records_target send_header header_fields append_byte emit_varint
    put_varint emit_string put_string send_body frame cobs_encode cobs_finish cobs_loop crc_bytes
    cobs_step header_flags put_varint_loop
nested_done zero h = refl
nested_done (suc zero) h = refl
nested_done (suc (suc i)) h = absurd (omega arith)

nested-AllDeeds : AllDeeds nested
nested-AllDeeds = ground arith

run_accounts_example :
    (held : List Rec) × InBatch nested_ran.desk.drain held nested_ran.desk.stand
    × ((let ds = decode_stream checksum (concat nested_ran.desk.drain.sent) in
            length (not_gap (trace ds))
            + length (not_gap held)
            + length (view (ring_slots small.ring_bytes) nested_ran.world.ring).queued
            + (lost_in (trace ds) + lost_in held)
            + nested_ran.world.ring.gap_dropped)
          % 2 ^ 32
        ≡ offers checksum small board image nested (boot small 3 fresh_drain 0xFFFFFFFF bss)
          % 2 ^ 32)
run_accounts_example =
    run_accounts checksum checksum_word small small-IsConfig board image image-IsImage fresh_drain
      fresh_drain-IsDrain refl 3 0xFFFFFFFF (omega arith) bss nested nested-AllDeeds
      (picks-Prompt checksum small board image nested 3 fresh_drain 0xFFFFFFFF bss (omega arith)) 2
      (ground arith) nested_done

-- So many steps of the thread, a millisecond apart.
abbrev ticks : ℕ → List ℕ
ticks zero = []
ticks (suc k) = (100 + k) ∷ ticks k

length-ticks : (k : ℕ) → length (ticks k) ≡ k
length-ticks zero = refl
length-ticks (suc k) = ap suc (length-ticks k)

run_drains_example :
    (first later : List ℕ) × (ticks (round_steps * (ring_slots small.ring_bytes + 2))
      ≡ first ++ later)
    × (length first ≤ round_steps * (ring_slots small.ring_bytes + 2))
    × Delivered checksum 0xFFFFFFFF nested_ran.world
        (run small board image checksum (alone first) nested_ran)
run_drains_example =
    run_drains checksum checksum_word small small-IsConfig board image image-IsImage fresh_drain
      fresh_drain-IsDrain refl 3 0xFFFFFFFF (omega arith) bss nested nested-AllDeeds
      (picks-Prompt checksum small board image nested 3 fresh_drain 0xFFFFFFFF bss (omega arith)) 2
      (ground arith) nested_done (ticks (round_steps * (ring_slots small.ring_bytes + 2)))
      (omega (arith, length-ticks (round_steps * (ring_slots small.ring_bytes + 2))))

-- A frame on a ring with two records and a loss.
abbrev building : Desk
building = record { drain = fresh_drain; last_header = 3; stand = Stand.build }

abbrev lossy_world : World
lossy_world = record (opening 16 0 bss no_call) { ring = lossy }

run-alone-Burst_example :
    (first later : List ℕ) × (ticks 1148 ≡ first ++ later)
    × (length first ≤ 1148)
    × (let s =
          run small board image checksum
            (alone first)
            (at small board image checksum building Stand.build lossy_world) in
        (s.world.reader ≡ Reader.rest)
        × (s.world.taker ≡ Taker.rest)
        × Burst checksum small fresh_drain lossy s.desk.drain s.world.ring)
run-alone-Burst_example =
    run-alone-Burst checksum checksum_word small small-IsConfig board image building lossy_world 70
      (ticks 1148) (omega (arith, length-ticks 1148)) fresh_drain-IsDrain lossy-IsLive

-- From the start of its first round.
abbrev rounds : List Deed
rounds = Deed.go_on 0 ∷ steps round_steps 60 (Deed.go_on 1 ∷ [])

run_returns_example : Turn small board image checksum round_steps rounds ran
run_returns_example = run_returns small board image checksum rounds ran (omega arith)
