-- ===== src/Tests/Rings.antt =====
-- src/outpost_ring.c: the theorems at a ring of 16 slots, at the wraparound of its counters.
use embarch_outpost.Prelude.{ℕ, ◌*◌, ◌<◌, ◌≡◌, refl, true, [], ◌∷◌, some, none, arith}
use embarch_outpost.Ring.{
  Ring, Call, Phase, ring_slots, slot_bytes, ring_init_at, ring_put, put_run, put_step,
}
use embarch_outpost.Ring.Config.{IsSlots, ring_slots-IsSlots, ring_slots_over_budget}
use embarch_outpost.Ring.Seq.{seq_for-injective}
use embarch_outpost.Ring.Put.{put_run_blocks}
use embarch_outpost.Ring.Returns.{put_run_returns}
use embarch_outpost.Ring.Refine.{IsValid, view, ring_put_refines}
use embarch_outpost.Ring.Queue
use embarch_outpost.Ring.Queue.{Queue}
use embarch_outpost.Ring.Run.{run, queue_run, run-ring_init_at}
use embarch_outpost.Ring.Run as Op
use embarch_outpost.Ring.Stale.{put_step-stale}
use embarch_outpost.Tests.Data.{
  bss, IsSlots-16, two_in, two_in-IsValid, marker_rec, isr_rec, marker_call,
}

ring_slots-IsSlots_example : IsSlots (ring_slots 4096)
ring_slots-IsSlots_example = ring_slots-IsSlots 4096

ring_slots_over_budget_example : 256 < ring_slots 256 * slot_bytes
ring_slots_over_budget_example = ring_slots_over_budget 256 (omega arith)

-- Where `seq_for` has its alias.
seq_for-injective_example : ◌≡◌ {A = ℕ} 0xFFFFFFFF 0xFFFFFFFF
seq_for-injective_example =
    seq_for-injective IsSlots-16 0xFFFFFFFF 0xFFFFFFFF (omega arith) (omega arith) refl refl

ring_put_refines_example :
    (r : Ring) × (ring_put 16 marker_call two_in ≡ some r)
    × IsValid 16 r
    × (view 16 r ≡ Queue.put 16 marker_rec (view 16 two_in))
ring_put_refines_example = ring_put_refines IsSlots-16 marker_call two_in two_in-IsValid refl

abbrev full : Ring
full = record bss { head = 16 }

abbrev blocking : Call
blocking = record { rec = isr_rec; may_block = true }

put_run_blocks_example : put_run 16 1000 blocking Phase.load_head full ≡ none
put_run_blocks_example = put_run_blocks 16 1000 blocking full (omega arith) refl

run-ring_init_at_example :
    run 16
      (Op.put marker_rec ∷ Op.put isr_rec ∷ Op.get ∷ Op.take_gap ∷ [])
      (ring_init_at 16 0xFFFFFFFF bss)
    ≡ some
        (queue_run 16 (Op.put marker_rec ∷ Op.put isr_rec ∷ Op.get ∷ Op.take_gap ∷ []) Queue.empty)
run-ring_init_at_example =
    run-ring_init_at IsSlots-16 (Op.put marker_rec ∷ Op.put isr_rec ∷ Op.get ∷ Op.take_gap ∷ [])
      0xFFFFFFFF bss (omega arith)

-- The head was read as 0, one record came and went since, and the ring is empty.
abbrev passed_by : Ring
passed_by = record bss { head = 1; tail = 1 }

put_step-stale_example :
    put_step 16 marker_call (Phase.load_tail 0) passed_by ≡ (Phase.drop_count, passed_by)
put_step-stale_example =
    put_step-stale IsSlots-16 marker_call passed_by 0 1 refl (omega arith) (omega arith)
      (omega arith) refl

-- A context that has loaded an old head.
put_run_returns_example :
    (r : Ring) × (put_run 16 10 marker_call (Phase.load_tail 7) two_in ≡ some r)
put_run_returns_example = put_run_returns 16 marker_call refl (Phase.load_tail 7) two_in
