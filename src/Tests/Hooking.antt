-- ===== src/Tests/Hooking.antt =====
-- src/outpost_hooks.c: the theorems at concrete events.
use embarch_outpost.Prelude.{◌≡◌, ◌↔◌, refl, false, some, none, arith}
use embarch_outpost.Ring.{Ring, ring_slots}
use embarch_outpost.Ring.Refine.{view}
use embarch_outpost.Hooks.{Event, hook, fire, active_vector, isr_hook, is_self_vector}
use embarch_outpost.Hooks.Exclusion.{IsSilent, hook-none}
use embarch_outpost.Hooks.Shown.{Shown}
use embarch_outpost.Hooks.Fire.{fire-IsLive}
use embarch_outpost.Drain.Losses.{IsLive}
use embarch_outpost.Tests.Data.{small, board, lossy, lossy-IsLive}

-- Interrupt 6 is vector 22.
own_uart : hook small board (Event.isr_entered 22) ≡ none
unfolding hook isr_hook active_vector is_self_vector
own_uart = refl

hook-none_example :
    (hook small board (Event.isr_entered 22) ≡ none) ↔ IsSilent small board (Event.isr_entered 22)
hook-none_example = hook-none small board (Event.isr_entered 22) refl

fire-IsLive_example :
    (r : Ring) × (fire small board
        (ring_slots small.ring_bytes)
        5000
        false
        (Event.marked 1 77)
        lossy
      ≡ some r)
    × IsLive small r
    × Shown small board 5000
        (Event.marked 1 77)
        (view (ring_slots small.ring_bytes) lossy)
        (view (ring_slots small.ring_bytes) r)
        (ring_slots small.ring_bytes)
fire-IsLive_example =
    fire-IsLive small board 5000 (Event.marked 1 77) lossy (omega arith) (omega arith) lossy-IsLive
