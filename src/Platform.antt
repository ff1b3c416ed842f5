-- ===== src/Platform.antt =====
-- What a build fixes of its target: OUTPOST_SELF_IRQ of src/outpost_priv.h, and the time of a record,
-- `outpost_cycles` of src/outpost_time.h. The two counters and the devicetree are parameters.
use embarch_outpost.Prelude.{
  ℕ, ◌%◌, ◌^◌, ◌≡◌, ◌≢◌, refl, Bool, true, false, List, Option, none, some, if◌then◌else◌,
}
use embarch_outpost.Config.{Config}
use embarch_outpost.Ring.{Ring}
use embarch_outpost.Hooks.{Board, Event, irq_unknown, hook, fire}
use embarch_outpost.Hooks.Exclusion.{hook-none}
use embarch_outpost.Markers.{marker_count_from}

-- CONFIG_MULTI_LEVEL_INTERRUPTS, and `DT_IRQN` of the UART if it has an interrupt.
unfoldable pub self_irq : Bool → Option ℕ → ℕ
self_irq true irq = irq_unknown
self_irq false none = irq_unknown
self_irq false (some irq) = irq % 2 ^ 32

-- The board of an image, with its markers and its drain thread.
abbrev pub board_of : Bool → Option ℕ → List (List ℕ) → ℕ → Board
board_of multi_level irq names drain_thread = record {
  self_irq = self_irq multi_level irq;
  marker_count = marker_count_from 0 names;
  drain_thread = drain_thread;
}

-- CONFIG_NRF_GRTC_TIMER, `nrf_grtc_sys_counter_low_get` and `k_cycle_get_32`.
pub record Clock : Type 0 where
  pub grtc_timer : Bool
  pub grtc_low : ℕ
  pub cycle_get_32 : ℕ

unfoldable pub outpost_cycles : Clock → ℕ
outpost_cycles clock = if clock.grtc_timer then clock.grtc_low else clock.cycle_get_32

-- An event, stamped by the clock.
abbrev pub fire_at : Config → Board → ℕ → Clock → Bool → Event → Ring → Option Ring
fire_at c board n clock may_block e r = fire c board n (outpost_cycles clock) may_block e r

-- On a build with multi-level interrupts no interrupt is left out of the trace.
multi_level_traced :
    (c : Config) (irq : Option ℕ) (names : List (List ℕ)) (drain_thread ipsr : ℕ)
    → c.trace_isrs ≡ true
    → hook c (board_of true irq names drain_thread) (Event.isr_entered ipsr) ≢ none
unfolding self_irq
multi_level_traced c irq names drain_thread ipsr on silent =
    ((hook-none c (board_of true irq names drain_thread) (Event.isr_entered ipsr) on).0 silent).2
      refl
