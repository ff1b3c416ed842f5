-- ===== src/Hooks/Exclusion.antt =====
-- Which events leave no record: the outpost's own, and markers without a registration.
use embarch_outpost.Prelude.{ℕ, ◌^◌, ◌≤◌, ◌<◌, ◌≡◌, ◌≢◌, ◌↔◌, Bool, true, false, none, some, arith}
use embarch_outpost.Config.{Config}
use embarch_outpost.Wire.Fields.{IsRec}
use embarch_outpost.Ring.{sub32}
use embarch_outpost.Hooks.{
  Board, Kind, Put, Event, kind_code, irq_unknown, active_vector, is_self_thread, is_self_vector,
  thread_switched, isr_hook, outpost_marker, hook, stamped,
}

-- The option of an event is compiled in.
abbrev pub traced : Config → Event → Bool
traced c (Event.switched_in t) = c.trace_threads
traced c (Event.switched_out t) = c.trace_threads
traced c (Event.created t) = c.trace_threads
traced c (Event.name_set t) = c.trace_threads
traced c (Event.isr_entered v) = c.trace_isrs
traced c (Event.isr_exited v) = c.trace_isrs
traced c Event.idled = c.trace_idle
traced c (Event.fire_callbacks p) = c.trace_gpio
traced c (Event.fired_callback h m) = c.trace_gpio
traced c (Event.marked id arg) = c.trace_markers

-- The switches of the drain thread, the interrupts of the outpost's UART where the build knows
-- their number, and markers beyond the registered ones.
abbrev pub IsSilent : Config → Board → Event → Type 0
IsSilent c board (Event.switched_in t) = (c.trace_self ≡ false) × (t ≡ board.drain_thread)
IsSilent c board (Event.switched_out t) = (c.trace_self ≡ false) × (t ≡ board.drain_thread)
IsSilent c board (Event.isr_entered v) =
    (c.trace_self ≡ false)
    × (c.isr_identify ≡ true)
    × (board.self_irq ≢ irq_unknown)
    × (sub32 v 16 ≡ board.self_irq)
IsSilent c board (Event.isr_exited v) =
    (c.trace_self ≡ false)
    × (c.isr_identify ≡ true)
    × (board.self_irq ≢ irq_unknown)
    × (sub32 v 16 ≡ board.self_irq)
IsSilent c board (Event.marked id arg) = board.marker_count ≤ id
IsSilent c board (Event.created t) = ⊥
IsSilent c board (Event.name_set t) = ⊥
IsSilent c board Event.idled = ⊥
IsSilent c board (Event.fire_callbacks p) = ⊥
IsSilent c board (Event.fired_callback h m) = ⊥

module _ (c : Config) (board : Board) where
  switched_silent :
      (kind : Kind) (t : ℕ)
      → (thread_switched c board kind t ≡ none)
        ↔ ((c.trace_self ≡ false) × (t ≡ board.drain_thread))
  unfolding thread_switched is_self_thread
  switched_silent kind t = ground arith

  isr_silent :
      (kind : Kind) (v : ℕ)
      → (isr_hook c board kind v ≡ none) ↔ (
          (c.trace_self ≡ false)
          × (c.isr_identify ≡ true)
          × (board.self_irq ≢ irq_unknown)
          × (sub32 v 16 ≡ board.self_irq))
  unfolding isr_hook is_self_vector active_vector
  isr_silent kind v = ground arith

  -- An event whose option is compiled in leaves no record just when it is a switch of the drain
  -- thread or an interrupt of the outpost's UART with a known number, on a build that leaves itself
  -- out, or a marker whose ID is not registered.
  pub hook-none : (e : Event) → traced c e ≡ true → (hook c board e ≡ none) ↔ IsSilent c board e
  unfolding hook outpost_marker
  hook-none (Event.switched_in t) on = simp on (switched_silent Kind.thread_switch_in t)
  hook-none (Event.switched_out t) on = simp on (switched_silent Kind.thread_switch_out t)
  hook-none (Event.created t) on = ground arith
  hook-none (Event.name_set t) on = ground arith
  hook-none (Event.isr_entered v) on = simp on (isr_silent Kind.isr_enter v)
  hook-none (Event.isr_exited v) on = simp on (isr_silent Kind.isr_exit v)
  hook-none Event.idled on = ground arith
  hook-none (Event.fire_callbacks p) on = ground arith
  hook-none (Event.fired_callback h m) on = ground arith
  hook-none (Event.marked id arg) on = ground arith

-- The numbers of `outpost_marker` and the pin mask are uint32_t.
abbrev pub IsEvent : Event → Type 0
IsEvent (Event.fired_callback h m) = m < 2 ^ 32
IsEvent (Event.marked id arg) = (id < 2 ^ 32) × (arg < 2 ^ 32)
IsEvent e = Unit

kind_code-le : (k : Kind) → kind_code k ≤ 10
unfolding kind_code
kind_code-le k = ground arith

module _ (c : Config) (board : Board) (p : Put) where
  hook_fits : (e : Event) → IsEvent e → hook c board e ≡ some p → (p.a < 2 ^ 32) × (p.b < 2 ^ 32)
  unfolding hook thread_switched isr_hook active_vector outpost_marker
  hook_fits (Event.switched_in t) h eq = ground arith
  hook_fits (Event.switched_out t) h eq = ground arith
  hook_fits (Event.created t) h eq = ground arith
  hook_fits (Event.name_set t) h eq = ground arith
  hook_fits (Event.isr_entered v) h eq = ground arith
  hook_fits (Event.isr_exited v) h eq = ground arith
  hook_fits Event.idled h eq = ground arith
  hook_fits (Event.fire_callbacks t) h eq = ground arith
  hook_fits (Event.fired_callback t m) h eq = ground arith
  hook_fits (Event.marked id arg) h eq = ground arith

  -- The record of a hook fits the types of its fields, whatever the pointers are, where the cycle
  -- count and the numbers of the event are uint32_t.
  pub hook-IsRec :
      (e : Event) (now : ℕ) (may_block : Bool)
      → IsEvent e
      → now < 2 ^ 32
      → hook c board e ≡ some p
      → IsRec (stamped now may_block p).rec
  hook-IsRec e now may_block h small eq =
      let (a, b) = hook_fits e h eq in
      record { cycles = small; kind = omega (arith, kind_code-le p.kind); a = a; b = b }
