-- ===== src/Hooks.antt =====
-- src/outpost_hooks.c: the hooks that Zephyr's kernel and GPIO driver call, and `outpost_marker`.
-- A hook calls `outpost_ring_put` once or not at all; its definition gives the arguments of the call.
-- A hook that is not compiled in is Zephyr's empty one. A pointer is its address.
pub mod Exclusion
pub mod Shown
pub mod Fire
use embarch_outpost.Prelude.{
  ℕ, ◌%◌, ◌^◌, Bool, true, false, not, Option, none, some, if◌then◌else◌, ◌==◌, leb, ◌&&◌,
}
use embarch_outpost.Config.{Config}
use embarch_outpost.Wire.{Rec}
use embarch_outpost.Ring.{Ring, Call, sub32, ring_put}

-- What the image fixes: OUTPOST_SELF_IRQ, OUTPOST_MARKER_COUNT and `&outpost_drain_thread`.
pub record Board : Type 0 where
  pub self_irq : ℕ
  pub marker_count : ℕ
  pub drain_thread : ℕ

-- `OUTPOST_IRQ_UNKNOWN`
abbrev pub irq_unknown : ℕ
irq_unknown = 0xffffffff

-- `enum outpost_kind`, without the gap record's
pub data Kind : Type 0 where
  thread_switch_in thread_switch_out isr_enter isr_exit idle thread_create thread_name marker : Kind
  gpio_dispatch gpio_callback_done : Kind

unfoldable pub kind_code : Kind → ℕ
kind_code Kind.thread_switch_in = 0
kind_code Kind.thread_switch_out = 1
kind_code Kind.isr_enter = 2
kind_code Kind.isr_exit = 3
kind_code Kind.idle = 4
kind_code Kind.thread_create = 5
kind_code Kind.thread_name = 6
kind_code Kind.marker = 7
kind_code Kind.gpio_dispatch = 9
kind_code Kind.gpio_callback_done = 10

-- The arguments of a call of `outpost_ring_put`.
pub record Put : Type 0 where
  pub kind : Kind
  pub a : ℕ
  pub b : ℕ

-- `outpost_ring_put(kind, a, b); `
abbrev pub put : Kind → ℕ → ℕ → Option Put
put kind a b = some (record { kind = kind; a = a; b = b })

-- `(uint32_t)(uintptr_t)pointer`
abbrev pub truncated : ℕ → ℕ
truncated pointer = pointer % 2 ^ 32

-- A call of a hook, with what it reads: `k_current_get()` for the switches, IPSR for the ISR hooks.
pub data Event : Type 0 where
  switched_in switched_out created name_set : ℕ → Event
  isr_entered isr_exited : ℕ → Event
  idled : Event
  fire_callbacks : ℕ → Event
  fired_callback : ℕ → ℕ → Event
  marked : ℕ → ℕ → Event

module _ (c : Config) (board : Board) where
  unfoldable pub active_vector : ℕ → ℕ
  active_vector ipsr = if c.isr_identify then sub32 ipsr 16 else irq_unknown

  unfoldable pub is_self_thread : ℕ → Bool
  is_self_thread t = if c.trace_self then false else (t == board.drain_thread)

  unfoldable pub is_self_vector : ℕ → Bool
  is_self_vector v =
      if c.trace_self then false else (not (board.self_irq == irq_unknown) && (v == board.self_irq))

  unfoldable pub thread_switched : Kind → ℕ → Option Put
  thread_switched kind self = if is_self_thread self then none else put kind (truncated self) 0

  unfoldable pub isr_hook : Kind → ℕ → Option Put
  isr_hook kind ipsr =
      let vector = active_vector ipsr in if is_self_vector vector then none else put kind vector 0

  unfoldable pub outpost_marker : ℕ → ℕ → Option Put
  outpost_marker id arg = if leb board.marker_count id then none else put Kind.marker id arg

  -- The hooks as they are compiled.
  unfoldable pub hook : Event → Option Put
  hook (Event.switched_in self) =
      if c.trace_threads then thread_switched Kind.thread_switch_in self else none
  hook (Event.switched_out self) =
      if c.trace_threads then thread_switched Kind.thread_switch_out self else none
  hook (Event.created thread) =
      if c.trace_threads then put Kind.thread_create (truncated thread) 0 else none
  hook (Event.name_set thread) =
      if c.trace_threads then put Kind.thread_name (truncated thread) 0 else none
  hook (Event.isr_entered ipsr) = if c.trace_isrs then isr_hook Kind.isr_enter ipsr else none
  hook (Event.isr_exited ipsr) = if c.trace_isrs then isr_hook Kind.isr_exit ipsr else none
  hook Event.idled = if c.trace_idle then put Kind.idle 0 0 else none
  hook (Event.fire_callbacks port) =
      if c.trace_gpio then put Kind.gpio_dispatch (truncated port) 0 else none
  hook (Event.fired_callback handler pin_mask) =
      if c.trace_gpio then put Kind.gpio_callback_done (truncated handler) pin_mask else none
  hook (Event.marked id arg) = if c.trace_markers then outpost_marker id arg else none

-- The call of `outpost_ring_put` at the cycle count `now`.
abbrev pub stamped : ℕ → Bool → Put → Call
stamped now may_block p = record {
  rec = record { cycles = now; kind = kind_code p.kind; a = p.a; b = p.b };
  may_block = may_block;
}

unfoldable pub call_put : ℕ → ℕ → Bool → Option Put → Ring → Option Ring
call_put n now may_block none r = some r
call_put n now may_block (some p) r = ring_put n (stamped now may_block p) r

-- An event of the running system, as far as the ring: `none` means that the hook has not returned.
unfoldable pub fire : Config → Board → ℕ → ℕ → Bool → Event → Ring → Option Ring
fire c board n now may_block e r = call_put n now may_block (hook c board e) r
