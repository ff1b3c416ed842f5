-- ===== src/Hooks/Shown.antt =====
-- What the record of an event says to the host.
use Prim.Native.String.{String}
use embarch_outpost.Prelude.{
  ℕ, ◌+◌, ◌-◌, ◌%◌, ◌^◌, ◌≡◌, ◌⊎◌, inl, inr, refl, sym, ◌∙◌, Bool, true, false, Bool-cases, Option,
  none, some, if◌then◌else◌, leb,
}
use mathlib.Core.Path.{subst}
use embarch_outpost.Config.{Config}
use embarch_outpost.Wire.{Rec}
use embarch_outpost.Ring.Queue
use embarch_outpost.Ring.Queue.{Queue}
use embarch_outpost.Host.Kinds.{kind_name}
use embarch_outpost.Hooks.{
  Board, Kind, Put, Event, kind_code, active_vector, is_self_thread, is_self_vector,
  thread_switched, isr_hook, outpost_marker, hook, stamped,
}
use embarch_outpost.Hooks.Exclusion.{IsSilent, traced, hook-none}

-- The names of the events, and the numbers `a` and `b` that src/outpost_priv.h documents for each: a
-- pointer's low 32 bits, a vector number or OUTPOST_IRQ_UNKNOWN, a marker's ID and argument, a pin mask.
abbrev pub event_name : Event → String
event_name (Event.switched_in thread) = "thread_switch_in"
event_name (Event.switched_out thread) = "thread_switch_out"
event_name (Event.created thread) = "thread_create"
event_name (Event.name_set thread) = "thread_name"
event_name (Event.isr_entered ipsr) = "isr_enter"
event_name (Event.isr_exited ipsr) = "isr_exit"
event_name Event.idled = "idle"
event_name (Event.fire_callbacks port) = "gpio_dispatch"
event_name (Event.fired_callback handler pin_mask) = "gpio_callback_done"
event_name (Event.marked id arg) = "marker"

-- IPSR counts from the first of the sixteen system exceptions.
abbrev pub vector_number : Config → ℕ → ℕ
vector_number c ipsr = if c.isr_identify then (ipsr + 2 ^ 32 - 16) % 2 ^ 32 else 0xFFFFFFFF

abbrev pub event_a : Config → Event → ℕ
event_a c (Event.switched_in thread) = thread % 2 ^ 32
event_a c (Event.switched_out thread) = thread % 2 ^ 32
event_a c (Event.created thread) = thread % 2 ^ 32
event_a c (Event.name_set thread) = thread % 2 ^ 32
event_a c (Event.isr_entered ipsr) = vector_number c ipsr
event_a c (Event.isr_exited ipsr) = vector_number c ipsr
event_a c Event.idled = 0
event_a c (Event.fire_callbacks port) = port % 2 ^ 32
event_a c (Event.fired_callback handler pin_mask) = handler % 2 ^ 32
event_a c (Event.marked id arg) = id

abbrev pub event_b : Event → ℕ
event_b (Event.fired_callback handler pin_mask) = pin_mask
event_b (Event.marked id arg) = arg
event_b e = 0

-- The record describes the event to the host.
abbrev pub Describes : Config → ℕ → Event → Rec → Type 0
Describes c now e rec =
    (rec.cycles ≡ now)
    × (kind_name rec.kind ≡ some (event_name e))
    × (rec.a ≡ event_a c e)
    × (rec.b ≡ event_b e)

-- What an event may do to the queue of a ring with `n` slots.
abbrev pub Shown : Config → Board → ℕ → Event → Queue → Queue → ℕ → Type 0
Shown c board now e q q' n =
    (((traced c e ≡ false) ⊎ IsSilent c board e) × (q' ≡ q))
    ⊎ ((traced c e ≡ true)
        × ¬ IsSilent c board e
        × (rec : Rec) × Describes c now e rec
        × (q' ≡ Queue.put n rec q))

-- What an event does to the queue: nothing, or a put.
abbrev pub queue_put : ℕ → ℕ → Option Put → Queue → Queue
queue_put n now none q = q
queue_put n now (some p) q = Queue.put n (stamped now false p).rec q

-- A record that one test stands before, or two.
one_test : (t : Bool) (p q : Put) → (if t then some p else none) ≡ some q → p ≡ q
one_test true p q e = cc e
one_test false p q e = cc e

two_tests :
    (t silent : Bool) (p q : Put)
    → (if t then (if silent then none else some p) else none) ≡ some q
    → p ≡ q
two_tests true true p q e = cc e
two_tests true false p q e = cc e
two_tests false silent p q e = cc e

some-ne_none : (p : Put) → some p ≡ none → ⊥
some-ne_none p e = cc e

module _ (c : Config) (board : Board) where
  abbrev Says : ℕ → Event → Put → Type 0
  Says now e p = Describes c now e (stamped now false p).rec

  hook-Says : (now : ℕ) (e : Event) (p : Put) → hook c board e ≡ some p → Says now e p
  unfolding hook thread_switched isr_hook active_vector outpost_marker kind_code kind_name
  hook-Says now (Event.switched_in t) p h =
      subst (Says now (Event.switched_in t))
        (two_tests c.trace_threads (is_self_thread c board t)
          (record { kind = Kind.thread_switch_in; a = t % 2 ^ 32; b = 0 }) p h)
        (refl, refl, refl, refl)
  hook-Says now (Event.switched_out t) p h =
      subst (Says now (Event.switched_out t))
        (two_tests c.trace_threads (is_self_thread c board t)
          (record { kind = Kind.thread_switch_out; a = t % 2 ^ 32; b = 0 }) p h)
        (refl, refl, refl, refl)
  hook-Says now (Event.created t) p h =
      subst (Says now (Event.created t))
        (one_test c.trace_threads (record { kind = Kind.thread_create; a = t % 2 ^ 32; b = 0 }) p h)
        (refl, refl, refl, refl)
  hook-Says now (Event.name_set t) p h =
      subst (Says now (Event.name_set t))
        (one_test c.trace_threads (record { kind = Kind.thread_name; a = t % 2 ^ 32; b = 0 }) p h)
        (refl, refl, refl, refl)
  hook-Says now (Event.isr_entered v) p h =
      subst (Says now (Event.isr_entered v))
        (two_tests c.trace_isrs (is_self_vector c board (vector_number c v))
          (record { kind = Kind.isr_enter; a = vector_number c v; b = 0 }) p h)
        (refl, refl, refl, refl)
  hook-Says now (Event.isr_exited v) p h =
      subst (Says now (Event.isr_exited v))
        (two_tests c.trace_isrs (is_self_vector c board (vector_number c v))
          (record { kind = Kind.isr_exit; a = vector_number c v; b = 0 }) p h)
        (refl, refl, refl, refl)
  hook-Says now (Event.idled) p h =
      subst (Says now (Event.idled))
        (one_test c.trace_idle (record { kind = Kind.idle; a = 0; b = 0 }) p h)
        (refl, refl, refl, refl)
  hook-Says now (Event.fire_callbacks port) p h =
      subst (Says now (Event.fire_callbacks port))
        (one_test c.trace_gpio (record { kind = Kind.gpio_dispatch; a = port % 2 ^ 32; b = 0 }) p h)
        (refl, refl, refl, refl)
  hook-Says now (Event.fired_callback handler mask) p h =
      subst (Says now (Event.fired_callback handler mask))
        (one_test c.trace_gpio
          (record { kind = Kind.gpio_callback_done; a = handler % 2 ^ 32; b = mask }) p h)
        (refl, refl, refl, refl)
  hook-Says now (Event.marked id arg) p h =
      subst (Says now (Event.marked id arg))
        (two_tests c.trace_markers (leb board.marker_count id)
          (record { kind = Kind.marker; a = id; b = arg }) p h)
        (refl, refl, refl, refl)

  hook-untraced : (e : Event) → traced c e ≡ false → hook c board e ≡ none
  unfolding hook
  hook-untraced (Event.switched_in t) h = rw h refl
  hook-untraced (Event.switched_out t) h = rw h refl
  hook-untraced (Event.created t) h = rw h refl
  hook-untraced (Event.name_set t) h = rw h refl
  hook-untraced (Event.isr_entered v) h = rw h refl
  hook-untraced (Event.isr_exited v) h = rw h refl
  hook-untraced Event.idled h = rw h refl
  hook-untraced (Event.fire_callbacks port) h = rw h refl
  hook-untraced (Event.fired_callback handler mask) h = rw h refl
  hook-untraced (Event.marked id arg) h = rw h refl

  pub hook-Shown :
      (n now : ℕ) (e : Event) (q q' : Queue) (o : Option Put)
      → hook c board e ≡ o
      → q' ≡ queue_put n now o q
      → Shown c board now e q q' n
  hook-Shown n now e q q' none h same = elim (Bool-cases (traced c e)) [
    | inl on ↦ inl (inr ((hook-none c board e on).0 h), same)
    | inr off ↦ inl (inl off, same)
  ]
  hook-Shown n now e q q' (some p) h same = elim (Bool-cases (traced c e)) [
    | inl on ↦ inr (
      on,
      (λ silent. absurd (some-ne_none p (sym h ∙ (hook-none c board e on).1 silent))),
      (stamped now false p).rec,
      hook-Says now e p h,
      same,
    )
    | inr off ↦ absurd (some-ne_none p (sym h ∙ hook-untraced e off))
  ]
