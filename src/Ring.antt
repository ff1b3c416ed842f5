-- ===== src/Ring.antt =====
-- src/outpost_ring.c: the record ring, lock-free, many producers and one consumer.
-- `outpost_ring_put` is a machine of one step for each access to shared memory, so that contexts can
-- be interleaved; a call that nobody interrupts is `put_run`. The consumer's functions are whole
-- calls. Numbers are uint32_t and wrap at 2 ^ 32; so does atomic_t, which a 20-byte slot makes four
-- bytes wide.
pub mod Config
pub mod Seq
pub mod Window
pub mod Queue
pub mod Put
pub mod Refine
pub mod Run
pub mod Stale
pub mod Reader
pub mod Taker
pub mod Returns
use embarch_outpost.Prelude.{
  ℕ, zero, suc, ◌+◌, ◌-◌, ◌*◌, ◌/◌, ◌%◌, ◌^◌, Bool, true, false, Option, none, some, if◌then◌else◌,
  ◌==◌, leb, ltb,
}
use embarch_outpost.Wire.{Rec}

-- `struct outpost_slot`
pub record Slot : Type 0 where
  pub rec : Rec
  pub seq : ℕ

-- The file's static variables. The array is a function of the index; `Ring.Config` bounds the index.
pub record Ring : Type 0 where
  pub slots : ℕ → Slot
  pub head : ℕ
  pub tail : ℕ
  pub gap_dropped : ℕ
  pub gap_first : ℕ
  pub gap_last : ℕ

-- `OUTPOST_SLOT_BYTES`
abbrev pub slot_bytes : ℕ
slot_bytes = 20

-- `RING_SLOTS`, from CONFIG_EMBARCH_OUTPOST_RING_BYTES
unfoldable pub ring_slots : ℕ → ℕ
ring_slots ring_bytes =
    let raw = ring_bytes / slot_bytes in
    if leb 8192 raw
    then 8192
    else if leb 4096 raw
    then 4096
    else if leb 2048 raw
    then 2048
    else if leb 1024 raw
    then 1024
    else if leb 512 raw
    then 512
    else if leb 256 raw
    then 256
    else if leb 128 raw
    then 128
    else if leb 64 raw
    then 64
    else if leb 32 raw
    then 32
    else 16

-- uint32_t sums and differences
abbrev pub add32 : ℕ → ℕ → ℕ
add32 a b = (a + b) % 2 ^ 32

abbrev pub sub32 : ℕ → ℕ → ℕ
sub32 a b = (a + 2 ^ 32 - b) % 2 ^ 32

-- `SEQ_UNPUBLISHED` and `SEQ_WRAPPED`
abbrev pub seq_unpublished : ℕ
seq_unpublished = 0

abbrev pub seq_wrapped : ℕ
seq_wrapped = 1

unfoldable pub seq_for : ℕ → ℕ
seq_for idx = let seq = add32 idx 1 in if seq == seq_unpublished then seq_wrapped else seq

-- `ring[i] = slot`
abbrev pub update : (ℕ → Slot) → ℕ → Slot → ℕ → Slot
update slots i slot j = if i == j then slot else slots j

-- The loop of `outpost_ring_init_at`, over the `count` slots below it.
unfoldable pub unpublish : ℕ → (ℕ → Slot) → ℕ → Slot
unpublish zero slots = slots
unpublish (suc count) slots =
    update (unpublish count slots) count (record (slots count) { seq = seq_unpublished })

module _ (ring_slots : ℕ) where
  unfoldable pub ring_init_at : ℕ → Ring → Ring
  ring_init_at start r = record {
    slots = unpublish ring_slots r.slots;
    head = start;
    tail = start;
    gap_dropped = 0;
    gap_first = 0;
    gap_last = 0;
  }

  unfoldable pub ring_init : Ring → Ring
  ring_init r = ring_init_at 0 r

-- Where a context stands in `outpost_ring_put`, with its locals. The three `drop` phases are
-- `note_drop`.
pub data Phase : Type 0 where
  load_head : Phase
  load_tail : ℕ → Phase
  cas : ℕ → Phase
  write_cycles : ℕ → Phase
  write_kind : ℕ → Phase
  write_a : ℕ → Phase
  write_b : ℕ → Phase
  publish : ℕ → Phase
  drop_count : Phase
  drop_first : Phase
  drop_last : Phase
  done : Phase

-- The arguments of a call with its timestamp, and whether it may block: that is
-- CONFIG_EMBARCH_OUTPOST_OVERFLOW_BLOCK in a thread, after the kernel has started.
pub record Call : Type 0 where
  pub rec : Rec
  pub may_block : Bool

module _ (ring_slots : ℕ) where
  -- `head & RING_MASK`
  abbrev pub index : ℕ → ℕ
  index head = head % ring_slots

  -- What follows the load of `ring_tail`: the test, and on a full ring a yield or a drop.
  unfoldable pub after_loads : Bool → ℕ → ℕ → Phase
  after_loads may_block head tail =
      if leb ring_slots (sub32 head tail)
      then (if may_block then load_head else drop_count)
      else cas head

  abbrev pub edit : Ring → ℕ → (Slot → Slot) → Ring
  edit r head f = record r { slots = update r.slots (index head) (f (r.slots (index head))) }

  -- One step of `outpost_ring_put`.
  unfoldable pub put_step : Call → Phase → Ring → Phase × Ring
  put_step c load_head r = (load_tail r.head, r)
  put_step c (load_tail head) r = (after_loads c.may_block head r.tail, r)
  put_step c (cas head) r =
      if r.head == head
      then (write_cycles head, record r { head = add32 head 1 })
      else (load_head, r)
  put_step c (write_cycles head) r = (
    write_kind head,
    edit r head (λ s. record s { rec = record s.rec { cycles = c.rec.cycles } }),
  )
  put_step c (write_kind head) r =
      (write_a head, edit r head (λ s. record s { rec = record s.rec { kind = c.rec.kind } }))
  put_step c (write_a head) r =
      (write_b head, edit r head (λ s. record s { rec = record s.rec { a = c.rec.a } }))
  put_step c (write_b head) r =
      (publish head, edit r head (λ s. record s { rec = record s.rec { b = c.rec.b } }))
  put_step c (publish head) r = (done, edit r head (λ s. record s { seq = seq_for head }))
  put_step c drop_count r = (
    if r.gap_dropped == 0 then drop_first else drop_last,
    record r { gap_dropped = add32 r.gap_dropped 1 },
  )
  put_step c drop_first r = (drop_last, record r { gap_first = c.rec.cycles })
  put_step c drop_last r = (done, record r { gap_last = c.rec.cycles })
  put_step c done r = (done, r)

  -- A call of `outpost_ring_put` that nobody interrupts, for at most `fuel` steps; `none` means that
  -- it has not returned.
  unfoldable pub put_run : ℕ → Call → Phase → Ring → Option Ring
  put_run fuel c done r = some r
  put_run zero c phase r = none
  put_run (suc fuel) c phase r =
      let (phase', r') = put_step c phase r in let rest = put_run fuel c phase' r' in rest

  -- The longest way through takes eight steps.
  unfoldable pub ring_put : Call → Ring → Option Ring
  ring_put c r = put_run 8 c load_head r

  -- `outpost_ring_get`: what goes through `out`, with `none` for `false`.
  unfoldable pub ring_get : Ring → Option Rec × Ring
  ring_get r =
      let slot = r.slots (index r.tail) in
      if r.tail == r.head
      then (none, r)
      else if slot.seq == seq_for r.tail
      then (some slot.rec, record r { tail = add32 r.tail 1 })
      else (none, r)

  unfoldable pub ring_pending : Ring → ℕ
  ring_pending r =
      let pending = sub32 r.head r.tail in if ltb ring_slots pending then ring_slots else pending

-- What `outpost_ring_take_gap` hands over.
pub record Gap : Type 0 where
  pub dropped : ℕ
  pub first_cycles : ℕ
  pub cycle_span : ℕ

unfoldable pub ring_take_gap : Ring → Option Gap × Ring
ring_take_gap r = if r.gap_dropped == 0 then (none, record r { gap_dropped = 0 }) else (
  some (record {
    dropped = r.gap_dropped;
    first_cycles = r.gap_first;
    cycle_span = sub32 r.gap_last r.gap_first;
  }),
  record r { gap_dropped = 0 },
)
