-- ===== src/Ring/Refine.antt =====
-- The ring between calls is the bounded queue of the records that it holds.
use embarch_outpost.Prelude.{
  ℕ, zero, suc, ◌^◌, ◌≤◌, ◌<◌, ◌≡◌, refl, arith, ==_ne, ==_refl, false, some, none, leb-false,
  le→leb, length,
}
use native.Mathlib.Decide.{dec_lt}
use embarch_outpost.Ring.{
  Ring, Call, index, add32, sub32, seq_for, ring_put, ring_get, ring_pending, ring_take_gap,
  ring_init_at,
}
use embarch_outpost.Ring.Config.{IsSlots}
use embarch_outpost.Ring.Window.{window, Published, length-window, window-update, Published-update}
use embarch_outpost.Ring.Put.{stored, dropped, ring_put-stored, ring_put-dropped}
use embarch_outpost.Ring.Queue
use embarch_outpost.Ring.Queue.{Queue}

-- How many reservations are out.
abbrev pub count : Ring → ℕ
count r = sub32 r.head r.tail

-- The ring between calls: every reservation from `tail` to `head` is published.
pub record IsValid (n : ℕ) (r : Ring) : Type 0 where
  pub head : r.head < 2 ^ 32
  pub tail : r.tail < 2 ^ 32
  pub bounded : count r ≤ n
  pub published : Published n r.slots r.tail (count r)

abbrev popped : Ring → Ring
popped r = record r { tail = add32 r.tail 1 }

abbrev pub view : ℕ → Ring → Queue
view n r = record {
  queued = window n r.slots r.tail (count r);
  dropped = r.gap_dropped;
  first = r.gap_first;
  last = r.gap_last;
}

module _ {n : ℕ} (s : IsSlots n) where
  -- `outpost_ring_init_at` leaves a valid, empty ring, wherever the counters start.
  pub ring_init_at-view :
      (start : ℕ) (r : Ring)
      → start < 2 ^ 32
      → IsValid n (ring_init_at n start r) × (view n (ring_init_at n start r) ≡ Queue.empty)
  unfolding ring_init_at Queue.empty
  ring_init_at-view start r h =
      let none_out : sub32 start start ≡ 0 = omega arith in
      rw none_out
        (record { head = h; tail = h; bounded = omega arith; published = rw none_out tt }, refl)

  pub count-stored :
      (c : Call) (r : Ring) → IsValid n r → count r < n → count (stored n c r) ≡ suc (count r)
  count-stored c r v room = omega (arith, s.small, v.head, v.tail)

  pub stored-IsValid : (c : Call) (r : Ring) → IsValid n r → count r < n → IsValid n (stored n c r)
  stored-IsValid c r v room = record {
    head = omega arith;
    tail = v.tail;
    bounded = omega (arith, count-stored c r v room);
    published = rw (count-stored c r v room) (
        Published-update s (record { rec = c.rec; seq = seq_for r.head }) r.head r.slots r.tail
          (count r) v.tail room (omega (arith, v.head, v.tail)) refl v.published);
  }

  view-stored :
      (c : Call) (r : Ring)
      → IsValid n r
      → count r < n
      → view n (stored n c r) ≡ Queue.put n c.rec (view n r)
  unfolding Queue.put
  view-stored c r v room = rw (
    count-stored c r v room,
    window-update s (record { rec = c.rec; seq = seq_for r.head }) r.head r.slots r.tail (count r)
        v.tail room (omega (arith, v.head, v.tail)),
    length-window n r.slots r.tail (count r),
    leb-false n (count r) room,
  )

  view-dropped :
      (c : Call) (r : Ring) → n ≤ count r → view n (dropped n c r) ≡ Queue.put n c.rec (view n r)
  unfolding Queue.put
  view-dropped c r full = rw (length-window n r.slots r.tail (count r), le→leb n (count r) full)

  -- On a ring between calls, a call of `outpost_ring_put` that may not block and that nobody
  -- interrupts returns, keeps the ring valid, and appends the record to the queue of the ring, or
  -- on a full ring drops it and accounts for it.
  pub ring_put_refines :
      (c : Call) (r : Ring)
      → IsValid n r
      → c.may_block ≡ false
      → (r' : Ring) × (ring_put n c r ≡ some r')
        × IsValid n r'
        × (view n r' ≡ Queue.put n c.rec (view n r))
  ring_put_refines c r v no_block = elim (dec_lt (count r) n) [
    | yes room ↦ (
      stored n c r,
      ring_put-stored n c r room,
      stored-IsValid c r v room,
      view-stored c r v room,
    )
    | no full ↦ (
      dropped n c r,
      ring_put-dropped n c r (omega arith) no_block,
      record { head = v.head; tail = v.tail; bounded = v.bounded; published = v.published },
      view-dropped c r (omega arith),
    )
  ]

  ring_get_empty : (r : Ring) → IsValid n r → count r ≡ 0 → ring_get n r ≡ (none, r)
  unfolding ring_get
  ring_get_empty r v e =
      let same : r.tail ≡ r.head = omega (arith, v.head, v.tail) in rw same (rw (==_refl r.head))

  ring_get_next :
      (r : Ring) (k : ℕ)
      → IsValid n r
      → count r ≡ suc k
      → ring_get n r ≡ (some (r.slots (index n r.tail)).rec, popped r)
  unfolding ring_get
  ring_get_next r k v e =
      let p : Published n r.slots r.tail (suc k) = rw e at v.published in
      rw (==_ne r.tail r.head (omega (arith, v.head, v.tail)), p.0, ==_refl (seq_for r.tail))

  count-popped : (r : Ring) (k : ℕ) → IsValid n r → count r ≡ suc k → count (popped r) ≡ k
  count-popped r k v e = omega (arith, v.head, v.tail)

  popped-IsValid : (r : Ring) (k : ℕ) → IsValid n r → count r ≡ suc k → IsValid n (popped r)
  popped-IsValid r k v e =
      let p : Published n r.slots r.tail (suc k) = rw e at v.published in
      record {
        head = v.head;
        tail = omega arith;
        bounded = omega (arith, count-popped r k v e, v.bounded);
        published = rw (count-popped r k v e) p.1;
      }

  -- On a ring between calls `outpost_ring_get` pops the oldest record of the queue, is false only
  -- where that is empty, and keeps the ring valid.
  pub ring_get_refines :
      (r : Ring)
      → IsValid n r
      → IsValid n (ring_get n r).1
        × (let (out, r') = ring_get n r in (out, view n r') ≡ Queue.get (view n r))
  unfolding Queue.get
  ring_get_refines r v = by_count (count r) refl
    where
      by_count :
          (k : ℕ)
          → count r ≡ k
          → IsValid n (ring_get n r).1
            × (let (out, r') = ring_get n r in (out, view n r') ≡ Queue.get (view n r))
      by_count zero e = rw (ring_get_empty r v e) (v, rw e)
      by_count (suc k) e =
          rw (ring_get_next r k v e) (popped-IsValid r k v e, rw (count-popped r k v e, e))

  -- On a ring between calls `outpost_ring_take_gap` hands over the account of the losses and clears
  -- it, as the queue does, and keeps the ring valid.
  pub ring_take_gap_refines :
      (r : Ring)
      → IsValid n r
      → IsValid n (ring_take_gap r).1
        × (let (out, r') = ring_take_gap r in (out, view n r') ≡ Queue.take_gap (view n r))
  unfolding ring_take_gap Queue.take_gap
  ring_take_gap_refines r v = ground arith

  -- On a ring between calls `outpost_ring_pending` is the number of records in the queue: the clamp
  -- never acts.
  pub ring_pending-view : (r : Ring) → IsValid n r → ring_pending n r ≡ length (view n r).queued
  unfolding ring_pending
  ring_pending-view r v = rw (length-window n r.slots r.tail (count r)) (ground (arith, v.bounded))
