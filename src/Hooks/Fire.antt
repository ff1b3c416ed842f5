-- ===== src/Hooks/Fire.antt =====
-- An event and the ring: what it adds to the queue of records.
use embarch_outpost.Prelude.{
  ℕ, ◌^◌, ◌<◌, ◌≡◌, inl, inr, refl, false, Option, none, some, Bool-cases, [], ◌∷◌, length, leb,
  All, All-append, arith,
}
use embarch_outpost.Config.{Config}
use embarch_outpost.Wire.{Rec}
use embarch_outpost.Wire.Fields.{IsRec}
use embarch_outpost.Ring.{Ring, ring_slots}
use embarch_outpost.Ring.Config.{IsSlots, ring_slots-IsSlots}
use embarch_outpost.Ring.Refine.{IsValid, view, ring_put_refines}
use embarch_outpost.Ring.Queue
use embarch_outpost.Ring.Queue.{Queue}
use embarch_outpost.Hooks.{Board, Put, Event, hook, call_put, fire, stamped}
use embarch_outpost.Hooks.Exclusion.{IsEvent, hook-IsRec}
use embarch_outpost.Hooks.Shown.{Shown, hook-Shown, queue_put}
use embarch_outpost.Drain.Losses.{IsLive}

module _ {n : ℕ} (s : IsSlots n) (c : Config) (board : Board) where
  call_put_refines :
      (now : ℕ) (o : Option Put) (r : Ring)
      → IsValid n r
      → (r' : Ring) × (call_put n now false o r ≡ some r')
        × IsValid n r'
        × (view n r' ≡ queue_put n now o (view n r))
  unfolding call_put
  call_put_refines now none r v = (r, refl, v, refl)
  call_put_refines now (some p) r v = ring_put_refines s (stamped now false p) r v refl

  -- Where a hook may not block it returns, keeps the ring valid, and adds its one record to the
  -- queue (or the account of the lost ones), or does nothing.
  pub fire_refines :
      (now : ℕ) (e : Event) (r : Ring)
      → IsValid n r
      → (r' : Ring) × (fire c board n now false e r ≡ some r')
        × IsValid n r'
        × (view n r' ≡ queue_put n now (hook c board e) (view n r))
  unfolding fire
  fire_refines now e r v = call_put_refines now (hook c board e) r v

-- The numbers of the queue fit their types.
pub record IsCounted (q : Queue) : Type 0 where
  pub recs : All IsRec q.queued
  pub dropped : q.dropped < 2 ^ 32
  pub first : q.first < 2 ^ 32

put-IsCounted :
    (n : ℕ) (rec : Rec) (q : Queue) → IsRec rec → IsCounted q → IsCounted (Queue.put n rec q)
unfolding Queue.put
put-IsCounted n rec q v ok = elim (Bool-cases (leb n (length q.queued))) [
  | inl full ↦
      rw full (record {
        recs = ok.recs;
        dropped = omega arith;
        first = ground (arith, v.cycles, ok.first);
      })
  | inr room ↦ rw room (record {
    recs = All-append IsRec q.queued (rec ∷ []) ok.recs (v, tt);
    dropped = ok.dropped;
    first = ok.first;
  })
]

module _ (c : Config) (board : Board) where
  queue_put-IsCounted :
      (n now : ℕ) (e : Event) (o : Option Put) (q : Queue)
      → IsEvent e
      → now < 2 ^ 32
      → hook c board e ≡ o
      → IsCounted q
      → IsCounted (queue_put n now o q)
  queue_put-IsCounted n now e none q h small eq ok = ok
  queue_put-IsCounted n now e (some p) q h small eq ok =
      put-IsCounted n (stamped now false p).rec q (hook-IsRec c board p e now false h small eq) ok

  pub fire_adds :
      (now : ℕ) (e : Event) (r : Ring)
      → IsEvent e
      → now < 2 ^ 32
      → IsLive c r
      → (r' : Ring) × (fire c board (ring_slots c.ring_bytes) now false e r ≡ some r')
        × IsLive c r'
        × (view (ring_slots c.ring_bytes) r'
            ≡ queue_put
                (ring_slots c.ring_bytes)
                now
                (hook c board e)
                (view (ring_slots c.ring_bytes) r))
  fire_adds now e r h small live =
      let n = ring_slots c.ring_bytes in
      let (r', eq, valid, q) =
        fire_refines (ring_slots-IsSlots c.ring_bytes) c board now e r live.valid in
      let counted : IsCounted (view n r') = rw q (
        queue_put-IsCounted n now e (hook c board e) (view n r) h small refl
          (record { recs = live.recs; dropped = live.gap_dropped; first = live.gap_first })) in
      (
        r',
        eq,
        record {
          valid = valid;
          recs = counted.recs;
          gap_dropped = counted.dropped;
          gap_first = counted.first;
        },
        q,
      )

  -- On a ring between calls with numbers that fit their types, every event whose numbers are
  -- uint32_t, in a context that may not block, returns, and leaves the ring valid and its numbers
  -- fitting. Either its option is not compiled in, or it is one of the outpost's own or a marker
  -- without a registration, and the queue of the ring is as it was; or it is none of these, and the
  -- queue has one record put, or its loss accounted for: with the cycle count of the event, a kind
  -- that the host names as the event is documented, and the two documented numbers.
  pub fire-IsLive :
      (now : ℕ) (e : Event) (r : Ring)
      → IsEvent e
      → now < 2 ^ 32
      → IsLive c r
      → (r' : Ring) × (fire c board (ring_slots c.ring_bytes) now false e r ≡ some r')
        × IsLive c r'
        × Shown c board now e
            (view (ring_slots c.ring_bytes) r)
            (view (ring_slots c.ring_bytes) r')
            (ring_slots c.ring_bytes)
  fire-IsLive now e r h small live =
      let n = ring_slots c.ring_bytes in
      let (r', eq, live', q) = fire_adds now e r h small live in
      (r', eq, live', hook-Shown c board n now e (view n r) (view n r') (hook c board e) refl q)
