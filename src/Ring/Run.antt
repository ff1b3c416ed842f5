-- ===== src/Ring/Run.antt =====
-- A sequence of whole calls on the ring, as in tests/unit/src/main.c, against the queue.
use embarch_outpost.Prelude.{
  ℕ, ◌^◌, ◌<◌, ◌≡◌, refl, ap, ◌∙◌, false, some, none, Option, ◌>>=◌, List, [], ◌∷◌,
}
use embarch_outpost.Wire.{Rec}
use embarch_outpost.Ring.{Ring, Call, Gap, ring_put, ring_get, ring_take_gap, ring_init_at}
use embarch_outpost.Ring.Config.{IsSlots}
use embarch_outpost.Ring.Refine.{
  IsValid, view, ring_put_refines, ring_get_refines, ring_take_gap_refines, ring_init_at-view,
}
use embarch_outpost.Ring.Queue
use embarch_outpost.Ring.Queue.{Queue}

pub data Op : Type 0 where
  put : Rec → Op
  get : Op
  take_gap : Op

-- What the caller sees of an operation.
pub data Reply : Type 0 where
  returned : Reply
  popped : Option Rec → Reply
  gap : Option Gap → Reply

abbrev pub dropping : Rec → Call
dropping rec = record { rec = rec; may_block = false }

abbrev consed : Reply → Option (List Reply) → Option (List Reply)
consed reply none = none
consed reply (some replies) = some (reply ∷ replies)

module _ (n : ℕ) where
  -- The replies of the ring, whose producers may not block; `none` if a call did not return.
  unfoldable pub run : List Op → Ring → Option (List Reply)
  run [] r = some []
  run (put rec ∷ ops) r = ring_put n (dropping rec) r >>= λ r'. consed returned (run ops r')
  run (get ∷ ops) r = let (out, r') = ring_get n r in consed (popped out) (run ops r')
  run (take_gap ∷ ops) r = let (out, r') = ring_take_gap r in consed (gap out) (run ops r')

  -- The replies of the queue.
  unfoldable pub queue_run : List Op → Queue → List Reply
  queue_run [] q = []
  queue_run (put rec ∷ ops) q = returned ∷ queue_run ops (Queue.put n rec q)
  queue_run (get ∷ ops) q = let (out, q') = Queue.get q in popped out ∷ queue_run ops q'
  queue_run (take_gap ∷ ops) q = let (out, q') = Queue.take_gap q in gap out ∷ queue_run ops q'

module _ {n : ℕ} (s : IsSlots n) where
  -- No sequence of calls tells a valid ring from the bounded queue of its records.
  pub run_refines :
      (ops : List Op) (r : Ring) → IsValid n r → run n ops r ≡ some (queue_run n ops (view n r))
  unfolding run queue_run
  run_refines [] r v = refl
  run_refines (put rec ∷ ops) r v =
      let (r', e, v', q) = ring_put_refines s (dropping rec) r v refl in
      rw (e, run_refines ops r' v', q)
  run_refines (get ∷ ops) r v =
      let (v', q) = ring_get_refines s r v in rw (run_refines ops (ring_get n r).1 v', ← q)
  run_refines (take_gap ∷ ops) r v =
      let (v', q) = ring_take_gap_refines s r v in rw (run_refines ops (ring_take_gap r).1 v', ← q)

  -- From `outpost_ring_init_at(start)`, for every start below 2 ^ 32, every sequence of whole calls
  -- of `outpost_ring_put` (not blocking), `outpost_ring_get` and `outpost_ring_take_gap` returns,
  -- and replies as the bounded queue does that starts empty, over the wraparound of the counters
  -- too.
  pub run-ring_init_at :
      (ops : List Op) (start : ℕ) (r : Ring)
      → start < 2 ^ 32
      → run n ops (ring_init_at n start r) ≡ some (queue_run n ops Queue.empty)
  run-ring_init_at ops start r h =
      let (v, e) = ring_init_at-view s start r h in
      run_refines ops (ring_init_at n start r) v ∙ ap (λ q. some (queue_run n ops q)) e
