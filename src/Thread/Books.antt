-- ===== src/Thread/Books.antt =====
-- The books of the system: what the hooks offered against what the host, the ring and the losses have.
use embarch_outpost.Prelude.{
  ℕ, ◌+◌, ◌^◌, ◌<◌, ◌≡◌, ◌≢◌, ap, false, List, [], ◌∷◌, ◌++◌, append_assoc, append-nil, Option,
  none, some, length, length-append, leb, All, All-append, Bool-cases, inl, inr, arith,
}
use embarch_outpost.Config.{Config}
use embarch_outpost.Wire.{Rec}
use embarch_outpost.Host.{Decoded}
use embarch_outpost.Host.Split.{IsClosed}
use embarch_outpost.Ring.{Ring, ring_slots}
use embarch_outpost.Ring.Refine.{view}
use embarch_outpost.Ring.Queue
use embarch_outpost.Ring.Queue.{Queue}
use embarch_outpost.Hooks.{Board, Put, Kind, kind_code, hook, stamped}
use embarch_outpost.Hooks.Shown.{queue_put}
use embarch_outpost.Thread.{Thread, Action, event, thread}
use embarch_outpost.Thread.System.{IsSystem}
use embarch_outpost.Thread.Progress.{not_gap, lost_in, trace, concat, IsHooked}

-- `Kept xs ys`: the list `xs` is `ys` without some of its records.
pub data Kept : List Rec → List Rec → Type 0 where
  all_gone : Kept [] []
  gone : {xs ys : List Rec} (y : Rec) → Kept xs ys → Kept xs (y ∷ ys)
  here : {xs ys : List Rec} (x : Rec) → Kept xs ys → Kept (x ∷ xs) (x ∷ ys)

pub Kept-less : (xs ys : List Rec) (z : Rec) → Kept xs ys → Kept xs (ys ++ z ∷ [])
Kept-less _ _ z all_gone = gone z all_gone
Kept-less _ _ z (gone y k) = gone y (Kept-less _ _ z k)
Kept-less _ _ z (here x k) = here x (Kept-less _ _ z k)

pub Kept-more : (xs ys : List Rec) (z : Rec) → Kept xs ys → Kept (xs ++ z ∷ []) (ys ++ z ∷ [])
Kept-more _ _ z all_gone = here z all_gone
Kept-more _ _ z (gone y k) = gone y (Kept-more _ _ z k)
Kept-more _ _ z (here x k) = here x (Kept-more _ _ z k)

-- The record that an event has for the ring, and those of a run.
abbrev pub offer : ℕ → Option Put → List Rec
offer now none = []
offer now (some p) = (stamped now false p).rec ∷ []

abbrev pub offers : Config → Board → List Action → List Rec
offers c board [] = []
offers c board (event now e ∷ actions) = offer now (hook c board e) ++ offers c board actions
offers c board (thread now ∷ actions) = offers c board actions

-- What the host has of the hooks' records, and the losses that it has been told of.
abbrev pub delivered : List Decoded → List Rec
delivered ds = not_gap (trace ds)

abbrev pub reported : List Decoded → ℕ
reported ds = lost_in (trace ds)

-- The books of the system, where the hooks have offered `past` and the host decodes `ds`.
pub record IsAccounted (crc32 : List ℕ → ℕ) (c : Config) (past : List Rec) (t : Thread) (r : Ring)
    (ds : List Decoded) : Type 0 where
  pub system : IsSystem c t r
  pub hooked : All IsHooked (view (ring_slots c.ring_bytes) r).queued
  pub closed : IsClosed crc32 (concat t.drain.sent) ds
  pub order : Kept (delivered ds ++ (view (ring_slots c.ring_bytes) r).queued) past
  pub balance :
      length (delivered ds ++ (view (ring_slots c.ring_bytes) r).queued)
        + reported ds
        + r.gap_dropped
      ≡ length past

kind_code-IsHooked : (k : Kind) → kind_code k ≢ 8
unfolding kind_code
kind_code-IsHooked k = ground arith

-- The queue's side of an event.
pub queue_put-Kept :
    (n now : ℕ) (o : Option Put) (q : Queue) (done past : List Rec) (told : ℕ)
    → All IsHooked q.queued
    → Kept (done ++ q.queued) past
    → length (done ++ q.queued) + told + q.dropped ≡ length past
    → length (past ++ offer now o) < 2 ^ 32
    → (let q' = queue_put n now o q in
        All IsHooked q'.queued
        × Kept (done ++ q'.queued) (past ++ offer now o)
        × (length (done ++ q'.queued) + told + q'.dropped ≡ length (past ++ offer now o)))
unfolding Queue.put
queue_put-Kept n now none q done past told hooked order balance few =
    rw (append-nil past) (hooked, order, balance)
queue_put-Kept n now (some p) q done past told hooked order balance few =
    let rec = (stamped now false p).rec in
    let len = length-append past (rec ∷ []) in
    elim (Bool-cases (leb n (length q.queued))) [
      | inl full ↦ rw full (hooked, Kept-less _ _ rec order, omega (arith, len, balance, few))
      | inr room ↦ rw room (
        All-append IsHooked q.queued (rec ∷ []) hooked (kind_code-IsHooked p.kind, tt),
        rw (← append_assoc done q.queued (rec ∷ [])) (Kept-more _ _ rec order),
        omega (
          arith,
          len,
          balance,
          ap length (append_assoc done q.queued (rec ∷ [])),
          length-append (done ++ q.queued) (rec ∷ []),
        ),
      )
    ]
