-- ===== src/Drain/Losses.antt =====
-- The state of the drain thread between rounds, and the gap record at the head of a frame.
use embarch_outpost.Prelude.{
  ◌+◌, ◌-◌, ◌^◌, ◌≤◌, ◌<◌, ◌≡◌, refl, ap, ◌∙◌, List, [], ◌∷◌, append-nil, Option, none, some,
  length, splice, All, ==_ne, arith,
}
use embarch_outpost.Config.{Config, frame_buf_bytes}
use embarch_outpost.Wire.{Rec, record_max_bytes}
use embarch_outpost.Wire.Fields.{IsRec, record_bytes, length-record_bytes, put_record_fits}
use embarch_outpost.Host.Fields.{records_bytes}
use embarch_outpost.Ring.{Ring, Gap, ring_slots, ring_take_gap}
use embarch_outpost.Ring.Refine.{IsValid, view}
use embarch_outpost.Drain.{Drain, Batch, add_gap, take_gap_record, gap_record}

-- The sizes of the static buffers.
pub record IsDrain (c : Config) (d : Drain) : Type 0 where
  pub batch_buf : length d.batch_buf ≡ c.batch_bytes
  pub frame_buf : length d.frame_buf ≡ frame_buf_bytes c
  pub sealed : length d.sealed ≡ c.batch_bytes + 8
  pub frame_seq : d.frame_seq < 256

-- A ring between calls whose numbers fit their types.
pub record IsLive (c : Config) (r : Ring) : Type 0 where
  pub valid : IsValid (ring_slots c.ring_bytes) r
  pub recs : All IsRec (view (ring_slots c.ring_bytes) r).queued
  pub gap_dropped : r.gap_dropped < 2 ^ 32
  pub gap_first : r.gap_first < 2 ^ 32

-- The gap record that a frame reports.
abbrev pub gap_list : Option Gap → List Rec
gap_list none = []
gap_list (some g) = gap_record g ∷ []

pub gap_record-IsRec :
    (r : Ring) (g : Gap)
    → r.gap_dropped < 2 ^ 32
    → r.gap_first < 2 ^ 32
    → (ring_take_gap r).0 ≡ some g
    → IsRec (gap_record g)
unfolding ring_take_gap
gap_record-IsRec r g dropped first e = ground arith

-- The batch after the gap record, if there is one to report.
abbrev pub reported : Batch → List Rec → Batch
reported b gs = record {
  buf = splice b.buf b.n (records_bytes gs);
  n = b.n + length (records_bytes gs);
  count = b.count + length gs;
  ring = record b.ring { gap_dropped = 0 };
}

ring_take_gap_clears : (r : Ring) → (ring_take_gap r).1 ≡ record r { gap_dropped = 0 }
unfolding ring_take_gap
ring_take_gap_clears r = ground arith

pub take_gap_record_lem :
    (b : Batch)
    → b.ring.gap_dropped < 2 ^ 32
    → b.ring.gap_first < 2 ^ 32
    → record_max_bytes ≤ length b.buf - b.n
    → take_gap_record b ≡ reported b (gap_list (ring_take_gap b.ring).0)
unfolding take_gap_record
take_gap_record_lem b dropped first room =
    ap (λ r. add_gap (ring_take_gap b.ring).0 (record b { ring = r })) (ring_take_gap_clears b.ring)
    ∙ by_gap (ring_take_gap b.ring).0 refl
  where
    by_gap :
        (o : Option Gap)
        → (ring_take_gap b.ring).0 ≡ o
        → add_gap o (record b { ring = record b.ring { gap_dropped = 0 } })
          ≡ reported b (gap_list o)
    by_gap none e = ground arith
    by_gap (some g) e =
        let ok = gap_record-IsRec b.ring g dropped first e in
        let len = length-record_bytes (gap_record g) in
        rw (
          put_record_fits b.buf b.n (length b.buf - b.n) (gap_record g) ok room,
          append-nil,
          ==_ne (length (record_bytes (gap_record g))) 0 (omega arith),
        )
