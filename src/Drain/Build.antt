-- ===== src/Drain/Build.antt =====
-- `build_records_frame` as a whole: the gap record, then the records of the ring.
use embarch_outpost.Prelude.{
  ℕ, suc, ◌+◌, ◌-◌, ◌%◌, ◌≤◌, ◌<◌, ◌≡◌, ◌≢◌, ◌⊎◌, inl, inr, refl, sym, ap, ◌∙◌, List, [], ◌∷◌, ◌++◌,
  Option, none, some, length, length-append, set, take, splice, splice-append, set-splice_lt,
  take-splice, length-splice, length-set, All-suffix, if◌then◌else◌, ◌==◌, ==_ne, arith,
}
use native.Mathlib.Decide.{ℕ_discrete}
use embarch_outpost.Config.{Config, IsConfig}
use embarch_outpost.Wire.{Rec, record_max_bytes}
use embarch_outpost.Wire.Fields.{IsRec, record_bytes, length-record_bytes}
use embarch_outpost.Host.Fields.{records_bytes}
use embarch_outpost.Ring.{Ring, Gap, ring_slots, ring_take_gap}
use embarch_outpost.Ring.Refine.{view}
use embarch_outpost.Ring.Queue.{Queue}
use embarch_outpost.Drain.{
  Drain, Batch, build_loop, take_gap_record, gap_record, started, finish, build_records_frame,
  frame_records,
}
use embarch_outpost.Drain.Records.{records_bytes-append, Took, Stopped, LoopOutcome, build_loop_lem}
use embarch_outpost.Drain.Losses.{IsDrain, IsLive, gap_list, reported, take_gap_record_lem}

-- The body of a records frame.
abbrev pub records_payload : ℕ → List Rec → List ℕ
records_payload seq recs = frame_records ∷ seq ∷ length recs ∷ records_bytes recs

-- What one call does that reports the gap records `gs` (at most one) and takes `recs` from the ring.
pub record FrameOutcome (c : Config) (d : Drain) (r : Ring) (gs recs rest : List Rec)
    (out : ℕ × Drain × Ring) : Type 0 where
  pub all : (view (ring_slots c.ring_bytes) r).queued ≡ recs ++ rest
  pub left :
      view (ring_slots c.ring_bytes) out.2
      ≡ record (view (ring_slots c.ring_bytes) r) { queued = rest; dropped = 0 }
  pub live : IsLive c out.2
  pub drain : IsDrain c out.1
  pub body :
      take out.0 out.1.batch_buf
      ≡ (if length (gs ++ recs) == 0 then [] else records_payload d.frame_seq (gs ++ recs))
  pub len :
      out.0 ≡ (if length (gs ++ recs) == 0 then 0 else 3 + length (records_bytes (gs ++ recs)))
  pub fits : out.0 ≤ c.batch_bytes
  pub few : length (gs ++ recs) ≤ 127
  pub seq :
      out.1.frame_seq ≡ (if length (gs ++ recs) == 0 then d.frame_seq else (d.frame_seq + 1) % 256)
  pub stopped :
      (length (gs ++ recs) ≡ 127)
      ⊎ (c.batch_bytes - (3 + length (records_bytes (gs ++ recs))) < record_max_bytes)
      ⊎ (rest ≡ [])

module _ (c : Config) (d : Drain) (r : Ring) (ok : IsConfig c) (sized : IsDrain c d)
    (live : IsLive c r) where
  abbrev gs : List Rec
  gs = gap_list (ring_take_gap r).0

  abbrev first : Batch
  first =
      reported
        (record {
          buf = set (set d.batch_buf 0 frame_records) 1 d.frame_seq;
          n = 3;
          count = 0;
          ring = r;
        })
        gs

  length-start : length (set (set d.batch_buf 0 frame_records) 1 d.frame_seq) ≡ c.batch_bytes
  length-start = omega (
    arith,
    sized.batch_buf,
    length-set (set d.batch_buf 0 frame_records) 1 d.frame_seq,
    length-set d.batch_buf 0 frame_records,
  )

  first_lem : take_gap_record (started d r) ≡ first
  unfolding started
  first_lem =
      take_gap_record_lem (started d r) live.gap_dropped live.gap_first
        (omega (arith, length-start, ok.batch_bytes))

  gs_short :
      (o : Option Gap) → (length (gap_list o) ≤ 1) × (length (records_bytes (gap_list o)) ≤ 16)
  gs_short none = omega arith
  gs_short (some g) =
      omega
        (arith, length-record_bytes (gap_record g), length-append (record_bytes (gap_record g)) [])

  first_loop : LoopOutcome c first (build_loop c 127 first)
  first_loop =
      let (one, short) = gs_short (ring_take_gap r).0 in
      build_loop_lem c 127 first
        (record {
          head = live.valid.head;
          tail = live.valid.tail;
          bounded = live.valid.bounded;
          published = live.valid.published;
        })
        live.recs
        (omega (
          arith,
          length-start,
          ok.batch_bytes,
          length-splice (set (set d.batch_buf 0 frame_records) 1 d.frame_seq) 3 (records_bytes gs),
        ))
        (omega arith) (omega arith)

  -- The batch at the end of the record loop.
  module _ (recs rest : List Rec) (b : Batch) (t : Took c first recs rest b)
      (stop : Stopped c b) where
    abbrev bytes : List ℕ
    bytes = records_bytes (gs ++ recs)

    batch_n : b.n ≡ 3 + length bytes
    batch_n = omega (
      arith,
      t.n,
      ap length (records_bytes-append gs recs),
      length-append (records_bytes gs) (records_bytes recs),
    )

    batch_count : b.count ≡ length (gs ++ recs)
    batch_count = omega (arith, t.count, length-append gs recs)

    batch_buf : b.buf ≡ splice (set (set d.batch_buf 0 frame_records) 1 d.frame_seq) 3 bytes
    batch_buf =
        t.buf
        ∙ splice-append (set (set d.batch_buf 0 frame_records) 1 d.frame_seq) 3
            (3 + length (records_bytes gs)) (records_bytes gs) (records_bytes recs) refl
        ∙ ap (splice (set (set d.batch_buf 0 frame_records) 1 d.frame_seq) 3)
            (sym (records_bytes-append gs recs))

    batch_length : length b.buf ≡ c.batch_bytes
    batch_length = ap length batch_buf ∙ length-splice _ 3 bytes ∙ length-start

    batch_fits : 3 + length bytes ≤ c.batch_bytes
    batch_fits = omega (
      arith,
      batch_n,
      batch_length,
      t.fits,
      ap length t.buf,
      length-splice first.buf first.n (records_bytes recs),
    )

    -- With the count in its place the batch is the body of the frame.
    batch_body :
        (count : ℕ)
        → take (3 + length bytes) (set b.buf 2 count) ≡ frame_records ∷ d.frame_seq ∷ count ∷ bytes
    batch_body count =
        ap (λ l. take (3 + length bytes) (set l 2 count)) batch_buf
        ∙ ap (take (3 + length bytes)) (
            set-splice_lt (set (set d.batch_buf 0 frame_records) 1 d.frame_seq) 2 3 count bytes
              (omega arith))
        ∙ rw three (
            take-splice d.batch_buf (frame_records ∷ d.frame_seq ∷ count ∷ bytes)
              (omega (arith, batch_fits, sized.batch_buf)))
      where
        three : 3 + length bytes ≡ suc (suc (suc (length bytes)))
        three = omega arith

    finish_none : length (gs ++ recs) ≡ 0 → finish d b ≡ (0, record d { batch_buf = b.buf }, b.ring)
    unfolding finish
    finish_none empty = rw (batch_count, empty)

    finish_some :
        length (gs ++ recs) ≢ 0
        → finish d b ≡ (
          b.n,
          record d {
            batch_buf = set b.buf 2 (length (gs ++ recs));
            frame_seq = (d.frame_seq + 1) % 256;
          },
          b.ring,
        )
    unfolding finish
    finish_some more =
        let small : b.count % 256 ≡ length (gs ++ recs) = omega (arith, batch_count, t.few) in
        rw (small, batch_count, ==_ne (length (gs ++ recs)) 0 more)

    drained : IsLive c b.ring
    drained = record {
      valid = t.valid;
      recs =
          rw (ap (λ (q : Queue). q.queued) t.left)
            (All-suffix IsRec recs rest (rw t.all at live.recs));
      gap_dropped = rw (ap (λ (q : Queue). q.dropped) t.left) (omega arith);
      gap_first = rw (ap (λ (q : Queue). q.first) t.left) live.gap_first;
    }

    few : length (gs ++ recs) ≤ 127
    few = omega (arith, batch_count, t.few)

    reason :
        (length (gs ++ recs) ≡ 127)
        ⊎ (c.batch_bytes - (3 + length bytes) < record_max_bytes)
        ⊎ (rest ≡ [])
    reason = by_stop stop
      where
        by_stop :
            Stopped c b
            → (length (gs ++ recs) ≡ 127)
              ⊎ (c.batch_bytes - (3 + length bytes) < record_max_bytes)
              ⊎ (rest ≡ [])
        by_stop (inl e) = inl (omega (arith, batch_count))
        by_stop (inr (inl e)) = inr (inl (omega (arith, batch_length, batch_n)))
        by_stop (inr (inr e)) = inr (inr (sym (ap (λ (q : Queue). q.queued) t.left) ∙ e))

    finish_outcome : FrameOutcome c d r gs recs rest (finish d b)
    finish_outcome = elim (ℕ_discrete (length (gs ++ recs)) 0) [
      | yes empty ↦ rw (finish_none empty) (record {
        all = t.all;
        left = t.left;
        live = drained;
        drain = record {
          batch_buf = batch_length;
          frame_buf = sized.frame_buf;
          sealed = sized.sealed;
          frame_seq = sized.frame_seq;
        };
        body = rw empty;
        len = rw empty;
        fits = omega arith;
        few = few;
        seq = rw empty;
        stopped = reason;
      })
      | no more ↦ rw (finish_some more) (record {
        all = t.all;
        left = t.left;
        live = drained;
        drain = record {
          batch_buf = length-set b.buf 2 (length (gs ++ recs)) ∙ batch_length;
          frame_buf = sized.frame_buf;
          sealed = sized.sealed;
          frame_seq = omega arith;
        };
        body = rw (==_ne (length (gs ++ recs)) 0 more, batch_n) (batch_body (length (gs ++ recs)));
        len = rw (==_ne (length (gs ++ recs)) 0 more) batch_n;
        fits = omega (arith, batch_n, batch_fits);
        few = few;
        seq = rw (==_ne (length (gs ++ recs)) 0 more);
        stopped = reason;
      })
    ]

  -- Where the configuration is in range, the buffers have their sizes, and the ring is between
  -- calls with numbers that fit their types, `build_records_frame` takes a prefix of the records in
  -- the ring; the batch holds the type, the sequence number, the count, and the bytes of the gap
  -- record (if records were lost) and of these records; it stops at 127 records, or without room
  -- for another, or with the ring empty; with nothing to send it returns 0 and takes no sequence
  -- number; ring and buffers stay as assumed.
  pub build_records_frame_lem :
      (recs : List Rec) × (rest : List Rec) × FrameOutcome c d r gs recs rest
        (build_records_frame c d r)
  unfolding build_records_frame
  build_records_frame_lem =
      let (recs, rest, t, stop) = first_loop in
      rw first_lem (recs, rest, finish_outcome recs rest (build_loop c 127 first) t stop)
