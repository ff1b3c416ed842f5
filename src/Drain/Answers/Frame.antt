-- ===== src/Drain/Answers/Frame.antt =====
-- The frame that comes of it, and what the host makes of that.
use embarch_outpost.Prelude.{
  ℕ, suc, ◌+◌, ◌-◌, ◌%◌, ◌^◌, ◌≤◌, ◌<◌, ◌≡◌, ◌≢◌, ◌⊎◌, inl, inr, refl, ap, ◌∙◌, List, [], ◌∷◌, ◌++◌,
  Option, none, some, length, length-set, length-splice, set, take, set-splice_lt, take-splice, All,
  All-append, All-prefix, ==_ne, arith,
}
use embarch_outpost.Config.{Config, IsConfig}
use embarch_outpost.Wire.{Rec, record_max_bytes}
use embarch_outpost.Wire.Fields.{IsRec, record_bytes, length-record_bytes, put_record_fits}
use embarch_outpost.Frame.Stuffed.{stuff, IsStuffed}
use embarch_outpost.Frame.Seal.{sealed_bytes}
use embarch_outpost.Host.{decode_chunk, records}
use embarch_outpost.Host.Fields.{records_bytes}
use embarch_outpost.Host.Chunk.{decode_chunk-stuff, decode_payload-records}
use embarch_outpost.Ring.{Ring, Gap}
use embarch_outpost.Drain.{Drain, Batch, add_gap, gap_record, started, finish, frame_records}
use embarch_outpost.Drain.Losses.{IsDrain, gap_list}
use embarch_outpost.Drain.Build.{records_payload}
use embarch_outpost.Drain.Stream.{
  sent_body, sent_body-IsDrain, send_body_lem, chunk-IsStuffed, records_bytes-IsByte,
}
use embarch_outpost.Drain.Answers.{answered_loop, answered_frame, after_frame}
use embarch_outpost.Drain.Answers.Loop.{
  records_of, Wrote, Wrote-cons, wrote_one, IsAnswer, answered_loop_lem,
}

-- The gap record is written like the others.
pub add_gap-some :
    (b : Batch) (g : Gap)
    → IsRec (gap_record g)
    → record_max_bytes ≤ length b.buf - b.n
    → add_gap (some g) b ≡ wrote_one b (gap_record g)
add_gap-some b g ok room =
    rw
      (
        put_record_fits b.buf b.n (length b.buf - b.n) (gap_record g) ok room,
        ==_ne (length (record_bytes (gap_record g))) 0
            (omega (arith, length-record_bytes (gap_record g))),
      )
      refl

module _ (c : Config) (ok : IsConfig c) (d : Drain) (r : Ring) (sized : IsDrain c d) where
  abbrev start : List ℕ
  start = set (set d.batch_buf 0 frame_records) 1 d.frame_seq

  length-start : length start ≡ c.batch_bytes
  length-start = omega (
    arith,
    sized.batch_buf,
    length-set (set d.batch_buf 0 frame_records) 1 d.frame_seq,
    length-set d.batch_buf 0 frame_records,
  )

  loop-Wrote :
      (gap : Option Gap) (gets : List (Option Rec))
      → All IsRec (gap_list gap)
      → All IsAnswer gets
      → (let out = answered_loop 127 gets (add_gap gap (started d r)) in
          (recs : List Rec) × Wrote (started d r) (gap_list gap ++ recs) out.0
          × (records_of gets ≡ recs ++ records_of out.1))
  unfolding started
  loop-Wrote none gets fine answers =
      answered_loop_lem 127 gets (started d r) answers (omega (arith, length-start, ok.batch_bytes))
        (omega arith)
  loop-Wrote (some g) gets fine answers =
      let first = wrote_one (started d r) (gap_record g) in
      let len = length-record_bytes (gap_record g) in
      rw (add_gap-some (started d r) g fine.0 (omega (arith, length-start, ok.batch_bytes))) (
        let (recs, wrote, used) =
          answered_loop_lem 127 gets first answers
            (omega (
              arith,
              len,
              length-start,
              ok.batch_bytes,
              length-splice start 3 (record_bytes (gap_record g)),
            ))
            (omega arith) in
        (
          recs,
          Wrote-cons (started d r) (answered_loop 127 gets first).0 (gap_record g) recs wrote,
          used,
        ))

  -- With the count in its place the batch is the body of the frame.
  Wrote-body :
      (all : List Rec) (b : Batch)
      → Wrote (started d r) all b
      → take b.n (set b.buf 2 (b.count % 256)) ≡ records_payload d.frame_seq all
  unfolding started
  Wrote-body all b w =
      let bytes = records_bytes all in
      let count : b.count % 256 ≡ length all = omega (arith, w.count, w.few) in
      let n : b.n ≡ suc (suc (suc (length bytes))) = omega (arith, w.n) in
      rw (n, count, w.buf)
        (ap (take (suc (suc (suc (length bytes)))))
            (set-splice_lt start 2 3 (length all) bytes (omega arith))
          ∙ take-splice d.batch_buf (frame_records ∷ d.frame_seq ∷ length all ∷ bytes)
              (omega (arith, w.fits, w.n, length-start, sized.batch_buf)))

  finish_none : (b : Batch) → b.count ≡ 0 → finish d b ≡ (0, record d { batch_buf = b.buf }, b.ring)
  unfolding finish
  finish_none b e = rw e refl

  finish_some :
      (b : Batch)
      → b.count ≢ 0
      → finish d b ≡ (
        b.n,
        record d { batch_buf = set b.buf 2 (b.count % 256); frame_seq = (d.frame_seq + 1) % 256 },
        b.ring,
      )
  unfolding finish
  finish_some b e = rw (==_ne b.count 0 e) refl

  -- One frame: nothing to send, or a chunk that the host decodes to these records.
  module _ (crc32 : List ℕ → ℕ) (word : (bytes : List ℕ) → crc32 bytes < 2 ^ 32) where
    abbrev pub Sent : List Rec → ℕ × Drain × Ring → Type 0
    Sent all out =
        IsDrain c (after_frame crc32 out)
        × (((all ≡ []) × ((after_frame crc32 out).sent ≡ d.sent))
            ⊎ ((chunk : List ℕ) × ((after_frame crc32 out).sent ≡ d.sent ++ (chunk ++ 0 ∷ []) ∷ [])
                × All IsStuffed chunk
                × (decode_chunk crc32 chunk ≡ records d.frame_seq all)))

    pub finish-Sent :
        (all : List Rec) (b : Batch)
        → All IsRec all
        → Wrote (started d r) all b
        → Sent all (finish d b)
    unfolding started
    finish-Sent [] b fine w = rw (finish_none b (omega (arith, w.count))) (
      record {
        batch_buf = ap length w.buf ∙ length-splice start 3 [] ∙ length-start;
        frame_buf = sized.frame_buf;
        sealed = sized.sealed;
        frame_seq = sized.frame_seq;
      },
      inl (refl, refl),
    )
    finish-Sent (rec ∷ recs) b fine w =
        let all = rec ∷ recs in
        let out : Drain = record d {
          batch_buf = set b.buf 2 (b.count % 256);
          frame_seq = (d.frame_seq + 1) % 256;
        } in
        let sized' : IsDrain c out = record {
          batch_buf =
              length-set b.buf 2 (b.count % 256)
              ∙ ap length w.buf
              ∙ length-splice start 3 (records_bytes all)
              ∙ length-start;
          frame_buf = sized.frame_buf;
          sealed = sized.sealed;
          frame_seq = omega arith;
        } in
        let body = records_payload d.frame_seq all in
        let sent =
          send_body_lem crc32 c b.n out sized' (omega (arith, w.fits, length-start))
          ∙ ap (sent_body crc32 c out) (Wrote-body all b w) in
        rw
          (
            finish_some b (λ e. absurd (omega (arith, w.count, e))),
            ==_ne b.n 0 (λ e. absurd (omega (arith, w.n, e))),
            sent,
          )
          (
            sent_body-IsDrain crc32 c out body sized',
            inr (
              stuff (sealed_bytes crc32 body),
              refl,
              chunk-IsStuffed crc32 word body (
                omega arith,
                (sized.frame_seq, (omega (arith, w.few, w.count), records_bytes-IsByte all fine)),
              ),
              decode_chunk-stuff crc32 word body (omega arith)
                  ∙ decode_payload-records d.frame_seq all (omega (arith, w.few, w.count)) fine,
            ),
          )

    records_of-IsRec : (gets : List (Option Rec)) → All IsAnswer gets → All IsRec (records_of gets)
    records_of-IsRec [] h = tt
    records_of-IsRec (none ∷ gets) h = records_of-IsRec gets h.1
    records_of-IsRec (some rec ∷ gets) h = (h.0, records_of-IsRec gets h.1)

    pub answered_frame-Sent :
        (gap : Option Gap) (gets : List (Option Rec))
        → All IsRec (gap_list gap)
        → All IsAnswer gets
        → (let (out, rest) = answered_frame gap gets d r in
            (recs : List Rec) × (records_of gets ≡ recs ++ records_of rest)
            × Sent (gap_list gap ++ recs) out)
    unfolding answered_frame
    answered_frame-Sent gap gets fine answers =
        let (recs, wrote, used) = loop-Wrote gap gets fine answers in
        let (b, rest) = answered_loop 127 gets (add_gap gap (started d r)) in
        let good =
          All-prefix IsRec recs (records_of rest) (rw used at (records_of-IsRec gets answers)) in
        (
          recs,
          used,
          finish-Sent (gap_list gap ++ recs) b (All-append IsRec (gap_list gap) recs fine good)
              wrote,
        )
