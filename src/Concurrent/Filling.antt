-- ===== src/Concurrent/Filling.antt =====
-- What one more record does to the batch, and what its end does to the stream.
use embarch_outpost.Prelude.{
  ◌-◌, ◌≤◌, ◌<◌, ◌≡◌, refl, sym, ap, ◌∙◌, List, [], ◌∷◌, ◌++◌, append-nil, Option, none, some,
  length, length-append, length-splice, length-set, set, splice, splice-append, arith,
}
use mathlib.Core.Path.{subst}
use embarch_outpost.Config.{Config, IsConfig}
use embarch_outpost.Wire.{Rec, put_record, record_max_bytes}
use embarch_outpost.Wire.Fields.{IsRec, record_bytes, length-record_bytes, put_record_fits}
use embarch_outpost.Host.Fields.{records_bytes}
use embarch_outpost.Ring.{Ring, Gap}
use embarch_outpost.Drain.{Drain, Batch, add_gap, started, gap_record}
use embarch_outpost.Drain.Losses.{IsDrain, gap_list}
use embarch_outpost.Drain.Records.{records_bytes-append}
use embarch_outpost.Drain.Answers.Loop.{Wrote, Wrote-none, wrote_one}
use embarch_outpost.Drain.Answers.Frame.{add_gap-some}

-- Where there is room the record is written.
pub added_fits :
    (b : Batch) (rec : Rec)
    → IsRec rec
    → record_max_bytes ≤ length b.buf - b.n
    → put_record b.buf b.n (length b.buf - b.n) rec
      ≡ (splice b.buf b.n (record_bytes rec), length (record_bytes rec))
added_fits b rec ok room = put_record_fits b.buf b.n (length b.buf - b.n) rec ok room

-- One more record.
pub Wrote-snoc :
    (b b' : Batch) (recs : List Rec) (rec : Rec)
    → Wrote b recs b'
    → b'.count < 127
    → record_max_bytes ≤ length b'.buf - b'.n
    → IsRec rec
    → Wrote b (recs ++ rec ∷ []) (wrote_one b' rec)
Wrote-snoc b b' recs rec w few room ok =
    let bytes = records_bytes recs in
    let all =
      records_bytes-append recs (rec ∷ []) ∙ ap (λ l. bytes ++ l) (append-nil (record_bytes rec)) in
    let len = ap length all ∙ length-append bytes (record_bytes rec) in
    let same : length b'.buf ≡ length b.buf = ap length w.buf ∙ length-splice b.buf b.n bytes in
    record {
      buf =
          ap (λ l. splice l b'.n (record_bytes rec)) w.buf
          ∙ splice-append b.buf b.n b'.n bytes (record_bytes rec) w.n
          ∙ ap (splice b.buf b.n) (sym all);
      n = omega (arith, len, w.n);
      fits = omega (arith, same, room, length-record_bytes rec);
      count = omega (arith, w.count, length-append recs (rec ∷ []));
      few = omega (arith, few);
    }

add_gap-ring : (gap : Option Gap) (b : Batch) → (add_gap gap b).ring ≡ b.ring
add_gap-ring none b = refl
add_gap-ring (some g) b = ground arith

module _ (c : Config) (ok : IsConfig c) (d : Drain) (r : Ring) (sized : IsDrain c d) where
  pub length-started : length (started d r).buf ≡ c.batch_bytes
  unfolding started
  length-started = omega (
    arith,
    sized.batch_buf,
    length-set (set d.batch_buf 0 1) 1 d.frame_seq,
    length-set d.batch_buf 0 1,
  )

  -- Nothing is written yet, and there is room.
  pub started-Wrote : Wrote (started d r) [] (started d r)
  unfolding started
  started-Wrote =
      Wrote-none (started d r) (omega (arith, length-started, ok.batch_bytes)) (omega arith)

  -- The account that `outpost_ring_take_gap` has given is written.
  add_gap-Wrote :
      (gap : Option Gap)
      → ((g : Gap) → gap ≡ some g → IsRec (gap_record g))
      → Wrote (started d r) (gap_list gap) (add_gap gap (started d r))
  unfolding started
  add_gap-Wrote none fine = started-Wrote
  add_gap-Wrote (some g) fine =
      let room : record_max_bytes ≤ length (started d r).buf - 3 =
        omega (arith, length-started, ok.batch_bytes) in
      rw (add_gap-some (started d r) g (fine g refl) room) (
        Wrote-snoc (started d r) (started d r) [] (gap_record g) started-Wrote (omega arith) room
          (fine g refl))

-- The batch `b` is the one that `build_records_frame` has begun.
pub add_gap-begun :
    (c : Config)
    → IsConfig c
    → (d : Drain) → IsDrain c d
    → (b : Batch) (gap : Option Gap) → b ≡ started d b.ring
    → ((g : Gap) → gap ≡ some g → IsRec (gap_record g))
    → Wrote (started d (add_gap gap b).ring) (gap_list gap) (add_gap gap b)
add_gap-begun c ok d sized b gap e fine =
    subst (λ x. Wrote (started d x) (gap_list gap) (add_gap gap b)) (sym (add_gap-ring gap b))
      (subst (λ (x : Batch). Wrote (started d b.ring) (gap_list gap) (add_gap gap x)) (sym e)
        (add_gap-Wrote c ok d b.ring sized gap fine))
