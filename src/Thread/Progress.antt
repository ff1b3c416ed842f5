-- ===== src/Thread/Progress.antt =====
-- What one step of the drain thread adds to the stream, against what leaves the queue.
use embarch_outpost.Prelude.{
  ℕ, ◌+◌, ◌^◌, ◌≤◌, ◌<◌, ◌≡◌, ◌≢◌, refl, sym, ap, ◌∙◌, List, [], ◌∷◌, ◌++◌, append_assoc,
  append-nil, Option, none, some, length, if◌then◌else◌, ◌==◌, ==_ne, All, All-suffix, All-prefix,
  arith,
}
use embarch_outpost.Config.{Config, IsConfig}
use embarch_outpost.Wire.{Rec}
use embarch_outpost.Host.{Decoded, bad_cobs, bad_crc, bad_body, header, records}
use embarch_outpost.Host.Split.{IsClosed, frame-IsClosed, append-IsClosed}
use embarch_outpost.Ring.{Ring, Gap, ring_slots, ring_take_gap}
use embarch_outpost.Ring.Refine.{view}
use embarch_outpost.Ring.Queue.{Queue}
use embarch_outpost.Drain.{
  Drain, Image, Batch, kind_gap, finish, send_header, send_body, build_records_frame,
}
use embarch_outpost.Drain.Losses.{IsDrain, IsLive, gap_list}
use embarch_outpost.Drain.Build.{build_records_frame_lem}
use embarch_outpost.Drain.Stream.{drain_decodes}
use embarch_outpost.Drain.Header.{send_header_decodes}

-- The records without the gap records, and what the gap records report as lost.
abbrev pub not_gap : List Rec → List Rec
not_gap [] = []
not_gap (rec ∷ recs) = if rec.kind == kind_gap then not_gap recs else rec ∷ not_gap recs

abbrev pub lost_in : List Rec → ℕ
lost_in [] = 0
lost_in (rec ∷ recs) = if rec.kind == kind_gap then rec.a + lost_in recs else lost_in recs

-- All records of what the host decodes.
abbrev pub trace : List Decoded → List Rec
trace [] = []
trace (bad_cobs ∷ ds) = trace ds
trace (bad_crc ∷ ds) = trace ds
trace (bad_body ∷ ds) = trace ds
trace (header seq h ∷ ds) = trace ds
trace (records seq recs ∷ ds) = recs ++ trace ds

abbrev pub concat : List (List ℕ) → List ℕ
concat [] = []
concat (f ∷ fs) = f ++ concat fs

pub concat-snoc : (fs : List (List ℕ)) (f : List ℕ) → concat (fs ++ f ∷ []) ≡ concat fs ++ f
concat-snoc [] f = append-nil f
concat-snoc (g ∷ fs) f = rw (concat-snoc fs f, append_assoc g (concat fs) f)

pub not_gap-append : (xs ys : List Rec) → not_gap (xs ++ ys) ≡ not_gap xs ++ not_gap ys
not_gap-append [] ys = refl
not_gap-append (x ∷ xs) ys = ground (arith, not_gap-append xs ys)

pub lost_in-append : (xs ys : List Rec) → lost_in (xs ++ ys) ≡ lost_in xs + lost_in ys
lost_in-append [] ys = omega arith
lost_in-append (x ∷ xs) ys = ground (arith, lost_in-append xs ys)

pub trace-append : (ds es : List Decoded) → trace (ds ++ es) ≡ trace ds ++ trace es
trace-append [] es = refl
trace-append (bad_cobs ∷ ds) es = trace-append ds es
trace-append (bad_crc ∷ ds) es = trace-append ds es
trace-append (bad_body ∷ ds) es = trace-append ds es
trace-append (header seq h ∷ ds) es = trace-append ds es
trace-append (records seq recs ∷ ds) es =
    rw (trace-append ds es, append_assoc recs (trace ds) (trace es))

empty : (recs : List Rec) → length recs ≡ 0 → recs ≡ []
empty [] h = refl
empty (rec ∷ recs) h = absurd (omega arith)

-- A record of a hook.
abbrev pub IsHooked : Rec → Type 0
IsHooked rec = rec.kind ≢ kind_gap

pub not_gap_hooked : (recs : List Rec) → All IsHooked recs → not_gap recs ≡ recs
not_gap_hooked [] ok = refl
not_gap_hooked (rec ∷ recs) ok = rw (==_ne rec.kind kind_gap ok.0, not_gap_hooked recs ok.1)

pub lost_in_hooked : (recs : List Rec) → All IsHooked recs → lost_in recs ≡ 0
lost_in_hooked [] ok = refl
lost_in_hooked (rec ∷ recs) ok = rw (==_ne rec.kind kind_gap ok.0, lost_in_hooked recs ok.1)

not_gap-gap_list : (o : Option Gap) → not_gap (gap_list o) ≡ []
not_gap-gap_list none = refl
not_gap-gap_list (some g) = refl

lost_in-gap_list : (r : Ring) → lost_in (gap_list (ring_take_gap r).0) ≡ r.gap_dropped
unfolding ring_take_gap
lost_in-gap_list r = ground arith

pub finish-sent : (d : Drain) (b : Batch) → (finish d b).1.sent ≡ d.sent
unfolding finish
finish-sent d b = ground arith

pub build_records_frame-sent :
    (c : Config) (d : Drain) (r : Ring) → (build_records_frame c d r).1.sent ≡ d.sent
unfolding build_records_frame
build_records_frame-sent c d r = finish-sent d _

-- The decoded frames `es` are what a step adds to the stream, and they hold what left the queue.
pub record Progress (crc32 : List ℕ → ℕ) (d d' : Drain) (q q' : Queue) (es : List Decoded)
    : Type 0 where
  pub closed :
      (ds : List Decoded)
      → IsClosed crc32 (concat d.sent) ds
      → IsClosed crc32 (concat d'.sent) (ds ++ es)
  pub moved : not_gap (trace es) ++ q'.queued ≡ q.queued
  pub lost : lost_in (trace es) + q'.dropped ≡ q.dropped

module _ (crc32 : List ℕ → ℕ) where
  pub still : (d : Drain) (q : Queue) → Progress crc32 d d q q []
  still d q = record { closed = λ ds h. rw append-nil h; moved = refl; lost = omega arith }

  one_frame :
      (sent sent' : List (List ℕ)) (chunk : List ℕ) (e : Decoded) (ds : List Decoded)
      → sent' ≡ sent ++ (chunk ++ 0 ∷ []) ∷ []
      → IsClosed crc32 (chunk ++ 0 ∷ []) (e ∷ [])
      → IsClosed crc32 (concat sent) ds
      → IsClosed crc32 (concat sent') (ds ++ e ∷ [])
  one_frame sent sent' chunk e ds eq frame before =
      rw (eq, concat-snoc sent (chunk ++ 0 ∷ []))
        (append-IsClosed crc32 (concat sent) (chunk ++ 0 ∷ []) ds (e ∷ []) before frame)

module _ (crc32 : List ℕ → ℕ) (word : (bytes : List ℕ) → crc32 bytes < 2 ^ 32) (c : Config)
    (ok : IsConfig c) (d : Drain) (sized : IsDrain c d) where
  -- A header adds no record.
  pub header-Progress :
      (image : Image)
      → length image.version ≤ c.build_id_max
      → length image.build_id ≤ c.build_id_max
      → All (λ b. b < 256) image.version × All (λ b. b < 256) image.build_id
      → (q : Queue) → (e : Decoded) × Progress crc32 d (send_header c image crc32 d) q q (e ∷ [])
  header-Progress image version build_id chars q =
      let (chunk, sent, stuffed, decoded, seq, kept) =
        send_header_decodes crc32 word c image ok d sized version build_id chars in
      (
        _,
        record {
          closed = λ ds h.
              one_frame crc32 d.sent (send_header c image crc32 d).sent chunk _ ds sent
                (frame-IsClosed crc32 chunk _ stuffed decoded (λ bad. ground arith)) h;
          moved = refl;
          lost = omega arith;
        },
      )

  module _ (r : Ring) (live : IsLive c r)
      (hooked : All IsHooked (view (ring_slots c.ring_bytes) r).queued) where
    abbrev n : ℕ
    n = ring_slots c.ring_bytes

    abbrev out : ℕ × Drain × Ring
    out = build_records_frame c d r

    abbrev gs : List Rec
    gs = gap_list (ring_take_gap r).0

    moved_lem :
        (recs rest : List Rec)
        → (view n r).queued ≡ recs ++ rest
        → not_gap (gs ++ recs) ++ rest ≡ (view n r).queued
    moved_lem recs rest e =
        let fine = All-prefix IsHooked recs rest (rw e at hooked) in
        rw (not_gap-append gs recs, not_gap-gap_list (ring_take_gap r).0, not_gap_hooked recs fine)
          (sym e)

    lost_lem :
        (recs rest : List Rec)
        → (view n r).queued ≡ recs ++ rest
        → lost_in (gs ++ recs) + 0 ≡ r.gap_dropped
    lost_lem recs rest e =
        let fine = All-prefix IsHooked recs rest (rw e at hooked) in
        omega (arith, lost_in-append gs recs, lost_in-gap_list r, lost_in_hooked recs fine)

    -- The records that a frame took are still hooks' records.
    pub rest-IsHooked : All IsHooked (view n out.2).queued
    rest-IsHooked =
        let (recs, rest, f) = build_records_frame_lem c d r ok sized live in
        rw (ap (λ (q : Queue). q.queued) f.left)
          (All-suffix IsHooked recs rest (rw f.all at hooked))

    -- Nothing to send: nothing left the queue.
    pub none-Progress : out.0 ≡ 0 → Progress crc32 d out.1 (view n r) (view n out.2) []
    none-Progress e =
        let (recs, rest, f) = build_records_frame_lem c d r ok sized live in
        let nothing : gs ++ recs ≡ [] = empty (gs ++ recs) (ground (arith, f.len)) in
        let left : (view n out.2).queued ≡ rest = ap (λ (q : Queue). q.queued) f.left in
        let cleared : out.2.gap_dropped ≡ 0 = ap (λ (q : Queue). q.dropped) f.left in
        record {
          closed = λ ds h. rw (build_records_frame-sent c d r, append-nil ds) h;
          moved = left ∙ sym (ap (λ l. not_gap l ++ rest) nothing) ∙ moved_lem recs rest f.all;
          lost =
              ap (λ t. 0 + t) cleared
              ∙ sym (ap (λ l. lost_in l + 0) nothing)
              ∙ lost_lem recs rest f.all;
        }

    -- A frame adds the records that it took, and reports the losses that it cleared.
    pub frame-Progress :
        out.0 ≢ 0
        → (e : Decoded) × Progress crc32 d
            (send_body crc32 out.0 out.1)
            (view n r)
            (view n out.2)
            (e ∷ [])
    frame-Progress more =
        let (recs, chunk, all, sent, stuffed, decoded) =
          drain_decodes crc32 word c d r ok sized live more in
        let (recs', rest', f) = build_records_frame_lem c d r ok sized live in
        let cleared : out.2.gap_dropped ≡ 0 = ap (λ (q : Queue). q.dropped) f.left in
        let one =
          sent
          ∙ ap (λ (s : List (List ℕ)). s ++ (chunk ++ 0 ∷ []) ∷ [])
              (build_records_frame-sent c d r) in
        (
          records d.frame_seq (gs ++ recs),
          record {
            closed = λ ds h.
                one_frame crc32 d.sent _ chunk _ ds one
                  (frame-IsClosed crc32 chunk _ stuffed decoded (λ bad. ground arith)) h;
            moved = rw (append-nil (gs ++ recs)) (moved_lem recs _ all);
            lost = rw (append-nil (gs ++ recs), cleared) (lost_lem recs _ all);
          },
        )
