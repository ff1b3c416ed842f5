-- ===== src/Drain/Stream.antt =====
-- What `send_body` hands to the transport, and that the host's decoder reads it back.
use embarch_outpost.Prelude.{
  ℕ, ◌^◌, ◌≤◌, ◌<◌, ◌≡◌, ◌≢◌, refl, sym, ap, ◌∙◌, List, [], ◌∷◌, ◌++◌, Option, none, some, length,
  length-append, length-take, length-splice, take, take-splice, splice, ==_ne, All, All-append,
  All-prefix, IsByte, arith,
}
use embarch_outpost.Config.{Config, IsConfig, frame_buf_bytes}
use embarch_outpost.Wire.{Rec}
use embarch_outpost.Wire.Fields.{IsRec, record_bytes, record_bytes-IsByte}
use embarch_outpost.Frame.{crc_bytes}
use embarch_outpost.Frame.Stuffed.{stuff, IsStuffed, stuff-IsStuffed}
use embarch_outpost.Frame.Seal.{
  sealed_bytes, frame_bytes, crc_bytes-IsByte, frame_lem, length-frame_bytes,
}
use embarch_outpost.Host.{decode_chunk, records}
use embarch_outpost.Host.Fields.{records_bytes}
use embarch_outpost.Host.Chunk.{decode_chunk-stuff, decode_payload-records}
use embarch_outpost.Ring.{Ring, Gap, ring_slots, ring_take_gap}
use embarch_outpost.Ring.Refine.{view}
use embarch_outpost.Ring.Queue.{Queue}
use embarch_outpost.Drain.{Drain, send_body, build_records_frame}
use embarch_outpost.Drain.Losses.{IsDrain, IsLive, gap_list, gap_record-IsRec}
use embarch_outpost.Drain.Build.{FrameOutcome, build_records_frame_lem, records_payload}

module _ (crc32 : List ℕ → ℕ) (c : Config) where
  -- What `send_body` leaves for the body `body`.
  abbrev pub sent_body : Drain → List ℕ → Drain
  sent_body d body = record d {
    sealed = splice d.sealed 0 (sealed_bytes crc32 body);
    frame_buf = splice d.frame_buf 0 (frame_bytes crc32 body);
    sent = d.sent ++ frame_bytes crc32 body ∷ [];
  }

  -- Where the buffers have their sizes, `send_body` never drops a body that fits the batch: it
  -- hands the whole frame to the transport.
  pub send_body_lem :
      (n : ℕ) (d : Drain)
      → IsDrain c d
      → n ≤ c.batch_bytes
      → send_body crc32 n d ≡ sent_body d (take n d.batch_buf)
  unfolding send_body frame_buf_bytes
  send_body_lem n d sized fits =
      let body = take n d.batch_buf in
      let len : length body ≡ n = omega (arith, length-take n d.batch_buf, sized.batch_buf) in
      let framed = length-frame_bytes crc32 body in
      let room = sized.frame_buf in
      rw (
        frame_lem crc32 d.sealed body d.frame_buf (length d.frame_buf) (omega (arith, sized.sealed))
            (omega arith),
        ==_ne (length (frame_bytes crc32 body)) 0
            (omega (arith, length-append (stuff (sealed_bytes crc32 body)) (0 ∷ []))),
        take-splice d.frame_buf (frame_bytes crc32 body) (omega arith),
      )

  pub sent_body-IsDrain : (d : Drain) (body : List ℕ) → IsDrain c d → IsDrain c (sent_body d body)
  sent_body-IsDrain d body sized = record {
    batch_buf = sized.batch_buf;
    frame_buf = length-splice d.frame_buf 0 (frame_bytes crc32 body) ∙ sized.frame_buf;
    sealed = length-splice d.sealed 0 (sealed_bytes crc32 body) ∙ sized.sealed;
    frame_seq = sized.frame_seq;
  }

pub records_bytes-IsByte : (recs : List Rec) → All IsRec recs → All IsByte (records_bytes recs)
records_bytes-IsByte [] ok = tt
records_bytes-IsByte (rec ∷ recs) ok =
    All-append IsByte (record_bytes rec) (records_bytes recs) (record_bytes-IsByte rec ok.0)
      (records_bytes-IsByte recs ok.1)

gap_list-IsRec :
    (r : Ring) (o : Option Gap)
    → r.gap_dropped < 2 ^ 32
    → r.gap_first < 2 ^ 32
    → (ring_take_gap r).0 ≡ o
    → All IsRec (gap_list o)
gap_list-IsRec r none dropped first e = tt
gap_list-IsRec r (some g) dropped first e = (gap_record-IsRec r g dropped first e, tt)

module _ (crc32 : List ℕ → ℕ) (word : (bytes : List ℕ) → crc32 bytes < 2 ^ 32) where
  -- The frame of a body of bytes: a chunk without a delimiter, and the delimiter.
  pub chunk-IsStuffed :
      (body : List ℕ) → All IsByte body → All IsStuffed (stuff (sealed_bytes crc32 body))
  chunk-IsStuffed body ok =
      stuff-IsStuffed (sealed_bytes crc32 body)
        (All-append IsByte body (crc_bytes (crc32 body)) ok (crc_bytes-IsByte (crc32 body)))

  module _ (c : Config) (d : Drain) (r : Ring) (ok : IsConfig c) (sized : IsDrain c d)
      (live : IsLive c r) where
    abbrev out : ℕ × Drain × Ring
    out = build_records_frame c d r

    abbrev lost : List Rec
    lost = gap_list (ring_take_gap r).0

    -- The frame of a call that took `recs`.
    pub outcome_decodes :
        (recs rest : List Rec)
        → FrameOutcome c d r lost recs rest out
        → length (lost ++ recs) ≢ 0
        → (chunk : List ℕ) × ((send_body crc32 out.0 out.1).sent
            ≡ out.1.sent ++ (chunk ++ 0 ∷ []) ∷ [])
          × All IsStuffed chunk
          × (decode_chunk crc32 chunk ≡ records d.frame_seq (lost ++ recs))
    outcome_decodes recs rest f more =
        let all = lost ++ recs in
        let body = records_payload d.frame_seq all in
        let e : take out.0 out.1.batch_buf ≡ body = f.body ∙ rw (==_ne (length all) 0 more) in
        let fine : All IsRec all =
          All-append IsRec lost recs
            (gap_list-IsRec r (ring_take_gap r).0 live.gap_dropped live.gap_first refl)
            (All-prefix IsRec recs rest (rw f.all at live.recs)) in
        (
          stuff (sealed_bytes crc32 body),
          ap (λ (x : Drain). x.sent) (send_body_lem crc32 c out.0 out.1 f.drain f.fits)
              ∙ ap (λ b. out.1.sent ++ frame_bytes crc32 b ∷ []) e,
          chunk-IsStuffed body (
            omega arith,
            (sized.frame_seq, (omega (arith, f.few), records_bytes-IsByte all fine)),
          ),
          decode_chunk-stuff crc32 word body (omega arith)
              ∙ decode_payload-records d.frame_seq all f.few fine,
        )

    -- Where the configuration is in range, the buffers have their sizes, and the ring is between
    -- calls with numbers that fit their types, a call of `build_records_frame` that has something
    -- to send leads to one frame from `send_body`: a chunk of non-zero bytes and the delimiter. The
    -- host decodes the chunk to the frame's sequence number, the gap record if records were lost,
    -- and the oldest records of the ring, which are just those that left it.
    pub drain_decodes :
        out.0 ≢ 0
        → (recs : List Rec) × (chunk : List ℕ) × ((view (ring_slots c.ring_bytes) r).queued
            ≡ recs ++ (view (ring_slots c.ring_bytes) out.2).queued)
          × ((send_body crc32 out.0 out.1).sent ≡ out.1.sent ++ (chunk ++ 0 ∷ []) ∷ [])
          × All IsStuffed chunk
          × (decode_chunk crc32 chunk ≡ records d.frame_seq (gap_list (ring_take_gap r).0 ++ recs))
    drain_decodes some_sent =
        let (recs, rest, f) = build_records_frame_lem c d r ok sized live in
        let (chunk, sent, stuffed, decoded) = outcome_decodes recs rest f (ground (arith, f.len)) in
        (
          recs,
          chunk,
          f.all ∙ ap (λ l. recs ++ l) (sym (ap (λ (q : Queue). q.queued) f.left)),
          sent,
          stuffed,
          decoded,
        )
