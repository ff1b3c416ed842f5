-- ===== src/Concurrent/Burst.antt =====
-- A frame that nobody interrupts, built in the smallest steps: what it takes and what it says.
use embarch_outpost.Prelude.{
  ℕ, ◌+◌, ◌-◌, ◌%◌, ◌^◌, ◌≤◌, ◌<◌, ◌≡◌, ◌≢◌, ◌⊎◌, inl, inr, refl, sym, ap, ◌∙◌, List, [], ◌∷◌, ◌++◌,
  length, take, All, ◌==◌, ==_ne, arith,
}
use native.Mathlib.Decide.{ℕ_discrete}
use mathlib.Core.Path.{subst}
use embarch_outpost.Config.{Config, IsConfig}
use embarch_outpost.Wire.{Rec, record_max_bytes}
use embarch_outpost.Frame.Stuffed.{IsStuffed}
use embarch_outpost.Ring.{Ring, ring_slots, ring_take_gap}
use embarch_outpost.Ring.Refine.{view}
use embarch_outpost.Ring.Reader.{Reader}
use embarch_outpost.Ring.Taker.{Taker}
use embarch_outpost.Host.{decode_chunk, records}
use embarch_outpost.Drain.{Drain, Image, build_records_frame, send_body}
use embarch_outpost.Drain.Losses.{IsDrain, IsLive, gap_list}
use embarch_outpost.Drain.Build.{FrameOutcome, build_records_frame_lem}
use embarch_outpost.Host.Fields.{records_bytes}
use embarch_outpost.Drain.Stream.{outcome_decodes, send_body_lem, sent_body-IsDrain}
use embarch_outpost.Hooks.{Board}
use embarch_outpost.Interleaving.{World}
use embarch_outpost.Thread.Progress.{build_records_frame-sent}
use embarch_outpost.Thread.{Thread, sent_frame, thread_step}
use embarch_outpost.Concurrent.{Stand, Desk, run}
use embarch_outpost.Concurrent.Alone.{alone}
use embarch_outpost.Concurrent.Whole.{at}
use embarch_outpost.Concurrent.Refine.{thread_of, run_alone_lem}

-- What the ring and the buffers were, and what they are after a frame of `said`, or none.
abbrev pub Emitted : (List ℕ → ℕ) → Drain → Drain → List Rec → Type 0
Emitted crc32 d d' said =
    ((said ≡ []) × (d'.sent ≡ d.sent) × (d'.frame_seq ≡ d.frame_seq))
    ⊎ ((chunk : List ℕ) × (d'.sent ≡ d.sent ++ (chunk ++ 0 ∷ []) ∷ [])
        × All IsStuffed chunk
        × (decode_chunk crc32 chunk ≡ records d.frame_seq said)
        × (d'.frame_seq ≡ (d.frame_seq + 1) % 256))

-- The losses and the oldest records, in a frame that has no room for another, or the whole queue.
abbrev pub Burst : (List ℕ → ℕ) → Config → Drain → Ring → Drain → Ring → Type 0
Burst crc32 c d r d' r' =
    let lost = gap_list (ring_take_gap r).0 in
    let n = ring_slots c.ring_bytes in
    (recs rest : List Rec) × ((view n r).queued ≡ recs ++ rest)
    × (view n r' ≡ record (view n r) { queued = rest; dropped = 0 })
    × Emitted crc32 d d' (lost ++ recs)
    × ((length (lost ++ recs) ≡ 127)
        ⊎ (c.batch_bytes - (3 + length (records_bytes (lost ++ recs))) < record_max_bytes)
        ⊎ (rest ≡ []))
    × IsLive c r'
    × IsDrain c d'

length_zero : (recs : List Rec) → length recs ≡ 0 → recs ≡ []
length_zero [] h = refl
length_zero (rec ∷ recs) h = absurd (omega (arith, h))

module _ (crc32 : List ℕ → ℕ) (word : (bytes : List ℕ) → crc32 bytes < 2 ^ 32) (c : Config)
    (ok : IsConfig c) where
  module _ (t : Thread) (r : Ring) (sized : IsDrain c t.drain) (live : IsLive c r) where
    abbrev out : ℕ × Drain × Ring
    out = build_records_frame c t.drain r

    abbrev lost : List Rec
    lost = gap_list (ring_take_gap r).0

    abbrev Now : Thread × Ring → Type 0
    Now x = Burst crc32 c t.drain r x.0.drain x.1

    empty-Burst :
        (recs rest : List Rec)
        → FrameOutcome c t.drain r lost recs rest out
        → length (lost ++ recs) ≡ 0
        → Burst crc32 c t.drain r out.1 out.2
    empty-Burst recs rest f none_said = (
      recs,
      rest,
      f.all,
      f.left,
      inl (
        length_zero (lost ++ recs) none_said,
        build_records_frame-sent c t.drain r,
        f.seq ∙ rw none_said refl,
      ),
      f.stopped,
      f.live,
      f.drain,
    )

    full-Burst :
        (recs rest : List Rec)
        → FrameOutcome c t.drain r lost recs rest out
        → length (lost ++ recs) ≢ 0
        → Burst crc32 c t.drain r (send_body crc32 out.0 out.1) out.2
    full-Burst recs rest f said =
        let (chunk, sent, stuffed, decoded) =
          outcome_decodes crc32 word c t.drain r ok sized live recs rest f said in
        let framed = send_body_lem crc32 c out.0 out.1 f.drain f.fits in
        (
          recs,
          rest,
          f.all,
          f.left,
          inr (
            chunk,
            sent
                ∙ ap (λ (fs : List (List ℕ)). fs ++ (chunk ++ 0 ∷ []) ∷ [])
                    (build_records_frame-sent c t.drain r),
            stuffed,
            decoded,
            ap (λ (d : Drain). d.frame_seq) framed
                ∙ (f.seq ∙ rw (==_ne (length (lost ++ recs)) 0 said) refl),
          ),
          f.stopped,
          f.live,
          rw framed (sent_body-IsDrain crc32 c out.1 (take out.0 out.1.batch_buf) f.drain),
        )

    sent_frame-Burst : (image : Image) → Now (sent_frame c image crc32 t out)
    sent_frame-Burst image =
        let (recs, rest, f) = build_records_frame_lem c t.drain r ok sized live in
        elim (ℕ_discrete (length (lost ++ recs)) 0) [
          | yes e ↦
              let nothing : out.0 ≡ 0 = f.len ∙ rw e refl in
              rw (ap (λ n. n == 0) nothing) (empty-Burst recs rest f e)
          | no ne ↦
              let something : out.0 ≢ 0 = ground (arith, f.len) in
              rw (==_ne out.0 0 something) (full-Burst recs rest f ne)
        ]

  -- Where the drain thread is about to build a frame, in no call of the ring, on a ring between
  -- calls with numbers that fit their types, and buffers of their sizes with a configuration in
  -- range, and nobody interrupts it: after 1148 steps at most, each an access to shared memory or
  -- less, it is in no call of the ring again, and the oldest records of the ring's queue have left
  -- it, the account of the losses is cleared, and nothing else of the queue has changed. Either
  -- there was nothing to say, and nothing is sent and no sequence number taken; or one frame is
  -- sent, a chunk of non-zero bytes and the delimiter, which the host decodes to the sequence
  -- number, the gap record if records were lost, and the records that left, and one sequence number
  -- is taken. It stopped at 127 records, or where no other is sure to fit, or with the queue empty;
  -- the ring is between calls again, its numbers fit their types, and the buffers keep their sizes.
  pub run-alone-Burst :
      (board : Board) (image : Image) (t : Desk) (w : World) (now : ℕ) (times : List ℕ)
      → 1148 ≤ length times
      → IsDrain c t.drain
      → IsLive c w.ring
      → (first later : List ℕ) × (times ≡ first ++ later)
        × (length first ≤ 1148)
        × (let s = run c board image crc32 (alone first) (at c board image crc32 t Stand.build w) in
            (s.world.reader ≡ Reader.rest)
            × (s.world.taker ≡ Taker.rest)
            × Burst crc32 c t.drain w.ring s.desk.drain s.world.ring)
  unfolding thread_step
  run-alone-Burst board image t w now times many sized live =
      let (first, later, all, short, (whole, reader, taker)) =
        run_alone_lem c board image crc32 t w now times many in
      (
        first,
        later,
        all,
        short,
        (
          reader,
          taker,
          subst (Now (thread_of t) w.ring sized live) (sym whole)
              (sent_frame-Burst (thread_of t) w.ring sized live image),
        ),
      )
