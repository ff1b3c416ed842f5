-- ===== src/Thread/Answered.antt =====
-- The drain thread's frames while hooks interrupt it anywhere, on the answers that it has had
-- from the ring.
use embarch_outpost.Prelude.{
  length, ◌≤◌, ◌%◌, ℕ, ◌+◌, ◌-◌, ◌^◌, ◌<◌, ◌≡◌, refl, sym, ap, ap₂, ◌∙◌, inl, inr, List, [], ◌∷◌,
  ◌++◌, append_assoc, append-nil, Option, none, some, All, All-suffix, All-prefix, arith,
}
use embarch_outpost.Config.{Config, IsConfig}
use embarch_outpost.Wire.{Rec}
use embarch_outpost.Wire.Fields.{IsRec}
use embarch_outpost.Ring.{Ring, Gap, ring_slots}
use embarch_outpost.Ring.Config.{ring_slots-IsSlots}
use embarch_outpost.Host.Text.{utf8}
use embarch_outpost.Host.{header, Decoded, records, decode_stream}
use embarch_outpost.Host.Split.{IsClosed, frame-IsClosed, append-IsClosed, decode_stream-IsClosed}
use embarch_outpost.Drain.{Drain, Image, send_header, record_layout_version, header_flags}
use embarch_outpost.Drain.Losses.{IsDrain, gap_list}
use embarch_outpost.Drain.Header.{send_header_decodes}
use embarch_outpost.Drain.Answers.{
  answered_frame, Round, header_round, records_round, answered_rounds, after_frame,
}
use embarch_outpost.Drain.Answers.Loop.{records_of, IsAnswer}
use embarch_outpost.Drain.Answers.Frame.{Sent, answered_frame-Sent}
use embarch_outpost.Thread.Progress.{
  not_gap, lost_in, trace, concat, concat-snoc, not_gap-append, lost_in-append, trace-append,
  IsHooked, not_gap_hooked, lost_in_hooked,
}
use embarch_outpost.Interleaving.{Context, World, Pick, interleave, opening, Prompt}
use embarch_outpost.Interleaving.Invariant.{span}
use embarch_outpost.Interleaving.Losses.{total}
use embarch_outpost.Interleaving.Run.{interleave-given}

-- The accounts among the answers are in range.
abbrev pub IsRound : Round → Type 0
IsRound header_round = Unit
IsRound (records_round gap) = All IsRec (gap_list gap)

-- The gap records of the answers.
abbrev pub gap_records : List Round → List Rec
gap_records [] = []
gap_records (header_round ∷ rounds) = gap_records rounds
gap_records (records_round gap ∷ rounds) = gap_list gap ++ gap_records rounds

-- The strings of the header fit it.
pub record IsImage (c : Config) (image : Image) : Type 0 where
  pub version : length image.version ≤ c.build_id_max
  pub build_id : length image.build_id ≤ c.build_id_max
  pub chars : All (λ b. b < 256) image.version × All (λ b. b < 256) image.build_id

pub gap_list-not_gap : (gap : Option Gap) → not_gap (gap_list gap) ≡ []
gap_list-not_gap none = refl
gap_list-not_gap (some g) = refl

module _ (crc32 : List ℕ → ℕ) (word : (bytes : List ℕ) → crc32 bytes < 2 ^ 32) (c : Config)
    (ok : IsConfig c) (image : Image) (fits : IsImage c image) (r : Ring) where
  -- What one frame adds to the stream.
  pub frame_more :
      (d : Drain) (sized : IsDrain c d) (all : List Rec) (out : ℕ × Drain × Ring)
      → Sent c ok d r sized crc32 word all out
      → (ds : List Decoded) × (trace ds ≡ all)
        × ((es : List Decoded)
            → IsClosed crc32 (concat d.sent) es
            → IsClosed crc32 (concat (after_frame crc32 out).sent) (es ++ ds))
  frame_more d sized all out (sized', inl (none_sent, same)) =
      ([], sym none_sent, λ es closed. rw (same, append-nil es) closed)
  frame_more d sized all out (sized', inr (chunk, sent, stuffed, decoded)) = (
    records d.frame_seq all ∷ [],
    append-nil all,
    λ es closed.
        rw (sent, concat-snoc d.sent (chunk ++ 0 ∷ []))
          (append-IsClosed crc32 (concat d.sent) (chunk ++ 0 ∷ []) es (records d.frame_seq all ∷ [])
            closed
            (frame-IsClosed crc32 chunk (records d.frame_seq all) stuffed decoded (λ e. cc e))),
  )

  -- And a header.
  pub header_more :
      (d : Drain)
      → IsDrain c d
      → (ds : List Decoded) × (trace ds ≡ [])
        × ((es : List Decoded)
            → IsClosed crc32 (concat d.sent) es
            → IsClosed crc32 (concat (send_header c image crc32 d).sent) (es ++ ds))
        × IsDrain c (send_header c image crc32 d)
  header_more d sized =
      let (chunk, sent, stuffed, decoded, seq, sized') =
        send_header_decodes crc32 word c image ok d sized fits.version fits.build_id fits.chars in
      let e = header d.frame_seq (record {
        layout_version = record_layout_version;
        flags = header_flags c;
        cycles_per_sec = image.cycles_per_sec % 2 ^ 32;
        version = utf8 image.version;
        build_id = utf8 image.build_id;
      }) in
      (
        e ∷ [],
        refl,
        (λ es closed.
            rw (sent, concat-snoc d.sent (chunk ++ 0 ∷ []))
              (append-IsClosed crc32 (concat d.sent) (chunk ++ 0 ∷ []) es (e ∷ []) closed
                (frame-IsClosed crc32 chunk e stuffed decoded (λ bad. cc bad)))),
        sized',
      )

  all-IsAnswer : (gets : List (Option Rec)) → All IsRec (records_of gets) → All IsAnswer gets
  all-IsAnswer [] h = tt
  all-IsAnswer (none ∷ gets) h = (tt, all-IsAnswer gets h)
  all-IsAnswer (some rec ∷ gets) h = (h.0, all-IsAnswer gets h.1)

  -- What the frames add: of the records in the answers `gets`, all up to those in `rest`.
  abbrev Spent : List Round → List (Option Rec) → Drain → Drain × List (Option Rec) → Type 0
  Spent rounds gets d out =
      (ds : List Decoded) × (recs : List Rec) × ((es : List Decoded)
        → IsClosed crc32 (concat d.sent) es
        → IsClosed crc32 (concat out.0.sent) (es ++ ds))
      × (records_of gets ≡ recs ++ records_of out.1)
      × (not_gap (trace ds) ≡ not_gap recs)
      × (lost_in (trace ds) ≡ lost_in (gap_records rounds) + lost_in recs)

  answered_rounds_lem :
      (rounds : List Round) (gets : List (Option Rec)) (d : Drain)
      → IsDrain c d
      → All IsRound rounds
      → All IsRec (records_of gets)
      → Spent rounds gets d (answered_rounds c image crc32 rounds gets d r)
  unfolding answered_rounds
  answered_rounds_lem [] gets d sized fine good =
      ([], [], (λ es closed. rw (append-nil es) closed), refl, refl, omega arith)
  answered_rounds_lem (header_round ∷ rounds) gets d sized fine good =
      let (ds, no_record, closes, sized') = header_more d sized in
      let (ds', recs', closes', used', kept', lost') =
        answered_rounds_lem rounds gets (send_header c image crc32 d) sized' fine.1 good in
      let all = trace-append ds ds' ∙ ap (λ l. l ++ trace ds') no_record in
      (
        ds ++ ds',
        recs',
        (λ es closed. rw (sym (append_assoc es ds ds')) (closes' (es ++ ds) (closes es closed))),
        used',
        ap not_gap all ∙ kept',
        ap lost_in all ∙ lost',
      )
  answered_rounds_lem (records_round gap ∷ rounds) gets d sized fine good =
      let (recs, used, sent) =
        answered_frame-Sent c ok d r sized crc32 word gap gets fine.0 (all-IsAnswer gets good) in
      let (out, rest) = answered_frame gap gets d r in
      let (ds, all, closes) = frame_more d sized (gap_list gap ++ recs) out sent in
      let (ds', recs', closes', used', kept', lost') =
        answered_rounds_lem rounds rest (after_frame crc32 out) sent.0 fine.1
          (All-suffix IsRec recs (records_of rest) (rw used at good)) in
      (
        ds ++ ds',
        recs ++ recs',
        (λ es closed. rw (sym (append_assoc es ds ds')) (closes' (es ++ ds) (closes es closed))),
        used ∙ ap (λ l. recs ++ l) used' ∙ sym (append_assoc recs recs' _),
        ap not_gap (trace-append ds ds')
            ∙ not_gap-append (trace ds) (trace ds')
            ∙ ap₂ (λ x y. x ++ y)
                (ap not_gap all
                  ∙ not_gap-append (gap_list gap) recs
                  ∙ ap (λ l. l ++ not_gap recs) (gap_list-not_gap gap))
                kept'
            ∙ sym (not_gap-append recs recs'),
        omega (
          arith,
          ap lost_in (trace-append ds ds'),
          lost_in-append (trace ds) (trace ds'),
          ap lost_in all,
          lost_in-append (gap_list gap) recs,
          lost_in-append (gap_list gap) (gap_records rounds),
          lost_in-append recs recs',
          lost',
        ),
      )

-- The accounts among the answers.
abbrev pub accounts_of : List Round → List Gap
accounts_of [] = []
accounts_of (header_round ∷ rounds) = accounts_of rounds
accounts_of (records_round none ∷ rounds) = accounts_of rounds
accounts_of (records_round (some gap) ∷ rounds) = gap ∷ accounts_of rounds

lost_in-gap_records :
    (rounds : List Round) → lost_in (gap_records rounds) ≡ total (accounts_of rounds)
lost_in-gap_records [] = refl
lost_in-gap_records (header_round ∷ rounds) = lost_in-gap_records rounds
lost_in-gap_records (records_round none ∷ rounds) = lost_in-gap_records rounds
lost_in-gap_records (records_round (some gap) ∷ rounds) =
    ap (λ k. gap.dropped + k) (lost_in-gap_records rounds)

module _ (crc32 : List ℕ → ℕ) (word : (bytes : List ℕ) → crc32 bytes < 2 ^ 32) (c : Config)
    (ok : IsConfig c) (image : Image) (fits : IsImage c image) (start : ℕ) (r : Ring) (x : Context)
    (small : start < 2 ^ 32) (picks : List Pick)
    (prompt : Prompt
      (ring_slots c.ring_bytes)
      picks
      (opening (ring_slots c.ring_bytes) start r x)) where
  abbrev pub world : World
  world = interleave (ring_slots c.ring_bytes) picks (opening (ring_slots c.ring_bytes) start r x)

  -- From a ring after `outpost_ring_init_at(start)`, however contexts in `outpost_ring_put` and the
  -- drain thread's calls of `outpost_ring_get` and `outpost_ring_take_gap` interleave, an access to
  -- shared memory a step, with no head running 2 ^ 32 reservations round between a load of it and
  -- its compare-and-swap: let the drain thread, from buffers of their sizes and with nothing sent,
  -- send header frames, with strings of at most BUILD_ID_MAX bytes, and records frames from the
  -- answers of these calls, in range and with no gap record among the hooks' records, in any order.
  -- Then what the host decodes from the bytes sent, gap records left out, then the records of
  -- answers that are still to be used, then those that the ring has not given, are the records of
  -- the reservations in their order; and the gap records report the losses of the accounts.
  pub interleave_delivers :
      (rounds : List Round) (gets : List (Option Rec)) (d : Drain)
      → IsDrain c d
      → d.sent ≡ []
      → All IsRound rounds
      → All IsRec (records_of gets)
      → All IsHooked (records_of gets)
      → records_of gets ≡ world.given
      → accounts_of rounds ≡ world.reported
      → (let (d', rest) = answered_rounds c image crc32 rounds gets d r in
          let ds = decode_stream crc32 (concat d'.sent) in
          (not_gap (trace ds)
              ++ (records_of rest ++ span world.log world.taken (world.reserved - world.taken))
            ≡ span world.log start (world.reserved - start))
          × (lost_in (trace ds) ≡ total world.reported))
  interleave_delivers rounds gets d sized nothing fine good hooked given told =
      let (ds, recs, closes, used, kept, lost) =
        answered_rounds_lem crc32 word c ok image fits r rounds gets d sized fine good in
      let (d', rest) = answered_rounds c image crc32 rounds gets d r in
      let closed = closes [] (rw nothing (λ bytes. refl)) in
      let decoded : decode_stream crc32 (concat d'.sent) ≡ ds =
        decode_stream-IsClosed crc32 (concat d'.sent) ds closed in
      let ours = All-prefix IsHooked recs (records_of rest) (rw used at hooked) in
      let run = interleave-given (ring_slots-IsSlots c.ring_bytes) start r x small picks prompt in
      let waiting = span world.log world.taken (world.reserved - world.taken) in
      rw decoded (
        ap (λ l. l ++ (records_of rest ++ waiting)) (kept ∙ not_gap_hooked recs ours)
            ∙ sym (append_assoc recs (records_of rest) waiting)
            ∙ ap (λ l. l ++ waiting) (sym used ∙ given)
            ∙ run.0,
        lost ∙ omega (arith, lost_in-gap_records rounds, lost_in_hooked recs ours) ∙ ap total told,
      )
