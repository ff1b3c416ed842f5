-- ===== src/Host/Stats/Lost.antt =====
-- The frames that the host misses.
use embarch_outpost.Prelude.{
  ℕ, suc, ◌+◌, ◌-◌, ◌%◌, ◌^◌, ◌≤◌, ◌<◌, ◌≡◌, refl, ap, ◌∙◌, List, [], ◌∷◌, ◌++◌, length, Option,
  none, some, All, All-append, IsByte, take-append_left, drop-append_left, ==_refl, ==_ne,
  ltb-false, if◌then◌else◌, arith,
}
use native.Mathlib.Nat.{mod-eq_of_lt}
use embarch_outpost.Frame.{crc_bytes}
use embarch_outpost.Frame.Stuffed.{stuff, length-stuff, IsStuffed, stuff-IsStuffed}
use embarch_outpost.Frame.Seal.{crc_bytes-IsByte, sealed_bytes, length-sealed_bytes}
use embarch_outpost.Host.{
  Decoded, bad_cobs, bad_crc, bad_body, header, records, decode_chunk, split,
}
use embarch_outpost.Host.Split.{split_stuffed}
use embarch_outpost.Host.Cobs.{cobs_decode-stuff}
use embarch_outpost.Host.Chunk.{from_bytes-crc_bytes}
use embarch_outpost.Host.Stats.{
  Stats, checked_seq, chunk_seq, missed, note_seq, note_result, fresh_stats, count_chunk,
  count_chunks, stream_stats,
}

-- What comes between two delimiters: the frame with the number `number`, whose sequence number is
-- that modulo 256, or bytes that fail the checks.
pub data Arrival : Type 0 where
  frame_of : (number ftype : ℕ) → List ℕ → Arrival
  damaged : List ℕ → Arrival

module _ (crc32 : List ℕ → ℕ) (word : (bytes : List ℕ) → crc32 bytes < 2 ^ 32) where
  checked_seq-sealed_bytes :
      (ftype seq : ℕ) (rest : List ℕ)
      → checked_seq crc32 (sealed_bytes crc32 (ftype ∷ seq ∷ rest)) ≡ some seq
  unfolding checked_seq
  checked_seq-sealed_bytes ftype seq rest =
      let body = ftype ∷ seq ∷ rest in
      let n = length-sealed_bytes crc32 body in
      let e : length (sealed_bytes crc32 body) - 4 ≡ length body = omega arith in
      rw
        (
          ltb-false (length (sealed_bytes crc32 body)) 6 (omega arith),
          e,
          take-append_left (length body) body (crc_bytes (crc32 body)) refl,
          drop-append_left (length body) body (crc_bytes (crc32 body)) refl,
          from_bytes-crc_bytes (crc32 body) (word body),
          mod-eq_of_lt (word body),
          ==_refl (crc32 body),
        )
        refl

  chunk_seq-stuff :
      (ftype seq : ℕ) (rest : List ℕ)
      → chunk_seq crc32 (stuff (sealed_bytes crc32 (ftype ∷ seq ∷ rest))) ≡ some seq
  unfolding chunk_seq
  chunk_seq-stuff ftype seq rest =
      rw (cobs_decode-stuff (sealed_bytes crc32 (ftype ∷ seq ∷ rest)))
        (checked_seq-sealed_bytes ftype seq rest)

  abbrev pub chunk_of : Arrival → List ℕ
  chunk_of (frame_of number ftype rest) = stuff (sealed_bytes crc32 (ftype ∷ number % 256 ∷ rest))
  chunk_of (damaged chunk) = chunk

  chunk_of-IsStuffed :
      (number ftype : ℕ) (rest : List ℕ)
      → All IsByte (ftype ∷ rest)
      → All IsStuffed (chunk_of (frame_of number ftype rest))
        × (1 ≤ length (chunk_of (frame_of number ftype rest)))
  chunk_of-IsStuffed number ftype rest bytes =
      let body = ftype ∷ number % 256 ∷ rest in
      (
        stuff-IsStuffed (sealed_bytes crc32 body) (
            All-append IsByte body (crc_bytes (crc32 body)) (bytes.0, (omega arith, bytes.1))
              (crc_bytes-IsByte (crc32 body))),
        omega (arith, length-stuff (sealed_bytes crc32 body)),
      )

  -- The capture.
  abbrev pub captured : List Arrival → List ℕ
  captured [] = []
  captured (a ∷ arrivals) = chunk_of a ++ 0 ∷ captured arrivals

  -- After the frame `last` the numbers go up, by 256 at most; damaged bytes have no delimiter in
  -- them.
  abbrev pub Arrives : ℕ → List Arrival → Type 0
  Arrives last [] = Unit
  Arrives last (frame_of number ftype rest ∷ arrivals) =
      (last < number) × (number ≤ last + 256) × All IsByte (ftype ∷ rest) × Arrives number arrivals
  Arrives last (damaged chunk ∷ arrivals) =
      All IsStuffed chunk
      × (1 ≤ length chunk)
      × (chunk_seq crc32 chunk ≡ none)
      × Arrives last arrivals

-- The frames that arrive whole, and the number of the last one.
abbrev pub intact : List Arrival → ℕ
intact [] = 0
intact (frame_of number ftype rest ∷ arrivals) = suc (intact arrivals)
intact (damaged chunk ∷ arrivals) = intact arrivals

abbrev pub newest : ℕ → List Arrival → ℕ
newest last [] = last
newest last (frame_of number ftype rest ∷ arrivals) = newest number arrivals
newest last (damaged chunk ∷ arrivals) = newest last arrivals

note_result-lost :
    (d : Decoded) (s : Stats)
    → ((note_result d s).lost_frames ≡ s.lost_frames)
      × ((note_result d s).last_seq ≡ s.last_seq)
      × ((note_result d s).frames ≡ s.frames)
note_result-lost bad_cobs s = (refl, refl, refl)
note_result-lost bad_crc s = (refl, refl, refl)
note_result-lost bad_body s = (refl, refl, refl)
note_result-lost (header seq h) s = (refl, refl, refl)
note_result-lost (records seq recs) s = (refl, refl, refl)

module _ (crc32 : List ℕ → ℕ) (word : (bytes : List ℕ) → crc32 bytes < 2 ^ 32) where
  -- What one chunk does to the numbers.
  count_chunk-lost :
      (chunk : List ℕ) (s : Stats) (seq : Option ℕ)
      → chunk_seq crc32 chunk ≡ seq
      → (let s' = count_chunk crc32 chunk s in
          let t = note_seq seq (record s { frames = s.frames + 1 }) in
          (s'.lost_frames ≡ t.lost_frames) × (s'.last_seq ≡ t.last_seq) × (s'.frames ≡ t.frames))
  count_chunk-lost chunk s seq e = rw e (
      note_result-lost (decode_chunk crc32 chunk)
        (note_seq seq (record s { frames = s.frames + 1 })))

  -- The next chunk of a capture.
  captured-next :
      (chunk rest : List ℕ) (s : Stats)
      → All IsStuffed chunk
      → 1 ≤ length chunk
      → count_chunks crc32 (split [] (chunk ++ 0 ∷ rest)) s
        ≡ count_chunks crc32 (split [] rest) (count_chunk crc32 chunk s)
  unfolding count_chunks
  captured-next chunk rest s ok more =
      ap (λ l. count_chunks crc32 l s) (split_stuffed [] chunk rest ok)
      ∙ ap (λ b. count_chunks crc32 (split [] rest) (if b then s else count_chunk crc32 chunk s))
          (==_ne (length chunk) 0 (omega (arith, more)))

  captured-lost :
      (last : ℕ) (arrivals : List Arrival) (s : Stats)
      → s.last_seq ≡ some (last % 256)
      → Arrives crc32 word last arrivals
      → (let t = count_chunks crc32 (split [] (captured crc32 word arrivals)) s in
          (t.lost_frames + intact arrivals + last ≡ s.lost_frames + newest last arrivals)
          × (t.frames ≡ s.frames + length arrivals))
  unfolding count_chunks split
  captured-lost last [] s e ok = (omega arith, omega arith)
  captured-lost last (frame_of number ftype rest ∷ arrivals) s e (lo, hi, bytes, ok) =
      let a = frame_of number ftype rest in
      let s' = count_chunk crc32 (chunk_of crc32 word a) s in
      let (stuffed, more) = chunk_of-IsStuffed crc32 word number ftype rest bytes in
      let counted =
        count_chunk-lost (chunk_of crc32 word a) s (some (number % 256))
          (chunk_seq-stuff crc32 word ftype (number % 256) rest) in
      let lost : s'.lost_frames ≡ s.lost_frames + (number - last - 1) =
        counted.0 ∙ ap (λ l. s.lost_frames + missed l (number % 256)) e ∙ omega (arith, lo, hi) in
      rw (captured-next (chunk_of crc32 word a) (captured crc32 word arrivals) s stuffed more) (
        let ih = captured-lost number arrivals s' counted.1 ok in
        (omega (arith, ih.0, lost, lo), omega (arith, ih.1, counted.2)))
  captured-lost last (damaged chunk ∷ arrivals) s e (stuffed, more, bad, ok) =
      let s' = count_chunk crc32 chunk s in
      let counted = count_chunk-lost chunk s none bad in
      rw (captured-next chunk (captured crc32 word arrivals) s stuffed more) (
        let ih = captured-lost last arrivals s' (counted.1 ∙ e) ok in
        (omega (arith, ih.0, counted.0), omega (arith, ih.1, counted.2)))

  -- In a capture that begins with a whole frame, where the numbers of the whole frames that follow
  -- go up by 256 at most, and what is between them are non-empty runs of non-zero bytes that fail
  -- the checks, `stats` counts every chunk as a frame, and as lost just the frames whose numbers
  -- are missing between the first whole frame and the last.
  pub stream_stats-lost :
      (first ftype : ℕ) (rest : List ℕ) (arrivals : List Arrival)
      → All IsByte (ftype ∷ rest)
      → Arrives crc32 word first arrivals
      → (let s = stream_stats crc32 (captured crc32 word (frame_of first ftype rest ∷ arrivals)) in
          (s.lost_frames + intact arrivals + first ≡ newest first arrivals)
          × (s.frames ≡ suc (length arrivals)))
  unfolding stream_stats
  stream_stats-lost first ftype rest arrivals bytes ok =
      let a = frame_of first ftype rest in
      let s = count_chunk crc32 (chunk_of crc32 word a) fresh_stats in
      let (stuffed, more) = chunk_of-IsStuffed crc32 word first ftype rest bytes in
      let counted =
        count_chunk-lost (chunk_of crc32 word a) fresh_stats (some (first % 256))
          (chunk_seq-stuff crc32 word ftype (first % 256) rest) in
      rw
        (captured-next (chunk_of crc32 word a) (captured crc32 word arrivals) fresh_stats stuffed
          more)
        (let run = captured-lost first arrivals s counted.1 ok in
          (omega (arith, run.0, counted.0), omega (arith, run.1, counted.2)))
