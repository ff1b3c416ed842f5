-- ===== src/Host/Stats.antt =====
-- scripts/decode_outpost.py, `decode_stream`: the statistics of a capture.
pub mod Lost
use embarch_outpost.Prelude.{
  ℕ, ◌+◌, ◌-◌, ◌%◌, ◌^◌, List, [], ◌∷◌, Option, none, some, length, take, drop, if◌then◌else◌, ◌==◌,
  ltb, ◌>>=◌,
}
use embarch_outpost.Host.{
  Decoded, bad_cobs, bad_crc, bad_body, header, records, cobs_decode, from_bytes, decode_chunk,
  split,
}

-- `stats`
pub record Stats : Type 0 where
  pub frames : ℕ
  pub bad_cobs_frames : ℕ
  pub bad_crc_frames : ℕ
  pub bad_body_frames : ℕ
  pub lost_frames : ℕ
  pub last_seq : Option ℕ

-- `payload[1]`, of a chunk that passes the checks.
unfoldable pub checked_seq : (List ℕ → ℕ) → List ℕ → Option ℕ
checked_seq crc32 body =
    let payload = take (length body - 4) body in
    if ltb (length body) 6
    then none
    else if crc32 payload % 2 ^ 32 == from_bytes (drop (length body - 4) body)
    then second payload
    else none
  where
    second : List ℕ → Option ℕ
    second [] = none
    second (ftype ∷ []) = none
    second (ftype ∷ seq ∷ rest) = some seq

unfoldable pub chunk_seq : (List ℕ → ℕ) → List ℕ → Option ℕ
chunk_seq crc32 chunk = cobs_decode chunk >>= checked_seq crc32

-- `missed`
abbrev pub missed : Option ℕ → ℕ → ℕ
missed none seq = 0
missed (some last) seq = (seq + 256 - last - 1) % 256

abbrev pub note_seq : Option ℕ → Stats → Stats
note_seq none s = s
note_seq (some seq) s = record s {
  lost_frames = s.lost_frames + missed s.last_seq seq;
  last_seq = some seq;
}

abbrev pub note_result : Decoded → Stats → Stats
note_result bad_cobs s = record s { bad_cobs_frames = s.bad_cobs_frames + 1 }
note_result bad_crc s = record s { bad_crc_frames = s.bad_crc_frames + 1 }
note_result bad_body s = record s { bad_body_frames = s.bad_body_frames + 1 }
note_result (header seq h) s = s
note_result (records seq recs) s = s

abbrev pub fresh_stats : Stats
fresh_stats = record {
  frames = 0;
  bad_cobs_frames = 0;
  bad_crc_frames = 0;
  bad_body_frames = 0;
  lost_frames = 0;
  last_seq = none;
}

module _ (crc32 : List ℕ → ℕ) where
  abbrev pub count_chunk : List ℕ → Stats → Stats
  count_chunk chunk s =
      note_result (decode_chunk crc32 chunk)
        (note_seq (chunk_seq crc32 chunk) (record s { frames = s.frames + 1 }))

  unfoldable pub count_chunks : List (List ℕ) → Stats → Stats
  count_chunks [] s = s
  count_chunks (chunk ∷ chunks) s =
      count_chunks chunks (if length chunk == 0 then s else count_chunk chunk s)

  -- The statistics that `decode_stream` yields last.
  unfoldable pub stream_stats : List ℕ → Stats
  stream_stats raw = count_chunks (split [] raw) fresh_stats
