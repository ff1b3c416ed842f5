-- ===== src/Tests/Captures.antt =====
-- The host: what it counts in a capture, and absolute times.
use embarch_outpost.Prelude.{ℕ, ◌+◌, ◌≡◌, refl, inl, inr, List, [], ◌∷◌, arith}
use embarch_outpost.Host.{cobs_decode, cobs_decode_loop}
use embarch_outpost.Host.Text.{utf8}
use embarch_outpost.Host.Unwrap.{absolutes, unwrap, unwrap_start}
use embarch_outpost.Host.Unwrap.Times.{Paced, counts, absolutes_lem}
use embarch_outpost.Host.Stats.{stream_stats, chunk_seq}
use embarch_outpost.Host.Stats.Lost.{
  Arrival, frame_of, damaged, Arrives, captured, intact, newest, stream_stats-lost,
}
use embarch_outpost.Tests.Data.{checksum, checksum_word}

-- After the frame 254 come some bytes that are no frame, and the frame 257.
abbrev arrivals : List Arrival
arrivals = damaged (5 ∷ []) ∷ frame_of 257 1 (0 ∷ []) ∷ []

arrivals-Arrives : Arrives checksum checksum_word 254 arrivals
unfolding chunk_seq cobs_decode cobs_decode_loop
arrivals-Arrives = (
  ((omega arith, omega arith), tt),
  omega arith,
  refl,
  (omega arith, omega arith, (omega arith, (omega arith, tt)), tt),
)

stream_stats-lost_example :
    (let s =
        stream_stats checksum
          (captured checksum checksum_word (frame_of 254 1 (0 ∷ []) ∷ arrivals)) in
      (s.lost_frames + intact arrivals + 254 ≡ newest 254 arrivals) × (s.frames ≡ 3))
stream_stats-lost_example =
    stream_stats-lost checksum checksum_word 254 1 (0 ∷ []) arrivals
      (omega arith, (omega arith, tt)) arrivals-Arrives

-- A wrap, and a gap record from a little before it.
abbrev times : List ℕ
times = 0x100000005 ∷ 0x100000002 ∷ 0x100000014 ∷ []

times-Paced : Paced (0xFFFFFFEC) times
times-Paced = (
  inl (omega arith, omega arith),
  (inr (omega arith, omega arith, omega arith), (inl (omega arith, omega arith), tt)),
)

absolutes_lem_example : absolutes (counts (0xFFFFFFEC ∷ times)) unwrap_start ≡ 0xFFFFFFEC ∷ times
absolutes_lem_example = absolutes_lem (0xFFFFFFEC) times (omega arith) times-Paced

-- A gap record from before the wrap, that comes after it, and the record after that: both are a turn
-- of the counter too late.
late_gap :
    absolutes (counts (0xFFFFFFEC ∷ 0x100000005 ∷ 0xFFFFFFF6 ∷ 0x100000014 ∷ [])) unwrap_start
    ≡ 0xFFFFFFEC ∷ 0x100000005 ∷ 0x1FFFFFFF6 ∷ 0x200000014 ∷ []
unfolding absolutes unwrap
late_gap = refl

-- "é", a lone surrogate, a sequence cut off by the next character, and one cut off by the end.
utf8_parts :
    utf8 (0xC3 ∷ 0xA9 ∷ 0xED ∷ 0xA0 ∷ 0xE2 ∷ 0x82 ∷ 0x41 ∷ 0xF0 ∷ 0x9F ∷ 0x98 ∷ [])
    ≡ 0xE9 ∷ 0xFFFD ∷ 0xFFFD ∷ 0xFFFD ∷ 0x41 ∷ 0xFFFD ∷ []
unfolding utf8
utf8_parts = refl

utf8_whole : utf8 (0xE2 ∷ 0x82 ∷ 0xAC ∷ 0xF0 ∷ 0x9F ∷ 0x98 ∷ 0x80 ∷ []) ≡ 0x20AC ∷ 0x1F600 ∷ []
unfolding utf8
utf8_whole = refl
