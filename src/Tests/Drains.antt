-- ===== src/Tests/Drains.antt =====
-- src/outpost.c: the theorems at a batch of 64 bytes, and a ring with two records and two losses.
use embarch_outpost.Prelude.{refl, ℕ, ◌+◌, ◌%◌, ◌^◌, ◌≡◌, ◌≢◌, List, [], ◌∷◌, ◌++◌, All, arith}
use embarch_outpost.Wire.{Rec}
use embarch_outpost.Frame.Stuffed.{IsStuffed}
use embarch_outpost.Host.{decode_chunk, header, records}
use embarch_outpost.Ring.{ring_slots, ring_take_gap}
use embarch_outpost.Ring.Refine.{view}
use embarch_outpost.Drain.{
  build_records_frame, send_body, send_header, header_flags, record_layout_version,
}
use embarch_outpost.Drain.Losses.{IsDrain, gap_list}
use embarch_outpost.Drain.Build.{FrameOutcome, build_records_frame_lem}
use embarch_outpost.Drain.Stream.{drain_decodes}
use embarch_outpost.Drain.{Image}
use embarch_outpost.Host.Text.{utf8}
use embarch_outpost.Drain.Header.{send_header_strings}
use embarch_outpost.Tests.Data.{
  checksum, checksum_word, small, small-IsConfig, fresh_drain, fresh_drain-IsDrain, lossy,
  lossy-IsLive, image,
}

build_records_frame_lem_example :
    (recs : List Rec) × (rest : List Rec) × FrameOutcome small fresh_drain lossy
      (gap_list (ring_take_gap lossy).0)
      recs
      rest
      (build_records_frame small fresh_drain lossy)
build_records_frame_lem_example =
    build_records_frame_lem small fresh_drain lossy small-IsConfig fresh_drain-IsDrain lossy-IsLive

-- A build ID that ends in the first byte of a character.
abbrev cut : Image
cut = record image { build_id = 0x61 ∷ 0xC3 ∷ [] }

send_header_strings_example :
    (chunk : List ℕ) × ((send_header small cut checksum fresh_drain).sent
      ≡ [] ++ (chunk ++ 0 ∷ []) ∷ [])
    × All IsStuffed chunk
    × (decode_chunk checksum chunk
        ≡ header 255 (record {
          layout_version = record_layout_version;
          flags = header_flags small;
          cycles_per_sec = 128000000 % 2 ^ 32;
          version = (0x31 ∷ 0x2E ∷ 0x30 ∷ []) ++ utf8 [];
          build_id = (0x61 ∷ []) ++ utf8 (0xC3 ∷ []);
        }))
    × ((send_header small cut checksum fresh_drain).frame_seq ≡ (255 + 1) % 256)
    × IsDrain small (send_header small cut checksum fresh_drain)
send_header_strings_example =
    send_header_strings checksum checksum_word small cut small-IsConfig fresh_drain
      fresh_drain-IsDrain (omega arith) (omega arith) (omega arith) (0x31 ∷ 0x2E ∷ 0x30 ∷ []) []
      (0x61 ∷ []) (0xC3 ∷ []) refl refl (omega arith) (omega arith)

cut_text : utf8 (0xC3 ∷ []) ≡ 0xFFFD ∷ []
unfolding utf8
cut_text = refl

sent_length : (build_records_frame small fresh_drain lossy).0 ≢ 0
unfolding ring_take_gap
sent_length e =
    let (recs, rest, f) =
      build_records_frame_lem small fresh_drain lossy small-IsConfig fresh_drain-IsDrain
        lossy-IsLive in
    ground (arith, f.len)

drain_decodes_example :
    (recs : List Rec) × (chunk : List ℕ) × ((view (ring_slots small.ring_bytes) lossy).queued
      ≡ recs
        ++ (view
            (ring_slots small.ring_bytes)
            (build_records_frame small fresh_drain lossy).2).queued)
    × ((send_body checksum
          (build_records_frame small fresh_drain lossy).0
          (build_records_frame small fresh_drain lossy).1).sent
        ≡ (build_records_frame small fresh_drain lossy).1.sent ++ (chunk ++ 0 ∷ []) ∷ [])
    × All IsStuffed chunk
    × (decode_chunk checksum chunk ≡ records 255 (gap_list (ring_take_gap lossy).0 ++ recs))
drain_decodes_example =
    drain_decodes checksum checksum_word small fresh_drain lossy small-IsConfig fresh_drain-IsDrain
      lossy-IsLive sent_length
