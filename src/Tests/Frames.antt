-- ===== src/Tests/Frames.antt =====
-- COBS and the frame: literal bytes, and the theorems on them at concrete inputs.
use embarch_outpost.Prelude.{
  ℕ, ◌+◌, ◌/◌, ◌≤◌, ◌≡◌, refl, List, [], ◌∷◌, ◌++◌, some, length, take, splice, All, arith,
}
use embarch_outpost.Frame.{frame, cobs_encode, cobs_loop, cobs_step, cobs_finish}
use embarch_outpost.Frame.Stuffed.{stuff, IsStuffed}
use embarch_outpost.Frame.Encode.{cobs_encode_lem}
use embarch_outpost.Host.{cobs_decode, decode_chunk, decode_payload}
use embarch_outpost.Host.RoundTrip.{cobs_decode-cobs_encode, decode_chunk-frame}
use embarch_outpost.Tests.Data.{zeros, checksum, checksum_word}

cobs_zero_inside :
    cobs_encode (0x11 ∷ 0x22 ∷ 0x00 ∷ 0x33 ∷ []) (zeros 6)
    ≡ (0x03 ∷ 0x11 ∷ 0x22 ∷ 0x02 ∷ 0x33 ∷ 0 ∷ [], 5)
unfolding cobs_encode cobs_loop cobs_step cobs_finish
cobs_zero_inside = refl

cobs_encode_lem_example :
    cobs_encode (0x11 ∷ 0x00 ∷ []) (zeros 4)
    ≡ (splice (zeros 4) 0 (stuff (0x11 ∷ 0x00 ∷ [])), length (stuff (0x11 ∷ 0x00 ∷ [])))
cobs_encode_lem_example = cobs_encode_lem (0x11 ∷ 0x00 ∷ []) (zeros 4)

abbrev two_bytes : List ℕ
two_bytes = 0x11 ∷ 0x00 ∷ []

cobs_decode-cobs_encode_example :
    let (out, n) = cobs_encode two_bytes (zeros 4) in
    (cobs_decode (take n out) ≡ some two_bytes)
    × All IsStuffed (take n out)
    × (n ≤ length two_bytes + length two_bytes / 254 + 1)
cobs_decode-cobs_encode_example =
    cobs_decode-cobs_encode two_bytes (zeros 4) (omega arith) (omega arith)

decode_chunk-frame_example :
    let f = frame checksum (zeros 8) (1 ∷ 0 ∷ 0 ∷ []) (zeros 12) (length (zeros 12)) in
    (chunk : List ℕ) × (take f.framed f.out ≡ chunk ++ 0 ∷ [])
    × All IsStuffed chunk
    × (decode_chunk checksum chunk ≡ decode_payload (1 ∷ 0 ∷ 0 ∷ []))
decode_chunk-frame_example =
    decode_chunk-frame checksum checksum_word (zeros 8) (1 ∷ 0 ∷ 0 ∷ []) (zeros 12) (omega arith)
      (omega arith) (omega arith) (omega arith)
