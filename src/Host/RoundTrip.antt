-- ===== src/Host/RoundTrip.antt =====
-- What the firmware writes into a buffer, the decoder reads back from it.
use embarch_outpost.Prelude.{
  ℕ, ◌+◌, ◌/◌, ◌^◌, ◌≤◌, ◌<◌, ◌≡◌, refl, List, [], ◌∷◌, ◌++◌, some, length, take, drop, take_all,
  take-splice, splice_zero, le→leb, All, IsByte, All-append, arith,
}
use embarch_outpost.Wire.{Rec, put_varint, put_record, record_max_bytes}
use embarch_outpost.Wire.Varint.{varint, length-varint, put_varint_lem}
use embarch_outpost.Wire.Fields.{IsRec, record_bytes, put_record_fits, length-record_bytes}
use embarch_outpost.Frame.{frame, cobs_encode, crc_bytes}
use embarch_outpost.Frame.Stuffed.{stuff, length-stuff, IsStuffed, stuff-IsStuffed}
use embarch_outpost.Frame.Encode.{cobs_encode_lem}
use embarch_outpost.Frame.Seal.{
  sealed_bytes, frame_bytes, length-frame_bytes, frame_lem, crc_bytes-IsByte,
}
use embarch_outpost.Host.{cobs_decode, take_varint, take_record, decode_chunk, decode_payload}
use embarch_outpost.Host.Cobs.{cobs_decode-stuff}
use embarch_outpost.Host.Fields.{take_varint-varint, take_record-record_bytes}
use embarch_outpost.Host.Chunk.{decode_chunk-stuff}

-- With five bytes of room `outpost_put_varint` writes one to five bytes for every uint32_t, and
-- `take_varint` reads the number back and stops where the encoder stopped.
pub take_varint-put_varint :
    (buf : List ℕ) (value : ℕ)
    → value < 2 ^ 32
    → 5 ≤ length buf
    → (let (buf', n) = put_varint buf 0 (length buf) value in
        (1 ≤ n) × (n ≤ 5) × (take_varint buf' ≡ some (value, drop n buf)))
take_varint-put_varint buf value small room =
    let (lo, hi) = length-varint value in
    rw
      (
        put_varint_lem buf 0 (length buf) value small,
        take_all (length buf) (varint value) (omega arith),
        le→leb (length (varint value)) (length buf) (omega arith),
        splice_zero buf (varint value) (omega arith),
      )
      (lo, hi, take_varint-varint value (drop (length (varint value)) buf) small)

-- With OUTPOST_RECORD_MAX_BYTES of room `outpost_put_record` writes 4 to OUTPOST_RECORD_MAX_BYTES
-- bytes for every record whose fields fit their types, and the decoder reads the record back and
-- stops where the encoder stopped.
pub take_record-put_record :
    (buf : List ℕ) (rec : Rec)
    → IsRec rec
    → record_max_bytes ≤ length buf
    → (let (buf', n) = put_record buf 0 (length buf) rec in
        (4 ≤ n) × (n ≤ record_max_bytes) × (take_record buf' ≡ some (rec, drop n buf)))
take_record-put_record buf rec ok room =
    let (lo, hi) = length-record_bytes rec in
    rw
      (
        put_record_fits buf 0 (length buf) rec ok room,
        splice_zero buf (record_bytes rec) (omega arith),
      )
      (lo, hi, take_record-record_bytes rec (drop (length (record_bytes rec)) buf) ok)

-- Where the output buffer has room for the worst case, what `outpost_cobs_encode` leaves in it is a
-- list of non-zero bytes within that bound, which `cobs_decode` takes back to the input.
pub cobs_decode-cobs_encode :
    (input out : List ℕ)
    → All IsByte input
    → length input + length input / 254 + 1 ≤ length out
    → (let (out', n) = cobs_encode input out in
        (cobs_decode (take n out') ≡ some input)
        × All IsStuffed (take n out')
        × (n ≤ length input + length input / 254 + 1))
cobs_decode-cobs_encode input out bytes room =
    let (lo, hi) = length-stuff input in
    rw (cobs_encode_lem input out, take-splice out (stuff input) (omega arith))
      (cobs_decode-stuff input, stuff-IsStuffed input bytes, hi)

module _ (crc32 : List ℕ → ℕ) (word : (bytes : List ℕ) → crc32 bytes < 2 ^ 32) where
  -- Where the static buffer and the output buffer have the room that `outpost_frame` asks for, and
  -- the body is at least two bytes, the output is a chunk of non-zero bytes and the delimiter, and
  -- the decoder's checks on the chunk succeed: it decodes the body.
  pub decode_chunk-frame :
      (sealed body out : List ℕ)
      → All IsByte body
      → 2 ≤ length body
      → length body + 4 ≤ length sealed
      → length body + 4 + (length body + 4) / 254 + 3 ≤ length out
      → (let f = frame crc32 sealed body out (length out) in
          (chunk : List ℕ) × (take f.framed f.out ≡ chunk ++ 0 ∷ [])
          × All IsStuffed chunk
          × (decode_chunk crc32 chunk ≡ decode_payload body))
  decode_chunk-frame sealed body out bytes two fits room =
      rw
        (
          frame_lem crc32 sealed body out (length out) fits room,
          take-splice out (frame_bytes crc32 body) (omega (arith, length-frame_bytes crc32 body)),
        )
        (
          stuff (sealed_bytes crc32 body),
          refl,
          stuff-IsStuffed (sealed_bytes crc32 body) (
              All-append IsByte body (crc_bytes (crc32 body)) bytes
                (crc_bytes-IsByte (crc32 body))),
          decode_chunk-stuff crc32 word body two,
        )
