-- ===== src/Host/Chunk.antt =====
-- `decode_stream` on one chunk undoes `outpost_frame`.
use embarch_outpost.Prelude.{
  ℕ, ◌-◌, ◌^◌, ◌≤◌, ◌<◌, ◌≡◌, refl, List, [], ◌∷◌, ◌++◌, some, length, take-append_left,
  drop-append_left, append-nil, ==_refl, ltb-false, All, arith,
}
use native.Mathlib.Nat.{mod-eq_of_lt}
use embarch_outpost.Wire.{Rec}
use embarch_outpost.Wire.Varint.{varint, varint_small}
use embarch_outpost.Wire.Fields.{IsRec, string_bytes}
use embarch_outpost.Frame.{crc_bytes}
use embarch_outpost.Frame.Stuffed.{stuff}
use embarch_outpost.Frame.Seal.{sealed_bytes, length-sealed_bytes}
use embarch_outpost.Host.Text.{utf8}
use embarch_outpost.Host.{
  records, header, decode_payload, decode_chunk, check_body, from_bytes, header_result,
  records_result, take_header, take_byte, take_varint, take_string,
}
use embarch_outpost.Host.Cobs.{cobs_decode-stuff}
use embarch_outpost.Host.Fields.{
  take_varint-varint, take_string-string_bytes, take_records-records_bytes, records_bytes,
}

pub from_bytes-crc_bytes : (crc : ℕ) → crc < 2 ^ 32 → from_bytes (crc_bytes crc) ≡ crc
unfolding from_bytes crc_bytes
from_bytes-crc_bytes crc h = omega arith

module _ (crc32 : List ℕ → ℕ) (word : (bytes : List ℕ) → crc32 bytes < 2 ^ 32) where
  check_body-sealed_bytes :
      (body : List ℕ)
      → 2 ≤ length body
      → check_body crc32 (sealed_bytes crc32 body) ≡ decode_payload body
  unfolding check_body
  check_body-sealed_bytes body two =
      let n = length-sealed_bytes crc32 body in
      let e : length (sealed_bytes crc32 body) - 4 ≡ length body = omega arith in
      rw (
        ltb-false (length (sealed_bytes crc32 body)) 6 (omega arith),
        e,
        take-append_left (length body) body (crc_bytes (crc32 body)) refl,
        drop-append_left (length body) body (crc_bytes (crc32 body)) refl,
        from_bytes-crc_bytes (crc32 body) (word body),
        mod-eq_of_lt (word body),
        ==_refl (crc32 body),
      )

  -- The chunk of a sealed body passes both checks.
  pub decode_chunk-stuff :
      (body : List ℕ)
      → 2 ≤ length body
      → decode_chunk crc32 (stuff (sealed_bytes crc32 body)) ≡ decode_payload body
  unfolding decode_chunk
  decode_chunk-stuff body two =
      rw (cobs_decode-stuff (sealed_bytes crc32 body), decode_chunk)
        (check_body-sealed_bytes body two)

-- The payload of a records frame with a count of one byte.
pub decode_payload-records :
    (seq : ℕ) (recs : List Rec)
    → length recs ≤ 127
    → All IsRec recs
    → decode_payload (1 ∷ seq ∷ length recs ∷ records_bytes recs) ≡ records seq recs
unfolding decode_payload records_result
decode_payload-records seq recs few ok =
    let n = length recs in
    let count : take_varint (n ∷ records_bytes recs) ≡ some (n, records_bytes recs) =
      rw (varint_small n (omega arith)) at
        (take_varint-varint n (records_bytes recs) (omega arith)) in
    rw (count, take_records-records_bytes recs ok)

-- The payload of a header frame.
pub decode_payload-header :
    (seq layout flags rate : ℕ) (version build_id : List ℕ)
    → rate < 2 ^ 32
    → length version < 2 ^ 32
    → length build_id < 2 ^ 32
    → decode_payload (
        2 ∷ seq ∷ layout ∷ flags ∷ (varint rate ++ (string_bytes version ++ string_bytes build_id)))
      ≡ header seq (record {
        layout_version = layout;
        flags = flags;
        cycles_per_sec = rate;
        version = utf8 version;
        build_id = utf8 build_id;
      })
unfolding decode_payload header_result take_header take_byte
decode_payload-header seq layout flags rate version build_id hr hv hb =
    let last : take_string (string_bytes build_id) ≡ some (utf8 build_id, []) =
      rw append-nil at (take_string-string_bytes build_id [] hb) in
    rw (
      take_varint-varint rate (string_bytes version ++ string_bytes build_id) hr,
      take_string-string_bytes version (string_bytes build_id) hv,
      last,
    )
