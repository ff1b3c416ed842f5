-- ===== src/Host.antt =====
-- scripts/decode_outpost.py, up to the rendering of rows: the reference decoder of the stream.
-- A position in `bytes` is the list of the bytes from there on; raising `Truncated` or `IndexError`
-- is `none`. `binascii.crc32` is Python's, and a parameter. A text is the list of its code points.
pub mod Text
pub mod Kinds
pub mod Unwrap
pub mod Stats
pub mod Cobs
pub mod Fields
pub mod Chunk
pub mod RoundTrip
pub mod Split
use embarch_outpost.Prelude.{
  ℕ, zero, suc, ◌+◌, ◌-◌, ◌*◌, ◌%◌, ◌^◌, List, [], ◌∷◌, ◌++◌, Option, none, some, length, take,
  drop, if◌then◌else◌, ◌==◌, ltb, ◌>>=◌,
}
use embarch_outpost.Wire.{Rec}
use embarch_outpost.Host.Text.{utf8}

-- The while loop of `cobs_decode` from index `i` on. Each round takes a byte at least, so as many
-- rounds as there are bytes are enough.
unfoldable pub cobs_decode_loop : ℕ → List ℕ → List ℕ → Option (List ℕ)
cobs_decode_loop fuel [] out = some out
cobs_decode_loop zero (code ∷ rest) out = none
cobs_decode_loop (suc fuel) (code ∷ rest) out =
    let copied = out ++ take (code - 1) rest in
    let rest' = drop (code - 1) rest in
    let out' =
      if code == 0xff then copied else if length rest' == 0 then copied else copied ++ 0 ∷ [] in
    let others = cobs_decode_loop fuel rest' out' in
    if code == 0 then none else if ltb (length rest) (code - 1) then none else others

unfoldable pub cobs_decode : List ℕ → Option (List ℕ)
cobs_decode chunk = cobs_decode_loop (length chunk) chunk []

-- `value |= (byte & 0x7F) << shift` sets bits that are clear, and is written as a sum;
-- `byte & 0x80 == 0` is `byte < 128`.
unfoldable pub take_varint_loop : List ℕ → ℕ → ℕ → Option (ℕ × List ℕ)
take_varint_loop [] value shift = none
take_varint_loop (byte ∷ rest) value shift =
    let value' = value + byte % 128 * 2 ^ shift in
    let more = take_varint_loop rest value' (shift + 7) in
    if ltb byte 128 then some (value' % 2 ^ 32, rest) else if ltb 35 (shift + 7) then none else more

unfoldable pub take_varint : List ℕ → Option (ℕ × List ℕ)
take_varint buf = take_varint_loop buf 0 0

-- `payload[pos]; pos += 1`
unfoldable pub take_byte : List ℕ → Option (ℕ × List ℕ)
take_byte [] = none
take_byte (byte ∷ rest) = some (byte, rest)

-- The text, and the position after it.
unfoldable pub take_string : List ℕ → Option (List ℕ × List ℕ)
take_string buf = do
  (len, rest) ← take_varint buf
  if ltb (length rest) len then none else some (utf8 (take len rest), drop len rest)

unfoldable pub take_record : List ℕ → Option (Rec × List ℕ)
take_record buf = do
  (cycles, buf) ← take_varint buf
  (kind, buf) ← take_byte buf
  (a, buf) ← take_varint buf
  (b, buf) ← take_varint buf
  some (record { cycles = cycles; kind = kind; a = a; b = b }, buf)

-- `for _ in range(count)`
unfoldable pub take_records : ℕ → List ℕ → Option (List Rec)
take_records zero buf = some []
take_records (suc count) buf = do
  (rec, buf) ← take_record buf
  recs ← take_records count buf
  some (rec ∷ recs)

-- The dictionary that a header frame yields.
pub record Header : Type 0 where
  pub layout_version : ℕ
  pub flags : ℕ
  pub cycles_per_sec : ℕ
  pub version : List ℕ
  pub build_id : List ℕ

unfoldable pub take_header : List ℕ → Option Header
unfolding take_byte take_varint take_string
take_header buf = do
  (layout, buf) ← take_byte buf
  (flags, buf) ← take_byte buf
  (rate, buf) ← take_varint buf
  (version, buf) ← take_string buf
  (build_id, buf) ← take_string buf
  some (record {
    layout_version = layout;
    flags = flags;
    cycles_per_sec = rate;
    version = version;
    build_id = build_id;
  })

-- What becomes of one chunk between delimiters.
pub data Decoded : Type 0 where
  bad_cobs bad_crc bad_body : Decoded
  header : ℕ → Header → Decoded
  records : ℕ → List Rec → Decoded

unfoldable pub header_result : ℕ → Option Header → Decoded
header_result seq none = bad_body
header_result seq (some h) = header seq h

unfoldable pub records_result : ℕ → Option (List Rec) → Decoded
records_result seq none = bad_body
records_result seq (some recs) = records seq recs

-- `payload[0]` is the type, `payload[1]` the sequence number; a payload has two bytes at least.
unfoldable pub decode_payload : List ℕ → Decoded
decode_payload [] = bad_body
decode_payload (ftype ∷ []) = bad_body
decode_payload (ftype ∷ seq ∷ rest) =
    if ftype == 2
    then header_result seq (take_header rest)
    else if ftype == 1
    then records_result seq (take_varint rest >>= λ p. take_records p.0 p.1)
    else bad_body

-- `int.from_bytes(crc_bytes, "little")`
unfoldable pub from_bytes : List ℕ → ℕ
from_bytes [] = 0
from_bytes (byte ∷ rest) = byte + 256 * from_bytes rest

module _ (crc32 : List ℕ → ℕ) where
  unfoldable pub check_body : List ℕ → Decoded
  check_body body =
      let payload = take (length body - 4) body in
      if ltb (length body) 6
      then bad_cobs
      else if crc32 payload % 2 ^ 32 == from_bytes (drop (length body - 4) body)
      then decode_payload payload
      else bad_crc

  -- The body of the loop of `decode_stream`, on one non-empty chunk.
  unfoldable pub decode_chunk : List ℕ → Decoded
  decode_chunk chunk = elim (cobs_decode chunk) [ none ↦ bad_cobs | some body ↦ check_body body ]

-- `raw.split(b"\x00")`, with the chunk read so far.
unfoldable pub split : List ℕ → List ℕ → List (List ℕ)
split chunk [] = chunk ∷ []
split chunk (byte ∷ bytes) =
    let ended = chunk ∷ split [] bytes in
    let further = split (chunk ++ byte ∷ []) bytes in if byte == 0 then ended else further

module _ (crc32 : List ℕ → ℕ) where
  unfoldable pub decode_chunks : List (List ℕ) → List Decoded
  decode_chunks [] = []
  decode_chunks (chunk ∷ chunks) =
      let rest = decode_chunks chunks in
      if length chunk == 0 then rest else decode_chunk crc32 chunk ∷ rest

  unfoldable pub decode_stream : List ℕ → List Decoded
  decode_stream raw = decode_chunks (split [] raw)
