-- ===== src/Frame.antt =====
-- src/outpost_wire.c, the second half: Consistent Overhead Byte Stuffing, and the frame that is
-- sealed with a CRC. `crc32_ieee` is Zephyr's, and a parameter.
pub mod Stuffed
pub mod Encode
pub mod Seal
use embarch_outpost.Prelude.{
  ℕ, ◌+◌, ◌-◌, ◌/◌, ◌%◌, ◌^◌, List, [], ◌∷◌, ◌++◌, length, set, take, splice, if◌then◌else◌, ◌==◌,
  ltb,
}

-- The locals of `outpost_cobs_encode` beside its output; `read_index` is how much of the input is
-- gone. `code` is a uint8_t.
pub record Cobs : Type 0 where
  pub out : List ℕ
  pub write_index : ℕ
  pub code_index : ℕ
  pub code : ℕ

-- One round of the while loop, on the byte at `read_index`.
unfoldable pub cobs_step : ℕ → Cobs → Cobs
cobs_step byte s =
    if byte == 0
    then record {
      out = set out code_index code;
      write_index = write_index + 1;
      code_index = write_index;
      code = 1;
    }
    else (let next = (code + 1) % 256 in
        if next == 0xff
        then record {
          out = set (set out write_index byte) code_index next;
          write_index = write_index + 2;
          code_index = write_index + 1;
          code = 1;
        }
        else record {
          out = set out write_index byte;
          write_index = write_index + 1;
          code_index = code_index;
          code = next;
        })
  where
    open s use {out, write_index, code_index, code}

unfoldable pub cobs_loop : List ℕ → Cobs → Cobs
cobs_loop [] s = s
cobs_loop (byte ∷ bytes) s = cobs_loop bytes (cobs_step byte s)

-- `out[code_index] = code; return write_index;`
unfoldable pub cobs_finish : Cobs → List ℕ × ℕ
cobs_finish s = (set s.out s.code_index s.code, s.write_index)

-- `outpost_cobs_encode(in, len, out)`: the input is its `len` bytes.
unfoldable pub cobs_encode : List ℕ → List ℕ → List ℕ × ℕ
cobs_encode input out =
    cobs_finish (cobs_loop input (record { out = out; write_index = 1; code_index = 0; code = 1 }))

-- The four bytes of the CRC, lowest first: `crc & 0xFF`, `(crc >> 8) & 0xFF`, ...
unfoldable pub crc_bytes : ℕ → List ℕ
crc_bytes crc = (crc % 256) ∷ (crc / 2 ^ 8 % 256) ∷ (crc / 2 ^ 16 % 256) ∷ (crc / 2 ^ 24 % 256) ∷ []

-- What `outpost_frame` leaves: the static buffer `sealed`, the output buffer, and its result.
pub record Framed : Type 0 where
  pub sealed : List ℕ
  pub out : List ℕ
  pub framed : ℕ

module _ (crc32 : List ℕ → ℕ) where
  -- `outpost_frame(body, body_len, out, out_cap)`; `sealed` is the static buffer, and its length is
  -- `sizeof(sealed)`.
  unfoldable pub frame : List ℕ → List ℕ → List ℕ → ℕ → Framed
  frame sealed body out out_cap =
      let sealed_len = length body + 4 in
      if ltb (length sealed) sealed_len
      then record { sealed = sealed; out = out; framed = 0 }
      else if ltb out_cap (sealed_len + sealed_len / 254 + 2 + 1)
      then record { sealed = sealed; out = out; framed = 0 }
      else (let filled = splice (splice sealed 0 body) (length body) (crc_bytes (crc32 body)) in
          let (out', n) = cobs_encode (take sealed_len filled) out in
          record { sealed = filled; out = set out' n 0; framed = n + 1 })
