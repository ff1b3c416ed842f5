-- ===== src/Wire.antt =====
-- src/outpost_wire.c: postcard encoding into a byte buffer, COBS, and the frame.
-- A buffer is a list of bytes and `&buf[n]` is the buffer with an offset. A function that writes
-- returns the buffer as it leaves it, beside its own result. Lengths are `size_t`: they count bytes
-- of objects in memory, far below the width, and are plain numbers here.
pub mod Varint
pub mod Fields
use embarch_outpost.Prelude.{
  ℕ, zero, suc, ◌+◌, ◌-◌, ◌*◌, ◌/◌, ◌%◌, ◌^◌, ◌<◌, bit_or, Bool, ◌||◌, List, [], ◌∷◌, ◌++◌, Option,
  none, some, length, set, take, splice, if◌then◌else◌, ◌==◌, leb, ltb, lt_wf, arith,
}
use mathlib.Core.Logic.{dite}
use mathlib.Core.WellFounded.{Acc}
use native.Mathlib.Decide.{dec_lt}

-- What the record fields of `struct outpost_slot` carry; `seq` belongs to the ring.
pub record Rec : Type 0 where
  pub cycles : ℕ
  pub kind : ℕ
  pub a : ℕ
  pub b : ℕ

unfoldable pub shift_lt : (value : ℕ) → 0 < value / 128 → value / 128 < value
shift_lt value h = omega arith

-- One round of the do-while loop writes the low seven bits, `value & 0x7F`, and shifts them out.
unfoldable pub put_varint_loop : List ℕ → ℕ → ℕ → (value : ℕ) → ℕ → Acc ◌<◌ value → List ℕ × ℕ
unfolding shift_lt
put_varint_loop buf off cap value n (Acc.intro _ smaller) =
    let byte = value % 128 in
    let more = λ (h : 0 < value / 128).
      put_varint_loop (set buf (off + n) (bit_or byte 0x80)) off cap (value / 128) (n + 1)
        (smaller (value / 128) (shift_lt value h)) in
    if leb cap n
    then (buf, 0)
    else dite (dec_lt 0 (value / 128)) more (λ _. (set buf (off + n) byte, n + 1))

-- `outpost_put_varint(&buf[off], cap, value)`
unfoldable pub put_varint : List ℕ → ℕ → ℕ → ℕ → List ℕ × ℕ
unfolding put_varint_loop lt_wf dec_lt
put_varint buf off cap value = put_varint_loop buf off cap value 0 (lt_wf.apply value)

-- The characters of a C string, `none` for NULL.
abbrev pub chars : Option (List ℕ) → List ℕ
chars none = []
chars (some text) = text

-- `outpost_put_string(&buf[off], cap, s)`; the length goes through a uint32_t.
unfoldable pub put_string : List ℕ → ℕ → ℕ → Option (List ℕ) → List ℕ × ℕ
put_string buf off cap s =
    let len = length (chars s) in
    let (buf', n) = put_varint buf off cap (len % 2 ^ 32) in
    if n == 0 || ltb cap (n + len) then (buf', 0) else (splice buf' (off + n) (chars s), n + len)

-- A stretch of code that appends at `n`: the buffer as it leaves it, and the new `n`, or `none`
-- for an early return.
abbrev pub Emit : Type 0
Emit = List ℕ → ℕ → List ℕ × Option ℕ

abbrev pub and_then : Emit → List ℕ × Option ℕ → List ℕ × Option ℕ
and_then k (buf, none) = (buf, none)
and_then k (buf, some n) = k buf n

infixl 5 ◌>>◌
abbrev pub ◌>>◌ : Emit → Emit → Emit
◌>>◌ e k buf n = and_then k (e buf n)

-- `w = ...; if (w == 0) { return 0; } n += w;`
abbrev pub advance : ℕ → List ℕ × ℕ → List ℕ × Option ℕ
advance n (buf, w) = (buf, if w == 0 then none else some (n + w))

unfoldable pub emit_varint : ℕ → ℕ → ℕ → Emit
emit_varint off cap value buf n = advance n (put_varint buf (off + n) (cap - n) value)

-- `if (n >= cap) { return 0; } buf[n++] = byte;`
unfoldable pub emit_byte : ℕ → ℕ → ℕ → Emit
emit_byte off cap byte buf n =
    if leb cap n then (buf, none) else (set buf (off + n) byte, some (n + 1))

-- What the function returns: 0 after an early return.
abbrev pub returned : List ℕ × Option ℕ → List ℕ × ℕ
returned (buf, none) = (buf, 0)
returned (buf, some n) = (buf, n)

-- `outpost_put_record(&buf[off], cap, rec)`. Each `cap - n` has `n` at most `cap`.
unfoldable pub put_record : List ℕ → ℕ → ℕ → Rec → List ℕ × ℕ
put_record buf off cap rec = returned (fields buf 0)
  where
    fields : Emit
    fields = do
      emit_varint off cap rec.cycles
      emit_byte off cap rec.kind
      emit_varint off cap rec.a
      emit_varint off cap rec.b

-- `OUTPOST_RECORD_MAX_BYTES`
abbrev pub record_max_bytes : ℕ
record_max_bytes = 16
