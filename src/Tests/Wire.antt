-- ===== src/Tests/Wire.antt =====
-- src/outpost_wire.c, the encoders: literal bytes, and the theorems on them at concrete inputs.
use embarch_outpost.Prelude.{
  ◌≤◌, ◌≡◌, refl, [], ◌∷◌, some, length, take, drop, splice, if◌then◌else◌, leb, lt_wf, arith,
}
use native.Mathlib.Decide.{dec_lt}
use embarch_outpost.Wire.{
  put_varint, put_varint_loop, put_string, put_record, emit_varint, emit_byte, shift_lt,
  record_max_bytes,
}
use embarch_outpost.Wire.Varint.{varint, put_varint_lem}
use embarch_outpost.Wire.Fields.{record_bytes, string_bytes, put_record_lem, put_string_lem}
use embarch_outpost.Host.{take_varint, take_record}
use embarch_outpost.Host.RoundTrip.{take_varint-put_varint, take_record-put_record}
use embarch_outpost.Tests.Data.{zeros, marker_rec, isr_rec, marker_rec-IsRec, isr_rec-IsRec}

varint_300 : put_varint (zeros 4) 0 4 300 ≡ (0xAC ∷ 0x02 ∷ 0 ∷ 0 ∷ [], 2)
unfolding put_varint put_varint_loop shift_lt lt_wf dec_lt
varint_300 = refl

varint_largest : put_varint (zeros 5) 0 5 0xFFFFFFFF ≡ (0xFF ∷ 0xFF ∷ 0xFF ∷ 0xFF ∷ 0x0F ∷ [], 5)
unfolding put_varint put_varint_loop shift_lt lt_wf dec_lt
varint_largest = refl

varint_overrun : put_varint (zeros 2) 0 2 0xFFFFFFFF ≡ (0xFF ∷ 0xFF ∷ [], 0)
unfolding put_varint put_varint_loop shift_lt lt_wf dec_lt
varint_overrun = refl

string_abc :
    put_string (zeros 5) 0 5 (some (0x61 ∷ 0x62 ∷ 0x63 ∷ [])) ≡ (3 ∷ 0x61 ∷ 0x62 ∷ 0x63 ∷ 0 ∷ [], 4)
unfolding put_string put_varint put_varint_loop shift_lt lt_wf dec_lt
string_abc = refl

record_marker :
    put_record (zeros 7) 0 7 marker_rec ≡ (0xAC ∷ 0x02 ∷ 7 ∷ 0x01 ∷ 0x80 ∷ 0x01 ∷ 0 ∷ [], 6)
unfolding put_record emit_varint emit_byte put_varint put_varint_loop shift_lt lt_wf dec_lt
record_marker = refl

-- One byte of room for two: nothing but the first byte is written.
put_varint_lem_example : put_varint (zeros 3) 1 1 300 ≡ (
  splice (zeros 3) 1 (take 1 (varint 300)),
  if leb (length (varint 300)) 1 then length (varint 300) else 0,
)
put_varint_lem_example = put_varint_lem (zeros 3) 1 1 300 (omega arith)

put_record_lem_example : put_record (zeros 8) 1 7 marker_rec ≡ (
  splice (zeros 8) 1 (take 7 (record_bytes marker_rec)),
  if leb (length (record_bytes marker_rec)) 7 then length (record_bytes marker_rec) else 0,
)
put_record_lem_example = put_record_lem (zeros 8) 1 7 marker_rec marker_rec-IsRec

put_string_lem_example : put_string (zeros 4) 0 2 (some (0x61 ∷ 0x62 ∷ [])) ≡ (
    if leb (length (string_bytes (0x61 ∷ 0x62 ∷ []))) 2
    then (
      splice (zeros 4) 0 (string_bytes (0x61 ∷ 0x62 ∷ [])),
      length (string_bytes (0x61 ∷ 0x62 ∷ [])),
    )
    else (splice (zeros 4) 0 (take 2 (varint 2)), 0))
put_string_lem_example = put_string_lem (zeros 4) 0 2 (some (0x61 ∷ 0x62 ∷ [])) (omega arith)

take_varint-put_varint_example :
    let (buf, n) = put_varint (zeros 6) 0 (length (zeros 6)) 0xFFFFFFFF in
    (1 ≤ n) × (n ≤ 5) × (take_varint buf ≡ some (0xFFFFFFFF, drop n (zeros 6)))
take_varint-put_varint_example =
    take_varint-put_varint (zeros 6) 0xFFFFFFFF (omega arith) (omega arith)

take_record-put_record_example :
    let (buf, n) = put_record (zeros 20) 0 (length (zeros 20)) isr_rec in
    (4 ≤ n) × (n ≤ record_max_bytes) × (take_record buf ≡ some (isr_rec, drop n (zeros 20)))
take_record-put_record_example =
    take_record-put_record (zeros 20) isr_rec isr_rec-IsRec (omega arith)
