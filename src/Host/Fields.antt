-- ===== src/Host/Fields.antt =====
-- The decoder's varint, string and record undo the firmware's encodings.
use embarch_outpost.Prelude.{
  ℕ, zero, suc, ◌+◌, ◌*◌, ◌/◌, ◌%◌, ◌^◌, ◌≤◌, ◌<◌, ◌≡◌, refl, ap, List, [], ◌∷◌, ◌++◌, some, length,
  length-append, take-append_left, drop-append_left, append_assoc, ltb-false, All, arith,
}
use native.Mathlib.Nat.{div-add-mod, pow-suc}
use native.Mathlib.Numerals.{towards_suc}
use embarch_outpost.Wire.{Rec}
use embarch_outpost.Wire.Varint.{groups, varint}
use embarch_outpost.Wire.Fields.{IsRec, record_bytes, string_bytes}
use embarch_outpost.Host.Text.{utf8}
use embarch_outpost.Host.{
  take_varint_loop, take_varint, take_byte, take_string, take_record, take_records,
}

-- The weight of the next group is 128 times that of this one.
next_weight : (shift : ℕ) → 2 ^ (shift + 7) ≡ 128 * 2 ^ shift
next_weight shift = simp towards_suc (omega arith)

lowest_group :
    (value shift : ℕ) → value % 128 * 2 ^ shift + value / 128 * 2 ^ (shift + 7) ≡ value * 2 ^ shift
lowest_group value shift = omega (
  arith,
  ap (λ (t : ℕ). t * 2 ^ shift) (div-add-mod value 128),
  ap (λ (t : ℕ). value / 128 * t) (next_weight shift),
)

take_groups :
    (k value acc shift : ℕ) (rest : List ℕ)
    → value < 128 ^ suc k
    → shift + 7 * k ≤ 28
    → take_varint_loop (groups k value ++ rest) acc shift
      ≡ some ((acc + value * 2 ^ shift) % 2 ^ 32, rest)
unfolding groups take_varint_loop
take_groups zero value acc shift rest h k = ground arith
take_groups (suc k) value acc shift rest h few = ground (
  arith,
  lowest_group value shift,
  take_groups k (value / 128) (acc + value % 128 * 2 ^ shift) (shift + 7) rest
      (omega (arith, pow-suc 128 (suc k))),
)

-- `take_varint` reads back the varint of a uint32_t, and leaves what follows it.
pub take_varint-varint :
    (value : ℕ) (rest : List ℕ)
    → value < 2 ^ 32
    → take_varint (varint value ++ rest) ≡ some (value, rest)
unfolding take_varint varint
take_varint-varint value rest h =
    rw (take_groups 4 value 0 0 rest (omega arith) (omega arith))
      (let e : (0 + value * 2 ^ 0) % 2 ^ 32 ≡ value = omega arith in rw e)

pub take_string-string_bytes :
    (text rest : List ℕ)
    → length text < 2 ^ 32
    → take_string (string_bytes text ++ rest) ≡ some (utf8 text, rest)
unfolding take_string string_bytes
take_string-string_bytes text rest h = rw (
  append_assoc (varint (length text)) text rest,
  take_varint-varint (length text) (text ++ rest) h,
  ltb-false (length (text ++ rest)) (length text) (omega (arith, length-append text rest)),
  take-append_left (length text) text rest refl,
  drop-append_left (length text) text rest refl,
)

-- `take_record` reads back a record, and leaves what follows it.
pub take_record-record_bytes :
    (rec : Rec) (rest : List ℕ)
    → IsRec rec
    → take_record (record_bytes rec ++ rest) ≡ some (rec, rest)
unfolding take_record record_bytes take_byte
take_record-record_bytes rec rest v = rw (
  append_assoc (varint rec.cycles) (rec.kind ∷ (varint rec.a ++ varint rec.b)) rest,
  take_varint-varint rec.cycles ((rec.kind ∷ (varint rec.a ++ varint rec.b)) ++ rest) v.cycles,
  append_assoc (varint rec.a) (varint rec.b) rest,
  take_varint-varint rec.a (varint rec.b ++ rest) v.a,
  take_varint-varint rec.b rest v.b,
)

abbrev pub records_bytes : List Rec → List ℕ
records_bytes [] = []
records_bytes (rec ∷ recs) = record_bytes rec ++ records_bytes recs

pub take_records-records_bytes :
    (recs : List Rec) → All IsRec recs → take_records (length recs) (records_bytes recs) ≡ some recs
unfolding take_records
take_records-records_bytes [] h = refl
take_records-records_bytes (rec ∷ recs) h =
    rw (take_record-record_bytes rec (records_bytes recs) h.0, take_records-records_bytes recs h.1)
