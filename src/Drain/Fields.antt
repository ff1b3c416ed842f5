-- ===== src/Drain/Fields.antt =====
-- The fields of the header frame, one behind the other in a buffer with room.
use embarch_outpost.Prelude.{
  ℕ, ◌+◌, ◌-◌, ◌^◌, ◌≤◌, ◌<◌, ◌≡◌, refl, List, [], ◌∷◌, ◌++◌, some, length, length-append, take_all,
  splice, splice-append, ==_ne, le→leb, All, All-append, IsByte, arith,
}
use native.Mathlib.Nat.{zero-add}
use embarch_outpost.Wire.{Emit, ◌>>◌, emit_varint}
use embarch_outpost.Wire.Varint.{groups, varint, length-varint, put_varint_lem, varint-IsByte}
use embarch_outpost.Wire.Fields.{string_bytes, put_string_lem}
use embarch_outpost.Drain.{append_byte, emit_string}

-- A stretch that appends `xs` wherever that fits the buffer.
abbrev pub Appends : ℕ → Emit → List ℕ → Type 0
Appends cap e xs =
    (buf : List ℕ) (n : ℕ) → n + length xs ≤ cap → e buf n ≡ (splice buf n xs, some (n + length xs))

pub >>-Appends :
    (cap : ℕ) (e k : Emit) (xs ys : List ℕ)
    → Appends cap e xs
    → Appends cap k ys
    → Appends cap (e >> k) (xs ++ ys)
>>-Appends cap e k xs ys he hk buf n h =
    let len = length-append xs ys in
    let assoc : n + length xs + length ys ≡ n + (length xs + length ys) = omega arith in
    rw (
      he buf n (omega arith),
      hk (splice buf n xs) (n + length xs) (omega arith),
      splice-append buf n (n + length xs) xs ys refl,
      len,
      assoc,
    )

pub append_byte-Appends :
    (cap byte : ℕ) (xs : List ℕ) (k : Emit)
    → Appends cap k xs
    → Appends cap (append_byte byte >> k) (byte ∷ xs)
unfolding append_byte
append_byte-Appends cap byte xs k h = >>-Appends cap _ k (byte ∷ []) xs (λ buf n room. refl) h

pub emit_varint-Appends :
    (cap value : ℕ) → value < 2 ^ 32 → Appends cap (emit_varint 0 cap value) (varint value)
unfolding emit_varint
emit_varint-Appends cap value small buf n h =
    let (lo, hi) = length-varint value in
    rw (
      zero-add,
      put_varint_lem buf n (cap - n) value small,
      le→leb (length (varint value)) (cap - n) (omega arith),
      take_all (cap - n) (varint value) (omega arith),
      ==_ne (length (varint value)) 0 (omega arith),
    )

pub length-string_bytes :
    (text : List ℕ) → length (string_bytes text) ≡ length (varint (length text)) + length text
unfolding string_bytes
length-string_bytes text = length-append (varint (length text)) text

pub emit_string-Appends :
    (cap : ℕ) (text : List ℕ)
    → length text < 2 ^ 32
    → Appends cap (emit_string cap (some text)) (string_bytes text)
unfolding emit_string
emit_string-Appends cap text small buf n h =
    let (lo, hi) = length-varint (length text) in
    let len = length-string_bytes text in
    rw (
      put_string_lem buf n (cap - n) (some text) small,
      le→leb (length (string_bytes text)) (cap - n) (omega arith),
      ==_ne (length (string_bytes text)) 0 (omega arith),
    )

-- A length below 2 ^ 14 takes two bytes at most.
pub varint_short : (value : ℕ) → value < 2 ^ 14 → length (varint value) ≤ 2
unfolding varint groups
varint_short value h = ground arith

pub string_bytes-IsByte :
    (text : List ℕ) → length text < 2 ^ 32 → All IsByte text → All IsByte (string_bytes text)
unfolding string_bytes
string_bytes-IsByte text small ok =
    All-append IsByte (varint (length text)) text (varint-IsByte (length text) small) ok
