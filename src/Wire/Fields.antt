-- ===== src/Wire/Fields.antt =====
-- Records and strings as they are appended to a buffer: `outpost_put_record`, `outpost_put_string`.
use embarch_outpost.Prelude.{
  ℕ, ◌+◌, ◌-◌, ◌^◌, ◌≤◌, ◌<◌, ◌≡◌, refl, List, [], ◌∷◌, ◌++◌, Option, none, some, length, All,
  All-append, IsByte, length-append, take, splice, splice-append, Bool, true, false, if◌then◌else◌,
  leb, ==_ne, leb-false, le→leb, lt→ltb, ltb-false, take-append_short, take-append_long, take_all,
  take-cons_sub, take-nil, take_none, arith,
}
use native.Mathlib.Decide.{dec_lt}
use native.Mathlib.Nat.{add-zero, sub-zero, zero-add, mod-eq_of_lt}
use embarch_outpost.Wire.{
  Rec, put_string, put_record, chars, Emit, ◌>>◌, emit_varint, emit_byte, returned,
  record_max_bytes,
}
use embarch_outpost.Wire.Varint.{varint, length-varint, varint-IsByte, put_varint_lem}

-- `{cycles, kind, a, b}` on the wire.
unfoldable pub record_bytes : Rec → List ℕ
record_bytes rec = varint rec.cycles ++ (rec.kind ∷ (varint rec.a ++ varint rec.b))

-- A postcard string.
unfoldable pub string_bytes : List ℕ → List ℕ
string_bytes text = varint (length text) ++ text

-- The fields of a record are a uint8_t and three uint32_t.
pub record IsRec (rec : Rec) : Type 0 where
  pub cycles : rec.cycles < 2 ^ 32
  pub kind : rec.kind < 256
  pub a : rec.a < 2 ^ 32
  pub b : rec.b < 2 ^ 32

-- The stretch `e` appends the bytes `bs` at `n`: all of them, or as many as the room up to `cap`
-- takes, and then it returns early.
abbrev Emits : ℕ → ℕ → Emit → List ℕ → Type 0
Emits off cap e bs =
    (buf : List ℕ) (n : ℕ)
    → n ≤ cap
    → e buf n ≡ (
      splice buf (off + n) (take (cap - n) bs),
      if leb (n + length bs) cap then some (n + length bs) else none,
    )

emit_byte-Emits : (off cap byte : ℕ) → Emits off cap (emit_byte off cap byte) (byte ∷ [])
unfolding emit_byte
emit_byte-Emits off cap byte buf n h = elim (dec_lt n cap) [
  | yes room ↦ rw (
    leb-false cap n room,
    take-cons_sub n cap byte [] room,
    take-nil,
    le→leb (n + 1) cap (omega arith),
  )
  | no full ↦ rw (
    le→leb cap n (omega arith),
    take_none n cap (byte ∷ []) (omega arith),
    leb-false (n + 1) cap (omega arith),
  )
]

emit_varint-Emits :
    (off cap value : ℕ) → value < 2 ^ 32 → Emits off cap (emit_varint off cap value) (varint value)
unfolding emit_varint
emit_varint-Emits off cap value small buf n h =
    let len = length (varint value) in
    let (lo, hi) = length-varint value in
    rw (put_varint_lem buf (off + n) (cap - n) value small) (elim (dec_lt cap (n + len)) [
      | yes over ↦ rw (leb-false len (cap - n) (omega arith), leb-false (n + len) cap over)
      | no room ↦ rw (
        le→leb len (cap - n) (omega arith),
        le→leb (n + len) cap (omega arith),
        ==_ne len 0 (omega arith),
      )
    ])

-- The room left is behind the first stretch.
splice_room :
    (buf : List ℕ) (off cap n : ℕ) (xs ys : List ℕ)
    → n + length xs ≤ cap
    → splice
        (splice buf (off + n) (take (cap - n) xs))
        (off + (n + length xs))
        (take (cap - (n + length xs)) ys)
      ≡ splice buf (off + n) (take (cap - n) (xs ++ ys))
splice_room buf off cap n xs ys room =
    let e : cap - (n + length xs) ≡ cap - n - length xs = omega arith in
    rw (
      take_all (cap - n) xs (omega arith),
      e,
      splice-append buf (off + n) (off + (n + length xs)) xs (take (cap - n - length xs) ys)
          (omega arith),
      take-append_long (cap - n) xs ys (omega arith),
    )

>>-Emits :
    (off cap : ℕ) (e k : Emit) (xs ys : List ℕ)
    → Emits off cap e xs
    → Emits off cap k ys
    → Emits off cap (e >> k) (xs ++ ys)
>>-Emits off cap e k xs ys he hk buf n h =
    rw (he buf n h, length-append xs ys)
      (elim (dec_lt cap (n + length xs)) [
        | yes over ↦ rw (
          leb-false (n + length xs) cap over,
          leb-false (n + (length xs + length ys)) cap (omega arith),
          take-append_short (cap - n) xs ys (omega arith),
        )
        | no room ↦
            rw
              (
                le→leb (n + length xs) cap (omega arith),
                hk (splice buf (off + n) (take (cap - n) xs)) (n + length xs) (omega arith),
                splice_room buf off cap n xs ys (omega arith),
              )
              (let e : n + length xs + length ys ≡ n + (length xs + length ys) = omega arith in
                rw e)
      ])

returned_if :
    (buf : List ℕ) (t : Bool) (n : ℕ)
    → returned (buf, if t then some n else none) ≡ (buf, if t then n else 0)
returned_if buf true n = refl
returned_if buf false n = refl

-- For every record whose fields fit their types, offset and capacity, `outpost_put_record` writes
-- the bytes of the record, or as many as the capacity allows, changes no other byte, and returns
-- their number, or 0 where they do not fit.
pub put_record_lem :
    (buf : List ℕ) (off cap : ℕ) (rec : Rec)
    → IsRec rec
    → put_record buf off cap rec ≡ (
      splice buf off (take cap (record_bytes rec)),
      if leb (length (record_bytes rec)) cap then length (record_bytes rec) else 0,
    )
unfolding put_record record_bytes
put_record_lem buf off cap rec v =
    rw (fields buf 0 (omega arith)) (rw (add-zero, sub-zero, zero-add, returned_if))
  where
    fields :
        Emits off cap
          (emit_varint off cap rec.cycles
            >> (emit_byte off cap rec.kind
                >> (emit_varint off cap rec.a >> emit_varint off cap rec.b)))
          (varint rec.cycles ++ ((rec.kind ∷ []) ++ (varint rec.a ++ varint rec.b)))
    fields = >>-Emits off cap _ _ _ _ (emit_varint-Emits off cap rec.cycles v.cycles) (
        >>-Emits off cap _ _ _ _ (emit_byte-Emits off cap rec.kind) (
          >>-Emits off cap _ _ _ _ (emit_varint-Emits off cap rec.a v.a)
            (emit_varint-Emits off cap rec.b v.b)))

-- A record takes 4 to `OUTPOST_RECORD_MAX_BYTES` bytes.
pub length-record_bytes :
    (rec : Rec) → (4 ≤ length (record_bytes rec)) × (length (record_bytes rec) ≤ record_max_bytes)
unfolding record_bytes
length-record_bytes rec = rw length-append (
    rw length-append
      (omega (arith, length-varint rec.cycles, length-varint rec.a, length-varint rec.b)))

-- Where `outpost_put_record` is given `OUTPOST_RECORD_MAX_BYTES` of room it never refuses.
pub put_record_fits :
    (buf : List ℕ) (off cap : ℕ) (rec : Rec)
    → IsRec rec
    → record_max_bytes ≤ cap
    → put_record buf off cap rec ≡ (splice buf off (record_bytes rec), length (record_bytes rec))
put_record_fits buf off cap rec v h =
    let (lo, hi) = length-record_bytes rec in
    rw (
      put_record_lem buf off cap rec v,
      le→leb (length (record_bytes rec)) cap (omega arith),
      take_all cap (record_bytes rec) (omega arith),
    )

-- For every string shorter than 2 ^ 32, and NULL as the empty one, `outpost_put_string` writes the
-- length and the bytes and returns their number, or returns 0 where they do not fit the capacity
-- and has written what fits of the length only.
pub put_string_lem :
    (buf : List ℕ) (off cap : ℕ) (s : Option (List ℕ))
    → length (chars s) < 2 ^ 32
    → put_string buf off cap s ≡ (
        if leb (length (string_bytes (chars s))) cap
        then (splice buf off (string_bytes (chars s)), length (string_bytes (chars s)))
        else (splice buf off (take cap (varint (length (chars s)))), 0))
unfolding put_string string_bytes
put_string_lem buf off cap s small =
    let text = chars s in
    let head = varint (length text) in
    let (lo, hi) = length-varint (length text) in
    rw (mod-eq_of_lt small, put_varint_lem buf off cap (length text) small, length-append head text)
      (elim (dec_lt cap (length head)) [
        | yes over ↦ rw (
          leb-false (length head) cap over,
          leb-false (length head + length text) cap (omega arith),
        )
        | no room ↦
            rw (le→leb (length head) cap (omega arith), ==_ne (length head) 0 (omega arith))
              (elim (dec_lt cap (length head + length text)) [
                | yes over ↦ rw (
                  lt→ltb cap (length head + length text) over,
                  leb-false (length head + length text) cap over,
                )
                | no fits ↦ rw (
                  ltb-false cap (length head + length text) (omega arith),
                  le→leb (length head + length text) cap (omega arith),
                  take_all cap head (omega arith),
                  splice-append buf off (off + length head) head text refl,
                )
              ])
      ])

pub record_bytes-IsByte : (rec : Rec) → IsRec rec → All IsByte (record_bytes rec)
unfolding record_bytes
record_bytes-IsByte rec v =
    All-append IsByte (varint rec.cycles) _ (varint-IsByte rec.cycles v.cycles) (
      v.kind,
      All-append IsByte (varint rec.a) (varint rec.b) (varint-IsByte rec.a v.a)
          (varint-IsByte rec.b v.b),
    )
