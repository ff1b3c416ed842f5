-- ===== src/Wire/Varint.antt =====
-- `outpost_put_varint` against the postcard encoding as a list of bytes.
use embarch_outpost.Prelude.{
  ℕ, zero, suc, ◌+◌, ◌-◌, ◌/◌, ◌%◌, ◌^◌, ◌≤◌, ◌<◌, ◌≡◌, refl, List, [], ◌∷◌, length, set, take,
  splice, bit_or-top, if◌then◌else◌, leb, ltb, All, IsByte, leb-false, le→leb, take-cons_sub,
  take-nil, take_none, arith,
}
use mathlib.Core.WellFounded.{Acc}
use mathlib.Core.Logic.{dif_pos, dif_neg}
use native.Mathlib.Nat.{pow-suc, add-zero, sub-zero, zero-add}
use native.Mathlib.Bridge.{le_prop}
use native.Mathlib.Decide.{dec_lt}
use embarch_outpost.Wire.{put_varint, put_varint_loop, shift_lt}

-- Seven bits to a byte, lowest first, in at most `k + 1` bytes; the top bit says that more follow.
unfoldable pub groups : ℕ → ℕ → List ℕ
groups zero value = value ∷ []
groups (suc k) value =
    let others = groups k (value / 128) in
    if ltb value 128 then value ∷ [] else (value % 128 + 128) ∷ others

-- The postcard varint of a uint32_t.
unfoldable pub varint : ℕ → List ℕ
unfolding groups
varint value = groups 4 value

pub length-groups :
    (k value : ℕ) → (1 ≤ length (groups k value)) × (length (groups k value) ≤ k + 1)
unfolding groups
length-groups zero value = omega arith
length-groups (suc k) value = ground (arith, length-groups k (value / 128))

-- A uint32_t takes one to five bytes.
pub length-varint : (value : ℕ) → (1 ≤ length (varint value)) × (length (varint value) ≤ 5)
unfolding varint
length-varint value = omega (arith, length-groups 4 value)

groups_last : (k value : ℕ) → value < 128 → groups k value ≡ value ∷ []
unfolding groups
groups_last zero value h = refl
groups_last (suc k) value h = ground arith

-- A number below 128 is its own varint.
pub varint_small : (value : ℕ) → value < 128 → varint value ≡ value ∷ []
unfolding varint
varint_small value h = groups_last 4 value h

groups_more :
    (k value : ℕ)
    → 0 < value / 128
    → groups (suc k) value ≡ (value % 128 + 128) ∷ groups k (value / 128)
unfolding groups
groups_more k value h = ground arith

-- The two rounds that find room: the last byte, and a byte with more to follow.
module _ (buf : List ℕ) (off cap value n : ℕ) (smaller : (m : ℕ) → m < value → Acc ◌<◌ m) where
  loop_last :
      n < cap
      → value < 128
      → put_varint_loop buf off cap value n (Acc.intro value smaller)
        ≡ (set buf (off + n) value, n + 1)
  unfolding put_varint_loop
  loop_last room h =
      let e : value % 128 ≡ value = omega arith in
      rw (leb-false cap n room, dif_neg (dec_lt 0 (value / 128)) (omega arith), e)

  loop_more :
      n < cap
      → (h : 0 < value / 128)
      → put_varint_loop buf off cap value n (Acc.intro value smaller)
        ≡ put_varint_loop
            (set buf (off + n) (value % 128 + 128))
            off
            cap
            (value / 128)
            (n + 1)
            (smaller (value / 128) (shift_lt value h))
  unfolding put_varint_loop
  loop_more room h = rw (
    leb-false cap n room,
    dif_pos (dec_lt 0 (value / 128)) le_prop h,
    bit_or-top (value % 128) (omega arith),
  )

put_varint_loop_full :
    (k : ℕ) (buf : List ℕ) (off cap value n : ℕ) (smaller : (m : ℕ) → m < value → Acc ◌<◌ m)
    → cap ≤ n
    → put_varint_loop buf off cap value n (Acc.intro value smaller) ≡ (
      splice buf (off + n) (take (cap - n) (groups k value)),
      if leb (n + length (groups k value)) cap then n + length (groups k value) else 0,
    )
unfolding put_varint_loop
put_varint_loop_full k buf off cap value n smaller h =
    let (lo, hi) = length-groups k value in
    rw (
      take_none n cap (groups k value) h,
      le→leb cap n h,
      leb-false (n + length (groups k value)) cap (omega arith),
    )

-- A round that more bytes follow, given the rest of the loop.
put_varint_loop_more :
    (k : ℕ) (buf : List ℕ) (off cap value n : ℕ) (smaller : (m : ℕ) → m < value → Acc ◌<◌ m)
    → value < 128 ^ suc k
    → n < cap
    → (h : 0 < value / 128)
    → ((j : ℕ)
        → value / 128 < 128 ^ suc j
        → put_varint_loop
            (set buf (off + n) (value % 128 + 128))
            off
            cap
            (value / 128)
            (n + 1)
            (smaller (value / 128) (shift_lt value h))
          ≡ (
            splice
                (set buf (off + n) (value % 128 + 128))
                (off + (n + 1))
                (take (cap - (n + 1)) (groups j (value / 128))),
            if leb (n + 1 + length (groups j (value / 128))) cap
                then n + 1 + length (groups j (value / 128))
                else 0,
          ))
    → put_varint_loop buf off cap value n (Acc.intro value smaller) ≡ (
      splice buf (off + n) (take (cap - n) (groups k value)),
      if leb (n + length (groups k value)) cap then n + length (groups k value) else 0,
    )
put_varint_loop_more zero buf off cap value n smaller h room more rest = absurd (omega arith)
put_varint_loop_more (suc k) buf off cap value n smaller h room more rest =
    let fits : value / 128 < 128 ^ suc k = omega (arith, pow-suc 128 (suc k)) in
    let e : off + (n + 1) ≡ suc (off + n) = omega arith in
    let e' : n + 1 + length (groups k (value / 128)) ≡ n + suc (length (groups k (value / 128))) =
      omega arith in
    rw (
      loop_more buf off cap value n smaller room more,
      groups_more k value more,
      rest k fits,
      take-cons_sub n cap (value % 128 + 128) (groups k (value / 128)) room,
      e,
      e',
    )

put_varint_loop_lem :
    (k : ℕ) (buf : List ℕ) (off cap value n : ℕ) (w : Acc ◌<◌ value)
    → value < 128 ^ suc k
    → put_varint_loop buf off cap value n w ≡ (
      splice buf (off + n) (take (cap - n) (groups k value)),
      if leb (n + length (groups k value)) cap then n + length (groups k value) else 0,
    )
put_varint_loop_lem k buf off cap value n (Acc.intro _ smaller) h = elim (dec_lt n cap) [
  | no full ↦ put_varint_loop_full k buf off cap value n smaller (omega arith)
  | yes room ↦ elim (dec_lt 0 (value / 128)) [
    | yes more ↦ put_varint_loop_more k buf off cap value n smaller h room more (λ j.
        put_varint_loop_lem j (set buf (off + n) (value % 128 + 128)) off cap (value / 128) (n + 1)
          (smaller (value / 128) (shift_lt value more)))
    | no last ↦ rw (
      loop_last buf off cap value n smaller room (omega arith),
      groups_last k value (omega arith),
      take-cons_sub n cap value [] room,
      take-nil,
      le→leb (n + 1) cap (omega arith),
    )
  ]
]

-- For every uint32_t, offset and capacity, `outpost_put_varint` writes the bytes of the postcard
-- varint, or as many as the capacity allows, changes no other byte, and returns their number, or 0
-- where they do not fit.
pub put_varint_lem :
    (buf : List ℕ) (off cap value : ℕ)
    → value < 2 ^ 32
    → put_varint buf off cap value ≡ (
      splice buf off (take cap (varint value)),
      if leb (length (varint value)) cap then length (varint value) else 0,
    )
unfolding put_varint varint
put_varint_lem buf off cap value h =
    rw (put_varint_loop_lem 4 buf off cap value 0 _ (omega arith))
      (rw (add-zero, sub-zero, zero-add))

groups-IsByte : (k value : ℕ) → value < 128 ^ suc k → All IsByte (groups k value)
unfolding groups
groups-IsByte zero value h = omega arith
groups-IsByte (suc k) value h =
    ground (arith, groups-IsByte k (value / 128) (omega (arith, pow-suc 128 (suc k))))

pub varint-IsByte : (value : ℕ) → value < 2 ^ 32 → All IsByte (varint value)
unfolding varint
varint-IsByte value h = groups-IsByte 4 value (omega arith)
