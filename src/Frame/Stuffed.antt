-- ===== src/Frame/Stuffed.antt =====
-- COBS as a function on lists of bytes: what the encoder writes, its length, and that no byte is 0.
use embarch_outpost.Prelude.{
  ℕ, suc, ◌+◌, ◌/◌, ◌≤◌, ◌<◌, List, [], ◌∷◌, ◌++◌, length, length-append, if◌then◌else◌, ◌==◌, All,
  IsByte, All-append, arith,
}

-- `run` is the part of the current block that has been read: at most 253 bytes, none of them 0.
unfoldable pub stuff_from : List ℕ → List ℕ → List ℕ
stuff_from run [] = suc (length run) ∷ run
stuff_from run (byte ∷ bytes) =
    let after_zero = (suc (length run) ∷ run) ++ stuff_from [] bytes in
    let after_full = (0xff ∷ (run ++ byte ∷ [])) ++ stuff_from [] bytes in
    let further = stuff_from (run ++ byte ∷ []) bytes in
    if byte == 0 then after_zero else if length run == 253 then after_full else further

unfoldable pub stuff : List ℕ → List ℕ
unfolding stuff_from
stuff bytes = stuff_from [] bytes

-- A byte of the encoded stream: it fits a byte, and is not the delimiter.
abbrev pub IsStuffed : ℕ → Type 0
IsStuffed b = (0 < b) × (b < 256)

stuff_from-IsStuffed :
    (run bytes : List ℕ)
    → length run ≤ 253
    → All IsStuffed run
    → All IsByte bytes
    → All IsStuffed (stuff_from run bytes)
unfolding stuff_from
stuff_from-IsStuffed run [] h r b = (omega arith, r)
stuff_from-IsStuffed run (byte ∷ bytes) h r b = ground (
  arith,
  All-append IsStuffed run (byte ∷ []) r,
  All-append IsStuffed run (stuff_from [] bytes) r,
  All-append IsStuffed (run ++ byte ∷ []) (stuff_from [] bytes),
  stuff_from-IsStuffed [] bytes (omega arith) tt b.1,
  stuff_from-IsStuffed (run ++ byte ∷ []) bytes,
  length-append run (byte ∷ []),
)

-- Encoding adds a byte, and one more for every 254 bytes at most.
pub length-stuff_from :
    (run bytes : List ℕ)
    → length run ≤ 253
    → (suc (length run + length bytes) ≤ length (stuff_from run bytes))
      × (length (stuff_from run bytes)
          ≤ length run + length bytes + (length run + length bytes) / 254 + 1)
unfolding stuff_from
length-stuff_from run [] h = omega arith
length-stuff_from run (byte ∷ bytes) h = ground (
  arith,
  length-append run (byte ∷ []),
  length-append run (stuff_from [] bytes),
  length-append (run ++ byte ∷ []) (stuff_from [] bytes),
  length-stuff_from [] bytes (omega arith),
  length-stuff_from (run ++ byte ∷ []) bytes,
)

pub length-stuff :
    (bytes : List ℕ)
    → (suc (length bytes) ≤ length (stuff bytes))
      × (length (stuff bytes) ≤ length bytes + length bytes / 254 + 1)
unfolding stuff
length-stuff bytes = omega (arith, length-stuff_from [] bytes (omega arith))

-- No byte of the encoding is the delimiter.
pub stuff-IsStuffed : (bytes : List ℕ) → All IsByte bytes → All IsStuffed (stuff bytes)
unfolding stuff
stuff-IsStuffed bytes h = stuff_from-IsStuffed [] bytes (omega arith) tt h
