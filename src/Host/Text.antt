-- ===== src/Host/Text.antt =====
-- `.decode("utf-8", "replace")` of scripts/decode_outpost.py, which is Python's: a text is the list of its
-- code points, and each longest beginning of an ill-formed sequence becomes U+FFFD.
use embarch_outpost.Prelude.{
  ℕ, ◌+◌, ◌-◌, ◌*◌, ◌%◌, ◌<◌, ◌≡◌, refl, ap, List, [], ◌∷◌, ◌++◌, Option, none, some, if◌then◌else◌,
  ◌==◌, ltb, leb, ◌&&◌, All, lt→ltb,
}

-- A sequence that is not complete: its bits so far, how many bytes it lacks, and the bounds of the next.
pub record Partial : Type 0 where
  pub value : ℕ
  pub left : ℕ
  pub lo : ℕ
  pub hi : ℕ

abbrev pub replacement : ℕ
replacement = 0xFFFD

-- A first byte: the code points that it ends, and the sequence that it begins.
abbrev pub lead : ℕ → List ℕ × Option Partial
lead byte =
    if ltb byte 0x80
    then (byte ∷ [], none)
    else if ltb byte 0xC2
    then (replacement ∷ [], none)
    else if ltb byte 0xE0
    then ([], some (record { value = byte % 32; left = 1; lo = 0x80; hi = 0xBF }))
    else if ltb byte 0xF0
    then (
      [],
      some (record {
        value = byte % 16;
        left = 2;
        lo = if byte == 0xE0 then 0xA0 else 0x80;
        hi = if byte == 0xED then 0x9F else 0xBF;
      }),
    )
    else if ltb byte 0xF5
    then (
      [],
      some (record {
        value = byte % 8;
        left = 3;
        lo = if byte == 0xF0 then 0x90 else 0x80;
        hi = if byte == 0xF4 then 0x8F else 0xBF;
      }),
    )
    else (replacement ∷ [], none)

-- The next byte. One out of bounds ends the sequence, and is a first byte itself.
abbrev pub utf8_step : Option Partial → ℕ → List ℕ × Option Partial
utf8_step none byte = lead byte
utf8_step (some p) byte =
    let value = p.value * 64 + byte % 64 in
    if leb p.lo byte && leb byte p.hi
    then (if p.left == 1
        then (value ∷ [], none)
        else ([], some (record { value = value; left = p.left - 1; lo = 0x80; hi = 0xBF })))
    else (replacement ∷ (lead byte).0, (lead byte).1)

abbrev pub utf8_loop : Option Partial → List ℕ → List ℕ
utf8_loop none [] = []
utf8_loop (some p) [] = replacement ∷ []
utf8_loop p (byte ∷ bytes) = let (chars, p') = utf8_step p byte in chars ++ utf8_loop p' bytes

unfoldable pub utf8 : List ℕ → List ℕ
utf8 bytes = utf8_loop none bytes

abbrev pub IsAscii : ℕ → Type 0
IsAscii byte = byte < 128

-- ASCII bytes are their own code points.
pub utf8-ascii : (text rest : List ℕ) → All IsAscii text → utf8 (text ++ rest) ≡ text ++ utf8 rest
unfolding utf8
utf8-ascii [] rest h = refl
utf8-ascii (byte ∷ text) rest h =
    rw (lt→ltb byte 0x80 h.0) (ap (λ (l : List ℕ). byte ∷ l) (utf8-ascii text rest h.1))
