-- ===== src/Host/Cobs.antt =====
-- `cobs_decode` undoes the firmware's COBS encoding.
use embarch_outpost.Prelude.{
  ℕ, zero, suc, ◌-◌, ◌≤◌, ◌<◌, ◌≡◌, refl, ◌∙◌, List, [], ◌∷◌, ◌++◌, some, length, length-append,
  take-append_left, drop-append_left, append-nil, append_assoc, if◌then◌else◌, ◌==◌, ==_ne,
  ltb-false, Bool-cases, inl, inr, arith,
}
use embarch_outpost.Frame.Stuffed.{stuff_from, stuff, length-stuff_from}
use embarch_outpost.Host.{cobs_decode_loop, cobs_decode}

-- One round of the decoder on a whole block.
decode_block :
    (fuel : ℕ) (run rest out : List ℕ)
    → cobs_decode_loop (suc fuel) (suc (length run) ∷ (run ++ rest)) out
      ≡ cobs_decode_loop fuel rest (
          if suc (length run) == 0xff
          then out ++ run
          else if length rest == 0
          then out ++ run
          else (out ++ run) ++ 0 ∷ [])
unfolding cobs_decode_loop
decode_block fuel run rest out =
    let e : suc (length run) - 1 ≡ length run = omega arith in
    rw (
      e,
      take-append_left (length run) run rest refl,
      drop-append_left (length run) run rest refl,
      ==_ne (suc (length run)) 0 (omega arith),
      ltb-false (length (run ++ rest)) (length run) (omega (arith, length-append run rest)),
    )

decode_end : (fuel : ℕ) (out : List ℕ) → cobs_decode_loop fuel [] out ≡ some out
unfolding cobs_decode_loop
decode_end zero out = refl
decode_end (suc fuel) out = refl

-- The last block of a frame, a block before a zero byte, and a full block.
decode_last :
    (fuel : ℕ) (run out : List ℕ)
    → length run ≤ 253
    → cobs_decode_loop (suc fuel) (suc (length run) ∷ run) out ≡ some (out ++ run)
decode_last fuel run out h =
    rw (append-nil, ==_ne (suc (length run)) 0xff (omega arith)) at (decode_block fuel run [] out)
    ∙ decode_end fuel (out ++ run)

decode_zero :
    (fuel : ℕ) (run rest out : List ℕ)
    → length run ≤ 253
    → 0 < length rest
    → cobs_decode_loop (suc fuel) (suc (length run) ∷ (run ++ rest)) out
      ≡ cobs_decode_loop fuel rest ((out ++ run) ++ 0 ∷ [])
decode_zero fuel run rest out h more =
    rw (==_ne (suc (length run)) 0xff (omega arith), ==_ne (length rest) 0 (omega arith)) at
      (decode_block fuel run rest out)

decode_full :
    (fuel : ℕ) (run rest out : List ℕ)
    → length run ≡ 254
    → cobs_decode_loop (suc fuel) (0xff ∷ (run ++ rest)) out
      ≡ cobs_decode_loop fuel rest (out ++ run)
decode_full fuel run rest out h = rw h at (decode_block fuel run rest out)

decode_stuffed :
    (fuel : ℕ) (run bytes out : List ℕ)
    → length run ≤ 253
    → length (stuff_from run bytes) ≤ fuel
    → cobs_decode_loop fuel (stuff_from run bytes) out ≡ some (out ++ (run ++ bytes))
unfolding stuff_from
decode_stuffed zero run bytes out h enough = absurd (omega (arith, length-stuff_from run bytes h))
decode_stuffed (suc fuel) run [] out h enough = rw append-nil (decode_last fuel run out h)
decode_stuffed (suc fuel) run (byte ∷ bytes) out h enough = elim (Bool-cases (byte == 0)) [
  | inl e ↦ ground (
    arith,
    length-stuff_from [] bytes,
    length-append run (stuff_from [] bytes),
    decode_zero fuel run (stuff_from [] bytes) out,
    decode_stuffed fuel [] bytes ((out ++ run) ++ 0 ∷ []),
    append_assoc (out ++ run) (0 ∷ []) bytes,
    append_assoc out run (0 ∷ bytes),
  )
  | inr e ↦ elim (Bool-cases (length run == 253)) [
    | inl full ↦ ground (
      arith,
      length-append run (byte ∷ []),
      length-append (run ++ byte ∷ []) (stuff_from [] bytes),
      decode_full fuel (run ++ byte ∷ []) (stuff_from [] bytes) out,
      decode_stuffed fuel [] bytes (out ++ (run ++ byte ∷ [])),
      append_assoc out (run ++ byte ∷ []) bytes,
      append_assoc run (byte ∷ []) bytes,
    )
    | inr few ↦ ground (
      arith,
      length-append run (byte ∷ []),
      decode_stuffed (suc fuel) (run ++ byte ∷ []) bytes out,
      append_assoc run (byte ∷ []) bytes,
    )
  ]
]

-- `cobs_decode` reads back every list of bytes from its encoding.
pub cobs_decode-stuff : (bytes : List ℕ) → cobs_decode (stuff bytes) ≡ some bytes
unfolding cobs_decode stuff
cobs_decode-stuff bytes = decode_stuffed _ [] bytes [] (omega arith) (omega arith)
