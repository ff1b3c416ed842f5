-- ===== src/Frame/Encode.antt =====
-- `outpost_cobs_encode` writes the COBS encoding of its input into the output buffer.
use embarch_outpost.Prelude.{
  ℕ, suc, ◌+◌, ◌≤◌, ◌<◌, ◌≡◌, ◌≢◌, ◌∙◌, List, [], ◌∷◌, ◌++◌, length, splice, splice-append,
  set-splice_lt, length-append, ◌==◌, Bool-cases, inl, inr, arith,
}
use native.Mathlib.Nat.{zero-add}
use embarch_outpost.Frame.{Cobs, cobs_step, cobs_loop, cobs_finish, cobs_encode}
use embarch_outpost.Frame.Stuffed.{stuff_from, stuff}

-- The encoder inside a block: the code byte of the block is to stand at `off`, and the bytes `run`
-- of the block stand behind it.
abbrev inside : List ℕ → ℕ → List ℕ → Cobs
inside out off run = record {
  out = splice out (suc off) run;
  write_index = suc off + length run;
  code_index = off;
  code = suc (length run);
}

cobs_finish_lem :
    (out : List ℕ) (off : ℕ) (run : List ℕ)
    → cobs_finish (inside out off run)
      ≡ (splice out off (suc (length run) ∷ run), off + suc (length run))
unfolding cobs_finish
cobs_finish_lem out off run =
    let e : suc off + length run ≡ off + suc (length run) = omega arith in
    rw (set-splice_lt out off (suc off) (suc (length run)) run (omega arith), e)

-- A zero byte closes the block.
cobs_step_zero :
    (out : List ℕ) (off : ℕ) (run : List ℕ)
    → cobs_step 0 (inside out off run)
      ≡ inside (splice out off (suc (length run) ∷ run)) (off + suc (length run)) []
unfolding cobs_step
cobs_step_zero out off run = ground (arith, set-splice_lt out off (suc off) (suc (length run)) run)

-- The 254th byte of a block closes it too.
cobs_step_full :
    (byte : ℕ) (out : List ℕ) (off : ℕ) (run : List ℕ)
    → byte ≢ 0
    → length run ≡ 253
    → cobs_step byte (inside out off run)
      ≡ inside (splice out off (0xff ∷ (run ++ byte ∷ []))) (off + 255) []
unfolding cobs_step
cobs_step_full byte out off run h full = ground (
  arith,
  splice-append out (suc off) (suc off + length run) run (byte ∷ []),
  set-splice_lt out off (suc off) 0xff (run ++ byte ∷ []),
)

cobs_step_more :
    (byte : ℕ) (out : List ℕ) (off : ℕ) (run : List ℕ)
    → byte ≢ 0
    → length run < 253
    → cobs_step byte (inside out off run) ≡ inside out off (run ++ byte ∷ [])
unfolding cobs_step
cobs_step_more byte out off run h few = ground (
  arith,
  length-append run (byte ∷ []),
  splice-append out (suc off) (suc off + length run) run (byte ∷ []),
)

cobs_loop_lem :
    (bytes : List ℕ) (out : List ℕ) (off : ℕ) (run : List ℕ)
    → length run ≤ 253
    → cobs_finish (cobs_loop bytes (inside out off run))
      ≡ (splice out off (stuff_from run bytes), off + length (stuff_from run bytes))
unfolding cobs_loop stuff_from
cobs_loop_lem [] out off run h = cobs_finish_lem out off run
cobs_loop_lem (byte ∷ bytes) out off run h = elim (Bool-cases (byte == 0)) [
  | inl e ↦ ground (
    arith,
    cobs_step_zero out off run,
    cobs_loop_lem bytes (splice out off (suc (length run) ∷ run)) (off + suc (length run)) [],
    splice-append out off (off + suc (length run)) (suc (length run) ∷ run) (stuff_from [] bytes),
    length-append run (stuff_from [] bytes),
  )
  | inr e ↦ elim (Bool-cases (length run == 253)) [
    | inl full ↦ ground (
      arith,
      cobs_step_full byte out off run,
      cobs_loop_lem bytes (splice out off (0xff ∷ (run ++ byte ∷ []))) (off + 255) [],
      splice-append out off (off + 255) (0xff ∷ (run ++ byte ∷ [])) (stuff_from [] bytes),
      length-append (run ++ byte ∷ []) (stuff_from [] bytes),
      length-append run (byte ∷ []),
    )
    | inr few ↦ ground (
      arith,
      cobs_step_more byte out off run,
      cobs_loop_lem bytes out off (run ++ byte ∷ []),
      length-append run (byte ∷ []),
    )
  ]
]

-- `outpost_cobs_encode` writes the COBS encoding of its input at the front of the output buffer,
-- changes nothing behind it, and returns its length.
pub cobs_encode_lem :
    (input out : List ℕ)
    → cobs_encode input out ≡ (splice out 0 (stuff input), length (stuff input))
unfolding cobs_encode stuff
cobs_encode_lem input out = cobs_loop_lem input out 0 [] (omega arith) ∙ rw zero-add
