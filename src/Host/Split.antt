-- ===== src/Host/Split.antt =====
-- The stream as a whole: a frame costs the decoder its own bytes only.
use embarch_outpost.Prelude.{
  ℕ, ◌≤◌, ◌≡◌, ◌≢◌, refl, sym, ◌∙◌, List, [], ◌∷◌, ◌++◌, append_assoc, append-nil, length, ==_ne,
  All, arith,
}
use embarch_outpost.Frame.Stuffed.{IsStuffed}
use embarch_outpost.Host.{
  Decoded, bad_cobs, cobs_decode, cobs_decode_loop, check_body, decode_chunk, split, decode_chunks,
  decode_stream,
}

pub split_stuffed :
    (chunk run rest : List ℕ)
    → All IsStuffed run
    → split chunk (run ++ 0 ∷ rest) ≡ (chunk ++ run) ∷ split [] rest
unfolding split
split_stuffed chunk [] rest ok = rw append-nil
split_stuffed chunk (byte ∷ run) rest ok = rw (
  ==_ne byte 0 (omega (arith, ok.0)),
  split_stuffed (chunk ++ byte ∷ []) run rest ok.1,
  append_assoc chunk (byte ∷ []) run,
)

module _ (crc32 : List ℕ → ℕ) where
  decode_chunk-nil : decode_chunk crc32 [] ≡ bad_cobs
  unfolding decode_chunk cobs_decode cobs_decode_loop check_body
  decode_chunk-nil = refl

  chunk_more : (chunk : List ℕ) → decode_chunk crc32 chunk ≢ bad_cobs → 1 ≤ length chunk
  chunk_more [] h = absurd (h decode_chunk-nil)
  chunk_more (byte ∷ chunk) h = omega arith

  -- What the decoder makes of some bytes, whatever comes behind them.
  abbrev pub IsClosed : List ℕ → List Decoded → Type 0
  IsClosed bytes ds =
      (rest : List ℕ) → decode_stream crc32 (bytes ++ rest) ≡ ds ++ decode_stream crc32 rest

  pub frame-IsClosed :
      (chunk : List ℕ) (d : Decoded)
      → All IsStuffed chunk
      → decode_chunk crc32 chunk ≡ d
      → d ≢ bad_cobs
      → IsClosed (chunk ++ 0 ∷ []) (d ∷ [])
  unfolding decode_stream decode_chunks
  frame-IsClosed chunk d ok e good rest =
      let more = chunk_more chunk (λ bad. good (sym e ∙ bad)) in
      rw (append_assoc chunk (0 ∷ []) rest)
        (rw (split_stuffed [] chunk rest ok) (rw (==_ne (length chunk) 0 (omega arith), e)))

  pub append-IsClosed :
      (xs ys : List ℕ) (ds es : List Decoded)
      → IsClosed xs ds
      → IsClosed ys es
      → IsClosed (xs ++ ys) (ds ++ es)
  append-IsClosed xs ys ds es h k rest = rw (
    append_assoc xs ys rest,
    h (ys ++ rest),
    k rest,
    append_assoc ds es (decode_stream crc32 rest),
  )

  pub decode_stream-IsClosed :
      (bytes : List ℕ) (ds : List Decoded) → IsClosed bytes ds → decode_stream crc32 bytes ≡ ds
  unfolding decode_stream decode_chunks split
  decode_stream-IsClosed bytes ds h =
      let e : decode_stream crc32 (bytes ++ []) ≡ ds ++ [] = h [] in
      rw append-nil at (rw append-nil at e)
