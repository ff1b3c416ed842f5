-- ===== src/Frame/Seal.antt =====
-- `outpost_frame`: when it refuses, and what it leaves in the output buffer.
use embarch_outpost.Prelude.{
  ℕ, ◌+◌, ◌/◌, ◌≤◌, ◌<◌, ◌≡◌, ◌⊎◌, refl, List, [], ◌∷◌, ◌++◌, length, length-append, take, splice,
  splice-append, take-splice, ltb-false, All, IsByte, arith,
}
use embarch_outpost.Frame.{frame, crc_bytes}
use embarch_outpost.Frame.Stuffed.{stuff, length-stuff}
use embarch_outpost.Frame.Encode.{cobs_encode_lem}

module _ (crc32 : List ℕ → ℕ) where
  -- The body with its CRC behind it, and the frame on the wire.
  abbrev pub sealed_bytes : List ℕ → List ℕ
  sealed_bytes body = body ++ crc_bytes (crc32 body)

  abbrev pub frame_bytes : List ℕ → List ℕ
  frame_bytes body = stuff (sealed_bytes body) ++ 0 ∷ []

length-crc_bytes : (crc : ℕ) → length (crc_bytes crc) ≡ 4
unfolding crc_bytes
length-crc_bytes crc = refl

pub crc_bytes-IsByte : (crc : ℕ) → All IsByte (crc_bytes crc)
unfolding crc_bytes
crc_bytes-IsByte crc = omega arith

module _ (crc32 : List ℕ → ℕ) where
  pub length-sealed_bytes : (body : List ℕ) → length (sealed_bytes crc32 body) ≡ length body + 4
  length-sealed_bytes body =
      omega (arith, length-append body (crc_bytes (crc32 body)), length-crc_bytes (crc32 body))

  -- The room that the test of `outpost_frame` asks for is enough for every frame.
  pub length-frame_bytes :
      (body : List ℕ)
      → length (frame_bytes crc32 body) ≤ length body + 4 + (length body + 4) / 254 + 2
  length-frame_bytes body = omega (
    arith,
    length-append (stuff (sealed_bytes crc32 body)) (0 ∷ []),
    length-stuff (sealed_bytes crc32 body),
    length-sealed_bytes body,
  )

  sealed_lem :
      (sealed body : List ℕ)
      → length body + 4 ≤ length sealed
      → take
          (length body + 4)
          (splice (splice sealed 0 body) (length body) (crc_bytes (crc32 body)))
        ≡ sealed_bytes crc32 body
  sealed_lem sealed body h =
      let n = length-sealed_bytes body in
      rw (splice-append sealed 0 (length body) body (crc_bytes (crc32 body)) (omega arith), ← n)
        (take-splice sealed (sealed_bytes crc32 body) (omega arith))

  -- `outpost_frame` refuses a body that its static buffer cannot hold with a CRC, and an output buffer
  -- too small for the worst case: it returns 0 and changes nothing.
  pub frame_refuses :
      (sealed body out : List ℕ) (out_cap : ℕ)
      → (length sealed < length body + 4)
        ⊎ (out_cap < length body + 4 + (length body + 4) / 254 + 3)
      → frame crc32 sealed body out out_cap ≡ record { sealed = sealed; out = out; framed = 0 }
  unfolding frame
  frame_refuses sealed body out out_cap h = ground arith

  -- Where neither buffer is too small for it, `outpost_frame` leaves the body and its CRC, lowest
  -- byte first, in the static buffer, their COBS encoding and the delimiter in the output buffer,
  -- and returns the length of that.
  pub frame_lem :
      (sealed body out : List ℕ) (out_cap : ℕ)
      → length body + 4 ≤ length sealed
      → length body + 4 + (length body + 4) / 254 + 3 ≤ out_cap
      → frame crc32 sealed body out out_cap ≡ record {
        sealed = splice sealed 0 (sealed_bytes crc32 body);
        out = splice out 0 (frame_bytes crc32 body);
        framed = length (frame_bytes crc32 body);
      }
  unfolding frame
  frame_lem sealed body out out_cap fits room =
      let n = length-sealed_bytes body in
      let bytes = sealed_bytes crc32 body in
      rw (
        ltb-false (length sealed) (length body + 4) fits,
        ltb-false out_cap (length body + 4 + (length body + 4) / 254 + 2 + 1) (omega arith),
        sealed_lem sealed body fits,
        cobs_encode_lem bytes out,
        splice-append sealed 0 (length body) body (crc_bytes (crc32 body)) (omega arith),
        ← splice-append out 0 (length (stuff bytes)) (stuff bytes) (0 ∷ []) (omega arith),
        length-append (stuff bytes) (0 ∷ []),
      )
