-- ===== src/Transport/Poll.antt =====
-- `transport_send` without an asynchronous driver.
use embarch_outpost.Prelude.{
  ℕ, zero, suc, ◌+◌, ◌≤◌, ◌≡◌, refl, sym, ap, ◌∙◌, List, [], ◌∷◌, ◌++◌, append-nil, append_assoc,
  some, length, take, take_all, drop, get_elem?, arith,
}
use embarch_outpost.Transport.{poll_loop, poll_send, poll_frames}
use embarch_outpost.Thread.Progress.{concat}

-- The element at an index that is in bounds, and what stands after it.
drop-get_elem? :
    (i : ℕ) (xs : List ℕ)
    → suc i ≤ length xs
    → (x : ℕ) × (get_elem? xs i ≡ some x) × (drop i xs ≡ x ∷ drop (suc i) xs)
drop-get_elem? i [] h = absurd (omega arith)
drop-get_elem? zero (x ∷ xs) h = (x, refl, refl)
drop-get_elem? (suc i) (x ∷ xs) h = drop-get_elem? i xs (omega arith)

poll_loop_lem :
    (left i : ℕ) (buf out : List ℕ)
    → i + left ≤ length buf
    → poll_loop left i buf out ≡ some (out ++ take left (drop i buf))
unfolding poll_loop
poll_loop_lem zero i buf out h = ap some (sym (append-nil out))
poll_loop_lem (suc left) i buf out h =
    let (x, at, rest) = drop-get_elem? i buf (omega arith) in
    rw (at, rest)
      (poll_loop_lem left (suc i) buf (out ++ x ∷ []) (omega arith)
        ∙ ap some (append_assoc out (x ∷ []) (take left (drop (suc i) buf))))

pub poll_send_lem :
    (buf : List ℕ) (len : ℕ) (out : List ℕ)
    → len ≤ length buf
    → poll_send buf len out ≡ some (out ++ take len buf)
unfolding poll_send
poll_send_lem buf len out h = poll_loop_lem len 0 buf out (omega arith)

-- On the polling driver the frames are sent byte by byte, in their order and with nothing between
-- them, and no read is outside a frame.
pub poll_frames_lem :
    (frames : List (List ℕ)) (out : List ℕ) → poll_frames frames out ≡ some (out ++ concat frames)
unfolding poll_frames
poll_frames_lem [] out = ap some (sym (append-nil out))
poll_frames_lem (frame ∷ frames) out =
    rw
      (
        poll_send_lem frame (length frame) out (omega arith),
        take_all (length frame) frame (omega arith),
      )
      (poll_frames_lem frames (out ++ frame) ∙ ap some (append_assoc out frame (concat frames)))
