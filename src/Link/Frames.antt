-- ===== src/Link/Frames.antt =====
-- A step of the drain thread hands over one frame at most.
use embarch_outpost.Prelude.{
  ℕ, ◌+◌, ◌-◌, ◌%◌, ◌≡◌, ◌⊎◌, inl, inr, refl, sym, ap, ◌∙◌, Bool-cases, List, [], ◌∷◌, ◌++◌,
  append-nil, Option, none, some, length, take, drop, drop-append_left, ◌==◌, ltb, leb, ◌&&◌,
}
use mathlib.Core.Path.{subst}
use embarch_outpost.Config.{Config}
use embarch_outpost.Wire.{Rec, put_record, record_max_bytes}
use embarch_outpost.Frame.{frame}
use embarch_outpost.Ring.{ring_slots}
use embarch_outpost.Ring.Reader.{Reader, get_step}
use embarch_outpost.Drain.{
  Drain, Image, Batch, finish, header_fields, send_fields, send_body, send_header,
}
use embarch_outpost.Thread.Progress.{finish-sent}
use embarch_outpost.Interleaving.{World}
use embarch_outpost.Concurrent.{Stand, Desk, close, after_put, after_get, desk_step}

abbrev pub OneMore : List (List ℕ) → List (List ℕ) → Type 0
OneMore sent sent' = (sent' ≡ sent) ⊎ ((f : List ℕ) × (sent' ≡ sent ++ f ∷ []))

-- What is new is the frame, if there is one.
abbrev pub IsNew : List (List ℕ) → List (List ℕ) → List (List ℕ) → Type 0
IsNew sent sent' new =
    ((new ≡ []) × (sent' ≡ sent)) ⊎ ((f : List ℕ) × (new ≡ f ∷ []) × (sent' ≡ sent ++ f ∷ []))

pub OneMore-IsNew :
    (sent sent' : List (List ℕ)) → OneMore sent sent' → IsNew sent sent' (drop (length sent) sent')
OneMore-IsNew sent sent' (inl same) = inl (
  ap (drop (length sent)) (same ∙ sym (append-nil sent))
      ∙ drop-append_left (length sent) sent [] refl,
  same,
)
OneMore-IsNew sent sent' (inr (f, one)) =
    inr (f, ap (drop (length sent)) one ∙ drop-append_left (length sent) sent (f ∷ []) refl, one)

module _ (crc32 : List ℕ → ℕ) where
  send_body-OneMore : (n : ℕ) (d : Drain) → OneMore d.sent (send_body crc32 n d).sent
  unfolding send_body
  send_body-OneMore n d =
      let f = frame crc32 d.sealed (take n d.batch_buf) d.frame_buf (length d.frame_buf) in
      elim (Bool-cases (f.framed == 0)) [
        | inl e ↦ rw e (inl refl)
        | inr e ↦ rw e (inr (take f.framed f.out, refl))
      ]

  send_fields-OneMore :
      (d : Drain) (out : List ℕ × Option ℕ) → OneMore d.sent (send_fields crc32 d out).sent
  send_fields-OneMore d (buf, none) = inl refl
  send_fields-OneMore d (buf, some n) =
      send_body-OneMore n (record d { batch_buf = buf; frame_seq = (d.frame_seq + 1) % 256 })

  close-OneMore :
      (t : Desk) (b : Batch) → OneMore t.drain.sent (close crc32 t (finish t.drain b)).drain.sent
  close-OneMore t b = elim (Bool-cases ((finish t.drain b).0 == 0)) [
    | inl e ↦ rw e (inl (finish-sent t.drain b))
    | inr e ↦ rw e (
        subst (λ s. OneMore s (send_body crc32 (finish t.drain b).0 (finish t.drain b).1).sent)
          (finish-sent t.drain b) (send_body-OneMore (finish t.drain b).0 (finish t.drain b).1))
  ]

  put-OneMore :
      (t : Desk) (b : Batch) (out : List ℕ × ℕ)
      → OneMore t.drain.sent (after_put crc32 t b out).drain.sent
  put-OneMore t b out = elim (Bool-cases (out.1 == 0)) [
    | inl e ↦ rw e (close-OneMore t (record b { buf = out.0 }))
    | inr e ↦ rw e (inl refl)
  ]

  get-OneMore :
      (q : Reader) (out : Option Rec) (t : Desk) (b : Batch)
      → OneMore t.drain.sent (after_get crc32 q out t b).drain.sent
  get-OneMore Reader.rest none t b = close-OneMore t b
  get-OneMore Reader.rest (some rec) t b =
      put-OneMore t b (put_record b.buf b.n (length b.buf - b.n) rec)
  get-OneMore _ out t b = inl refl

  module _ (c : Config) (image : Image) where
    header-OneMore : (d : Drain) → OneMore d.sent (send_header c image crc32 d).sent
    unfolding send_header
    header-OneMore d =
        send_fields-OneMore d (header_fields c image (length d.batch_buf) d.frame_seq d.batch_buf 0)

    pub desk_step-OneMore :
        (now : ℕ) (p : Stand) (t : Desk) (w : World)
        → OneMore t.drain.sent (desk_step c image crc32 now p t w).drain.sent
    unfolding desk_step
    desk_step-OneMore now Stand.begin t w = header-OneMore t.drain
    desk_step-OneMore now Stand.top t w =
        elim (Bool-cases
          (ltb 0 c.header_interval_ms && leb c.header_interval_ms (now - t.last_header))) [
            | inl e ↦ rw e (header-OneMore t.drain)
            | inr e ↦ rw e (inl refl)
          ]
    desk_step-OneMore now Stand.fill t w = inl refl
    desk_step-OneMore now (Stand.pending head) t w = inl refl
    desk_step-OneMore now Stand.filling t w = inl refl
    desk_step-OneMore now Stand.build t w = inl refl
    desk_step-OneMore now (Stand.gapping b) t w = inl refl
    desk_step-OneMore now (Stand.looping b) t w =
        elim (Bool-cases (ltb b.count 127 && leb record_max_bytes (length b.buf - b.n))) [
          | inl e ↦ rw e (inl refl)
          | inr e ↦ rw e (close-OneMore t b)
        ]
    desk_step-OneMore now (Stand.getting b) t w =
        let (reader, ring, out) = get_step (ring_slots c.ring_bytes) w.reader w.ring in
        get-OneMore reader out t b
    desk_step-OneMore now Stand.idle t w = inl refl
