-- ===== src/Concurrent/Whole.antt =====
-- A frame that nobody interrupts: the steps of the drain thread are the whole call of
-- `build_records_frame`, and what follows it.
use embarch_outpost.Prelude.{
  ℕ, zero, suc, ◌+◌, ◌-◌, ◌≤◌, ◌≡◌, ◌⊎◌, refl, sym, ap, inl, inr, Bool, true, false, Bool-cases,
  List, [], ◌∷◌, ◌++◌, none, some, length, ◌==◌, ltb, leb, ltb-false, ◌&&◌, arith,
}
use embarch_outpost.Config.{Config}
use embarch_outpost.Wire.{Rec, put_record, record_max_bytes}
use embarch_outpost.Ring.{Ring, ring_slots, ring_get, index, seq_for}
use embarch_outpost.Ring.Taker.{Taker}
use embarch_outpost.Ring.Reader.{Reader, get_step}
use embarch_outpost.Drain.{Image, Batch, finish, build_loop}
use embarch_outpost.Hooks.{Board}
use embarch_outpost.Interleaving.{World, move}
use embarch_outpost.Concurrent.{Stand, Desk, System, Deed, close, after_put, desk_step, perform}

module _ (c : Config) (board : Board) (image : Image) (crc32 : List ℕ → ℕ) where
  abbrev n : ℕ
  n = ring_slots c.ring_bytes

  -- `P` holds now or after so many steps of the thread, whatever their uptimes.
  abbrev pub Within : (System → Type 0) → ℕ → System → Type 0
  Within P zero s = P s
  Within P (suc k) s =
      P s ⊎ ((now : ℕ) → Within P k (perform c board image crc32 (Deed.thread now) s))

  Within-suc : (P : System → Type 0) (k : ℕ) (s : System) → Within P k s → Within P (suc k) s
  Within-suc P zero s h = inl h
  Within-suc P (suc k) s (inl h) = inl h
  Within-suc P (suc k) s (inr h) =
      inr (λ now. Within-suc P k (perform c board image crc32 (Deed.thread now) s) (h now))

  Within-five :
      (P : System → Type 0) (k : ℕ) (s : System)
      → Within P k s
      → Within P (suc (suc (suc (suc (suc k))))) s
  Within-five P k s h = Within-suc P (suc (suc (suc (suc k)))) s (
      Within-suc P (suc (suc (suc k))) s
        (Within-suc P (suc (suc k)) s (Within-suc P (suc k) s (Within-suc P k s h))))

  -- The thread at `p`, in no call of the ring.
  abbrev pub at : Desk → Stand → World → System
  at t p w = record {
    desk = record t { stand = p };
    world = record w { reader = Reader.rest; taker = Taker.rest };
  }

  module _ (P : System → Type 0) (k : ℕ) (t : Desk) (w : World) (b : Batch) where
    abbrev closed : System
    closed = record {
      desk = close crc32 t (finish t.drain b);
      world = record w { reader = Reader.rest; taker = Taker.rest };
    }

    -- A call of `outpost_ring_get`.
    get_whole :
        (ring_get n w.ring ≡ (none, w.ring) → Within P k closed)
        → ((rec : Rec) (ring : Ring)
            → ring_get n w.ring ≡ (some rec, ring)
            → Within P k (record {
              desk = after_put crc32 t b (put_record b.buf b.n (length b.buf - b.n) rec);
              world = record w {
                reader = Reader.rest;
                taker = Taker.rest;
                ring = ring;
                given = w.given ++ rec ∷ [];
                taken = w.taken + 1;
              };
            }))
        → Within P (suc (suc (suc (suc (suc (suc (suc (suc k)))))))) (at t (Stand.getting b) w)
    unfolding perform desk_step move get_step ring_get
    get_whole nothing something =
        let r = w.ring in
        inr (λ now. inr (λ now. elim (Bool-cases (r.tail == r.head)) [
          | inl e ↦ rw e (
              Within-suc P (suc (suc (suc (suc (suc k))))) closed
                (Within-five P k closed (nothing (rw e refl))))
          | inr e ↦ rw e (
              inr (λ now. elim (Bool-cases ((r.slots (index n r.tail)).seq == seq_for r.tail)) [
                | inl f ↦ rw f (
                    inr (λ now. inr (λ now. inr (λ now. inr (λ now.
                      inr (λ now. something (r.slots (index n r.tail)).rec _ (rw (e, f) refl)))))))
                | inr f ↦ rw f (Within-five P k closed (nothing (rw (e, f) refl)))
              ]))
        ]))

  -- Where the frame has ended: what the thread does next, and the ring.
  abbrev pub Ended : Desk → Batch → System → Type 0
  Ended t b s =
      (s.desk ≡ close crc32 t (finish t.drain b))
      × (s.world.ring ≡ b.ring)
      × (s.world.reader ≡ Reader.rest)
      × (s.world.taker ≡ Taker.rest)

  close-ring :
      (t : Desk) (b : Batch) (ring : Ring)
      → close crc32 t (finish t.drain b) ≡ close crc32 t (finish t.drain (record b { ring = ring }))
  unfolding finish
  close-ring t b ring = elim (Bool-cases (b.count == 0)) [ inl e ↦ rw e refl | inr e ↦ rw e refl ]

  -- The steps of the record loop, with `fuel` records to come at most.
  abbrev pub loop_steps : ℕ → ℕ
  loop_steps zero = 1
  loop_steps (suc fuel) = suc (suc (suc (suc (suc (suc (suc (suc (suc (loop_steps fuel)))))))))

  abbrev ending : Desk → World → Batch → System
  ending t w b = record {
    desk = close crc32 t (finish t.drain b);
    world = record w { reader = Reader.rest; taker = Taker.rest };
  }

  ended : (t : Desk) (w : World) (b : Batch) → Ended t (record b { ring = w.ring }) (ending t w b)
  ended t w b = (close-ring t b w.ring, refl, refl, refl)

  now-Within : (P : System → Type 0) (k : ℕ) (s : System) → P s → Within P k s
  now-Within P zero s h = h
  now-Within P (suc k) s h = inl h

  loop_ends : (b : Batch) → build_loop c zero b ≡ b
  unfolding build_loop
  loop_ends b = refl

  abbrev more : Batch → Bool
  more b = ltb b.count 127 && leb record_max_bytes (length b.buf - b.n)

  -- The four ways of a round of the record loop.
  module _ (fuel : ℕ) (b : Batch) where
    loop_stops : more b ≡ false → build_loop c (suc fuel) b ≡ b
    unfolding build_loop
    loop_stops off = rw off refl

    loop_empty :
        more b ≡ true
        → (ring_get n b.ring).0 ≡ none
        → build_loop c (suc fuel) b ≡ record b { ring = (ring_get n b.ring).1 }
    unfolding build_loop
    loop_empty on e = rw (on, e) refl

    abbrev put : Rec → List ℕ × ℕ
    put rec = put_record b.buf b.n (length b.buf - b.n) rec

    loop_breaks :
        (rec : Rec)
        → more b ≡ true
        → (ring_get n b.ring).0 ≡ some rec
        → ((put rec).1 == 0) ≡ true
        → build_loop c (suc fuel) b ≡ record b { buf = (put rec).0; ring = (ring_get n b.ring).1 }
    unfolding build_loop
    loop_breaks rec on e z = rw (on, e, z) refl

    loop_goes :
        (rec : Rec)
        → more b ≡ true
        → (ring_get n b.ring).0 ≡ some rec
        → ((put rec).1 == 0) ≡ false
        → build_loop c (suc fuel) b
          ≡ build_loop c fuel (record b {
            buf = (put rec).0;
            n = b.n + (put rec).1;
            count = b.count + 1;
            ring = (ring_get n b.ring).1;
          })
    unfolding build_loop
    loop_goes rec on e z = rw (on, e, z) refl

  module _ (t : Desk) (w : World) (b : Batch) (now : ℕ) where
    loop_off :
        more b ≡ false
        → perform c board image crc32 (Deed.thread now) (at t (Stand.looping b) w) ≡ ending t w b
    unfolding perform desk_step
    loop_off off = rw off refl

    loop_on :
        more b ≡ true
        → perform c board image crc32 (Deed.thread now) (at t (Stand.looping b) w)
          ≡ at t (Stand.getting b) w
    unfolding perform desk_step
    loop_on on = rw on refl

  -- A record has come.
  got_whole :
      (fuel : ℕ)
      → ((t : Desk) (w : World) (b : Batch)
          → 127 ≤ fuel + b.count
          → Within
              (Ended t (build_loop c fuel (record b { ring = w.ring })))
              (loop_steps fuel)
              (at t (Stand.looping b) w))
      → (t : Desk) (w w' : World) (b : Batch) (rec : Rec) → 127 ≤ suc fuel + b.count
      → more b ≡ true
      → (ring_get n w.ring).0 ≡ some rec
      → w'.ring ≡ (ring_get n w.ring).1
      → Within
          (Ended t (build_loop c (suc fuel) (record b { ring = w.ring })))
          (loop_steps fuel)
          (record {
            desk = after_put crc32 t b (put_record b.buf b.n (length b.buf - b.n) rec);
            world = record w' { reader = Reader.rest; taker = Taker.rest };
          })
  got_whole fuel rounds t w w' b rec full on e f =
      let out = put_record b.buf b.n (length b.buf - b.n) rec in
      let B = record b { ring = w.ring } in
      elim (Bool-cases (out.1 == 0)) [
        | inl z ↦
            rw (loop_breaks fuel B rec on e z, z, ← f)
              (now-Within _ (loop_steps fuel) _ (ended t w' (record b { buf = out.0 })))
        | inr z ↦
            rw (loop_goes fuel B rec on e z, z, ← f)
              (rounds t w' (record b { buf = out.0; n = b.n + out.1; count = b.count + 1 })
                (omega (arith, full)))
      ]

  pub loop_whole :
      (fuel : ℕ) (t : Desk) (w : World) (b : Batch)
      → 127 ≤ fuel + b.count
      → Within
          (Ended t (build_loop c fuel (record b { ring = w.ring })))
          (loop_steps fuel)
          (at t (Stand.looping b) w)
  loop_whole zero t w b full = inr (λ now.
      rw
        (
          loop_off t w b now (rw (ltb-false b.count 127 (omega arith)) refl),
          loop_ends (record b { ring = w.ring }),
        )
        (ended t w b))
  loop_whole (suc fuel) t w b full =
      let B = record b { ring = w.ring } in
      let P = Ended t (build_loop c (suc fuel) B) in
      elim (Bool-cases (more b)) [
        | inr off ↦ inr (λ now. rw (loop_off t w b now off) (
            now-Within P (suc (suc (suc (suc (suc (suc (suc (suc (loop_steps fuel)))))))))
              (ending t w b) (rw (loop_stops fuel B off) (ended t w b))))
        | inl on ↦ inr (λ now. rw (loop_on t w b now on) (
            get_whole P (loop_steps fuel) t w b
              (λ e.
                now-Within P (loop_steps fuel) (ending t w b)
                  (rw (loop_empty fuel B on (ap (λ p. p.0) e), ap (λ p. p.1) e) (ended t w b)))
              (λ rec ring e.
                got_whole fuel (loop_whole fuel) t w
                  (record w { ring = ring; given = w.given ++ rec ∷ []; taken = w.taken + 1 }) b rec
                  full on (ap (λ p. p.0) e) (sym (ap (λ p. p.1) e)))))
      ]
