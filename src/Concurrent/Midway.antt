-- ===== src/Concurrent/Midway.antt =====
-- A round of the drain thread alone takes a record out of the ring, if there is one.
use embarch_outpost.Prelude.{
  ℕ, ◌-◌, ◌%◌, ◌≤◌, ◌<◌, ◌≡◌, ◌⊎◌, inl, inr, refl, sym, ap, ◌∙◌, true, Bool-cases, List, [], Option,
  none, some, length, length-splice, length-append, if◌then◌else◌, ◌==◌, ==_iff, ltb, leb, lt→ltb,
  le→leb, ◌&&◌, arith,
}
use embarch_outpost.Config.{Config, IsConfig, batch_records_target}
use embarch_outpost.Wire.{Rec, put_record, record_max_bytes}
use embarch_outpost.Wire.Fields.{IsRec, record_bytes, length-record_bytes}
use embarch_outpost.Host.Fields.{records_bytes}
use embarch_outpost.Ring.{Ring, Gap, Phase, ring_slots, ring_pending, index, seq_for}
use embarch_outpost.Ring.Config.{ring_slots-IsSlots}
use embarch_outpost.Ring.Seq.{wrapped-mod}
use embarch_outpost.Ring.Taker.{Taker, gap_of, take_step}
use embarch_outpost.Ring.Reader.{Reader, get_step}
use embarch_outpost.Drain.{Drain, Image, Batch, add_gap, gap_record, finish, started}
use embarch_outpost.Drain.Losses.{IsDrain, gap_list}
use embarch_outpost.Interleaving.{World, move, get_world, take_world, told}
use embarch_outpost.Interleaving.Invariant.{IsOut, IsReader, Inv}
use embarch_outpost.Concurrent.{
  Stand, Desk, close, after_take, after_put, after_get, desk_step, thread_pick, moved,
}
use embarch_outpost.Concurrent.Fits.{IsTaker, Fits, gap_of-IsRec}
use embarch_outpost.Concurrent.Filling.{length-started, add_gap-begun}
use embarch_outpost.Concurrent.Flow.{IsAt}

-- The records that the ring has not given.
abbrev pub waiting : World → ℕ
waiting w = w.reserved - w.taken

-- The batch has room for a record.
abbrev pub HasRoom : Batch → Type 0
HasRoom b = (b.count < 127) × (record_max_bytes ≤ length b.buf - b.n)

-- At the end of a round: fewer than `m` are waiting, or none, and all losses have been taken.
abbrev pub Done : ℕ → World → Type 0
Done m w = (w.ring.gap_dropped ≡ 0) × ((waiting w < m) ⊎ (waiting w ≡ 0))

-- In a round that began with `m` at most.
abbrev pub Midway : ℕ → World → Stand → Type 0
Midway m w Stand.fill = waiting w ≤ m
Midway m w (Stand.pending head) = waiting w ≤ m
Midway m w Stand.filling = waiting w ≤ m
Midway m w Stand.build = waiting w ≤ m
Midway m w (Stand.gapping b) = waiting w ≤ m
Midway m w (Stand.looping b) =
    (w.ring.gap_dropped ≡ 0) × (waiting w ≤ m) × ((waiting w < m) ⊎ HasRoom b)
Midway m w (Stand.getting b) = (w.ring.gap_dropped ≡ 0) × (waiting w ≤ m)
Midway m w Stand.top = Done m w
Midway m w Stand.idle = Done m w
Midway m w Stand.begin = ⊥

Done-le : (m : ℕ) (w : World) → Done m w → waiting w ≤ m
Done-le m w (cleared, inl less) = omega arith
Done-le m w (cleared, inr nothing) = omega arith

gap_list-small :
    (gap : Option Gap)
    → (length (gap_list gap) ≤ 1) × (length (records_bytes (gap_list gap)) ≤ record_max_bytes)
gap_list-small none = (omega arith, omega arith)
gap_list-small (some g) =
    let rec = gap_record g in
    (omega arith, omega (arith, length-record_bytes rec, length-append (record_bytes rec) []))

-- The gap record leaves room for one more.
first-HasRoom :
    (c : Config)
    → IsConfig c
    → (d : Drain) → IsDrain c d
    → (b : Batch) (gap : Option Gap) → b ≡ started d b.ring
    → ((g : Gap) → gap ≡ some g → IsRec (gap_record g))
    → HasRoom (add_gap gap b)
unfolding started
first-HasRoom c ok d sized b gap begun fine =
    let b' = add_gap gap b in
    let w = add_gap-begun c ok d sized b gap begun fine in
    let small = gap_list-small gap in
    (
      omega (arith, w.count, small),
      omega (
        arith,
        w.n,
        ap length w.buf,
        length-splice (started d b'.ring).buf (started d b'.ring).n (records_bytes (gap_list gap)),
        length-started c ok d b'.ring sized,
        ok.batch_bytes,
        small,
      ),
    )

module _ (crc32 : List ℕ → ℕ) (m : ℕ) where
  close-Midway :
      (t : Desk) (w : World) (out : ℕ × Drain × Ring)
      → Done m w
      → Midway m w (close crc32 t out).stand
  close-Midway t w out h = elim (Bool-cases (out.0 == 0)) [ inl e ↦ rw e h | inr e ↦ rw e h ]

  put-Midway :
      (t : Desk) (w : World) (b : Batch) (out : List ℕ × ℕ)
      → w.ring.gap_dropped ≡ 0
      → waiting w < m
      → Midway m w (after_put crc32 t b out).stand
  put-Midway t w b out cleared less = elim (Bool-cases (out.1 == 0)) [
    | inl e ↦
        rw e (close-Midway t w (finish t.drain (record b { buf = out.0 })) (cleared, inl less))
    | inr e ↦ rw e (cleared, omega arith, inl less)
  ]

  told-Midway :
      (w : World) (b : Batch) (gap : Option Gap) (ring : Ring)
      → ring.gap_dropped ≡ 0
      → waiting w ≤ m
      → HasRoom b
      → Midway m (record (told gap w) { taker = Taker.rest; ring = ring }) (Stand.looping b)
  told-Midway w b none ring cleared few room = (cleared, few, inr room)
  told-Midway w b (some g) ring cleared few room = (cleared, few, inr room)

  module _ (c : Config) (ok : IsConfig c) (start : ℕ) (t : Desk) (w : World)
      (sized : IsDrain c t.drain) (inv : Inv (ring_slots c.ring_bytes) start w) (fit : Fits w)
      (quiet : (i : ℕ) → (w.contexts i).phase ≡ Phase.done) where
    abbrev n : ℕ
    n = ring_slots c.ring_bytes

    take-Midway :
        (q : Taker) (b : Batch)
        → IsTaker q
        → b ≡ started t.drain b.ring
        → waiting w ≤ m
        → (let (taker, ring, gap) = take_step q w.ring in
            Midway m (take_world q w) (after_take taker gap b))
    unfolding take_step
    take-Midway Taker.rest b local begun few = few
    take-Midway (Taker.read_last first) b local begun few = few
    take-Midway (Taker.clear first last) b local begun few =
        let gap = gap_of first last w.ring.gap_dropped in
        told-Midway w (add_gap gap b) gap (record w.ring { gap_dropped = 0 }) refl few
          (first-HasRoom c ok t.drain sized b gap begun
            (λ g e. gap_of-IsRec first last w.ring.gap_dropped g local fit.dropped e))

    -- No context is between its reservation and its publication.
    oldest-IsOut : w.taken < w.reserved → IsOut n w.ring w.taken
    oldest-IsOut more = elim (inv.covered w.taken (omega arith) more) [
      | inl o ↦ o
      | inr (k, wr, e) ↦ ground (arith, quiet k, wr)
    ]

    get-Midway :
        (q : Reader) (b : Batch)
        → IsReader n w q
        → w.ring.gap_dropped ≡ 0
        → waiting w ≤ m
        → (let (reader, ring, out) = get_step n q w.ring in
            Midway m (get_world n q w) (after_get crc32 reader out t b).stand)
    unfolding get_step
    get-Midway Reader.rest b h cleared few = (cleared, few)
    get-Midway (Reader.get_head tail) b h cleared few = elim (Bool-cases (tail == w.ring.head)) [
      | inl e ↦
          let same : tail ≡ w.ring.head = (==_iff tail w.ring.head).0 e in
          let none_left : waiting w ≡ 0 = omega (
            arith,
            same,
            h,
            inv.head,
            inv.order,
            inv.room,
            (ring_slots-IsSlots c.ring_bytes).small,
          ) in
          rw e (
            close-Midway t (record w { reader = Reader.rest; ring = w.ring }) (finish t.drain b)
              (cleared, inr none_left))
      | inr e ↦ rw e (cleared, few)
    ]
    get-Midway (Reader.get_seq tail) b h cleared few =
        let at =
          ap (λ k. (w.ring.slots k).seq)
            (ap (λ k. k % n) h.0 ∙ wrapped-mod (ring_slots-IsSlots c.ring_bytes) w.taken) in
        let out : (w.ring.slots (index n tail)).seq ≡ seq_for tail =
          at ∙ oldest-IsOut h.1 ∙ ap seq_for (sym h.0) in
        let seen : ((w.ring.slots (index n tail)).seq == seq_for tail) ≡ true =
          (==_iff _ (seq_for tail)).1 out in
        rw seen (cleared, few)
    get-Midway (Reader.copy_cycles tail) b h cleared few = (cleared, few)
    get-Midway (Reader.copy_kind tail out) b h cleared few = (cleared, few)
    get-Midway (Reader.copy_a tail out) b h cleared few = (cleared, few)
    get-Midway (Reader.copy_b tail out) b h cleared few = (cleared, few)
    get-Midway (Reader.set_tail tail out) b h cleared few =
        let w' = get_world n (Reader.set_tail tail out) w in
        put-Midway t w' b (put_record b.buf b.n (length b.buf - b.n) out) cleared
          (omega (arith, few, h.more))

    loop-Midway :
        (b : Batch)
        → Midway m w (Stand.looping b)
        → Midway m w
            (if ltb b.count 127 && leb record_max_bytes (length b.buf - b.n)
              then record t { stand = Stand.getting b }
              else close crc32 t (finish t.drain b)).stand
    loop-Midway b (cleared, few, inl less) =
        elim (Bool-cases (ltb b.count 127 && leb record_max_bytes (length b.buf - b.n))) [
          | inl e ↦ rw e (cleared, few)
          | inr e ↦ rw e (close-Midway t w (finish t.drain b) (cleared, inl less))
        ]
    loop-Midway b (cleared, few, inr room) =
        rw (lt→ltb b.count 127 room.0, le→leb record_max_bytes (length b.buf - b.n) room.1)
          (cleared, few)

    -- A step from `p`, by what the thread knows there.
    pub desk_step-Midway :
        (image : Image) (now : ℕ) (held : List Rec) (p : Stand)
        → IsAt t.drain held w.reader w.taker p
        → Midway m w p
        → Midway m (moved n (thread_pick p) w) (desk_step c image crc32 now p t w).stand
    unfolding desk_step move
    desk_step-Midway image now held Stand.begin at h = absurd h
    desk_step-Midway image now held Stand.top at h =
        let few = Done-le m w h in
        elim (Bool-cases
          (ltb 0 c.header_interval_ms && leb c.header_interval_ms (now - t.last_header))) [
            | inl e ↦ rw e few
            | inr e ↦ rw e few
          ]
    desk_step-Midway image now held Stand.fill at h = elim (Bool-cases (ltb 0 c.fill_wait_ms)) [
      | inl e ↦ rw e h
      | inr e ↦ rw e h
    ]
    desk_step-Midway image now held (Stand.pending head) at h =
        elim (Bool-cases (
          ltb (ring_pending (ring_slots c.ring_bytes) (record w.ring { head = head }))
            (batch_records_target c))) [ inl e ↦ rw e h | inr e ↦ rw e h ]
    desk_step-Midway image now held Stand.filling at h = h
    desk_step-Midway image now held Stand.build at h = h
    desk_step-Midway image now held (Stand.gapping b) at h = take-Midway w.taker b fit.taker at.1 h
    desk_step-Midway image now held (Stand.looping b) at h = loop-Midway b h
    desk_step-Midway image now held (Stand.getting b) at h =
        get-Midway w.reader b inv.reader h.0 h.1
    desk_step-Midway image now held Stand.idle at h = h
