-- ===== src/Concurrent/Rounds.antt =====
-- A round of the drain thread takes a bounded number of its own steps, whatever the hooks do between them.
use embarch_outpost.Prelude.{
  ℕ, ◌+◌, ◌-◌, ◌*◌, ◌≤◌, ◌<◌, ◌≡◌, ◌⊎◌, inl, inr, refl, ap, Bool, Bool-cases, List, [], ◌∷◌, ◌++◌,
  Option, none, some, length, ◌==◌, ltb, leb, ◌&&◌, arith,
}
use embarch_outpost.Config.{Config, batch_records_target}
use embarch_outpost.Wire.{put_record, record_max_bytes}
use embarch_outpost.Ring.{Ring, ring_slots, ring_pending, index, seq_for}
use embarch_outpost.Ring.Taker.{Taker, take_step}
use embarch_outpost.Ring.Reader.{Reader, get_step}
use embarch_outpost.Drain.{Drain, Image, Batch, finish}
use embarch_outpost.Hooks.{Board, Put, hook}
use embarch_outpost.Interleaving.{World, move, get_world, take_world}
use embarch_outpost.Concurrent.{
  Stand, Desk, System, Deed, close, after_take, after_put, after_get, desk_step, thread_pick,
  put_pick, moved, perform, run,
}
use embarch_outpost.Concurrent.Flow.{put_world-Same}

-- The steps that are left of a call of `outpost_ring_get`, and of `outpost_ring_take_gap`, at most.
abbrev pub get_left : Reader → ℕ
get_left Reader.rest = 8
get_left (Reader.get_head tail) = 7
get_left (Reader.get_seq tail) = 6
get_left (Reader.copy_cycles tail) = 5
get_left (Reader.copy_kind tail out) = 4
get_left (Reader.copy_a tail out) = 3
get_left (Reader.copy_b tail out) = 2
get_left (Reader.set_tail tail out) = 1

abbrev pub take_left : Taker → ℕ
take_left Taker.rest = 3
take_left (Taker.read_last first) = 2
take_left (Taker.clear first last) = 1

-- The most steps of the thread from where it stands to the top of its loop, with at most 127 records
-- in the batch.
abbrev pub round_steps : ℕ
round_steps = 1153

abbrev pub left : Reader → Taker → Stand → ℕ
left reader taker Stand.begin = 1
left reader taker Stand.top = 1153
left reader taker Stand.fill = 1152
left reader taker (Stand.pending head) = 1151
left reader taker Stand.filling = 1150
left reader taker Stand.build = 1149
left reader taker (Stand.gapping b) = take_left taker + 1145
left reader taker (Stand.looping b) = 2 + 9 * (127 - b.count)
left reader taker (Stand.getting b) = get_left reader + (2 + 9 * (126 - b.count))
left reader taker Stand.idle = 1

pub left-le : (reader : Reader) (taker : Taker) (p : Stand) → left reader taker p ≤ round_steps
left-le reader taker p = ground arith

pub left-pos : (reader : Reader) (taker : Taker) (p : Stand) → 0 < left reader taker p
left-pos reader taker p = ground arith

get_left-le : (q : Reader) → get_left q ≤ 8
get_left-le q = ground arith

take_left-le : (q : Taker) → take_left q + 1145 < 1149
take_left-le q = ground arith

-- The thread is at the top of its loop, or it is nearer.
abbrev pub Nearer : ℕ → Reader → Taker → Stand → Type 0
Nearer k reader taker p = (p ≡ Stand.top) ⊎ (left reader taker p < k)

module _ (crc32 : List ℕ → ℕ) where
  close-Nearer :
      (k : ℕ) (reader : Reader) (taker : Taker) (t : Desk) (out : ℕ × Drain × Ring)
      → 1 < k
      → Nearer k reader taker (close crc32 t out).stand
  close-Nearer k reader taker t out h = elim (Bool-cases (out.0 == 0)) [
    | inl e ↦ rw e (inr h)
    | inr e ↦ rw e (inl refl)
  ]

  put-Nearer :
      (k : ℕ) (reader : Reader) (taker : Taker) (t : Desk) (b : Batch) (out : List ℕ × ℕ)
      → 2 + 9 * (126 - b.count) < k
      → Nearer k reader taker (after_put crc32 t b out).stand
  put-Nearer k reader taker t b out h = elim (Bool-cases (out.1 == 0)) [
    | inl e ↦
        rw e
          (close-Nearer k reader taker t (finish t.drain (record b { buf = out.0 })) (omega arith))
    | inr e ↦ rw e (inr (omega arith))
  ]

  get-Nearer :
      (c : Config) (q : Reader) (t : Desk) (w : World) (b : Batch)
      → (let n = ring_slots c.ring_bytes in
          let (reader, ring, out) = get_step n q w.ring in
          let w' = get_world n q w in
          Nearer
            (get_left q + (2 + 9 * (126 - b.count)))
            w'.reader
            w'.taker
            (after_get crc32 reader out t b).stand)
  unfolding get_step
  get-Nearer c Reader.rest t w b = inr (omega arith)
  get-Nearer c (Reader.get_head tail) t w b = elim (Bool-cases (tail == w.ring.head)) [
    | inl e ↦ rw e (close-Nearer _ Reader.rest w.taker t (finish t.drain b) (omega arith))
    | inr e ↦ rw e (inr (omega arith))
  ]
  get-Nearer c (Reader.get_seq tail) t w b =
      elim (Bool-cases
        ((w.ring.slots (index (ring_slots c.ring_bytes) tail)).seq == seq_for tail)) [
          | inl e ↦ rw e (inr (omega arith))
          | inr e ↦ rw e (close-Nearer _ Reader.rest w.taker t (finish t.drain b) (omega arith))
        ]
  get-Nearer c (Reader.copy_cycles tail) t w b = inr (omega arith)
  get-Nearer c (Reader.copy_kind tail out) t w b = inr (omega arith)
  get-Nearer c (Reader.copy_a tail out) t w b = inr (omega arith)
  get-Nearer c (Reader.copy_b tail out) t w b = inr (omega arith)
  get-Nearer c (Reader.set_tail tail out) t w b =
      put-Nearer _ Reader.rest w.taker t b (put_record b.buf b.n (length b.buf - b.n) out)
        (omega arith)

  take-Nearer :
      (q : Taker) (t : Desk) (w : World) (b : Batch)
      → (let (taker, ring, gap) = take_step q w.ring in
          let w' = take_world q w in
          Nearer (take_left q + 1145) w'.reader w'.taker (after_take taker gap b))
  unfolding take_step
  take-Nearer Taker.rest t w b = inr (omega arith)
  take-Nearer (Taker.read_last first) t w b = inr (omega arith)
  take-Nearer (Taker.clear first last) t w b = inr (omega arith)

  module _ (c : Config) (image : Image) (now : ℕ) (t : Desk) (w : World) where
    pub desk_step-Nearer :
        (p : Stand)
        → (let w' = moved (ring_slots c.ring_bytes) (thread_pick p) w in
            Nearer
              (left w.reader w.taker p)
              w'.reader
              w'.taker
              (desk_step c image crc32 now p t w).stand)
    unfolding desk_step move
    desk_step-Nearer Stand.begin = inl refl
    desk_step-Nearer Stand.top =
        elim (Bool-cases
          (ltb 0 c.header_interval_ms && leb c.header_interval_ms (now - t.last_header))) [
            | inl e ↦ rw e (inr (omega arith))
            | inr e ↦ rw e (inr (omega arith))
          ]
    desk_step-Nearer Stand.fill = elim (Bool-cases (ltb 0 c.fill_wait_ms)) [
      | inl e ↦ rw e (inr (omega arith))
      | inr e ↦ rw e (inr (omega arith))
    ]
    desk_step-Nearer (Stand.pending head) =
        elim (Bool-cases (
          ltb (ring_pending (ring_slots c.ring_bytes) (record w.ring { head = head }))
            (batch_records_target c))) [
              | inl e ↦ rw e (inr (omega arith))
              | inr e ↦ rw e (inr (omega arith))
            ]
    desk_step-Nearer Stand.filling = inr (omega arith)
    desk_step-Nearer Stand.build = inr (take_left-le w.taker)
    desk_step-Nearer (Stand.gapping b) = take-Nearer w.taker t w b
    desk_step-Nearer (Stand.looping b) =
        elim (Bool-cases (ltb b.count 127 && leb record_max_bytes (length b.buf - b.n))) [
          | inl e ↦
              let few : b.count < 127 = ground (arith, e) in
              rw e (inr (omega (arith, few, get_left-le w.reader)))
          | inr e ↦ rw e (close-Nearer _ w.reader w.taker t (finish t.drain b) (omega arith))
        ]
    desk_step-Nearer (Stand.getting b) = get-Nearer c w.reader t w b
    desk_step-Nearer Stand.idle = inl refl

-- The steps of the thread among the deeds.
abbrev counts : Deed → ℕ
counts (Deed.event i now may_block e) = 0
counts (Deed.go_on i) = 0
counts (Deed.thread now) = 1

abbrev pub threads : List Deed → ℕ
threads [] = 0
threads (deed ∷ deeds) = counts deed + threads deeds

module _ (c : Config) (board : Board) (image : Image) (crc32 : List ℕ → ℕ) where
  abbrev pub place : System → ℕ
  place s = left s.world.reader s.world.taker s.desk.stand

  -- After the first of the deeds, with one to `k` steps of the thread, it is at the top of its loop.
  abbrev pub Turn : ℕ → List Deed → System → Type 0
  Turn k deeds s =
      (first later : List Deed) × (deeds ≡ first ++ later)
      × (0 < threads first)
      × (threads first ≤ k)
      × ((run c board image crc32 first s).desk.stand ≡ Stand.top)

  cons-Turn :
      (k k' : ℕ) (deed : Deed) (deeds : List Deed) (s : System)
      → counts deed + k ≤ k'
      → Turn k deeds (perform c board image crc32 deed s)
      → Turn k' (deed ∷ deeds) s
  unfolding run
  cons-Turn k k' deed deeds s h (first, later, all, some_of, few, at) =
      (deed ∷ first, later, ap (λ l. deed ∷ l) all, omega arith, omega arith, at)

  one-Turn :
      (k now : ℕ) (deeds : List Deed) (s : System)
      → 0 < k
      → (perform c board image crc32 (Deed.thread now) s).desk.stand ≡ Stand.top
      → Turn k (Deed.thread now ∷ deeds) s
  unfolding run
  one-Turn k now deeds s h at = (Deed.thread now ∷ [], deeds, refl, omega arith, omega arith, at)

  -- A hook's call, or its step, does not concern the thread.
  called-place :
      (i now : ℕ) (may_block : Bool) (o : Option Put) (t : Desk) (w : World)
      → place (record {
        desk = t;
        world = moved (ring_slots c.ring_bytes) (put_pick i now may_block o) w;
      })
        ≡ place (record { desk = t; world = w })
  unfolding move
  called-place i now may_block none t w = refl
  called-place i now may_block (some p) t w = refl

  went-place : (i : ℕ) (s : System) → place (perform c board image crc32 (Deed.go_on i) s) ≡ place s
  unfolding perform move
  went-place i s =
      let x = s.world.contexts i in
      let same = put_world-Same (ring_slots c.ring_bytes) i x.phase x s.world in
      rw (same.reader, same.taker) refl

  run_turns :
      (deeds : List Deed) (k : ℕ) (s : System) → place s ≤ k → k ≤ threads deeds → Turn k deeds s
  unfolding perform
  run_turns [] k s h many =
      absurd (omega (arith, left-pos s.world.reader s.world.taker s.desk.stand))
  run_turns (Deed.event i now may_block e ∷ deeds) k s h many =
      let deed = Deed.event i now may_block e in
      let after = perform c board image crc32 deed s in
      cons-Turn k k deed deeds s (omega arith) (
        run_turns deeds k after
          (omega (arith, called-place i now may_block (hook c board e) s.desk s.world))
          (omega arith))
  run_turns (Deed.go_on i ∷ deeds) k s h many = cons-Turn k k (Deed.go_on i) deeds s (omega arith) (
      run_turns deeds k (perform c board image crc32 (Deed.go_on i) s)
        (omega (arith, went-place i s)) (omega arith))
  run_turns (Deed.thread now ∷ deeds) k s h many =
      let pos = left-pos s.world.reader s.world.taker s.desk.stand in
      elim (desk_step-Nearer crc32 c image now s.desk s.world s.desk.stand) [
        | inl at ↦ one-Turn k now deeds s (omega (arith, pos)) at
        | inr near ↦ cons-Turn (k - 1) k (Deed.thread now) deeds s (omega (arith, pos)) (
            run_turns deeds (k - 1) (perform c board image crc32 (Deed.thread now) s)
              (omega (arith, near)) (omega (arith, pos)))
      ]

  -- Wherever the drain thread stands in its loop, in a call of the ring or not, with whatever in
  -- its batch, and whatever hooks do between its steps: within 1153 of its own steps, and after at
  -- least one, it is at the top of its loop.
  pub run_returns :
      (deeds : List Deed) (s : System) → round_steps ≤ threads deeds → Turn round_steps deeds s
  run_returns deeds s many =
      run_turns deeds round_steps s (left-le s.world.reader s.world.taker s.desk.stand) many
