-- ===== src/Concurrent/Refine.antt =====
-- A frame that nobody interrupts takes the thread, in the smallest steps, where a whole step takes it.
use embarch_outpost.Prelude.{
  ℕ, zero, suc, ◌+◌, ◌*◌, ◌≤◌, ◌≡◌, refl, sym, ap, ap₂, ◌∙◌, inl, inr, List, [], ◌∷◌, ◌++◌, Option,
  none, some, length, arith,
}
use mathlib.Core.Path.{subst}
use embarch_outpost.Config.{Config}
use embarch_outpost.Ring.{Ring, Gap}
use embarch_outpost.Ring.Taker.{Taker, gap_of, take_step, take_run, take_run_lem}
use embarch_outpost.Ring.Reader.{Reader}
use embarch_outpost.Drain.{
  Image, Batch, add_gap, take_gap_record, started, finish, build_loop, build_records_frame,
}
use embarch_outpost.Hooks.{Board}
use embarch_outpost.Interleaving.{World, move, told}
use embarch_outpost.Thread.{Position, Thread, sent_frame, thread_step}
use embarch_outpost.Concurrent.{Stand, Desk, System, Deed, close, desk_step, perform, run}
use embarch_outpost.Concurrent.Alone.{alone, Reaches, step-Reaches, now-Reaches}
use embarch_outpost.Concurrent.Whole.{Within, Ended, loop_steps, loop_whole, at}

-- The thread as the machine of whole calls has it.
abbrev pub position_of : Stand → Position
position_of Stand.begin = Position.begin
position_of Stand.top = Position.top
position_of Stand.fill = Position.fill
position_of (Stand.pending head) = Position.fill
position_of Stand.filling = Position.filling
position_of Stand.build = Position.build
position_of (Stand.gapping b) = Position.build
position_of (Stand.looping b) = Position.build
position_of (Stand.getting b) = Position.build
position_of Stand.idle = Position.idle

abbrev pub thread_of : Desk → Thread
thread_of t = record {
  drain = t.drain;
  last_header = t.last_header;
  position = position_of t.stand;
}

add_gap-ring_of :
    (gap : Option Gap) (b : Batch) (ring : Ring)
    → add_gap gap (record b { ring = ring }) ≡ record (add_gap gap b) { ring = ring }
add_gap-ring_of none b ring = refl
add_gap-ring_of (some g) b ring = ground arith

module _ (c : Config) (board : Board) (image : Image) (crc32 : List ℕ → ℕ) where
  loop_steps-closed : (k : ℕ) → loop_steps c board image crc32 k ≡ 1 + 9 * k
  loop_steps-closed zero = refl
  loop_steps-closed (suc k) = omega (arith, loop_steps-closed k)

  Within-Reaches :
      (P : System → Type 0) (k : ℕ) (times : List ℕ) (s : System)
      → k ≤ length times
      → Within c board image crc32 P k s
      → Reaches crc32 c board image P k times s
  Within-Reaches P zero times s h p = now-Reaches crc32 c board image P 0 times s p
  Within-Reaches P (suc k) times s h (inl p) = now-Reaches crc32 c board image P (suc k) times s p
  Within-Reaches P (suc k) [] s h (inr f) = absurd (omega arith)
  Within-Reaches P (suc k) (now ∷ times) s h (inr f) =
      step-Reaches crc32 c board image P k (suc k) now times s (omega arith) (
        Within-Reaches P k times (perform c board image crc32 (Deed.thread now) s) (omega arith)
          (f now))

  -- The account of the losses is taken as the whole call takes it.
  gap_taken :
      (b : Batch)
      → take_gap_record b
        ≡ add_gap
            (gap_of b.ring.gap_first b.ring.gap_last b.ring.gap_dropped)
            (record b { ring = record b.ring { gap_dropped = 0 } })
  unfolding take_gap_record take_run take_step
  gap_taken b =
      let e = sym (take_run_lem b.ring) in
      ap (λ (p : Option Gap × Ring). add_gap p.0 (record b { ring = p.1 })) e

  after_gap :
      (fuel : ℕ) (t : Desk) (w : World) (q : Taker) (b : Batch) (gap : Option Gap) (ring : Ring)
      → 127 ≤ fuel
      → Within c board image crc32
          (Ended c board image crc32 t (build_loop c fuel (add_gap gap (record b { ring = ring }))))
          (loop_steps c board image crc32 fuel)
          (record {
            desk = record t { stand = Stand.looping (add_gap gap b) };
            world = record (told gap (record w { reader = Reader.rest; taker = q })) {
              taker = Taker.rest;
              ring = ring;
            };
          })
  after_gap fuel t w q b none ring h =
      loop_whole c board image crc32 fuel t (record w { ring = ring }) b (omega arith)
  after_gap fuel t w q b (some g) ring h = rw (add_gap-ring_of (some g) b ring) (
      loop_whole c board image crc32 fuel t
        (record w { ring = ring; reported = w.reported ++ g ∷ [] }) (add_gap (some g) b)
        (omega arith))

  frame_whole :
      (fuel : ℕ) (t : Desk) (w : World)
      → 127 ≤ fuel
      → Within c board image crc32
          (Ended c board image crc32 t
            (build_loop c fuel (take_gap_record (started t.drain w.ring))))
          (suc (suc (suc (suc (loop_steps c board image crc32 fuel)))))
          (at c board image crc32 t Stand.build w)
  unfolding perform desk_step move take_step started
  frame_whole fuel t w h =
      let b = started t.drain w.ring in
      subst
        (λ x.
          Within c board image crc32 (Ended c board image crc32 t (build_loop c fuel x))
            (suc (suc (suc (suc (loop_steps c board image crc32 fuel)))))
            (at c board image crc32 t Stand.build w))
        (sym (gap_taken b))
        (inr (λ now. inr (λ now. inr (λ now. inr (λ now.
          after_gap fuel t w (Taker.clear w.ring.gap_first w.ring.gap_last) b
            (gap_of w.ring.gap_first w.ring.gap_last w.ring.gap_dropped)
            (record w.ring { gap_dropped = 0 }) h)))))

  -- The end of the frame is the end of the whole call.
  close-sent_frame :
      (t : Desk) (b : Batch)
      → (thread_of (close crc32 t (finish t.drain b)), b.ring)
        ≡ sent_frame c image crc32 (thread_of t) (finish t.drain b)
  unfolding finish
  close-sent_frame t b = ground arith

  Ended-whole :
      (t : Desk) (w : World) (s : System) (now : ℕ)
      → Ended c board image crc32 t (build_loop c 127 (take_gap_record (started t.drain w.ring))) s
      → (thread_of s.desk, s.world.ring)
        ≡ thread_step c image crc32 now Position.build (thread_of t) w.ring
  unfolding thread_step build_records_frame
  Ended-whole t w s now (desk, ring, reader, taker) =
      ap₂ (λ (d : Desk) (r : Ring). (thread_of d, r)) desk ring
      ∙ close-sent_frame t (build_loop c 127 (take_gap_record (started t.drain w.ring)))

  -- Of these steps the first, 1148 at most, lead where a step of whole calls leads from `t`.
  abbrev pub AsWhole : Desk → World → ℕ → List ℕ → Type 0
  AsWhole t w now times =
      (first later : List ℕ) × (times ≡ first ++ later)
      × (length first ≤ 1148)
      × (let s = run c board image crc32 (alone first) (at c board image crc32 t Stand.build w) in
          ((thread_of s.desk, s.world.ring)
            ≡ thread_step c image crc32 now Position.build (thread_of t) w.ring)
          × (s.world.reader ≡ Reader.rest)
          × (s.world.taker ≡ Taker.rest))

  by_fuel :
      (fuel : ℕ) (t : Desk) (w : World) (now : ℕ) (times : List ℕ)
      → fuel ≡ 127
      → 1148 ≤ length times
      → AsWhole t w now times
  by_fuel fuel t w now times e many =
      let steps = loop_steps-closed fuel in
      let (first, later, all, short, ended) =
        Within-Reaches
          (Ended c board image crc32 t
            (build_loop c fuel (take_gap_record (started t.drain w.ring))))
          (suc (suc (suc (suc (loop_steps c board image crc32 fuel))))) times
          (at c board image crc32 t Stand.build w) (omega (arith, steps, e, many))
          (frame_whole fuel t w (omega (arith, e))) in
      let s = run c board image crc32 (alone first) (at c board image crc32 t Stand.build w) in
      (
        first,
        later,
        all,
        omega (arith, short, steps, e),
        (
          Ended-whole t w s now (
              subst
                (λ f.
                  Ended c board image crc32 t
                    (build_loop c f (take_gap_record (started t.drain w.ring))) s)
                e ended),
          ended.2,
          ended.3,
        ),
      )

  -- Where the drain thread is about to build a frame, in no call of the ring, on any ring and any
  -- buffers, and nobody interrupts it: after 1148 steps at most, each an access to shared memory or
  -- less, the thread and the ring are where the machine of whole calls takes them in one step, with
  -- `build_records_frame` as a whole and `send_body`, and the thread is in no call of the ring.
  pub run_alone_lem :
      (t : Desk) (w : World) (now : ℕ) (times : List ℕ)
      → 1148 ≤ length times
      → AsWhole t w now times
  run_alone_lem t w now times many = by_fuel 127 t w now times refl many
