-- ===== src/Concurrent/Delivery.antt =====
-- What the host decodes from the bytes that the drain thread has sent, in every run of the whole system.
use embarch_outpost.Prelude.{
  ℕ, ◌+◌, ◌-◌, ◌^◌, ◌<◌, ◌≡◌, refl, sym, ap, ◌∙◌, List, [], ◌++◌, append_assoc, arith,
}
use embarch_outpost.Config.{Config, IsConfig}
use embarch_outpost.Wire.{Rec}
use embarch_outpost.Ring.{Ring, ring_slots, ring_init_at}
use embarch_outpost.Ring.Config.{ring_slots-IsSlots}
use embarch_outpost.Ring.Reader.{Reader}
use embarch_outpost.Ring.Taker.{Taker}
use embarch_outpost.Host.{decode_stream}
use embarch_outpost.Host.Split.{decode_stream-IsClosed}
use embarch_outpost.Drain.{Drain, Image, started}
use embarch_outpost.Drain.Losses.{IsDrain}
use embarch_outpost.Drain.Answers.Loop.{Wrote}
use embarch_outpost.Hooks.{Board}
use embarch_outpost.Thread.Answered.{IsImage}
use embarch_outpost.Thread.Progress.{not_gap, lost_in, trace, concat}
use embarch_outpost.Interleaving.{opening, Prompt}
use embarch_outpost.Interleaving.Invariant.{span}
use embarch_outpost.Interleaving.Losses.{total}
use embarch_outpost.Interleaving.Run.{opening-Inv, interleave-given}
use embarch_outpost.Concurrent.{Stand, System, Deed, run, boot, no_call}
use embarch_outpost.Concurrent.Fits.{IsGood, Fits}
use embarch_outpost.Concurrent.Flow.{IsAt}
use embarch_outpost.Concurrent.Runs.{AllDeeds, picks, run-world, IsRunning, run-IsRunning}

-- The batch holds just the encodings of `held`, after the three bytes that a frame begins with.
abbrev pub InBatch : Drain → List Rec → Stand → Type 0
InBatch d held (Stand.looping b) = Wrote (started d b.ring) held b
InBatch d held (Stand.getting b) = Wrote (started d b.ring) held b
InBatch d held stand = held ≡ []

IsAt-InBatch :
    (d : Drain) (held : List Rec) (reader : Reader) (taker : Taker) (p : Stand)
    → IsAt d held reader taker p
    → InBatch d held p
IsAt-InBatch d held reader taker (Stand.looping b) at = at.0
IsAt-InBatch d held reader taker (Stand.getting b) at = at.0
IsAt-InBatch d held reader taker (Stand.gapping b) at = at.0
IsAt-InBatch d held reader taker (Stand.pending head) at = at.0
IsAt-InBatch d held reader taker Stand.begin at = at.0
IsAt-InBatch d held reader taker Stand.top at = at.0
IsAt-InBatch d held reader taker Stand.fill at = at.0
IsAt-InBatch d held reader taker Stand.filling at = at.0
IsAt-InBatch d held reader taker Stand.build at = at.0
IsAt-InBatch d held reader taker Stand.idle at = at.0

opening-Fits : (n start : ℕ) (r : Ring) → Fits (opening n start r no_call)
unfolding ring_init_at
opening-Fits n start r =
    let good : IsGood no_call.call.rec = (
      record { cycles = omega arith; kind = omega arith; a = omega arith; b = omega arith },
      λ e. absurd (omega (arith, e)),
    ) in
    record {
      calls = λ i. good;
      log = λ pos. good;
      dropped = omega arith;
      first = omega arith;
      taker = tt;
    }

module _ (crc32 : List ℕ → ℕ) (word : (bytes : List ℕ) → crc32 bytes < 2 ^ 32) (c : Config)
    (ok : IsConfig c) (board : Board) (image : Image) (fits : IsImage c image) (d : Drain)
    (sized : IsDrain c d) (nothing : d.sent ≡ []) (uptime start : ℕ) (small : start < 2 ^ 32)
    (r : Ring) (deeds : List Deed) (fine : AllDeeds deeds)
    (prompt : Prompt
      (ring_slots c.ring_bytes)
      (picks crc32 c board image deeds (boot c uptime d start r))
      (opening (ring_slots c.ring_bytes) start r no_call)) where
  abbrev pub after : System
  after = run c board image crc32 deeds (boot c uptime d start r)

  boot-IsRunning : IsRunning crc32 c board image word ok fits start (boot c uptime d start r)
  boot-IsRunning = record {
    inv = opening-Inv (ring_slots-IsSlots c.ring_bytes) start r no_call small;
    fit = opening-Fits (ring_slots c.ring_bytes) start r;
    flow = record {
      held = [];
      books = record {
        sized = sized;
        ds = [];
        closed = rw nothing (λ bytes. refl);
        kept = refl;
        lost = omega arith;
        fine = tt;
      };
      at = (refl, refl, refl);
    };
  }

  pub running : IsRunning crc32 c board image word ok fits start after
  running =
      run-IsRunning crc32 c board image word ok fits start deeds (boot c uptime d start r) fine
        prompt boot-IsRunning

  run_given :
      after.world.given
        ++ span after.world.log after.world.taken (after.world.reserved - after.world.taken)
      ≡ span after.world.log start (after.world.reserved - start)
  run_given =
      rw (run-world crc32 c board image deeds (boot c uptime d start r))
        (interleave-given (ring_slots-IsSlots c.ring_bytes) start r no_call small
          (picks crc32 c board image deeds (boot c uptime d start r)) prompt).0

  -- What the ring has given is in the bytes sent, or in the batch.
  pub run_gives :
      (held : List Rec) × InBatch after.desk.drain held after.desk.stand
      × (let ds = decode_stream crc32 (concat after.desk.drain.sent) in
          (not_gap (trace ds) ++ not_gap held ≡ after.world.given)
          × (lost_in (trace ds) + lost_in held ≡ total after.world.reported))
  run_gives =
      let f = running.flow in
      let b = f.books in
      let decoded : decode_stream crc32 (concat after.desk.drain.sent) ≡ b.ds =
        decode_stream-IsClosed crc32 (concat after.desk.drain.sent) b.ds b.closed in
      (
        f.held,
        IsAt-InBatch after.desk.drain f.held after.world.reader after.world.taker after.desk.stand
            f.at,
        rw decoded (b.kept, b.lost),
      )

  -- From a ring after `outpost_ring_init_at(start)`, for every start below 2 ^ 32, with nothing
  -- sent, buffers of their sizes, a configuration in range and strings of at most BUILD_ID_MAX
  -- bytes: however hooks are called in any number of contexts, each event's numbers and cycle count
  -- uint32_t, and however the contexts in `outpost_ring_put` and the drain thread alternate, with
  -- each access to shared memory a step, and no head running 2 ^ 32 reservations round between a
  -- load of it and its compare-and-swap: the batch holds just the encodings of some records, and
  -- what the host decodes from the bytes sent, gap records left out, then the records in the batch,
  -- gap records left out, then those that the ring has not given, are the records of the
  -- reservations in their order; and the gap records decoded and in the batch report the losses of
  -- all accounts taken.
  pub run_delivers :
      (held : List Rec) × InBatch after.desk.drain held after.desk.stand
      × (let w = after.world in
          let ds = decode_stream crc32 (concat after.desk.drain.sent) in
          (not_gap (trace ds) ++ (not_gap held ++ span w.log w.taken (w.reserved - w.taken))
            ≡ span w.log start (w.reserved - start))
          × (lost_in (trace ds) + lost_in held ≡ total w.reported))
  run_delivers =
      let (held, in_batch, kept_lost) = run_gives in
      let ds = decode_stream crc32 (concat after.desk.drain.sent) in
      let waiting =
        span after.world.log after.world.taken (after.world.reserved - after.world.taken) in
      (
        held,
        in_batch,
        (
          sym (append_assoc (not_gap (trace ds)) (not_gap held) waiting)
              ∙ ap (λ l. l ++ waiting) kept_lost.0
              ∙ run_given,
          kept_lost.1,
        ),
      )
