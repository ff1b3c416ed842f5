-- ===== src/Concurrent/Moves.antt =====
-- Every step of the drain thread keeps the books.
use embarch_outpost.Prelude.{
  ℕ, ◌-◌, ◌^◌, ◌≤◌, ◌<◌, ◌≡◌, refl, inl, inr, Bool, true, false, Bool-cases, List, [], length,
  if◌then◌else◌, ltb, leb, ◌&&◌, arith,
}
use mathlib.Core.Path.{subst}
use embarch_outpost.Config.{Config, IsConfig}
use embarch_outpost.Wire.{Rec, record_max_bytes}
use embarch_outpost.Ring.{Ring, ring_slots}
use embarch_outpost.Ring.Taker.{Taker}
use embarch_outpost.Ring.Reader.{Reader}
use embarch_outpost.Drain.{Drain, Image, Batch, started, finish, send_header}
use embarch_outpost.Drain.Answers.Loop.{Wrote}
use embarch_outpost.Thread.Answered.{IsImage}
use embarch_outpost.Interleaving.{World, move}
use embarch_outpost.Interleaving.Invariant.{IsReader}
use embarch_outpost.Concurrent.{Stand, Desk, close, desk_step, thread_pick, moved}
use embarch_outpost.Concurrent.Fits.{Fits}
use embarch_outpost.Concurrent.Flow.{IsAt, Books, Flow}
use embarch_outpost.Concurrent.Steps.{header-Books, close-Flow, take-Flow}
use embarch_outpost.Concurrent.Reads.{get-Flow}

-- The batch keeps the ring that it began with.
started-begun : (d : Drain) (r : Ring) → started d r ≡ started d (started d r).ring
unfolding started
started-begun d r = refl

module _ (crc32 : List ℕ → ℕ) (word : (bytes : List ℕ) → crc32 bytes < 2 ^ 32) (c : Config)
    (ok : IsConfig c) (image : Image) (fits : IsImage c image) where
  abbrev n : ℕ
  n = ring_slots c.ring_bytes

  module _ (now : ℕ) (t : Desk) (w : World) where
    emptied :
        (held : List Rec)
        → held ≡ []
        → Books crc32 c t.drain held w.given w.reported
        → Books crc32 c t.drain [] w.given w.reported
    emptied held e v = subst (λ (l : List Rec). Books crc32 c t.drain l w.given w.reported) e v

    -- A header frame is due, or not.
    header-Flow :
        (due : Bool) (p : Stand) (at : (d : Drain) → IsAt d [] w.reader w.taker p)
        → Books crc32 c t.drain [] w.given w.reported
        → Flow crc32 c
            (if due
              then record t {
                drain = send_header c image crc32 t.drain;
                last_header = now;
                stand = p;
              }
              else record t { stand = p })
            w
    header-Flow true p at v = record {
      held = [];
      books = header-Books crc32 word c ok image fits t.drain w.given w.reported w.ring v;
      at = at (send_header c image crc32 t.drain);
    }
    header-Flow false p at v = record { held = []; books = v; at = at t.drain }

    either-Flow :
        (b : Bool) (p q : Stand)
        → Flow crc32 c (record t { stand = p }) w
        → Flow crc32 c (record t { stand = q }) w
        → Flow crc32 c (record t { stand = if b then p else q }) w
    either-Flow true p q f g = f
    either-Flow false p q f g = g

    loop-Flow :
        (b : Batch) (held : List Rec)
        → Books crc32 c t.drain held w.given w.reported
        → Wrote (started t.drain b.ring) held b
        → w.reader ≡ Reader.rest
        → w.taker ≡ Taker.rest
        → Flow crc32 c
            (if ltb b.count 127 && leb record_max_bytes (length b.buf - b.n)
              then record t { stand = Stand.getting b }
              else close crc32 t (finish t.drain b))
            w
    loop-Flow b held v wrote reader taker =
        let more = ltb b.count 127 && leb record_max_bytes (length b.buf - b.n) in
        elim (Bool-cases more) [
          | inl on ↦
              let known : (b.count < 127) × (record_max_bytes ≤ length b.buf - b.n) =
                ground (arith, on) in
              rw on (record { held = held; books = v; at = (wrote, known.0, known.1, taker) })
          | inr off ↦ rw off (close-Flow crc32 word c ok image fits t w b held v wrote reader taker)
        ]

    -- A step from `p`, by what the thread knows there.
    pub desk_step-Flow :
        (p : Stand) (held : List Rec)
        → Books crc32 c t.drain held w.given w.reported
        → IsAt t.drain held w.reader w.taker p
        → IsReader n w w.reader
        → Fits w
        → Flow crc32 c (desk_step c image crc32 now p t w) (moved n (thread_pick p) w)
    unfolding desk_step move
    desk_step-Flow Stand.begin held v at i f =
        header-Flow true Stand.top (λ d. (refl, at.1, at.2)) (emptied held at.0 v)
    desk_step-Flow Stand.top held v at i f =
        header-Flow (ltb 0 c.header_interval_ms && leb c.header_interval_ms (now - t.last_header))
          Stand.fill (λ d. (refl, at.1, at.2)) (emptied held at.0 v)
    desk_step-Flow Stand.fill held v at i f =
        let rest = emptied held at.0 v in
        either-Flow _ (Stand.pending w.ring.head) Stand.build
          (record { held = []; books = rest; at = (refl, at.1, at.2) })
          (record { held = []; books = rest; at = (refl, at.1, at.2) })
    desk_step-Flow (Stand.pending head) held v at i f =
        let rest = emptied held at.0 v in
        either-Flow _ Stand.filling Stand.build
          (record { held = []; books = rest; at = (refl, at.1, at.2) })
          (record { held = []; books = rest; at = (refl, at.1, at.2) })
    desk_step-Flow Stand.filling held v at i f = record {
      held = [];
      books = emptied held at.0 v;
      at = (refl, at.1, at.2);
    }
    desk_step-Flow Stand.idle held v at i f = record {
      held = [];
      books = emptied held at.0 v;
      at = (refl, at.1, at.2);
    }
    desk_step-Flow Stand.build held v at i f = record {
      held = [];
      books = emptied held at.0 v;
      at = (refl, started-begun t.drain w.ring, at.1);
    }
    desk_step-Flow (Stand.gapping b) held v at i f =
        take-Flow crc32 word c ok image fits w.taker t w b (emptied held at.0 v) at.1 at.2 f.taker
          f.dropped
    desk_step-Flow (Stand.looping b) held v at i f = loop-Flow b held v at.0 at.1 at.2
    desk_step-Flow (Stand.getting b) held v at i f =
        get-Flow crc32 word c ok image fits t w b held v at.0 at.1 at.2 at.3 w.reader i f.log
