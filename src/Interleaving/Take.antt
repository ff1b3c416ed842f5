-- ===== src/Interleaving/Take.antt =====
-- The consumer's steps in `outpost_ring_take_gap`, beside the delivery of records.
use embarch_outpost.Prelude.{ℕ, refl, List, ◌++◌, [], ◌∷◌, Option, none, some, arith}
use embarch_outpost.Ring.{Gap}
use embarch_outpost.Ring.Taker.{Taker, gap_of, take_step}
use embarch_outpost.Interleaving.{World, take_world, told}
use embarch_outpost.Interleaving.Invariant.{Inv}
use embarch_outpost.Interleaving.Quiet.{context_keep, reader_keep, IsContext-IsWriter}

module _ {n start : ℕ} (w : World) (inv : Inv n start w) where
  aside-Inv :
      (taker : Taker) (reported : List Gap) (dropped : ℕ)
      → Inv n start (record w {
        taker = taker;
        reported = reported;
        ring = record w.ring { gap_dropped = dropped };
      })
  aside-Inv taker reported dropped =
      let w' : World = record w {
        taker = taker;
        reported = reported;
        ring = record w.ring { gap_dropped = dropped };
      } in
      record {
        head = inv.head;
        tail = inv.tail;
        first = inv.first;
        order = inv.order;
        room = inv.room;
        out = inv.out;
        fresh = inv.fresh;
        context = λ i.
            context_keep n w w' (w.contexts i) (w.contexts i).phase (omega arith) (omega arith)
              (λ wr. (
                (IsContext-IsWriter n w (w.contexts i) (w.contexts i).phase wr
                    (inv.context i)).1.lower,
                refl,
                refl,
              ))
              (inv.context i);
        apart = inv.apart;
        covered = inv.covered;
        reader = reader_keep n w w' w.reader (omega arith) refl (λ o. refl) (λ o. refl) inv.reader;
      }

  told-Inv :
      (out : Option Gap)
      → Inv n start
          (record (told out w) { taker = Taker.rest; ring = record w.ring { gap_dropped = 0 } })
  told-Inv none = aside-Inv Taker.rest w.reported 0
  told-Inv (some gap) = aside-Inv Taker.rest (w.reported ++ gap ∷ []) 0

  pub take_world-Inv : (place : Taker) → Inv n start (take_world place w)
  unfolding take_step
  take_world-Inv Taker.rest =
      aside-Inv (Taker.read_last w.ring.gap_first) w.reported w.ring.gap_dropped
  take_world-Inv (Taker.read_last first) =
      aside-Inv (Taker.clear first w.ring.gap_last) w.reported w.ring.gap_dropped
  take_world-Inv (Taker.clear first last) = told-Inv (gap_of first last w.ring.gap_dropped)
