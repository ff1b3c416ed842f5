-- ===== src/Concurrent/Steps.antt =====
-- The frames, and every step of `outpost_ring_take_gap`, keep the books.
use embarch_outpost.Prelude.{
  ℕ, ◌^◌, ◌<◌, ◌≡◌, refl, ap, ◌∙◌, Bool, true, false, List, [], ◌∷◌, ◌++◌, append-nil, Option, none,
  some, if◌then◌else◌, ◌==◌, arith,
}
use embarch_outpost.Config.{Config, IsConfig}
use embarch_outpost.Wire.{Rec}
use embarch_outpost.Wire.Fields.{IsRec}
use embarch_outpost.Ring.{Ring, Gap}
use embarch_outpost.Ring.Taker.{Taker, gap_of, take_step}
use embarch_outpost.Ring.Reader.{Reader}
use embarch_outpost.Drain.{Drain, Image, Batch, add_gap, gap_record, started, finish, send_header}
use embarch_outpost.Drain.Answers.{after_frame}
use embarch_outpost.Drain.Answers.Loop.{Wrote}
use embarch_outpost.Drain.Answers.Frame.{finish-Sent}
use embarch_outpost.Thread.Answered.{IsImage, header_more, frame_more}
use embarch_outpost.Thread.Progress.{
  not_gap, lost_in, trace, not_gap-append, lost_in-append, trace-append,
}
use embarch_outpost.Interleaving.{World, told, take_world}
use embarch_outpost.Interleaving.Losses.{total-snoc}
use embarch_outpost.Concurrent.{Stand, Desk, after_take, close}
use embarch_outpost.Concurrent.Fits.{IsTaker, gap_of-IsRec}
use embarch_outpost.Concurrent.Filling.{add_gap-begun}
use embarch_outpost.Concurrent.Flow.{IsAt, Books, Flow}

module _ (crc32 : List ℕ → ℕ) (word : (bytes : List ℕ) → crc32 bytes < 2 ^ 32) (c : Config)
    (ok : IsConfig c) (image : Image) (fits : IsImage c image) where
  -- The thread moves on to where it knows no more.
  pub rested :
      (t : Desk) (w : World) (v : Books crc32 c t.drain [] w.given w.reported) (p : Stand)
      → IsAt t.drain [] w.reader w.taker p
      → Flow crc32 c (record t { stand = p }) w
  rested t w v p at = record { held = []; books = v; at = at }

  -- A header frame is sent.
  pub header-Books :
      (d : Drain) (given : List Rec) (reported : List Gap) (r : Ring)
      → Books crc32 c d [] given reported
      → Books crc32 c (send_header c image crc32 d) [] given reported
  header-Books d given reported r v =
      let (ds, no_record, closes, sized) = header_more crc32 word c ok image fits r d v.sized in
      let all : trace (v.ds ++ ds) ≡ trace v.ds =
        trace-append v.ds ds ∙ ap (λ l. trace v.ds ++ l) no_record ∙ append-nil (trace v.ds) in
      record {
        sized = sized;
        ds = v.ds ++ ds;
        closed = closes v.ds v.closed;
        kept = rw all v.kept;
        lost = rw all v.lost;
        fine = tt;
      }

  -- A records frame is sent, or there is nothing to send.
  close-Books :
      (d : Drain) (b : Batch) (held given : List Rec) (reported : List Gap)
      → Books crc32 c d held given reported
      → Wrote (started d b.ring) held b
      → Books crc32 c (after_frame crc32 (finish d b)) [] given reported
  close-Books d b held given reported v wrote =
      let sent = finish-Sent c ok d b.ring v.sized crc32 word held b v.fine wrote in
      let (ds, all, closes) =
        frame_more crc32 word c ok image fits b.ring d v.sized held (finish d b) sent in
      let both : trace (v.ds ++ ds) ≡ trace v.ds ++ held =
        trace-append v.ds ds ∙ ap (λ l. trace v.ds ++ l) all in
      record {
        sized = sent.0;
        ds = v.ds ++ ds;
        closed = closes v.ds v.closed;
        kept =
            append-nil (not_gap (trace (v.ds ++ ds)))
            ∙ ap not_gap both
            ∙ not_gap-append (trace v.ds) held
            ∙ v.kept;
        lost = omega (arith, ap lost_in both, lost_in-append (trace v.ds) held, v.lost);
        fine = tt;
      }

  either_rested :
      (d : Drain) (w : World) (e : Bool)
      → w.reader ≡ Reader.rest
      → w.taker ≡ Taker.rest
      → IsAt d [] w.reader w.taker (if e then Stand.idle else Stand.top)
  either_rested d w true reader taker = (refl, reader, taker)
  either_rested d w false reader taker = (refl, reader, taker)

  pub close-Flow :
      (t : Desk) (w : World) (b : Batch) (held : List Rec)
      → Books crc32 c t.drain held w.given w.reported
      → Wrote (started t.drain b.ring) held b
      → w.reader ≡ Reader.rest
      → w.taker ≡ Taker.rest
      → Flow crc32 c (close crc32 t (finish t.drain b)) w
  close-Flow t w b held v wrote reader taker = record {
    held = [];
    books = close-Books t.drain b held w.given w.reported v wrote;
    at =
        either_rested (after_frame crc32 (finish t.drain b)) w ((finish t.drain b).0 == 0) reader
          taker;
  }

  -- A step of `outpost_ring_take_gap`.
  told-Flow :
      (t : Desk) (w : World) (b : Batch) (gap : Option Gap) (ring : Ring)
      → Books crc32 c t.drain [] w.given w.reported
      → b ≡ started t.drain b.ring
      → w.reader ≡ Reader.rest
      → ((g : Gap) → gap ≡ some g → IsRec (gap_record g))
      → Flow crc32 c
          (record t { stand = Stand.looping (add_gap gap b) })
          (record (told gap w) { taker = Taker.rest; ring = ring })
  told-Flow t w b none ring v begun reader fine = record {
    held = [];
    books = v;
    at = (add_gap-begun c ok t.drain v.sized b none begun fine, reader, refl);
  }
  told-Flow t w b (some g) ring v begun reader fine = record {
    held = gap_record g ∷ [];
    books = record {
      sized = v.sized;
      ds = v.ds;
      closed = v.closed;
      kept = v.kept;
      lost = omega (arith, v.lost, total-snoc w.reported g);
      fine = (fine g refl, tt);
    };
    at = (add_gap-begun c ok t.drain v.sized b (some g) begun fine, reader, refl);
  }

  pub take-Flow :
      (q : Taker) (t : Desk) (w : World) (b : Batch)
      → Books crc32 c t.drain [] w.given w.reported
      → b ≡ started t.drain b.ring
      → w.reader ≡ Reader.rest
      → IsTaker q
      → w.ring.gap_dropped < 2 ^ 32
      → (let (taker, ring, gap) = take_step q w.ring in
          Flow crc32 c (record t { stand = after_take taker gap b }) (take_world q w))
  unfolding take_step
  take-Flow Taker.rest t w b v begun reader local few = record {
    held = [];
    books = v;
    at = (refl, begun, reader);
  }
  take-Flow (Taker.read_last first) t w b v begun reader local few = record {
    held = [];
    books = v;
    at = (refl, begun, reader);
  }
  take-Flow (Taker.clear first last) t w b v begun reader local few =
      told-Flow t w b (gap_of first last w.ring.gap_dropped) _ v begun reader
        (λ g e. gap_of-IsRec first last w.ring.gap_dropped g local few e)
