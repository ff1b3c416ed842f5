-- ===== src/Concurrent/Flow.antt =====
-- What the drain thread has been given is in the bytes that it has sent, or in the batch that it fills.
use embarch_outpost.Prelude.{ℕ, ◌+◌, ◌-◌, ◌≤◌, ◌<◌, ◌≡◌, refl, List, [], ◌++◌, length, All, arith}
use embarch_outpost.Config.{Config}
use embarch_outpost.Wire.{Rec, record_max_bytes}
use embarch_outpost.Wire.Fields.{IsRec}
use embarch_outpost.Ring.{Phase, Gap}
use embarch_outpost.Ring.Taker.{Taker}
use embarch_outpost.Ring.Reader.{Reader}
use embarch_outpost.Host.{Decoded}
use embarch_outpost.Host.Split.{IsClosed}
use embarch_outpost.Drain.{Drain, started}
use embarch_outpost.Drain.Losses.{IsDrain}
use embarch_outpost.Drain.Answers.Loop.{Wrote}
use embarch_outpost.Thread.Progress.{not_gap, lost_in, trace, concat}
use embarch_outpost.Interleaving.{Context, World, logged, put_world}
use embarch_outpost.Interleaving.Losses.{total}
use embarch_outpost.Concurrent.{Stand, Desk}

-- What the thread knows where it stands, with the records `held` in the batch.
abbrev pub IsAt : Drain → List Rec → Reader → Taker → Stand → Type 0
IsAt d held reader taker (Stand.gapping b) =
    (held ≡ []) × (b ≡ started d b.ring) × (reader ≡ Reader.rest)
IsAt d held reader taker (Stand.looping b) =
    Wrote (started d b.ring) held b × (reader ≡ Reader.rest) × (taker ≡ Taker.rest)
IsAt d held reader taker (Stand.getting b) =
    Wrote (started d b.ring) held b
    × (b.count < 127)
    × (record_max_bytes ≤ length b.buf - b.n)
    × (taker ≡ Taker.rest)
IsAt d held reader taker stand = (held ≡ []) × (reader ≡ Reader.rest) × (taker ≡ Taker.rest)

-- The host decodes `ds` from the bytes sent; these and the batch hold what the ring has given.
pub record Books (crc32 : List ℕ → ℕ) (c : Config) (d : Drain) (held given : List Rec)
    (reported : List Gap) : Type 0 where
  pub sized : IsDrain c d
  pub ds : List Decoded
  pub closed : IsClosed crc32 (concat d.sent) ds
  pub kept : not_gap (trace ds) ++ not_gap held ≡ given
  pub lost : lost_in (trace ds) + lost_in held ≡ total reported
  pub fine : All IsRec held

pub record Flow (crc32 : List ℕ → ℕ) (c : Config) (t : Desk) (w : World) : Type 0 where
  pub held : List Rec
  pub books : Books crc32 c t.drain held w.given w.reported
  pub at : IsAt t.drain held w.reader w.taker t.stand

-- Nothing that concerns the thread changes.
pub record Same (w w' : World) : Type 0 where
  pub given : w'.given ≡ w.given
  pub reported : w'.reported ≡ w.reported
  pub reader : w'.reader ≡ w.reader
  pub taker : w'.taker ≡ w.taker

module _ (crc32 : List ℕ → ℕ) (c : Config) (t : Desk) (w w' : World) where
  pub Flow-Same : Same w w' → Flow crc32 c t w → Flow crc32 c t w'
  Flow-Same same f = record {
    held = f.held;
    books = rw (same.given, same.reported) f.books;
    at = rw (same.reader, same.taker) f.at;
  }

-- A producer's step does not concern the thread.
logged-Same : (p : Phase) (rec : Rec) (w : World) → Same w (logged p rec w)
logged-Same (Phase.cas head) rec w = ground arith
logged-Same _ rec w = record { given = refl; reported = refl; reader = refl; taker = refl }

pub put_world-Same : (n i : ℕ) (p : Phase) (x : Context) (w : World) → Same w (put_world n i p x w)
put_world-Same n i p x w =
    let same = logged-Same p x.call.rec w in
    record {
      given = same.given;
      reported = same.reported;
      reader = same.reader;
      taker = same.taker;
    }
