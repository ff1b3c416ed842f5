-- ===== src/Concurrent/Reads.antt =====
-- Every step of `outpost_ring_get`, and what the thread does with its answer, keeps the books.
use embarch_outpost.Prelude.{
  ℕ, ◌+◌, ◌-◌, ◌^◌, ◌≤◌, ◌<◌, ◌≡◌, refl, sym, ap, ◌∙◌, inl, inr, Bool-cases, List, [], ◌∷◌, ◌++◌,
  append_assoc, none, some, length, ◌==◌, ==_ne, All-append, arith,
}
use mathlib.Core.Path.{subst}
use embarch_outpost.Config.{Config, IsConfig}
use embarch_outpost.Wire.{Rec, record_max_bytes}
use embarch_outpost.Wire.Fields.{IsRec, record_bytes, length-record_bytes}
use embarch_outpost.Ring.{Ring, Gap, ring_slots, seq_for, index}
use embarch_outpost.Ring.Taker.{Taker}
use embarch_outpost.Ring.Reader.{Reader, get_step}
use embarch_outpost.Drain.{Drain, Image, Batch, started}
use embarch_outpost.Drain.Answers.Loop.{Wrote}
use embarch_outpost.Thread.Answered.{IsImage}
use embarch_outpost.Thread.Progress.{
  not_gap, trace, not_gap-append, lost_in-append, not_gap_hooked, lost_in_hooked,
}
use embarch_outpost.Interleaving.{World, get_world}
use embarch_outpost.Interleaving.Invariant.{IsReader}
use embarch_outpost.Concurrent.{Stand, Desk, after_get}
use embarch_outpost.Concurrent.Fits.{IsGood}
use embarch_outpost.Concurrent.Filling.{added_fits, Wrote-snoc}
use embarch_outpost.Concurrent.Flow.{Books, Flow}
use embarch_outpost.Concurrent.Steps.{close-Flow}

-- A record that the ring has given is in the batch.
snoc-Books :
    (crc32 : List ℕ → ℕ) (c : Config) (d : Drain) (held given : List Rec) (reported : List Gap)
    (rec : Rec)
    → Books crc32 c d held given reported
    → IsGood rec
    → Books crc32 c d (held ++ rec ∷ []) (given ++ rec ∷ []) reported
snoc-Books crc32 c d held given reported rec v good =
    let one = not_gap_hooked (rec ∷ []) (good.1, tt) in
    record {
      sized = v.sized;
      ds = v.ds;
      closed = v.closed;
      kept =
          ap (λ l. not_gap (trace v.ds) ++ l)
            (not_gap-append held (rec ∷ []) ∙ ap (λ l. not_gap held ++ l) one)
          ∙ sym (append_assoc (not_gap (trace v.ds)) (not_gap held) (rec ∷ []))
          ∙ ap (λ l. l ++ rec ∷ []) v.kept;
      lost =
          omega
            (arith, v.lost, lost_in-append held (rec ∷ []), lost_in_hooked (rec ∷ []) (good.1, tt));
      fine = All-append IsRec held (rec ∷ []) v.fine (good.0, tt);
    }

module _ (crc32 : List ℕ → ℕ) (word : (bytes : List ℕ) → crc32 bytes < 2 ^ 32) (c : Config)
    (ok : IsConfig c) (image : Image) (fits : IsImage c image) (t : Desk) (w : World) (b : Batch)
    (held : List Rec) (v : Books crc32 c t.drain held w.given w.reported)
    (wrote : Wrote (started t.drain b.ring) held b) (few : b.count < 127)
    (room : record_max_bytes ≤ length b.buf - b.n) (taker : w.taker ≡ Taker.rest) where
  -- The call goes on.
  reading :
      (q : Reader) (ring : Ring)
      → Flow crc32 c (record t { stand = Stand.getting b }) (record w { reader = q; ring = ring })
  reading q ring = record { held = held; books = v; at = (wrote, few, room, taker) }

  -- The ring has nothing.
  nothing :
      (ring : Ring)
      → Flow crc32 c
          (after_get crc32 Reader.rest none t b)
          (record w { reader = Reader.rest; ring = ring })
  nothing ring =
      close-Flow crc32 word c ok image fits t (record w { reader = Reader.rest; ring = ring }) b
        held v wrote refl taker

  -- The ring has given a record.
  something :
      (ring : Ring) (rec : Rec)
      → IsGood rec
      → Flow crc32 c (after_get crc32 Reader.rest (some rec) t b) (record w {
        reader = Reader.rest;
        ring = ring;
        given = w.given ++ rec ∷ [];
        taken = w.taken + 1;
      })
  something ring rec good =
      rw
        (
          added_fits b rec good.0 room,
          ==_ne (length (record_bytes rec)) 0 (omega (arith, length-record_bytes rec)),
        )
        (record {
          held = held ++ rec ∷ [];
          books = snoc-Books crc32 c t.drain held w.given w.reported rec v good;
          at = (Wrote-snoc (started t.drain b.ring) b held rec wrote few room good.0, refl, taker);
        })

  pub get-Flow :
      (q : Reader)
      → IsReader (ring_slots c.ring_bytes) w q
      → ((pos : ℕ) → IsGood (w.log pos))
      → (let (reader, ring, out) = get_step (ring_slots c.ring_bytes) q w.ring in
          Flow crc32 c (after_get crc32 reader out t b) (get_world (ring_slots c.ring_bytes) q w))
  unfolding get_step
  get-Flow Reader.rest h good = reading _ _
  get-Flow (Reader.get_head tail) h good = elim (Bool-cases (tail == w.ring.head)) [
    | inl e ↦ rw e (nothing w.ring)
    | inr e ↦ rw e (reading (Reader.get_seq tail) w.ring)
  ]
  get-Flow (Reader.get_seq tail) h good =
      elim (Bool-cases
        ((w.ring.slots (index (ring_slots c.ring_bytes) tail)).seq == seq_for tail)) [
          | inl e ↦ rw e (reading (Reader.copy_cycles tail) w.ring)
          | inr e ↦ rw e (nothing w.ring)
        ]
  get-Flow (Reader.copy_cycles tail) h good = reading _ _
  get-Flow (Reader.copy_kind tail out) h good = reading _ _
  get-Flow (Reader.copy_a tail out) h good = reading _ _
  get-Flow (Reader.copy_b tail out) h good = reading _ _
  get-Flow (Reader.set_tail tail out) h good =
      something _ out (subst IsGood (sym h.copied) (good w.taken))
