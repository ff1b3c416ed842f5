-- ===== src/Drain/Records.antt =====
-- `build_records_frame`: what it takes from the ring, and what it leaves in `batch_buf`.
use embarch_outpost.Prelude.{
  ℕ, zero, suc, ◌+◌, ◌-◌, ◌≤◌, ◌<◌, ◌≡◌, ◌⊎◌, inl, inr, refl, sym, ap, ◌∙◌, List, [], ◌∷◌, ◌++◌,
  append_assoc, Option, none, some, length, length-append, splice, splice-append, length-splice,
  All, ==_ne, lt→ltb, ltb-false, le→leb, arith,
}
use native.Mathlib.Decide.{dec_lt}
use embarch_outpost.Config.{Config}
use embarch_outpost.Wire.{Rec, record_max_bytes}
use embarch_outpost.Wire.Fields.{IsRec, record_bytes, length-record_bytes, put_record_fits}
use embarch_outpost.Host.Fields.{records_bytes}
use embarch_outpost.Ring.{ring_slots, ring_get}
use embarch_outpost.Ring.Config.{ring_slots-IsSlots}
use embarch_outpost.Ring.Refine.{IsValid, view, ring_get_refines}
use embarch_outpost.Ring.Queue
use embarch_outpost.Ring.Queue.{Queue}
use embarch_outpost.Drain.{Batch, build_loop}

pub records_bytes-append :
    (xs ys : List Rec) → records_bytes (xs ++ ys) ≡ records_bytes xs ++ records_bytes ys
records_bytes-append [] ys = refl
records_bytes-append (x ∷ xs) ys =
    ap (λ l. record_bytes x ++ l) (records_bytes-append xs ys)
    ∙ sym (append_assoc (record_bytes x) (records_bytes xs) (records_bytes ys))

module _ (c : Config) where
  abbrev slots : ℕ
  slots = ring_slots c.ring_bytes

  -- The reasons for which the record loop stops.
  abbrev pub Stopped : Batch → Type 0
  Stopped b =
      (b.count ≡ 127) ⊎ (length b.buf - b.n < record_max_bytes) ⊎ ((view slots b.ring).queued ≡ [])

  -- From `b` the loop has written the records `recs` and taken just these from the ring.
  pub record Took (b : Batch) (recs rest : List Rec) (b' : Batch) : Type 0 where
    pub all : (view slots b.ring).queued ≡ recs ++ rest
    pub left : view slots b'.ring ≡ record (view slots b.ring) { queued = rest }
    pub valid : IsValid slots b'.ring
    pub buf : b'.buf ≡ splice b.buf b.n (records_bytes recs)
    pub n : b'.n ≡ b.n + length (records_bytes recs)
    pub fits : b'.n ≤ length b.buf
    pub count : b'.count ≡ b.count + length recs
    pub few : b'.count ≤ 127

  Took-none :
      (b : Batch)
      → IsValid slots b.ring
      → b.n ≤ length b.buf
      → b.count ≤ 127
      → Took b [] (view slots b.ring).queued b
  Took-none b v h k = record {
    all = refl;
    left = refl;
    valid = v;
    buf = refl;
    n = omega arith;
    fits = h;
    count = omega arith;
    few = k;
  }

  -- One more record in front of what the rest of the loop takes.
  Took-cons :
      (b b₁ b' : Batch) (rec : Rec) (recs rest : List Rec)
      → (view slots b.ring).queued ≡ rec ∷ (view slots b₁.ring).queued
      → view slots b₁.ring ≡ record (view slots b.ring) { queued = (view slots b₁.ring).queued }
      → b₁.buf ≡ splice b.buf b.n (record_bytes rec)
      → b₁.n ≡ b.n + length (record_bytes rec)
      → b₁.count ≡ b.count + 1
      → Took b₁ recs rest b'
      → Took b (rec ∷ recs) rest b'
  Took-cons b b₁ b' rec recs rest front same buf n count t = record {
    all = front ∙ ap (λ l. rec ∷ l) t.all;
    left = t.left ∙ ap (λ (q : Queue). record q { queued = rest }) same;
    valid = t.valid;
    buf =
        t.buf
        ∙ ap (λ l. splice l b₁.n (records_bytes recs)) buf
        ∙ splice-append b.buf b.n b₁.n (record_bytes rec) (records_bytes recs) n;
    n = omega (arith, t.n, n, length-append (record_bytes rec) (records_bytes recs));
    fits = omega (arith, t.fits, ap length buf, length-splice b.buf b.n (record_bytes rec));
    count = omega (arith, t.count, count);
    few = t.few;
  }

  -- What one round of the loop leaves that finds a record.
  abbrev took_one : Batch → Rec → Batch
  took_one b rec = record {
    buf = splice b.buf b.n (record_bytes rec);
    n = b.n + length (record_bytes rec);
    count = b.count + 1;
    ring = (ring_get slots b.ring).1;
  }

  popped_view :
      (b : Batch) (rec : Rec) (rest : List Rec)
      → IsValid slots b.ring
      → (view slots b.ring).queued ≡ rec ∷ rest
      → IsValid slots (ring_get slots b.ring).1
        × ((ring_get slots b.ring).0 ≡ some rec)
        × (view slots (ring_get slots b.ring).1 ≡ record (view slots b.ring) { queued = rest })
  popped_view b rec rest v e =
      let (v', q) = ring_get_refines (ring_slots-IsSlots c.ring_bytes) b.ring v in
      let e' = q ∙ Queue.get-cons (view slots b.ring) rec rest e in
      (v', ap (λ (p : Option Rec × Queue). p.0) e', ap (λ (p : Option Rec × Queue). p.1) e')

  loop_next :
      (fuel : ℕ) (b : Batch) (rec : Rec)
      → b.count < 127
      → record_max_bytes ≤ length b.buf - b.n
      → IsRec rec
      → (ring_get slots b.ring).0 ≡ some rec
      → build_loop c (suc fuel) b ≡ build_loop c fuel (took_one b rec)
  unfolding build_loop
  loop_next fuel b rec few room ok e = rw (
    lt→ltb b.count 127 few,
    le→leb record_max_bytes (length b.buf - b.n) room,
    e,
    put_record_fits b.buf b.n (length b.buf - b.n) rec ok room,
    ==_ne (length (record_bytes rec)) 0 (omega (arith, length-record_bytes rec)),
  )

  loop_empty :
      (fuel : ℕ) (b : Batch)
      → b.count < 127
      → record_max_bytes ≤ length b.buf - b.n
      → (ring_get slots b.ring).0 ≡ none
      → build_loop c (suc fuel) b ≡ record b { ring = (ring_get slots b.ring).1 }
  unfolding build_loop
  loop_empty fuel b few room e =
      rw (lt→ltb b.count 127 few, le→leb record_max_bytes (length b.buf - b.n) room, e)

  loop_full :
      (fuel : ℕ) (b : Batch) → length b.buf - b.n < record_max_bytes → build_loop c (suc fuel) b ≡ b
  unfolding build_loop
  loop_full fuel b no_room = ground arith

  loop_counted : (fuel : ℕ) (b : Batch) → 127 ≤ b.count → build_loop c (suc fuel) b ≡ b
  unfolding build_loop
  loop_counted fuel b many = rw (ltb-false b.count 127 many)

  -- The record loop takes a front part of the queue, writes it, and stops for a reason.
  abbrev pub LoopOutcome : Batch → Batch → Type 0
  LoopOutcome b b' = (recs : List Rec) × (rest : List Rec) × Took b recs rest b' × Stopped b'

  loop_end :
      (fuel : ℕ) (b : Batch)
      → IsValid slots b.ring
      → b.n ≤ length b.buf
      → b.count < 127
      → record_max_bytes ≤ length b.buf - b.n
      → (view slots b.ring).queued ≡ []
      → LoopOutcome b (build_loop c (suc fuel) b)
  loop_end fuel b v fits few room q =
      let (v', r) = ring_get_refines (ring_slots-IsSlots c.ring_bytes) b.ring v in
      let e = r ∙ Queue.get-nil (view slots b.ring) q in
      let same : view slots (ring_get slots b.ring).1 ≡ view slots b.ring =
        ap (λ (p : Option Rec × Queue). p.1) e in
      rw (loop_empty fuel b few room (ap (λ (p : Option Rec × Queue). p.0) e)) (
        [],
        [],
        record {
          all = q;
          left = same ∙ ap (λ l. record (view slots b.ring) { queued = l }) q;
          valid = v';
          buf = refl;
          n = omega arith;
          fits = fits;
          count = omega arith;
          few = omega arith;
        },
        inr (inr (ap (λ (x : Queue). x.queued) same ∙ q)),
      )

  loop_cons :
      (fuel : ℕ) (b : Batch) (rec : Rec) (rest : List Rec)
      → IsValid slots b.ring
      → b.count < 127
      → record_max_bytes ≤ length b.buf - b.n
      → IsRec rec
      → (view slots b.ring).queued ≡ rec ∷ rest
      → LoopOutcome (took_one b rec) (build_loop c fuel (took_one b rec))
      → LoopOutcome b (build_loop c (suc fuel) b)
  loop_cons fuel b rec rest v few room ok q (recs, rest', t, stop) =
      let (v', out, left) = popped_view b rec rest v q in
      let queued = ap (λ (x : Queue). x.queued) left in
      rw (loop_next fuel b rec few room ok out) (
        rec ∷ recs,
        rest',
        Took-cons b (took_one b rec) _ rec recs rest' (q ∙ ap (λ l. rec ∷ l) (sym queued))
            (left ∙ ap (λ l. record (view slots b.ring) { queued = l }) (sym queued)) refl refl refl
            t,
        stop,
      )

  pub build_loop_lem :
      (fuel : ℕ) (b : Batch)
      → IsValid slots b.ring
      → All IsRec (view slots b.ring).queued
      → b.n ≤ length b.buf
      → b.count ≤ 127
      → 127 ≤ b.count + fuel
      → LoopOutcome b (build_loop c fuel b)
  unfolding build_loop
  build_loop_lem zero b v ok fits few enough =
      ([], (view slots b.ring).queued, Took-none b v fits few, inl (omega arith))
  build_loop_lem (suc fuel) b v ok fits few enough = elim (dec_lt b.count 127) [
    | no many ↦ rw (loop_counted fuel b (omega arith)) (untouched (inl (omega arith)))
    | yes more ↦ elim (dec_lt (length b.buf - b.n) record_max_bytes) [
      | yes small ↦ rw (loop_full fuel b small) (untouched (inr (inl small)))
      | no room ↦
          by_queue (view slots b.ring).queued refl more (omega arith)
            (λ rec. build_loop_lem fuel (took_one b rec))
    ]
  ]
    where
      untouched : Stopped b → LoopOutcome b b
      untouched stop = ([], (view slots b.ring).queued, Took-none b v fits few, stop)

      by_queue :
          (q : List Rec)
          → (view slots b.ring).queued ≡ q
          → b.count < 127
          → record_max_bytes ≤ length b.buf - b.n
          → ((rec : Rec)
              → IsValid slots (took_one b rec).ring
              → All IsRec (view slots (took_one b rec).ring).queued
              → (took_one b rec).n ≤ length (took_one b rec).buf
              → (took_one b rec).count ≤ 127
              → 127 ≤ (took_one b rec).count + fuel
              → LoopOutcome (took_one b rec) (build_loop c fuel (took_one b rec)))
          → LoopOutcome b (build_loop c (suc fuel) b)
      by_queue [] q more room further = loop_end fuel b v fits more room q
      by_queue (rec ∷ rest) q more room further =
          let (v', out, left) = popped_view b rec rest v q in
          let ok' : All IsRec (rec ∷ rest) = rw q at ok in
          loop_cons fuel b rec rest v more room ok'.0 q (
            further rec v' (rw (ap (λ (x : Queue). x.queued) left) ok'.1)
              (omega (arith, length-record_bytes rec, length-splice b.buf b.n (record_bytes rec)))
              (omega arith) (omega arith))
