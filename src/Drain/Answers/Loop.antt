-- ===== src/Drain/Answers/Loop.antt =====
-- What the record loop writes, and which answers it uses.
use embarch_outpost.Prelude.{
  ℕ, zero, suc, ◌+◌, ◌-◌, ◌≤◌, ◌<◌, ◌≡◌, inl, inr, refl, ap, ◌∙◌, Bool-cases, false, List, [], ◌∷◌,
  ◌++◌, Option, none, some, length, length-append, splice, splice-append, length-splice, All, ==_ne,
  lt→ltb, ltb-false, le→leb, leb-false, ltb, leb, ◌&&◌, arith,
}
use native.Mathlib.Decide.{dec_lt}
use embarch_outpost.Wire.{Rec, record_max_bytes}
use embarch_outpost.Wire.Fields.{IsRec, record_bytes, length-record_bytes, put_record_fits}
use embarch_outpost.Host.Fields.{records_bytes}
use embarch_outpost.Drain.{Batch}
use embarch_outpost.Drain.Answers.{answered_loop}

-- The records among the answers.
abbrev pub records_of : List (Option Rec) → List Rec
records_of [] = []
records_of (none ∷ gets) = records_of gets
records_of (some rec ∷ gets) = rec ∷ records_of gets

-- From `b` the records `recs` are written.
pub record Wrote (b : Batch) (recs : List Rec) (b' : Batch) : Type 0 where
  pub buf : b'.buf ≡ splice b.buf b.n (records_bytes recs)
  pub n : b'.n ≡ b.n + length (records_bytes recs)
  pub fits : b'.n ≤ length b.buf
  pub count : b'.count ≡ b.count + length recs
  pub few : b'.count ≤ 127

-- And they are the answers that are used.
abbrev pub Used : Batch → List (Option Rec) → Batch × List (Option Rec) → Type 0
Used b gets out =
    (recs : List Rec) × Wrote b recs out.0 × (records_of gets ≡ recs ++ records_of out.1)

pub Wrote-none : (b : Batch) → b.n ≤ length b.buf → b.count ≤ 127 → Wrote b [] b
Wrote-none b h k = record { buf = refl; n = omega arith; fits = h; count = omega arith; few = k }

abbrev pub wrote_one : Batch → Rec → Batch
wrote_one b rec = record b {
  buf = splice b.buf b.n (record_bytes rec);
  n = b.n + length (record_bytes rec);
  count = b.count + 1;
}

pub Wrote-cons :
    (b b' : Batch) (rec : Rec) (recs : List Rec)
    → Wrote (wrote_one b rec) recs b'
    → Wrote b (rec ∷ recs) b'
Wrote-cons b b' rec recs t = record {
  buf =
      t.buf
      ∙ splice-append b.buf b.n (wrote_one b rec).n (record_bytes rec) (records_bytes recs) refl;
  n = omega (arith, t.n, length-append (record_bytes rec) (records_bytes recs));
  fits = omega (arith, t.fits, length-splice b.buf b.n (record_bytes rec));
  count = omega (arith, t.count);
  few = t.few;
}

-- One round with a record, where there is room for it.
loop_on :
    (fuel : ℕ) (gets : List (Option Rec)) (b : Batch) (rec : Rec)
    → b.count < 127
    → record_max_bytes ≤ length b.buf - b.n
    → IsRec rec
    → answered_loop (suc fuel) (some rec ∷ gets) b ≡ answered_loop fuel gets (wrote_one b rec)
unfolding answered_loop
loop_on fuel gets b rec few room ok =
    rw
      (
        lt→ltb b.count 127 few,
        le→leb record_max_bytes (length b.buf - b.n) room,
        put_record_fits b.buf b.n (length b.buf - b.n) rec ok room,
        ==_ne (length (record_bytes rec)) 0 (omega (arith, length-record_bytes rec)),
      )
      refl

loop_off :
    (fuel : ℕ) (gets : List (Option Rec)) (b : Batch) (rec : Rec)
    → (ltb b.count 127 && leb record_max_bytes (length b.buf - b.n)) ≡ false
    → answered_loop (suc fuel) (some rec ∷ gets) b ≡ (b, some rec ∷ gets)
unfolding answered_loop
loop_off fuel gets b rec off = rw off refl

loop_none :
    (fuel : ℕ) (gets : List (Option Rec)) (b : Batch)
    → b.n ≤ length b.buf
    → b.count ≤ 127
    → Used b (none ∷ gets) (answered_loop (suc fuel) (none ∷ gets) b)
unfolding answered_loop
loop_none fuel gets b h k =
    elim (Bool-cases (ltb b.count 127 && leb record_max_bytes (length b.buf - b.n))) [
      | inl on ↦ rw on ([], Wrote-none b h k, refl)
      | inr off ↦ rw off ([], Wrote-none b h k, refl)
    ]

abbrev pub IsAnswer : Option Rec → Type 0
IsAnswer none = Unit
IsAnswer (some rec) = IsRec rec

pub answered_loop_lem :
    (fuel : ℕ) (gets : List (Option Rec)) (b : Batch)
    → All IsAnswer gets
    → b.n ≤ length b.buf
    → b.count ≤ 127
    → Used b gets (answered_loop fuel gets b)
unfolding answered_loop
answered_loop_lem zero gets b ok h k = ([], Wrote-none b h k, refl)
answered_loop_lem (suc fuel) [] b ok h k = ([], Wrote-none b h k, refl)
answered_loop_lem (suc fuel) (none ∷ gets) b ok h k = loop_none fuel gets b h k
answered_loop_lem (suc fuel) (some rec ∷ gets) b ok h k = elim (dec_lt b.count 127) [
  | no many ↦
      rw (loop_off fuel gets b rec (rw (ltb-false b.count 127 (omega arith)) refl))
        ([], Wrote-none b h k, refl)
  | yes more ↦ elim (dec_lt (length b.buf - b.n) record_max_bytes) [
    | yes small ↦
        rw
          (loop_off fuel gets b rec (
            rw (leb-false record_max_bytes (length b.buf - b.n) small, lt→ltb b.count 127 more)
              refl))
          ([], Wrote-none b h k, refl)
    | no room ↦
        (let (recs, wrote, used) =
            answered_loop_lem fuel gets (wrote_one b rec) ok.1
              (omega (arith, length-record_bytes rec, length-splice b.buf b.n (record_bytes rec)))
              (omega arith) in
          rw (loop_on fuel gets b rec more (omega arith) ok.0) (
            rec ∷ recs,
            Wrote-cons b (answered_loop fuel gets (wrote_one b rec)).0 rec recs wrote,
            ap (λ l. rec ∷ l) used,
          ))
  ]
]
