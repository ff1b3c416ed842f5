-- ===== src/Interleaving/Run.antt =====
-- Every run, and what it shows.
use embarch_outpost.Prelude.{
  ℕ, zero, suc, ◌+◌, ◌-◌, ◌%◌, ◌^◌, ◌≤◌, ◌<◌, ◌≡◌, ◌≢◌, refl, sym, ap, ◌∙◌, true, List, [], ◌∷◌,
  ◌++◌, arith,
}
use embarch_outpost.Wire.{Rec}
use embarch_outpost.Ring.{Ring, Slot, unpublish, index, seq_for, seq_unpublished, ring_init_at}
use embarch_outpost.Ring.Config.{IsSlots}
use embarch_outpost.Ring.Seq.{seq_for-ne-unpublished, wrapped-mod}
use embarch_outpost.Ring.Reader.{Reader}
use embarch_outpost.Interleaving.{
  Context, World, Pick, call, go, read, take, move, interleave, opening, Prompt,
}
use embarch_outpost.Interleaving.Invariant.{
  span, writes, head_of, copies, tail_of, slot, IsWriter, IsReader, Reading, Inv,
}
use embarch_outpost.Interleaving.Quiet.{IsContext-head_of}
use embarch_outpost.Interleaving.Take.{take_world-Inv}
use embarch_outpost.Interleaving.Window.{same_slot}
use embarch_outpost.Interleaving.Produce.{put_world-Inv, begun-Inv}
use embarch_outpost.Interleaving.Consume.{get_world-Inv}

unpublish_seq :
    (count i : ℕ) (slots : ℕ → Slot) → i < count → (unpublish count slots i).seq ≡ seq_unpublished
unfolding unpublish
unpublish_seq zero i slots lt = absurd (omega arith)
unpublish_seq (suc count) i slots lt = ground (arith, unpublish_seq count i slots)

pub span-append :
    (log : ℕ → Rec) (first m k : ℕ)
    → span log first m ++ span log (first + m) k ≡ span log first (m + k)
span-append log first zero k =
    let a : first + 0 ≡ first = omega arith in let b : 0 + k ≡ k = omega arith in rw (a, b)
span-append log first (suc m) k =
    let a : first + suc m ≡ suc first + m = omega arith in
    let b : suc m + k ≡ suc (m + k) = omega arith in
    rw (a, b) (ap (λ l. log first ∷ l) (span-append log (suc first) m k))

module _ {n : ℕ} (s : IsSlots n) (start : ℕ) where
  pub opening-Inv : (r : Ring) (x : Context) → start < 2 ^ 32 → Inv n start (opening n start r x)
  unfolding ring_init_at
  opening-Inv r x small = record {
    head = omega arith;
    tail = omega arith;
    first = omega arith;
    order = omega arith;
    room = omega arith;
    out = let e : start - start ≡ 0 = omega arith in rw e refl;
    fresh = λ pos lo hi o. absurd (
        seq_for-ne-unpublished (pos % 2 ^ 32)
          (sym o ∙ unpublish_seq n (pos % n) r.slots (grind (arith, s.two))));
    context = λ i. tt;
    apart = λ i j wi wj e. cc;
    covered = λ pos lo hi. absurd (omega arith);
    reader = tt;
  }

  pub move-Inv :
      (pick : Pick) (picks : List Pick) (w : World)
      → Prompt n (pick ∷ picks) w
      → Inv n start w
      → Inv n start (move n pick w)
  unfolding move
  move-Inv (call i c) picks w prompt inv = begun-Inv s w inv i (w.contexts i).phase c refl
  move-Inv (go i) picks w prompt inv = put_world-Inv s w inv i (w.contexts i).phase refl prompt.0
  move-Inv read picks w prompt inv = get_world-Inv s w inv w.reader refl inv.reader
  move-Inv take picks w prompt inv = take_world-Inv w inv w.taker

  pub interleave-Inv :
      (picks : List Pick) (w : World)
      → Prompt n picks w
      → Inv n start w
      → Inv n start (interleave n picks w)
  unfolding interleave
  interleave-Inv [] w prompt inv = inv
  interleave-Inv (pick ∷ picks) w prompt inv =
      interleave-Inv picks (move n pick w) prompt.1 (move-Inv pick picks w prompt inv)

  module _ (r : Ring) (x : Context) (small : start < 2 ^ 32) (picks : List Pick)
      (prompt : Prompt n picks (opening n start r x)) where
    abbrev pub after : World
    after = interleave n picks (opening n start r x)

    pub inv : Inv n start after
    inv = interleave-Inv picks (opening n start r x) prompt (opening-Inv r x small)

    -- From a ring after `outpost_ring_init_at(start)`, for every start below 2 ^ 32, on a slot
    -- count that divides 2 ^ 32 and is at least 2, however any number of contexts in
    -- `outpost_ring_put` and the consumer in `outpost_ring_get` and `outpost_ring_take_gap`
    -- alternate, with each access to shared memory a step, and no head running 2 ^ 32 reservations
    -- round between a context's load of it and its compare-and-swap: the records that the consumer
    -- has been given, and then those of the reservations that it has not taken, are the records
    -- that the contexts reserved slots for, in the order of the reservations, and at most the slot
    -- count is not taken.
    pub interleave-given :
        (after.given ++ span after.log after.taken (after.reserved - after.taken)
          ≡ span after.log start (after.reserved - start))
        × (after.taken ≤ after.reserved)
        × (after.reserved ≤ after.taken + n)
    interleave-given =
        let a : start + (after.taken - start) ≡ after.taken = omega (arith, inv.first) in
        let b : after.taken - start + (after.reserved - after.taken) ≡ after.reserved - start =
          omega (arith, inv.first, inv.order) in
        (
          ap (λ l. l ++ span after.log after.taken (after.reserved - after.taken)) inv.out
              ∙ ap
                  (λ k.
                    span after.log start (after.taken - start)
                    ++ span after.log k (after.reserved - after.taken))
                  (sym a)
              ∙ span-append after.log start (after.taken - start) (after.reserved - after.taken)
              ∙ ap (span after.log start) b,
          inv.order,
          inv.room,
        )

    writer :
        (i : ℕ)
        → writes (after.contexts i).phase ≡ true
        → IsWriter n after (after.contexts i) (head_of (after.contexts i).phase)
    writer i wi =
        IsContext-head_of n after (after.contexts i) (after.contexts i).phase wi (inv.context i)

    writer_slot :
        (i : ℕ) (wi : writes (after.contexts i).phase ≡ true)
        → index n (head_of (after.contexts i).phase) ≡ (after.contexts i).mine % n
    writer_slot i wi = ap (λ h. h % n) (writer i wi).local ∙ wrapped-mod s (after.contexts i).mine

    copier : (p : Reader) → copies p ≡ true → IsReader n after p → Reading n after (tail_of p) p
    copier (Reader.copy_cycles tail) c v = v
    copier (Reader.copy_kind tail out) c v = v
    copier (Reader.copy_a tail out) c v = v
    copier (Reader.copy_b tail out) c v = v
    copier Reader.rest c v = cc
    copier (Reader.get_head tail) c v = cc
    copier (Reader.get_seq tail) c v = cc
    copier (Reader.set_tail tail out) c v = cc

    apart_lem :
        (i j : ℕ)
        → writes (after.contexts i).phase ≡ true
        → writes (after.contexts j).phase ≡ true
        → index n (head_of (after.contexts i).phase) ≡ index n (head_of (after.contexts j).phase)
        → i ≡ j
    apart_lem i j wi wj e =
        let a = writer i wi in
        let b = writer j wj in
        inv.apart i j wi wj (
          same_slot s after.taken (after.contexts i).mine (after.contexts j).mine a.lower
            (omega (arith, a.upper, inv.room)) b.lower (omega (arith, b.upper, inv.room))
            (sym (writer_slot i wi) ∙ e ∙ writer_slot j wj))

    reader_apart :
        (i : ℕ)
        → writes (after.contexts i).phase ≡ true
        → copies after.reader ≡ true
        → index n (head_of (after.contexts i).phase) ≢ index n (tail_of after.reader)
    reader_apart i wi c e =
        let a = writer i wi in
        let v = copier after.reader c inv.reader in
        let slots =
          sym (writer_slot i wi) ∙ e ∙ ap (λ t. t % n) v.local ∙ wrapped-mod s after.taken in
        let same =
          same_slot s after.taken (after.contexts i).mine after.taken a.lower
            (omega (arith, a.upper, inv.room)) (omega arith) (omega (arith, s.two)) slots in
        a.private (
          ap (λ p. (slot n after.ring p).seq) same
          ∙ v.ready
          ∙ ap (λ p. seq_for (p % 2 ^ 32)) (sym same)
          ∙ ap seq_for (sym a.local))

    -- In such a run two contexts that are between their reservation and their publication never
    -- have the same slot, and none of them has the slot that the consumer is copying out of: the
    -- plain fields of a slot are never accessed by two at once.
    pub interleave-apart :
        ((i j : ℕ)
          → writes (after.contexts i).phase ≡ true
          → writes (after.contexts j).phase ≡ true
          → index n (head_of (after.contexts i).phase) ≡ index n (head_of (after.contexts j).phase)
          → i ≡ j)
        × ((i : ℕ)
            → writes (after.contexts i).phase ≡ true
            → copies after.reader ≡ true
            → index n (head_of (after.contexts i).phase) ≢ index n (tail_of after.reader))
    interleave-apart = (apart_lem, reader_apart)
