-- ===== src/Interleaving/Write.antt =====
-- The stores of a context to the slot that it has reserved, and the publication.
use embarch_outpost.Prelude.{
  ℕ, ◌+◌, ◌%◌, ◌^◌, ◌≤◌, ◌<◌, ◌≡◌, ◌≢◌, ◌⊎◌, inl, inr, refl, sym, ap, ◌∙◌, true, false, arith,
}
use native.Mathlib.Decide.{ℕ_discrete}
use mathlib.Core.Path.{subst}
use embarch_outpost.Ring.{Slot, Phase, edit, seq_for}
use embarch_outpost.Ring.Config.{IsSlots}
use embarch_outpost.Interleaving.{Context, World, override}
use embarch_outpost.Interleaving.Invariant.{writes, slot, IsOut, IsWriter, IsContext, Owner, Inv}
use embarch_outpost.Interleaving.Quiet.{
  override_same, override_ne, IsContext-IsWriter, contexts_keep, reader_keep, apart_keep,
}
use embarch_outpost.Interleaving.Window.{slot_mine, slot_other}

module _ {n start : ℕ} (s : IsSlots n) (w : World) (inv : Inv n start w) (i head : ℕ)
    (f : Slot → Slot) (phase : Phase) (writing : writes (w.contexts i).phase ≡ true)
    (own : IsWriter n w (w.contexts i) head) where
  abbrev x : Context
  x = w.contexts i

  abbrev next : Context
  next = record x { phase = phase }

  abbrev pub stored_world : World
  stored_world = record w { ring = edit n w.ring head f; contexts = override w.contexts i next }

  in_window : x.mine < w.taken + n
  in_window = omega (arith, own.upper, inv.room)

  pub at_mine : slot n stored_world.ring x.mine ≡ f (slot n w.ring x.mine)
  at_mine = slot_mine s w.ring head x.mine w.taken f own.local own.lower in_window

  elsewhere :
      (pos : ℕ)
      → w.taken ≤ pos
      → pos < w.taken + n
      → x.mine ≢ pos
      → slot n stored_world.ring pos ≡ slot n w.ring pos
  elsewhere = slot_other s w.ring head x.mine w.taken f own.local own.lower in_window

  not_out : (pos : ℕ) → IsOut n w.ring pos → x.mine ≢ pos
  not_out pos o e = own.private (
      ap (λ k. (slot n w.ring k).seq) e
      ∙ o
      ∙ ap (λ k. seq_for (k % 2 ^ 32)) (sym e)
      ∙ ap seq_for (sym own.local))

  not_other : (j : ℕ) → i ≢ j → writes (w.contexts j).phase ≡ true → x.mine ≢ (w.contexts j).mine
  not_other j ne wr e = ne (inv.apart i j writing wr e)

  others :
      (j : ℕ)
      → i ≢ j
      → writes (w.contexts j).phase ≡ true
      → (w.taken ≤ (w.contexts j).mine)
        × (slot n stored_world.ring (w.contexts j).mine ≡ slot n w.ring (w.contexts j).mine)
        × (w.log (w.contexts j).mine ≡ w.log (w.contexts j).mine)
  others j ne wr =
      let (h, k) = IsContext-IsWriter n w (w.contexts j) (w.contexts j).phase wr (inv.context j) in
      (
        k.lower,
        elsewhere (w.contexts j).mine k.lower (omega (arith, k.upper, inv.room))
            (not_other j ne wr),
        refl,
      )

  oldest : IsOut n w.ring w.taken → slot n stored_world.ring w.taken ≡ slot n w.ring w.taken
  oldest o =
      elsewhere w.taken (omega arith) (omega (arith, own.lower, in_window)) (not_out w.taken o)

  apart_lem :
      (a b : ℕ)
      → writes (stored_world.contexts a).phase ≡ true
      → writes (stored_world.contexts b).phase ≡ true
      → (stored_world.contexts a).mine ≡ (stored_world.contexts b).mine
      → a ≡ b
  apart_lem = apart_keep w.contexts i next inv.apart (λ j ne wr e. not_other j ne wr (sym e))

  -- The slot of any reservation in the window, after the store.
  slot_lem :
      (P : Slot → Type 0) (pos : ℕ)
      → w.taken ≤ pos
      → pos < w.taken + n
      → (x.mine ≡ pos → P (f (slot n w.ring pos)))
      → (x.mine ≢ pos → P (slot n w.ring pos))
      → P (slot n stored_world.ring pos)
  slot_lem P pos lo hi here there = elim (ℕ_discrete x.mine pos) [
    | yes e ↦
        subst (λ k. P (slot n stored_world.ring k)) e
          (subst P (sym at_mine) (subst (λ k. P (f (slot n w.ring k))) (sym e) (here e)))
    | no ne ↦ subst P (sym (elsewhere pos lo hi ne)) (there ne)
  ]

  module _ (same : (c : Slot) → (f c).seq ≡ c.seq) where
    seq_lem :
        (pos : ℕ)
        → w.taken ≤ pos
        → pos < w.taken + n
        → (slot n stored_world.ring pos).seq ≡ (slot n w.ring pos).seq
    seq_lem pos lo hi =
        slot_lem (λ c. c.seq ≡ (slot n w.ring pos).seq) pos lo hi (λ e. same (slot n w.ring pos))
          (λ ne. refl)

    store-Owner :
        (pos : ℕ)
        → w.taken ≤ pos
        → pos < w.taken + n
        → writes phase ≡ true
        → IsOut n w.ring pos ⊎ Owner w pos
        → IsOut n stored_world.ring pos ⊎ Owner stored_world pos
    store-Owner pos lo hi going (inl o) = inl (seq_lem pos lo hi ∙ o)
    store-Owner pos lo hi going (inr (k, wr, e)) = elim (ℕ_discrete i k) [
      | yes ek ↦ inr (
        i,
        rw (override_same w.contexts i next) going,
        rw (override_same w.contexts i next) (ap (λ j. (w.contexts j).mine) ek ∙ e),
      )
      | no ne ↦
          inr (
            k,
            rw (override_ne w.contexts i k next ne) wr,
            rw (override_ne w.contexts i k next ne) e,
          )
    ]

    -- A field of the record is stored; the slot stays unpublished.
    pub store-Inv :
        writes phase ≡ true → IsContext n stored_world next phase → Inv n start stored_world
    store-Inv going now = record {
      head = inv.head;
      tail = inv.tail;
      first = inv.first;
      order = inv.order;
      room = inv.room;
      out = inv.out;
      fresh = λ pos lo hi o.
          let old : IsOut n w.ring pos = sym (seq_lem pos lo hi) ∙ o in
          let (lt, e) = inv.fresh pos lo hi old in
          (lt, ap (λ (c : Slot). c.rec) (elsewhere pos lo hi (not_out pos old)) ∙ e);
      context =
          contexts_keep n w stored_world i next refl (omega arith) (omega arith) others inv.context
            now;
      apart = apart_lem;
      covered =
          λ pos lo hi. store-Owner pos lo (omega (arith, inv.room)) going (inv.covered pos lo hi);
      reader =
          reader_keep n w stored_world w.reader (omega arith) refl oldest (λ lt. refl) inv.reader;
    }

  publish-Owner :
      (pos : ℕ)
      → w.taken ≤ pos
      → pos < w.taken + n
      → ((c : Slot) → (f c).seq ≡ seq_for head)
      → IsOut n w.ring pos ⊎ Owner w pos
      → IsOut n stored_world.ring pos ⊎ Owner stored_world pos
  publish-Owner pos lo hi out (inl o) =
      inl (ap (λ (c : Slot). c.seq) (elsewhere pos lo hi (not_out pos o)) ∙ o)
  publish-Owner pos lo hi out (inr (k, wr, e)) = elim (ℕ_discrete i k) [
    | yes ek ↦ inl (
        slot_lem (λ c. c.seq ≡ seq_for (pos % 2 ^ 32)) pos lo hi
          (λ m. out (slot n w.ring pos) ∙ ap seq_for own.local ∙ ap (λ k. seq_for (k % 2 ^ 32)) m)
          (λ ne. absurd (ne (ap (λ j. (w.contexts j).mine) ek ∙ e))))
    | no ne ↦
        inr
          (k, rw (override_ne w.contexts i k next ne) wr, rw (override_ne w.contexts i k next ne) e)
  ]

  -- The publication: the slot holds the record that it was reserved for.
  pub publish-Inv :
      ((c : Slot) → (f c).seq ≡ seq_for head)
      → ((c : Slot) → (f c).rec ≡ c.rec)
      → (slot n w.ring x.mine).rec ≡ x.call.rec
      → writes phase ≡ false
      → IsContext n stored_world next phase
      → Inv n start stored_world
  publish-Inv out kept full over now = record {
    head = inv.head;
    tail = inv.tail;
    first = inv.first;
    order = inv.order;
    room = inv.room;
    out = inv.out;
    fresh = λ pos lo hi o. elim (ℕ_discrete x.mine pos) [
      | yes e ↦ (
        omega (arith, own.upper),
        subst (λ k. (slot n stored_world.ring k).rec ≡ w.log k) e
            (ap (λ (c : Slot). c.rec) at_mine
              ∙ kept (slot n w.ring x.mine)
              ∙ full
              ∙ sym own.record_of),
      )
      | no ne ↦
          let there = elsewhere pos lo hi ne in
          let (lt, e) = inv.fresh pos lo hi (sym (ap (λ (c : Slot). c.seq) there) ∙ o) in
          (lt, ap (λ (c : Slot). c.rec) there ∙ e)
    ];
    context =
        contexts_keep n w stored_world i next refl (omega arith) (omega arith) others inv.context
          now;
    apart = apart_lem;
    covered =
        λ pos lo hi. publish-Owner pos lo (omega (arith, inv.room)) out (inv.covered pos lo hi);
    reader =
        reader_keep n w stored_world w.reader (omega arith) refl oldest (λ lt. refl) inv.reader;
  }
