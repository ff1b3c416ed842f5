-- ===== src/Interleaving/Consume.antt =====
-- Every step of the consumer keeps the invariant.
use embarch_outpost.Prelude.{
  ap₂, suc, ℕ, ◌+◌, ◌-◌, ◌%◌, ◌^◌, ◌≡◌, ◌≢◌, inl, inr, refl, sym, ap, ◌∙◌, true, Bool-cases, [],
  ◌∷◌, ◌++◌, ◌==◌, ==_iff, arith,
}
use native.Mathlib.Decide.{ℕ_discrete}
use native.Mathlib.Nat.{add-mod_right}
use mathlib.Core.Path.{subst}
use embarch_outpost.Wire.{Rec}
use embarch_outpost.Ring.{add32, seq_for}
use embarch_outpost.Ring.Config.{IsSlots}
use embarch_outpost.Ring.Seq.{wrapped-mod, seq_for-injective}
use embarch_outpost.Ring.Reader.{Reader, get_step}
use embarch_outpost.Interleaving.{World, get_world}
use embarch_outpost.Interleaving.Invariant.{span, writes, slot, IsOut, Reading, IsReader, Inv}
use embarch_outpost.Interleaving.Quiet.{IsContext-IsWriter, context_keep}
use embarch_outpost.Interleaving.Window.{span-snoc}

module _ {n start : ℕ} (s : IsSlots n) (w : World) (inv : Inv n start w) where
  -- The consumer moves on, and nothing else changes.
  reader_step :
      (p : Reader) → IsReader n (record w { reader = p }) p → Inv n start (record w { reader = p })
  reader_step p now = record {
    head = inv.head;
    tail = inv.tail;
    first = inv.first;
    order = inv.order;
    room = inv.room;
    out = inv.out;
    fresh = inv.fresh;
    context = λ i.
        context_keep n w (record w { reader = p }) (w.contexts i) (w.contexts i).phase (omega arith)
          (omega arith)
          (λ wr. (
            (IsContext-IsWriter n w (w.contexts i) (w.contexts i).phase wr (inv.context i)).1.lower,
            refl,
            refl,
          ))
          (inv.context i);
    apart = inv.apart;
    covered = inv.covered;
    reader = now;
  }

  -- The slot that the consumer reads is that of the oldest reservation, and holds its record.
  module _ (tail : ℕ) (local : tail ≡ w.taken % 2 ^ 32) where
    index_lem : tail % n ≡ w.taken % n
    index_lem = ap (λ t. t % n) local ∙ wrapped-mod s w.taken

    found : IsOut n w.ring w.taken → (w.ring.slots (tail % n)).rec ≡ w.log w.taken
    found o = rw index_lem (inv.fresh w.taken (omega arith) (omega (arith, s.two)) o).1

  module _ (tail : ℕ) (out : Rec) (v : Reading n w tail (Reader.set_tail tail out)) where
    abbrev freed_world : World
    freed_world = record w {
      ring = record w.ring { tail = add32 tail 1 };
      reader = Reader.rest;
      given = w.given ++ out ∷ [];
      taken = w.taken + 1;
    }

    not_oldest : (i : ℕ) → writes (w.contexts i).phase ≡ true → (w.contexts i).mine ≢ w.taken
    not_oldest i wr e =
        let (h, k) =
          IsContext-IsWriter n w (w.contexts i) (w.contexts i).phase wr (inv.context i) in
        k.private (
          ap (λ p. (slot n w.ring p).seq) e
          ∙ v.ready
          ∙ ap (λ p. seq_for (p % 2 ^ 32)) (sym e)
          ∙ ap seq_for (sym k.local))

    -- The slot that comes free still has the sequence of the reservation that is gone, and not of the next.
    not_next : ¬ IsOut n w.ring (w.taken + n)
    not_next o =
        let same : (w.taken + n) % n ≡ w.taken % n = add-mod_right w.taken n in
        let e =
          seq_for-injective s ((w.taken + n) % 2 ^ 32) (w.taken % 2 ^ 32) (omega arith)
            (omega arith) (wrapped-mod s (w.taken + n) ∙ same ∙ sym (wrapped-mod s w.taken))
            (sym o ∙ ap (λ p. (w.ring.slots p).seq) same ∙ v.ready) in
        omega (arith, e, s.two, s.small)

    out_lem : w.given ++ out ∷ [] ≡ span w.log start (w.taken + 1 - start)
    out_lem =
        let count : w.taken + 1 - start ≡ suc (w.taken - start) = omega (arith, inv.first) in
        let last : start + (w.taken - start) ≡ w.taken = omega (arith, inv.first) in
        ap₂ (λ l r. l ++ r ∷ []) inv.out v.copied
        ∙ ap (λ p. span w.log start (w.taken - start) ++ w.log p ∷ []) (sym last)
        ∙ sym (span-snoc w.log start (w.taken - start))
        ∙ ap (span w.log start) (sym count)

    free-Inv : Inv n start freed_world
    free-Inv = record {
      head = inv.head;
      tail = omega (arith, v.local);
      first = omega (arith, inv.first);
      order = omega (arith, v.more);
      room = omega (arith, inv.room);
      out = out_lem;
      fresh = λ pos lo hi o. elim (ℕ_discrete pos (w.taken + n)) [
        | yes e ↦ absurd (not_next (subst (IsOut n w.ring) e o))
        | no ne ↦ inv.fresh pos (omega arith) (omega arith) o
      ];
      context = λ i.
          context_keep n w freed_world (w.contexts i) (w.contexts i).phase (omega arith)
            (omega arith)
            (λ wr. (
              omega (
                arith,
                not_oldest i wr,
                (IsContext-IsWriter n w (w.contexts i) (w.contexts i).phase wr
                    (inv.context i)).1.lower,
              ),
              refl,
              refl,
            ))
            (inv.context i);
      apart = inv.apart;
      covered = λ pos lo hi. inv.covered pos (omega arith) hi;
      reader = tt;
    }

  -- A step of the consumer, by its place.
  pub get_world-Inv : (p : Reader) → w.reader ≡ p → IsReader n w p → Inv n start (get_world n p w)
  unfolding get_step
  get_world-Inv Reader.rest at v = reader_step (Reader.get_head w.ring.tail) inv.tail
  get_world-Inv (Reader.get_head tail) at v = elim (Bool-cases (tail == w.ring.head)) [
    | inl e ↦ rw e (reader_step Reader.rest tt)
    | inr ne ↦ rw ne (reader_step (Reader.get_seq tail) (v, ground (arith, inv.head, inv.order)))
  ]
  get_world-Inv (Reader.get_seq tail) at v =
      elim (Bool-cases ((w.ring.slots (tail % n)).seq == seq_for tail)) [
        | inl e ↦ rw e (
            reader_step (Reader.copy_cycles tail) (record {
              local = v.0;
              more = v.1;
              ready =
                  ap (λ k. (w.ring.slots k).seq) (sym (index_lem tail v.0))
                  ∙ (==_iff _ (seq_for tail)).0 e
                  ∙ ap seq_for v.0;
              copied = tt;
            }))
        | inr e ↦ rw e (reader_step Reader.rest tt)
      ]
  get_world-Inv (Reader.copy_cycles tail) at v = reader_step _ (record {
    local = v.local;
    more = v.more;
    ready = v.ready;
    copied = ap (λ (r : Rec). r.cycles) (found tail v.local v.ready);
  })
  get_world-Inv (Reader.copy_kind tail out) at v = reader_step _ (record {
    local = v.local;
    more = v.more;
    ready = v.ready;
    copied = (v.copied, ap (λ (r : Rec). r.kind) (found tail v.local v.ready));
  })
  get_world-Inv (Reader.copy_a tail out) at v = reader_step _ (record {
    local = v.local;
    more = v.more;
    ready = v.ready;
    copied = (v.copied.0, v.copied.1, ap (λ (r : Rec). r.a) (found tail v.local v.ready));
  })
  get_world-Inv (Reader.copy_b tail out) at v = reader_step _ (record {
    local = v.local;
    more = v.more;
    ready = v.ready;
    copied = ground (arith, v.copied, ap (λ (r : Rec). r.b) (found tail v.local v.ready));
  })
  get_world-Inv (Reader.set_tail tail out) at v = free-Inv tail out v
