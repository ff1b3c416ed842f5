-- ===== src/Interleaving/Quiet.antt =====
-- Steps that touch no slot and no counter of the ring.
use embarch_outpost.Prelude.{
  ℕ, ◌%◌, ◌^◌, ◌≤◌, ◌<◌, ◌≡◌, ◌≢◌, ◌⊎◌, inl, inr, refl, sym, ap, ◌∙◌, true, false, ==_refl, ==_ne,
  arith,
}
use native.Mathlib.Decide.{ℕ_discrete}
use mathlib.Core.Path.{subst}
use embarch_outpost.Ring.{Phase}
use embarch_outpost.Ring.Reader.{Reader}
use embarch_outpost.Interleaving.{Context, World, override}
use embarch_outpost.Interleaving.Invariant.{
  writes, head_of, slot, IsOut, IsWriter, Writing, IsContext, Owner, Reading, IsReader, Inv,
}

pub override_same {ℓ} : {A : Type ℓ} (f : ℕ → A) (i : ℕ) (x : A) → override f i x i ≡ x
override_same f i x = rw (==_refl i)

pub override_ne {ℓ} : {A : Type ℓ} (f : ℕ → A) (i j : ℕ) (x : A) → i ≢ j → override f i x j ≡ f j
override_ne f i j x h = rw (==_ne i j h)

module _ (n : ℕ) (w w' : World) where
  writing_keep :
      (x : Context) (head : ℕ) (p : Phase)
      → w.reserved ≤ w'.reserved
      → (w'.taken ≤ x.mine)
        × (slot n w'.ring x.mine ≡ slot n w.ring x.mine)
        × (w'.log x.mine ≡ w.log x.mine)
      → Writing n w x head p
      → Writing n w' x head p
  writing_keep x head p more (lower, same, logged) v = record {
    writer = record {
      local = v.writer.local;
      lower = lower;
      upper = omega (arith, v.writer.upper);
      private = rw same v.writer.private;
      record_of = logged ∙ v.writer.record_of;
    };
    written = rw same v.written;
  }

  pub context_keep :
      (x : Context) (p : Phase)
      → w.reserved ≤ w'.reserved
      → w.taken ≤ w'.taken
      → (writes p ≡ true
          → (w'.taken ≤ x.mine)
            × (slot n w'.ring x.mine ≡ slot n w.ring x.mine)
            × (w'.log x.mine ≡ w.log x.mine))
      → IsContext n w x p
      → IsContext n w' x p
  context_keep x Phase.load_head r t m v = tt
  context_keep x (Phase.load_tail head) r t m v = omega (arith, v)
  context_keep x (Phase.cas head) r t m v = omega (arith, v)
  context_keep x (Phase.write_cycles head) r t m v = writing_keep x head _ r (m refl) v
  context_keep x (Phase.write_kind head) r t m v = writing_keep x head _ r (m refl) v
  context_keep x (Phase.write_a head) r t m v = writing_keep x head _ r (m refl) v
  context_keep x (Phase.write_b head) r t m v = writing_keep x head _ r (m refl) v
  context_keep x (Phase.publish head) r t m v = writing_keep x head _ r (m refl) v
  context_keep x Phase.drop_count r t m v = tt
  context_keep x Phase.drop_first r t m v = tt
  context_keep x Phase.drop_last r t m v = tt
  context_keep x Phase.done r t m v = tt

  Reading-keep :
      (tail : ℕ) (p : Reader)
      → w.reserved ≤ w'.reserved
      → w'.taken ≡ w.taken
      → (IsOut n w.ring w.taken → slot n w'.ring w.taken ≡ slot n w.ring w.taken)
      → w'.log w.taken ≡ w.log w.taken
      → Reading n w tail p
      → Reading n w' tail p
  Reading-keep tail p more same ready logged v = record {
    local = v.local ∙ ap (λ t. t % 2 ^ 32) (sym same);
    more = omega (arith, v.more);
    ready = rw (same, ready v.ready) v.ready;
    copied = rw (same, logged) v.copied;
  }

  -- The consumer's place, when a context has moved.
  pub reader_keep :
      (p : Reader)
      → w.reserved ≤ w'.reserved
      → w'.taken ≡ w.taken
      → (IsOut n w.ring w.taken → slot n w'.ring w.taken ≡ slot n w.ring w.taken)
      → (w.taken < w.reserved → w'.log w.taken ≡ w.log w.taken)
      → IsReader n w p
      → IsReader n w' p
  reader_keep Reader.rest r t s l v = tt
  reader_keep (Reader.get_head tail) r t s l v = v ∙ ap (λ t. t % 2 ^ 32) (sym t)
  reader_keep (Reader.get_seq tail) r t s l v = omega (arith, v)
  reader_keep (Reader.copy_cycles tail) r t s l v = Reading-keep tail _ r t s (l v.more) v
  reader_keep (Reader.copy_kind tail out) r t s l v = Reading-keep tail _ r t s (l v.more) v
  reader_keep (Reader.copy_a tail out) r t s l v = Reading-keep tail _ r t s (l v.more) v
  reader_keep (Reader.copy_b tail out) r t s l v = Reading-keep tail _ r t s (l v.more) v
  reader_keep (Reader.set_tail tail out) r t s l v = Reading-keep tail _ r t s (l v.more) v

  -- All contexts, when context `i` has moved and is now `x`.
  pub contexts_keep :
      (i : ℕ) (x : Context)
      → w'.contexts ≡ override w.contexts i x
      → w.reserved ≤ w'.reserved
      → w.taken ≤ w'.taken
      → ((j : ℕ)
          → i ≢ j
          → writes (w.contexts j).phase ≡ true
          → (w'.taken ≤ (w.contexts j).mine)
            × (slot n w'.ring (w.contexts j).mine ≡ slot n w.ring (w.contexts j).mine)
            × (w'.log (w.contexts j).mine ≡ w.log (w.contexts j).mine))
      → ((j : ℕ) → IsContext n w (w.contexts j) (w.contexts j).phase)
      → IsContext n w' x x.phase
      → (j : ℕ) → IsContext n w' (w'.contexts j) (w'.contexts j).phase
  contexts_keep i x moved r t others v now j =
      subst (λ (f : ℕ → Context). IsContext n w' (f j) (f j).phase) (sym moved)
        (elim (ℕ_discrete i j) [
          | yes e ↦ rw (← e, override_same w.contexts i x) now
          | no ne ↦
              rw (override_ne w.contexts i j x ne)
                (context_keep (w.contexts j) (w.contexts j).phase r t (others j ne) (v j))
        ])

-- What a writing context knows of its reservation.
pub IsContext-head_of :
    (n : ℕ) (w : World) (x : Context) (p : Phase)
    → writes p ≡ true
    → IsContext n w x p
    → IsWriter n w x (head_of p)
IsContext-head_of n w x (Phase.write_cycles head) wr v = v.writer
IsContext-head_of n w x (Phase.write_kind head) wr v = v.writer
IsContext-head_of n w x (Phase.write_a head) wr v = v.writer
IsContext-head_of n w x (Phase.write_b head) wr v = v.writer
IsContext-head_of n w x (Phase.publish head) wr v = v.writer
IsContext-head_of n w x Phase.load_head wr v = cc
IsContext-head_of n w x (Phase.load_tail head) wr v = cc
IsContext-head_of n w x (Phase.cas head) wr v = cc
IsContext-head_of n w x Phase.drop_count wr v = cc
IsContext-head_of n w x Phase.drop_first wr v = cc
IsContext-head_of n w x Phase.drop_last wr v = cc
IsContext-head_of n w x Phase.done wr v = cc

pub IsContext-IsWriter :
    (n : ℕ) (w : World) (x : Context) (p : Phase)
    → writes p ≡ true
    → IsContext n w x p
    → (head : ℕ) × IsWriter n w x head
IsContext-IsWriter n w x p wr v = (head_of p, IsContext-head_of n w x p wr v)

-- A step of context `i` that goes from one phase outside the writing to another, and touches the
-- account of the losses at most.
module _ {n start : ℕ} (w : World) (inv : Inv n start w) (i : ℕ) (x : Context)
    (dropped first last : ℕ) where
  abbrev quiet_world : World
  quiet_world = record w {
    ring = record w.ring { gap_dropped = dropped; gap_first = first; gap_last = last };
    contexts = override w.contexts i x;
  }

  pub quiet-Inv :
      writes (w.contexts i).phase ≡ false
      → writes x.phase ≡ false
      → IsContext n w x x.phase
      → Inv n start quiet_world
  quiet-Inv before after now = record {
    head = inv.head;
    tail = inv.tail;
    first = inv.first;
    order = inv.order;
    room = inv.room;
    out = inv.out;
    fresh = inv.fresh;
    context =
        contexts_keep n w quiet_world i x refl (omega arith) (omega arith)
          (λ j ne wr. (
            (IsContext-IsWriter n w (w.contexts j) (w.contexts j).phase wr (inv.context j)).1.lower,
            refl,
            refl,
          ))
          inv.context
          (context_keep n w quiet_world x x.phase (omega arith) (omega arith)
            (λ wr. absurd (ground arith)) now);
    apart = λ a b wa wb e. ground (arith, inv.apart a b);
    covered = λ pos lo hi. owner_keep pos (inv.covered pos lo hi);
    reader =
        reader_keep n w quiet_world w.reader (omega arith) refl (λ o. refl) (λ o. refl) inv.reader;
  }
    where
      owner_keep :
          (pos : ℕ) → IsOut n w.ring pos ⊎ Owner w pos → IsOut n w.ring pos ⊎ Owner quiet_world pos
      owner_keep pos (inl o) = inl o
      owner_keep pos (inr (k, wr, e)) =
          let ne : i ≢ k = λ same. ground arith in
          inr (k, rw (override_ne w.contexts i k x ne) wr, rw (override_ne w.contexts i k x ne) e)

-- A context whose reservation is no other's leaves the reservations apart.
pub apart_keep :
    (contexts : ℕ → Context) (i : ℕ) (x : Context)
    → ((a b : ℕ)
        → writes (contexts a).phase ≡ true
        → writes (contexts b).phase ≡ true
        → (contexts a).mine ≡ (contexts b).mine
        → a ≡ b)
    → ((j : ℕ) → i ≢ j → writes (contexts j).phase ≡ true → (contexts j).mine ≢ x.mine)
    → (a b : ℕ) → writes (override contexts i x a).phase ≡ true
    → writes (override contexts i x b).phase ≡ true
    → (override contexts i x a).mine ≡ (override contexts i x b).mine
    → a ≡ b
apart_keep contexts i x apart own a b wa wb e = elim (ℕ_discrete i a) [
  | yes ea ↦ elim (ℕ_discrete i b) [
    | yes eb ↦ sym ea ∙ eb
    | no nb ↦ absurd (
        own b nb (rw (override_ne contexts i b x nb) at wb)
          (ground (arith, override_ne contexts i b x nb)))
  ]
  | no na ↦ elim (ℕ_discrete i b) [
    | yes eb ↦ absurd (
        own a na (rw (override_ne contexts i a x na) at wa)
          (ground (arith, override_ne contexts i a x na)))
    | no nb ↦ ground (arith, apart a b)
  ]
]
