-- ===== src/Interleaving/Reserve.antt =====
-- The compare-and-swap that succeeds: the next reservation.
use embarch_outpost.Prelude.{
  ℕ, ◌+◌, ◌-◌, ◌%◌, ◌^◌, ◌≤◌, ◌<◌, ◌≡◌, ◌≢◌, ◌⊎◌, inl, inr, refl, sym, ap, ◌∙◌, true, false, arith,
}
use native.Mathlib.Decide.{ℕ_discrete}
use mathlib.Core.Path.{subst}
use embarch_outpost.Ring.{Phase, add32, seq_for}
use embarch_outpost.Interleaving.{Context, World, override}
use embarch_outpost.Interleaving.Invariant.{
  writes, slot, IsOut, IsWriter, Writing, IsContext, Owner, Inv,
}
use embarch_outpost.Interleaving.Quiet.{
  override_same, override_ne, IsContext-IsWriter, contexts_keep, reader_keep, apart_keep,
}
use embarch_outpost.Interleaving.Window.{span_keep}

module _ {n start : ℕ} (w : World) (inv : Inv n start w) (i head : ℕ) where
  abbrev x : Context
  x = w.contexts i

  abbrev winner : Context
  winner = record x { phase = Phase.write_cycles head; mine = w.reserved }

  abbrev pub won_world : World
  won_world = record w {
    ring = record w.ring { head = add32 head 1 };
    contexts = override w.contexts i winner;
    reserved = w.reserved + 1;
    log = override w.log w.reserved x.call.rec;
  }

  module _ (at : x.phase ≡ Phase.cas head) (current : w.ring.head ≡ head)
      (prompt : w.reserved < x.seen + 2 ^ 32) where
    known : IsContext n w x (Phase.cas head)
    known = subst (IsContext n w x) at (inv.context i)

    -- The head is the one that the context has seen, and not one that has run round.
    unwrapped : w.reserved ≡ x.seen
    unwrapped = omega (arith, known, inv.head, current)

    local : head ≡ w.reserved % 2 ^ 32
    local = omega (arith, inv.head, current)

    quiet : writes x.phase ≡ false
    quiet = ap writes at

    log_below : (pos : ℕ) → pos < w.reserved → won_world.log pos ≡ w.log pos
    log_below pos lt = override_ne w.log w.reserved pos x.call.rec (omega arith)

    other : (j : ℕ) → writes (w.contexts j).phase ≡ true → i ≢ j
    other j wr same = ground (arith, quiet)

    writer :
        (j : ℕ)
        → writes (w.contexts j).phase ≡ true
        → (head' : ℕ) × IsWriter n w (w.contexts j) head'
    writer j wr = IsContext-IsWriter n w (w.contexts j) (w.contexts j).phase wr (inv.context j)

    private : (slot n w.ring w.reserved).seq ≢ seq_for head
    private e =
        let (lt, same) =
          inv.fresh w.reserved inv.order (omega (arith, unwrapped, known)) (e ∙ ap seq_for local) in
        omega arith

    now : Writing n won_world winner head (Phase.write_cycles head)
    now = record {
      writer = record {
        local = local;
        lower = inv.order;
        upper = omega arith;
        private = λ e. private e;
        record_of = override_same w.log w.reserved x.call.rec;
      };
      written = tt;
    }

    still : (pos : ℕ) → IsOut n w.ring pos ⊎ Owner w pos → IsOut n w.ring pos ⊎ Owner won_world pos
    still pos (inl o) = inl o
    still pos (inr (k, wr, e)) =
        let ne = other k wr in
        inr (
          k,
          rw (override_ne w.contexts i k winner ne) wr,
          rw (override_ne w.contexts i k winner ne) e,
        )

    owned :
        (pos : ℕ)
        → w.taken ≤ pos
        → pos < w.reserved + 1
        → Dec (pos ≡ w.reserved)
        → IsOut n w.ring pos ⊎ Owner won_world pos
    owned pos lo hi (yes e) = inr (
      i,
      rw (override_same w.contexts i winner) refl,
      rw (override_same w.contexts i winner) (sym e),
    )
    owned pos lo hi (no ne) = still pos (inv.covered pos lo (omega arith))

    pub won-Inv : Inv n start won_world
    won-Inv = record {
      head = omega (arith, local);
      tail = inv.tail;
      first = inv.first;
      order = omega (arith, inv.order);
      room = omega (arith, unwrapped, known);
      out =
          inv.out
          ∙ sym (
              span_keep w.log won_world.log start (w.taken - start)
                (λ pos lt. log_below pos (omega (arith, inv.first, inv.order))));
      fresh = λ pos lo hi o.
          let (lt, e) = inv.fresh pos lo hi o in (omega arith, e ∙ sym (log_below pos lt));
      context =
          contexts_keep n w won_world i winner refl (omega arith) (omega arith)
            (λ j ne wr.
              let (h, k) = writer j wr in (k.lower, refl, log_below (w.contexts j).mine k.upper))
            inv.context now;
      apart =
          apart_keep w.contexts i winner inv.apart
            (λ j ne wr e. let (h, k) = writer j wr in omega (arith, k.upper));
      covered = λ pos lo hi. owned pos lo hi (ℕ_discrete pos w.reserved);
      reader =
          reader_keep n w won_world w.reader (omega arith) refl (λ o. refl)
            (λ lt. log_below w.taken lt) inv.reader;
    }
