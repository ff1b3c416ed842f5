-- ===== src/Interleaving/Produce.antt =====
-- Every step of a producer keeps the invariant.
use embarch_outpost.Prelude.{
  ℕ, ◌<◌, ◌≡◌, inl, inr, refl, sym, ap, ◌∙◌, Bool, true, false, Bool-cases, ◌==◌, ==_iff, leb,
  arith,
}
use mathlib.Core.Path.{subst, fun_ext}
use embarch_outpost.Ring.{Slot, Call, Phase, edit, sub32, seq_for, put_step, after_loads}
use embarch_outpost.Ring.Config.{IsSlots}
use embarch_outpost.Interleaving.{Context, World, override, begun, put_world, PromptPhase}
use embarch_outpost.Interleaving.Invariant.{
  writes, slot, IsWriter, Written, Writing, IsContext, Inv,
}
use embarch_outpost.Interleaving.Quiet.{quiet-Inv}
use embarch_outpost.Interleaving.Reserve.{won-Inv}
use embarch_outpost.Interleaving.Write.{at_mine, stored_world, store-Inv, publish-Inv}

module _ {n start : ℕ} (s : IsSlots n) (w : World) (inv : Inv n start w) (i : ℕ) where
  abbrev x : Context
  x = w.contexts i

  IsWriter-keep :
      (head : ℕ) (f : Slot → Slot) (phase : Phase) (writing : writes x.phase ≡ true)
      (own : IsWriter n w x head)
      → ((c : Slot) → (f c).seq ≡ c.seq)
      → IsWriter n
          (stored_world s w inv i head f phase writing own)
          (record x { phase = phase })
          head
  IsWriter-keep head f phase writing own same = record {
    local = own.local;
    lower = own.lower;
    upper = own.upper;
    private = λ e. own.private (
        sym (
          ap (λ (c : Slot). c.seq) (at_mine s w inv i head f phase writing own)
          ∙ same (slot n w.ring x.mine))
        ∙ e);
    record_of = own.record_of;
  }

  -- A store of one field, from a phase that writes to the next.
  store_step :
      (head : ℕ) (f : Slot → Slot) (p phase : Phase)
      → x.phase ≡ p
      → writes p ≡ true
      → writes phase ≡ true
      → ((c : Slot) → (f c).seq ≡ c.seq)
      → Writing n w x head p
      → (Written p x.call.rec (slot n w.ring x.mine).rec
          → Written phase x.call.rec (f (slot n w.ring x.mine)).rec)
      → ((w' : World) (y : Context) → Writing n w' y head phase → IsContext n w' y phase)
      → Inv n start (record w {
        ring = edit n w.ring head f;
        contexts = override w.contexts i (record x { phase = phase });
      })
  store_step head f p phase at before going same v more close =
      let writing = ap writes at ∙ before in
      let own = v.writer in
      store-Inv s w inv i head f phase writing own same going (
        close _ _ (record {
          writer = IsWriter-keep head f phase writing own same;
          written =
              subst (λ (c : Slot). Written phase x.call.rec c.rec)
                (sym (at_mine s w inv i head f phase writing own)) (more v.written);
        }))

  publish_step :
      (head : ℕ)
      → x.phase ≡ Phase.publish head
      → Inv n start (record w {
        ring = edit n w.ring head (λ c. record c { seq = seq_for head });
        contexts = override w.contexts i (record x { phase = Phase.done });
      })
  publish_step head at =
      let v : Writing n w x head (Phase.publish head) =
        subst (IsContext n w x) at (inv.context i) in
      publish-Inv s w inv i head (λ c. record c { seq = seq_for head }) Phase.done (ap writes at)
        v.writer (λ c. refl) (λ c. refl) v.written refl tt

  known : (p : Phase) → x.phase ≡ p → IsContext n w x p
  known p at = subst (IsContext n w x) at (inv.context i)

  loaded :
      (head : ℕ) (block : Bool)
      → x.phase ≡ Phase.load_tail head
      → (writes (after_loads n block head w.ring.tail) ≡ false)
        × IsContext n w
            (record x { phase = after_loads n block head w.ring.tail })
            (after_loads n block head w.ring.tail)
  unfolding after_loads
  loaded head block at =
      let v = known (Phase.load_tail head) at in
      elim (Bool-cases (leb n (sub32 head w.ring.tail))) [
        | inl full ↦
            rw full (elim (Bool-cases block) [ inl b ↦ rw b (refl, tt) | inr b ↦ rw b (refl, tt) ])
        | inr room ↦
            let short : sub32 head w.ring.tail < n = ground arith in
            rw room (refl, (v.0, v.1, omega (arith, v, inv.tail, inv.room, s.small)))
      ]

  -- From the head of a step: the phase, and that the head has not run round.
  pub put_world-Inv :
      (p : Phase)
      → x.phase ≡ p
      → PromptPhase w.reserved p x.seen
      → Inv n start (put_world n i p x w)
  unfolding put_step
  put_world-Inv Phase.load_head at prompt =
      quiet-Inv w inv i (record x { phase = Phase.load_tail w.ring.head; seen = w.reserved }) _ _ _
        (ap writes at) refl (inv.head, omega arith)
  put_world-Inv (Phase.load_tail head) at prompt =
      let (silent, v) = loaded head x.call.may_block at in
      quiet-Inv w inv i (record x { phase = after_loads n x.call.may_block head w.ring.tail }) _ _ _
        (ap writes at) silent v
  put_world-Inv (Phase.cas head) at prompt = elim (Bool-cases (w.ring.head == head)) [
    | inl won ↦ rw won (won-Inv w inv i head at ((==_iff w.ring.head head).0 won) prompt)
    | inr lost ↦ rw lost (
        quiet-Inv w inv i (record x { phase = Phase.load_head; mine = w.reserved }) _ _ _
          (ap writes at) refl tt)
  ]
  put_world-Inv (Phase.write_cycles head) at prompt =
      store_step head (λ c. record c { rec = record c.rec { cycles = x.call.rec.cycles } }) _
        (Phase.write_kind head) at refl refl (λ c. refl) (known (Phase.write_cycles head) at)
        (λ v. refl) (λ w' y v. v)
  put_world-Inv (Phase.write_kind head) at prompt =
      store_step head (λ c. record c { rec = record c.rec { kind = x.call.rec.kind } }) _
        (Phase.write_a head) at refl refl (λ c. refl) (known (Phase.write_kind head) at)
        (λ v. (v, refl)) (λ w' y v. v)
  put_world-Inv (Phase.write_a head) at prompt =
      store_step head (λ c. record c { rec = record c.rec { a = x.call.rec.a } }) _
        (Phase.write_b head) at refl refl (λ c. refl) (known (Phase.write_a head) at)
        (λ v. (v.0, v.1, refl)) (λ w' y v. v)
  put_world-Inv (Phase.write_b head) at prompt =
      store_step head (λ c. record c { rec = record c.rec { b = x.call.rec.b } }) _
        (Phase.publish head) at refl refl (λ c. refl) (known (Phase.write_b head) at)
        (λ v. ground arith) (λ w' y v. v)
  put_world-Inv (Phase.publish head) at prompt = publish_step head at
  put_world-Inv Phase.drop_count at prompt = elim (Bool-cases (w.ring.gap_dropped == 0)) [
    | inl e ↦
        rw e
          (quiet-Inv w inv i (record x { phase = Phase.drop_first }) _ _ _ (ap writes at) refl tt)
    | inr e ↦
        rw e (quiet-Inv w inv i (record x { phase = Phase.drop_last }) _ _ _ (ap writes at) refl tt)
  ]
  put_world-Inv Phase.drop_first at prompt =
      quiet-Inv w inv i (record x { phase = Phase.drop_last }) _ _ _ (ap writes at) refl tt
  put_world-Inv Phase.drop_last at prompt =
      quiet-Inv w inv i (record x { phase = Phase.done }) _ _ _ (ap writes at) refl tt
  put_world-Inv Phase.done at prompt =
      quiet-Inv w inv i (record x { phase = Phase.done }) _ _ _ (ap writes at) refl tt

  same_world : Inv n start (record w { contexts = override w.contexts i x })
  same_world =
      subst (λ (f : ℕ → Context). Inv n start (record w { contexts = f })) (fun_ext same) inv
    where
      same : (j : ℕ) → w.contexts j ≡ override w.contexts i (w.contexts i) j
      same j = ground arith

  -- A context begins a call when its last is over.
  pub begun-Inv :
      (p : Phase) (c : Call)
      → x.phase ≡ p
      → Inv n start (record w { contexts = override w.contexts i (begun p c x) })
  begun-Inv Phase.done c at =
      quiet-Inv w inv i (record x { call = c; phase = Phase.load_head }) _ _ _ (ap writes at) refl
        tt
  begun-Inv Phase.load_head c at = same_world
  begun-Inv (Phase.load_tail h) c at = same_world
  begun-Inv (Phase.cas h) c at = same_world
  begun-Inv (Phase.write_cycles h) c at = same_world
  begun-Inv (Phase.write_kind h) c at = same_world
  begun-Inv (Phase.write_a h) c at = same_world
  begun-Inv (Phase.write_b h) c at = same_world
  begun-Inv (Phase.publish h) c at = same_world
  begun-Inv Phase.drop_count c at = same_world
  begun-Inv Phase.drop_first c at = same_world
  begun-Inv Phase.drop_last c at = same_world
