-- ===== src/Interleaving/Accounts.antt =====
-- All calls of a run, against the records and the accounts that it leaves.
use embarch_outpost.Prelude.{
  ℕ, zero, suc, ◌+◌, ◌-◌, ◌%◌, ◌^◌, ◌<◌, ◌≡◌, refl, ap, ◌∙◌, false, Bool-cases, inl, inr, List, [],
  ◌∷◌, length, ◌==◌, arith, Option, none, some,
}
use embarch_outpost.Wire.{Rec}
use embarch_outpost.Ring.{Ring, Call, Phase, Gap, put_step}
use embarch_outpost.Ring.Config.{IsSlots}
use embarch_outpost.Ring.Refine.{view}
use embarch_outpost.Ring.Reader.{Reader, get_step}
use embarch_outpost.Ring.Taker.{Taker, gap_of, take_step}
use embarch_outpost.Interleaving.{
  Context, World, Pick, call, go, read, take, begun, noted, logged, told, move, interleave, opening,
  put_world, get_world, take_world, Prompt,
}
use embarch_outpost.Interleaving.Invariant.{span, writes, Inv}
use embarch_outpost.Interleaving.Losses.{losing, losses, total, interleave-losses}
use embarch_outpost.Interleaving.Calls.{
  undecided, in_flight, starting, calls, Within, in_flight-override, undecided-after_loads,
}
use embarch_outpost.Interleaving.Run.{inv}
use embarch_outpost.Interleaving.Between.{interleave-IsValid}

module _ (n many : ℕ) where
  balance :
      (p : Phase) (x : Context) (w : World)
      → (logged p x.call.rec w).reserved + losing p + undecided (put_step n x.call p w.ring).0
        ≡ w.reserved + undecided p
  unfolding put_step
  balance Phase.load_head x w = omega arith
  balance (Phase.load_tail head) x w =
      omega (arith, undecided-after_loads n head w.ring.tail x.call.may_block)
  balance (Phase.cas head) x w = elim (Bool-cases (w.ring.head == head)) [
    | inl won ↦ rw won (omega arith)
    | inr lost ↦ rw lost (omega arith)
  ]
  balance (Phase.write_cycles head) x w = omega arith
  balance (Phase.write_kind head) x w = omega arith
  balance (Phase.write_a head) x w = omega arith
  balance (Phase.write_b head) x w = omega arith
  balance (Phase.publish head) x w = omega arith
  balance Phase.drop_count x w = elim (Bool-cases (w.ring.gap_dropped == 0)) [
    | inl t ↦ rw t (omega arith)
    | inr t ↦ rw t (omega arith)
  ]
  balance Phase.drop_first x w = omega arith
  balance Phase.drop_last x w = omega arith
  balance Phase.done x w = omega arith

  abbrev books : World → ℕ
  books w = w.reserved + in_flight many w.contexts

  put_world-books :
      (i : ℕ) (w : World)
      → i < many
      → books (put_world n i (w.contexts i).phase (w.contexts i) w) + losing (w.contexts i).phase
        ≡ books w
  put_world-books i w h =
      let x = w.contexts i in
      let w' = put_world n i x.phase x w in
      let counted : w'.reserved ≡ (logged x.phase x.call.rec w).reserved = refl in
      let moved : in_flight many w'.contexts + undecided x.phase
          ≡ in_flight many w.contexts + undecided (put_step n x.call x.phase w.ring).0 =
        in_flight-override many i w.contexts
          (record (noted w.reserved x.phase x) { phase = (put_step n x.call x.phase w.ring).0 })
          h in
      omega (arith, balance x.phase x w, counted, moved)

  get_world-books : (p : Reader) (w : World) → books (get_world n p w) ≡ books w
  unfolding get_step
  get_world-books Reader.rest w = refl
  get_world-books (Reader.get_head tail) w = refl
  get_world-books (Reader.get_seq tail) w = refl
  get_world-books (Reader.copy_cycles tail) w = refl
  get_world-books (Reader.copy_kind tail out) w = refl
  get_world-books (Reader.copy_a tail out) w = refl
  get_world-books (Reader.copy_b tail out) w = refl
  get_world-books (Reader.set_tail tail out) w = refl

  told-books : (out : Option Gap) (w : World) → books (told out w) ≡ books w
  told-books none w = refl
  told-books (some gap) w = refl

  take_world-books : (p : Taker) (w : World) → books (take_world p w) ≡ books w
  unfolding take_step
  take_world-books Taker.rest w = refl
  take_world-books (Taker.read_last first) w = refl
  take_world-books (Taker.clear first last) w = told-books (gap_of first last w.ring.gap_dropped) w

  begun-undecided :
      (p : Phase) (c : Call) (x : Context)
      → x.phase ≡ p
      → undecided (begun p c x).phase ≡ undecided p + starting p
  begun-undecided Phase.done c x e = refl
  begun-undecided Phase.load_head c x e = rw e refl
  begun-undecided (Phase.load_tail head) c x e = rw e refl
  begun-undecided (Phase.cas head) c x e = rw e refl
  begun-undecided (Phase.write_cycles head) c x e = rw e refl
  begun-undecided (Phase.write_kind head) c x e = rw e refl
  begun-undecided (Phase.write_a head) c x e = rw e refl
  begun-undecided (Phase.write_b head) c x e = rw e refl
  begun-undecided (Phase.publish head) c x e = rw e refl
  begun-undecided Phase.drop_count c x e = rw e refl
  begun-undecided Phase.drop_first c x e = rw e refl
  begun-undecided Phase.drop_last c x e = rw e refl

  -- Each call is begun, decided, or still undecided.
  run-books :
      (picks : List Pick) (w : World)
      → Within many picks
      → books (interleave n picks w) + losses n picks w ≡ books w + calls n picks w
  unfolding interleave move
  run-books [] w h = omega arith
  run-books (call i c ∷ picks) w h =
      let x = begun (w.contexts i).phase c (w.contexts i) in
      omega (
        arith,
        run-books picks (move n (call i c) w) h.1,
        in_flight-override many i w.contexts x h.0,
        begun-undecided (w.contexts i).phase c (w.contexts i) refl,
      )
  run-books (go i ∷ picks) w h =
      omega (arith, run-books picks (move n (go i) w) h.1, put_world-books i w h.0)
  run-books (read ∷ picks) w h =
      omega (arith, run-books picks (move n read w) h, get_world-books w.reader w)
  run-books (take ∷ picks) w h =
      omega (arith, run-books picks (move n take w) h, take_world-books w.taker w)

idle :
    (many : ℕ) (contexts : ℕ → Context)
    → ((i : ℕ) → (contexts i).phase ≡ Phase.done)
    → in_flight many contexts ≡ 0
idle zero contexts h = refl
idle (suc many) contexts h = rw (h many) (omega (arith, idle many contexts h))

length-span : (log : ℕ → Rec) (first k : ℕ) → length (span log first k) ≡ k
length-span log first zero = refl
length-span log first (suc k) = ap suc (length-span log (suc first) k)

module _ {n : ℕ} (s : IsSlots n) (many start : ℕ) (r : Ring) (x : Context) (small : start < 2 ^ 32)
    (picks : List Pick) (prompt : Prompt n picks (opening n start r x)) where
  abbrev after : World
  after = interleave n picks (opening n start r x)

  -- In such a run of finitely many contexts, which ends with no context in a call: the records that
  -- the consumer has been given, those in the queue of the ring, the losses in the accounts that it
  -- has been given, and the count of those it has not, are together as many as the calls of
  -- `outpost_ring_put`, modulo 2 ^ 32. No record vanishes, and none is counted twice, however the
  -- account is taken while producers count.
  pub interleave-accounts :
      Within many picks
      → ((i : ℕ) → (after.contexts i).phase ≡ Phase.done)
      → (length after.given
            + length (view n after.ring).queued
            + total after.reported
            + after.ring.gap_dropped)
          % 2 ^ 32
        ≡ calls n picks (opening n start r x) % 2 ^ 32
  interleave-accounts within over =
      let quiet : (k : ℕ) → writes (after.contexts k).phase ≡ false = λ k. rw (over k) refl in
      let i : Inv n start after = inv s start r x small picks prompt in
      let queued = (interleave-IsValid s start r x small picks prompt quiet).1 in
      let told : (total after.reported + after.ring.gap_dropped) % 2 ^ 32
          ≡ losses n picks (opening n start r x) % 2 ^ 32 =
        interleave-losses n start r x picks in
      let counted : after.reserved
            + in_flight many after.contexts
            + losses n picks (opening n start r x)
          ≡ start
            + in_flight many (λ i. record x { phase = Phase.done })
            + calls n picks (opening n start r x) =
        run-books n many picks (opening n start r x) within in
      let none_before = idle many (λ i. record x { phase = Phase.done }) (λ i. refl) in
      let waiting : length (view n after.ring).queued ≡ after.reserved - after.taken =
        ap length queued ∙ length-span after.log after.taken (after.reserved - after.taken) in
      let taken : length after.given ≡ after.taken - start =
        ap length i.out ∙ length-span after.log start (after.taken - start) in
      omega (
        arith,
        told,
        counted,
        none_before,
        idle many after.contexts over,
        waiting,
        taken,
        i.first,
        i.order,
      )
