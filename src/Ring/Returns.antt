-- ===== src/Ring/Returns.antt =====
-- How long a call of `outpost_ring_put` can run when nobody interrupts it.
use embarch_outpost.Prelude.{
  ℕ, suc, ◌≡◌, refl, ap, ◌∙◌, if◌then◌else◌, ◌==◌, ==_refl, leb, Bool, true, false, Bool-cases, inl,
  inr, some,
}
use embarch_outpost.Ring.{Ring, Call, Phase, add32, sub32, put_step, after_loads, put_run}

module _ (n : ℕ) (c : Call) where
  Returns : ℕ → Phase → Ring → Type 0
  Returns fuel phase r = (r' : Ring) × (put_run n fuel c phase r ≡ some r')

  -- From its reservation a context has five steps to go.
  stores :
      (fuel head : ℕ) (r : Ring)
      → Returns (suc (suc (suc (suc (suc fuel))))) (Phase.write_cycles head) r
  unfolding Returns put_run put_step
  stores fuel head r = (_, refl)

  counted : Ring → Ring
  counted r = record r { gap_dropped = add32 r.gap_dropped 1 }

  drops_on :
      (fuel : ℕ) (t : Bool) (r : Ring)
      → Returns (suc (suc fuel)) (if t then Phase.drop_first else Phase.drop_last) r
  unfolding Returns put_run put_step
  drops_on fuel true r = (_, refl)
  drops_on fuel false r = (_, refl)

  drops : (fuel : ℕ) (r : Ring) → Returns (suc (suc (suc fuel))) Phase.drop_count r
  unfolding Returns put_run put_step counted
  drops fuel r = drops_on fuel (r.gap_dropped == 0) (counted r)

  module _ (no_block : c.may_block ≡ false) where
    -- After the loads a context that may not block drops its record, or goes on to reserve a slot.
    loads_on :
        (fuel head tail : ℕ) (r : Ring)
        → Returns (suc (suc (suc fuel))) (Phase.cas head) r
        → Returns (suc (suc (suc fuel))) (after_loads n c.may_block head tail) r
    unfolding after_loads
    loads_on fuel head tail r next = elim (Bool-cases (leb n (sub32 head tail))) [
      | inl full ↦ simp (full, no_block) (drops fuel r)
      | inr room ↦ simp room next
    ]

    cas_on :
        (fuel head : ℕ) (r : Ring) (p : Phase × Ring)
        → put_step n c (Phase.cas head) r ≡ p
        → Returns fuel p.0 p.1
        → Returns (suc fuel) (Phase.cas head) r
    unfolding Returns put_run
    cas_on fuel head r p e x = (x.0, ap (λ (p : Phase × Ring). put_run n fuel c p.0 p.1) e ∙ x.1)

    -- A compare-and-swap that nobody has come before.
    wins :
        (fuel head : ℕ) (r : Ring)
        → (r.head == head) ≡ true
        → Returns (suc (suc (suc (suc (suc (suc fuel)))))) (Phase.cas head) r
    unfolding put_step
    wins fuel head r e =
        cas_on (suc (suc (suc (suc (suc fuel))))) head r
          (Phase.write_cycles head, record r { head = add32 head 1 }) (rw e)
          (stores fuel head (record r { head = add32 head 1 }))

    -- The whole of a call.
    loads :
        (fuel : ℕ) (r : Ring)
        → Returns (suc (suc (suc (suc (suc (suc (suc (suc fuel)))))))) Phase.load_head r
    unfolding Returns put_run put_step loads_on
    loads fuel r =
        loads_on (suc (suc (suc fuel))) r.head r.tail r (wins fuel r.head r (==_refl r.head))

    swaps :
        (fuel head : ℕ) (r : Ring)
        → Returns (suc (suc (suc (suc (suc (suc (suc (suc (suc fuel))))))))) (Phase.cas head) r
    unfolding put_step
    swaps fuel head r = elim (Bool-cases (r.head == head)) [
      | inl won ↦ wins (suc (suc (suc fuel))) head r won
      | inr lost ↦
          cas_on (suc (suc (suc (suc (suc (suc (suc (suc fuel)))))))) head r (Phase.load_head, r)
            (rw lost) (loads fuel r)
    ]

    -- A call of `outpost_ring_put` that may not block, wherever it stands and whatever the others
    -- have made of the ring and the drop account, returns within ten more steps if nobody
    -- interrupts it.
    pub put_run_returns :
        (phase : Phase) (r : Ring) → (r' : Ring) × (put_run n 10 c phase r ≡ some r')
    unfolding Returns put_run put_step
    put_run_returns Phase.load_head r = loads 2 r
    put_run_returns (Phase.load_tail head) r = loads_on 6 head r.tail r (swaps 0 head r)
    put_run_returns (Phase.cas head) r = swaps 1 head r
    put_run_returns (Phase.write_cycles head) r = (_, refl)
    put_run_returns (Phase.write_kind head) r = (_, refl)
    put_run_returns (Phase.write_a head) r = (_, refl)
    put_run_returns (Phase.write_b head) r = (_, refl)
    put_run_returns (Phase.publish head) r = (_, refl)
    put_run_returns Phase.drop_count r = drops 7 r
    put_run_returns Phase.drop_first r = (_, refl)
    put_run_returns Phase.drop_last r = (_, refl)
    put_run_returns Phase.done r = (_, refl)
