-- ===== src/Ring/Put.antt =====
-- A call of `outpost_ring_put` that nobody interrupts, in one piece.
use embarch_outpost.Prelude.{
  ℕ, zero, suc, ◌%◌, ◌≤◌, ◌<◌, ◌≡◌, refl, ap, ◌∙◌, arith, if◌then◌else◌, ◌==◌, ==_refl, true, false,
  Bool, some, none, leb-false, le→leb,
}
use mathlib.Core.Path.{fun_ext}
use embarch_outpost.Ring.{
  Ring, Slot, Call, Phase, update, edit, index, add32, sub32, seq_for, put_step, after_loads,
  put_run, ring_put,
}

update_twice :
    (slots : ℕ → Slot) (i : ℕ) (x y : Slot) → update (update slots i x) i y ≡ update slots i y
update_twice slots i x y = fun_ext (λ j. ground arith)

-- Two writes to one slot.
edit-edit :
    (n : ℕ) (r : Ring) (head : ℕ) (f g : Slot → Slot)
    → edit n (edit n r head f) head g ≡ edit n r head (λ s. g (f s))
edit-edit n r head f g =
    ap (λ l. record r { slots = l })
      (rw (==_refl (head % n))
        (update_twice r.slots (head % n) (f (r.slots (head % n))) (g (f (r.slots (head % n))))))

module _ (n : ℕ) (c : Call) (r : Ring) where
  -- What a call leaves that finds room.
  abbrev pub stored : Ring
  stored = record r {
    slots = update r.slots (index n r.head) (record { rec = c.rec; seq = seq_for r.head });
    head = add32 r.head 1;
  }

  -- What a call leaves that is dropped.
  abbrev pub dropped : Ring
  dropped = record r {
    gap_dropped = add32 r.gap_dropped 1;
    gap_first = if r.gap_dropped == 0 then c.rec.cycles else r.gap_first;
    gap_last = c.rec.cycles;
  }

  loads_room : sub32 r.head r.tail < n → after_loads n c.may_block r.head r.tail ≡ Phase.cas r.head
  unfolding after_loads
  loads_room room = rw (leb-false n (sub32 r.head r.tail) room)

  loads_full :
      n ≤ sub32 r.head r.tail
      → after_loads n c.may_block r.head r.tail
        ≡ (if c.may_block then Phase.load_head else Phase.drop_count)
  unfolding after_loads
  loads_full full = rw (le→leb n (sub32 r.head r.tail) full)

  reserved : Ring
  reserved = record r { head = add32 r.head 1 }

  cas_wins : put_step n c (Phase.cas r.head) r ≡ (Phase.write_cycles r.head, reserved)
  unfolding put_step reserved
  cas_wins = rw (==_refl r.head)

  filled : Ring
  unfolding reserved
  filled =
      edit n
        (edit n
          (edit n
            (edit n
              (edit n reserved r.head
                (λ s. record s { rec = record s.rec { cycles = c.rec.cycles } }))
              r.head (λ s. record s { rec = record s.rec { kind = c.rec.kind } }))
            r.head (λ s. record s { rec = record s.rec { a = c.rec.a } }))
          r.head (λ s. record s { rec = record s.rec { b = c.rec.b } }))
        r.head (λ s. record s { seq = seq_for r.head })

  filled_lem : filled ≡ stored
  unfolding filled reserved
  filled_lem = rw (edit-edit, edit-edit, edit-edit, edit-edit)

  -- With room a call stores its record under the next reservation, and publishes it.
  pub ring_put-stored : sub32 r.head r.tail < n → ring_put n c r ≡ some stored
  unfolding ring_put put_run put_step filled
  ring_put-stored room =
      ap (λ p. put_run n 6 c p r) (loads_room room)
      ∙ ap (λ (p : Phase × Ring). put_run n 5 c p.0 p.1) cas_wins
      ∙ ap some filled_lem

  counted : Ring
  counted = record r { gap_dropped = add32 r.gap_dropped 1 }

  -- On a full ring a call that may not block drops its record, and accounts for it.
  pub ring_put-dropped :
      n ≤ sub32 r.head r.tail → c.may_block ≡ false → ring_put n c r ≡ some dropped
  unfolding ring_put put_run put_step counted
  ring_put-dropped full no_block =
      ap (λ p. put_run n 6 c p r)
        (loads_full full ∙ ap (λ t. if t then Phase.load_head else Phase.drop_count) no_block)
      ∙ noted (r.gap_dropped == 0) refl
    where
      next : Bool → Phase
      next t = if t then Phase.drop_first else Phase.drop_last

      noted :
          (t : Bool) → (r.gap_dropped == 0) ≡ t → put_run n 6 c Phase.drop_count r ≡ some dropped
      noted true e = ap (λ t. put_run n 5 c (next t) counted) e ∙ rw e
      noted false e = ap (λ t. put_run n 5 c (next t) counted) e ∙ rw e

-- On a full ring a call that may block, and that nobody interrupts, has not returned after any
-- number of steps.
pub put_run_blocks :
    (n fuel : ℕ) (c : Call) (r : Ring)
    → n ≤ sub32 r.head r.tail
    → c.may_block ≡ true
    → put_run n fuel c Phase.load_head r ≡ none
unfolding put_run put_step
put_run_blocks n zero c r full block = refl
put_run_blocks n (suc zero) c r full block = refl
put_run_blocks n (suc (suc fuel)) c r full block =
    ap (λ p. put_run n fuel c p r)
      (loads_full n c r full ∙ ap (λ t. if t then Phase.load_head else Phase.drop_count) block)
    ∙ put_run_blocks n fuel c r full block
