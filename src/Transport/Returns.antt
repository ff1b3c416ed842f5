-- ===== src/Transport/Returns.antt =====
-- Both waits of `transport_send` are bounded.
use embarch_outpost.Prelude.{
  ℕ, suc, ◌+◌, ◌-◌, ◌*◌, ◌≤◌, ◌≡◌, refl, ap, Bool, true, false, List, [], ◌∷◌, arith,
}
use embarch_outpost.Transport.Waits.{waited_lem}
use embarch_outpost.Transport.{
  SemOps, Line, Sending, Outcome, Move, UartEvent, reset, start, wait, abort, reap, returned,
  completed, reaped, lost, send, shift, thread, callback, uart_tx_done, uart_tx_aborted, other,
  transport_step, uart_cb, shifted, line_move, line_run,
}

-- The thread's moves in a sequence, and the calls that it begins.
abbrev pub threads : List Move → ℕ
threads [] = 0
threads (thread tx_ok ∷ moves) = suc (threads moves)
threads (m ∷ moves) = threads moves

abbrev pub sends : List Move → ℕ
sends [] = 0
sends (send buf ∷ moves) = suc (sends moves)
sends (m ∷ moves) = sends moves

module _ {S : Type 0} (ops : SemOps S) (ms : ℕ) where
  -- What is left of a call.
  abbrev rank : Sending → ℕ
  rank reset = 2 * ms + 5
  rank start = 2 * ms + 4
  rank (wait left) = left + ms + 3
  rank abort = ms + 2
  rank (reap left) = left + 1
  rank (returned outcome) = 0

  rank-step :
      (tx_ok : Bool) (p : Sending) (l : Line S)
      → l.sending ≡ p
      → rank (transport_step ops ms tx_ok p l).sending ≤ rank p - 1
  unfolding transport_step
  rank-step tx_ok reset l e = omega arith
  rank-step true start l e = omega arith
  rank-step false start l e = omega arith
  rank-step tx_ok (wait left) l e =
      waited_lem (λ l'. rank l'.sending ≤ rank (wait left) - 1) (ops.k_sem_take l.tx_done) left
        (λ s. record l { tx_done = s; sending = returned completed }) (record l { sending = abort })
        (λ rest. record l { sending = wait rest }) (λ s _. omega arith) (λ _ _. omega arith)
        (λ rest _ h. omega (arith, h))
  rank-step tx_ok abort l e = omega arith
  rank-step tx_ok (reap left) l e =
      waited_lem (λ l'. rank l'.sending ≤ rank (reap left) - 1) (ops.k_sem_take l.tx_done) left
        (λ s. record l { tx_done = s; sending = returned reaped })
        (record l { sending = returned lost }) (λ rest. record l { sending = reap rest })
        (λ s _. omega arith) (λ _ _. omega arith) (λ rest _ h. omega (arith, h))
  rank-step tx_ok (returned outcome) l e = rw e (omega arith)

  callback-keeps : (event : UartEvent) (l : Line S) → (uart_cb ops ms event l).sending ≡ l.sending
  unfolding uart_cb
  callback-keeps uart_tx_done l = refl
  callback-keeps uart_tx_aborted l = refl
  callback-keeps other l = refl

  shifted-keeps : (bytes : List ℕ) (l : Line S) → (shifted ops ms bytes l).sending ≡ l.sending
  shifted-keeps [] l = refl
  shifted-keeps (byte ∷ bytes) l = refl

  rank-run :
      (moves : List Move) (l : Line S)
      → sends moves ≡ 0
      → rank (line_run ops ms moves l).sending ≤ rank l.sending - threads moves
  unfolding line_run line_move
  rank-run [] l h = omega arith
  rank-run (send buf ∷ moves) l h = absurd (omega arith)
  rank-run (thread tx_ok ∷ moves) l h = omega (
    arith,
    rank-run moves (transport_step ops ms tx_ok l.sending l) h,
    rank-step tx_ok l.sending l refl,
  )
  rank-run (callback event ∷ moves) l h =
      omega (arith, rank-run moves (uart_cb ops ms event l) h, ap rank (callback-keeps event l))
  rank-run (shift ∷ moves) l h =
      omega (arith, rank-run moves (shifted ops ms l.todo l) h, ap rank (shifted-keeps l.todo l))

  rank-returned : (p : Sending) → rank p ≤ 0 → (outcome : Outcome) × (p ≡ returned outcome)
  rank-returned reset h = absurd (omega arith)
  rank-returned start h = absurd (omega arith)
  rank-returned (wait left) h = absurd (omega arith)
  rank-returned abort h = absurd (omega arith)
  rank-returned (reap left) h = absurd (omega arith)
  rank-returned (returned outcome) h = (outcome, refl)

  -- A call of `transport_send` has returned after at most two timeouts in milliseconds and five
  -- moves of the thread, whatever the driver answers and calls back, and whatever the semaphore
  -- holds.
  pub line_run_returns :
      (moves : List Move) (l : Line S)
      → l.sending ≡ reset
      → sends moves ≡ 0
      → 2 * ms + 5 ≤ threads moves
      → (outcome : Outcome) × ((line_run ops ms moves l).sending ≡ returned outcome)
  line_run_returns moves l e h many =
      rank-returned (line_run ops ms moves l).sending
        (omega (arith, rank-run moves l h, many, ap rank e))
