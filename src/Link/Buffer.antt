-- ===== src/Link/Buffer.antt =====
-- The frame buffer is not written while the driver reads it.
use embarch_outpost.Prelude.{
  ℕ, ◌≡◌, ◌⊎◌, inl, inr, refl, sym, Bool, true, false, List, [], ◌∷◌, ◌++◌, none,
}
use mathlib.Core.Path.{subst}
use embarch_outpost.Config.{Config}
use embarch_outpost.Drain.{Image}
use embarch_outpost.Hooks.{Board}
use embarch_outpost.Transport.Waits.{waited_lem, taken_idle}
use embarch_outpost.Transport.{
  SemOps, IsSem, Line, Sending, Outcome, UartEvent, reset, start, wait, abort, reap, returned,
  refused, completed, reaped, lost, uart_tx_done, uart_tx_aborted, other, transport_step, uart_cb,
  shifted, Answers,
}
use embarch_outpost.Concurrent.{perform}
use embarch_outpost.Link.{Linked, Act, hand_over, thread_act, act, act_run}

-- The driver accepts a transfer only while none is in progress, and says once of each that it is over.
abbrev pub IsDriven : {S : Type 0} → Act → Linked S → Type 0
IsDriven (Act.thread now tx_ok) x = Answers tx_ok x.line.sending x.line.busy
IsDriven (Act.callback uart_tx_done) x = x.line.busy ≡ true
IsDriven (Act.callback uart_tx_aborted) x = x.line.busy ≡ true
IsDriven a x = Unit

-- The last call has not given up on its transfer.
abbrev pub NotLost : Sending → Type 0
NotLost (returned lost) = ⊥
NotLost sending = Unit

-- What is known of a transfer in progress.
abbrev InStep : {S : Type 0} → SemOps S → Line S → Sending → Type 0
InStep ops l reset = l.busy ≡ false
InStep ops l start = (l.busy ≡ false) × (ops.k_sem_take l.tx_done ≡ none)
InStep ops l (wait left) = l.busy ≡ true → ops.k_sem_take l.tx_done ≡ none
InStep ops l abort = l.busy ≡ true → ops.k_sem_take l.tx_done ≡ none
InStep ops l (reap left) = l.busy ≡ true → ops.k_sem_take l.tx_done ≡ none
InStep ops l (returned refused) = l.busy ≡ false
InStep ops l (returned completed) = l.busy ≡ false
InStep ops l (returned reaped) = l.busy ≡ false
InStep ops l (returned lost) = Unit

module _ {S : Type 0} {ops : SemOps S} (sem : IsSem ops) (ms : ℕ) where
  step-InStep :
      (tx_ok : Bool) (p : Sending) (l : Line S)
      → l.sending ≡ p
      → InStep ops l p
      → (let l' = transport_step ops ms tx_ok p l in InStep ops l' l'.sending)
  unfolding transport_step
  step-InStep tx_ok reset l e h = (h, sem.take_reset l.tx_done)
  step-InStep true start l e h = λ b. h.1
  step-InStep false start l e h = h.0
  step-InStep tx_ok (wait left) l e h =
      waited_lem (λ l'. InStep ops l' l'.sending) (ops.k_sem_take l.tx_done) left
        (λ s. record l { tx_done = s; sending = returned completed }) (record l { sending = abort })
        (λ rest. record l { sending = wait rest })
        (λ s. taken_idle l.busy (ops.k_sem_take l.tx_done) s h) (λ _ _. h) (λ _ _ _. h)
  step-InStep tx_ok abort l e h = h
  step-InStep tx_ok (reap left) l e h =
      waited_lem (λ l'. InStep ops l' l'.sending) (ops.k_sem_take l.tx_done) left
        (λ s. record l { tx_done = s; sending = returned reaped })
        (record l { sending = returned lost }) (λ rest. record l { sending = reap rest })
        (λ s. taken_idle l.busy (ops.k_sem_take l.tx_done) s h) (λ _ _. tt) (λ _ _ _. h)
  step-InStep tx_ok (returned outcome) l e h = rw e h

  -- The transfer in progress ends: the thread is waiting for it.
  end-InStep :
      (p : Sending) (s : S) (l : Line S)
      → l.busy ≡ true
      → InStep ops l p
      → InStep ops (record l { tx_done = s; busy = false }) p
  end-InStep reset s l b h = refl
  end-InStep start s l b h = cc (b, h.0)
  end-InStep (wait left) s l b h = λ e. cc e
  end-InStep abort s l b h = λ e. cc e
  end-InStep (reap left) s l b h = λ e. cc e
  end-InStep (returned refused) s l b h = refl
  end-InStep (returned completed) s l b h = refl
  end-InStep (returned reaped) s l b h = refl
  end-InStep (returned lost) s l b h = tt

module _ {S : Type 0} {ops : SemOps S} (sem : IsSem ops) (ms : ℕ) (c : Config) (board : Board)
    (image : Image) (crc32 : List ℕ → ℕ) where
  callback-InStep :
      (e : UartEvent) (x : Linked S)
      → IsDriven (Act.callback e) x
      → InStep ops x.line x.line.sending
      → (let l = uart_cb ops ms e x.line in InStep ops l l.sending)
  unfolding uart_cb
  callback-InStep uart_tx_done x b h =
      end-InStep sem ms x.line.sending (ops.k_sem_give x.line.tx_done) x.line b h
  callback-InStep uart_tx_aborted x b h =
      end-InStep sem ms x.line.sending (ops.k_sem_give x.line.tx_done) x.line b h
  callback-InStep other x b h = h

  -- Outside `transport_send` no transfer is in progress, unless the last call was lost.
  not_busy :
      (outcome : Outcome) (l : Line S)
      → InStep ops l (returned outcome)
      → NotLost (returned outcome)
      → l.busy ≡ false
  not_busy refused l h ne = h
  not_busy completed l h ne = h
  not_busy reaped l h ne = h
  not_busy lost l h ne = absurd ne

  hand_over-InStep :
      (outcome : Outcome) (l : Line S) (new : List (List ℕ))
      → l.sending ≡ returned outcome
      → InStep ops l (returned outcome)
      → NotLost (returned outcome)
      → (let l' = hand_over c board image crc32 ops ms new l in InStep ops l' l'.sending)
  hand_over-InStep outcome l [] e h ne = rw e h
  hand_over-InStep outcome l (frame ∷ frames) e h ne = rw e (not_busy outcome l h ne)

  thread-InStep :
      (now : ℕ) (tx_ok : Bool) (p : Sending) (x : Linked S)
      → x.line.sending ≡ p
      → NotLost p
      → InStep ops x.line p
      → (let l = (thread_act c board image crc32 ops ms now tx_ok p x).line in
          InStep ops l l.sending)
  thread-InStep now tx_ok (returned outcome) x e ne h = hand_over-InStep outcome x.line _ e h ne
  thread-InStep now tx_ok p x e ne h = step-InStep sem ms tx_ok p x.line e h

  byte-InStep :
      (p : Sending) (bytes wire : List ℕ) (l : Line S)
      → InStep ops l p
      → InStep ops (record l { todo = bytes; wire = wire }) p
  byte-InStep reset bytes wire l h = h
  byte-InStep start bytes wire l h = h
  byte-InStep (wait left) bytes wire l h = h
  byte-InStep abort bytes wire l h = h
  byte-InStep (reap left) bytes wire l h = h
  byte-InStep (returned refused) bytes wire l h = h
  byte-InStep (returned completed) bytes wire l h = h
  byte-InStep (returned reaped) bytes wire l h = h
  byte-InStep (returned lost) bytes wire l h = h

  shift-InStep :
      (bytes : List ℕ) (l : Line S)
      → InStep ops l l.sending
      → (let l' = shifted ops ms bytes l in InStep ops l' l'.sending)
  shift-InStep [] l h = h
  shift-InStep (byte ∷ bytes) l h = byte-InStep l.sending bytes (l.wire ++ byte ∷ []) l h

  -- Every call of the run has ended with the transfer over, and the driver does as documented.
  abbrev pub Behaves : List Act → Linked S → Type 0
  Behaves [] x = NotLost x.line.sending
  Behaves (a ∷ acts) x =
      NotLost x.line.sending × IsDriven a x × Behaves acts (act c board image crc32 ops ms a x)

  run-InStep :
      (acts : List Act) (x : Linked S)
      → Behaves acts x
      → InStep ops x.line x.line.sending
      → (let y = act_run c board image crc32 ops ms acts x in
          InStep ops y.line y.line.sending × NotLost y.line.sending)
  unfolding act_run act
  run-InStep [] x b h = (h, b)
  run-InStep (Act.event i now may_block e ∷ acts) x b h = run-InStep acts _ b.2 h
  run-InStep (Act.go_on i ∷ acts) x b h = run-InStep acts _ b.2 h
  run-InStep (Act.thread now tx_ok ∷ acts) x b h =
      run-InStep acts (thread_act c board image crc32 ops ms now tx_ok x.line.sending x) b.2
        (thread-InStep now tx_ok x.line.sending x refl b.0 h)
  run-InStep (Act.callback e ∷ acts) x b h =
      run-InStep acts (record x { line = uart_cb ops ms e x.line }) b.2 (callback-InStep e x b.1 h)
  run-InStep (Act.shift ∷ acts) x b h =
      run-InStep acts (record x { line = shifted ops ms x.line.todo x.line }) b.2
        (shift-InStep x.line.todo x.line h)

  thread-frame_buf :
      (now : ℕ) (tx_ok : Bool) (p : Sending) (x : Linked S)
      → NotLost p
      → InStep ops x.line p
      → ((thread_act c board image crc32 ops ms now tx_ok p x).system.desk.drain.frame_buf
          ≡ x.system.desk.drain.frame_buf)
        ⊎ (x.line.busy ≡ false)
  thread-frame_buf now tx_ok (returned outcome) x ne h = inr (not_busy outcome x.line h ne)
  thread-frame_buf now tx_ok p x ne h = inl refl

  act-frame_buf :
      (a : Act) (x : Linked S)
      → NotLost x.line.sending
      → InStep ops x.line x.line.sending
      → ((act c board image crc32 ops ms a x).system.desk.drain.frame_buf
          ≡ x.system.desk.drain.frame_buf)
        ⊎ (x.line.busy ≡ false)
  unfolding act perform
  act-frame_buf (Act.event i now may_block e) x ne h = inl refl
  act-frame_buf (Act.go_on i) x ne h = inl refl
  act-frame_buf (Act.thread now tx_ok) x ne h = thread-frame_buf now tx_ok x.line.sending x ne h
  act-frame_buf (Act.callback e) x ne h = inl refl
  act-frame_buf Act.shift x ne h = inl refl

  free-InStep : (outcome : Outcome) (l : Line S) → l.busy ≡ false → InStep ops l (returned outcome)
  free-InStep refused l h = h
  free-InStep completed l h = h
  free-InStep reaped l h = h
  free-InStep lost l h = tt

  -- From a moment when no call of `transport_send` is under way and no transfer in progress,
  -- whatever the rest of the system and the semaphore hold, and however hooks, contexts, the drain
  -- thread and callbacks follow, where the driver accepts a transfer only while none is in progress
  -- and says once of each that it is over, and no call of `transport_send` has ended without a
  -- completion: every step that follows leaves the frame buffer as it is, or no transfer is in
  -- progress. The drain thread never writes the buffer that the driver reads.
  pub act_run-frame_buf :
      (acts : List Act) (x : Linked S) (outcome : Outcome)
      → x.line.sending ≡ returned outcome
      → x.line.busy ≡ false
      → Behaves acts x
      → (a : Act)
      → (let y = act_run c board image crc32 ops ms acts x in
          ((act c board image crc32 ops ms a y).system.desk.drain.frame_buf
            ≡ y.system.desk.drain.frame_buf)
          ⊎ (y.line.busy ≡ false))
  act_run-frame_buf acts x outcome e free b a =
      let start_in = subst (InStep ops x.line) (sym e) (free-InStep outcome x.line free) in
      let (h, ne) = run-InStep acts x b start_in in
      act-frame_buf a (act_run c board image crc32 ops ms acts x) ne h
