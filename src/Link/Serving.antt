-- ===== src/Link/Serving.antt =====
-- Every transfer ends in time, where the driver does its part.
use embarch_outpost.Prelude.{
  ℕ, suc, ◌+◌, ◌<◌, ◌≡◌, ◌⊎◌, inl, inr, refl, sym, ap, ◌∙◌, Bool, true, false, not, List, [], ◌∷◌,
  ◌++◌, append_assoc, none, some, arith,
}
use embarch_outpost.Config.{Config}
use embarch_outpost.Drain.{Image}
use embarch_outpost.Hooks.{Board}
use embarch_outpost.Transport.{
  SemOps, IsSem, Sending, Line, UartEvent, reset, start, wait, abort, reap, returned, completed,
  uart_tx_done, uart_tx_aborted, other, transport_step, uart_cb, shifted,
}
use embarch_outpost.Transport.Waits.{waited_lem}
use embarch_outpost.Link.{Linked, Act, aged, act}

-- `uart_tx` accepts a frame just when no transfer is in progress.
abbrev pub Accepts : Bool → Sending → Bool → Type 0
Accepts tx_ok start busy = tx_ok ≡ not busy
Accepts tx_ok sending busy = Unit

-- The driver's part in a step: it also ends each transfer before the thread has waited for the timeout,
-- which Kconfig wants to exceed the time of a frame on the wire by far, it says that one is done when
-- all its bytes have gone out, and aborted only after `uart_tx_abort`.
abbrev pub IsServed : {S : Type 0} → ℕ → Act → Linked S → Type 0
IsServed ms (Act.thread now tx_ok) x =
    Accepts tx_ok x.line.sending x.line.busy × (x.line.busy ≡ true → x.age < ms)
IsServed ms (Act.callback uart_tx_done) x = (x.line.busy ≡ true) × (x.line.todo ≡ [])
IsServed ms (Act.callback uart_tx_aborted) x = (x.line.busy ≡ true) × (x.line.aborting ≡ true)
IsServed ms a x = Unit

abbrev pub Serves :
    {S : Type 0}
    → Config
    → Board
    → Image
    → (List ℕ → ℕ)
    → SemOps S
    → ℕ
    → List Act
    → Linked S
    → Type 0
Serves c board image crc32 ops ms [] x = Unit
Serves c board image crc32 ops ms (a ∷ acts) x =
    IsServed ms a x × Serves c board image crc32 ops ms acts (act c board image crc32 ops ms a x)

-- What is on its way: the frame that is still to be offered, or the rest of the transfer.
abbrev pub coming : Sending → (frame todo : List ℕ) → List ℕ
coming reset frame todo = frame
coming start frame todo = frame
coming (returned outcome) frame todo = []
coming sending frame todo = todo

abbrev pub on_wire : {S : Type 0} → Line S → List ℕ
on_wire l = l.wire ++ coming l.sending l.frame l.todo

abbrev Free : {S : Type 0} → Line S → Type 0
Free l = (l.busy ≡ false) × (l.todo ≡ [])

-- A transfer in progress has no completion yet, and time; one that is over has its completion.
abbrev pub InTime : {S : Type 0} → SemOps S → ℕ → Line S → ℕ → Sending → Type 0
InTime ops ms l age reset = Free l
InTime ops ms l age start = Free l × (ops.k_sem_take l.tx_done ≡ none)
InTime {S} ops ms l age (wait left) =
    (l.aborting ≡ false)
    × (((l.busy ≡ true) × (ops.k_sem_take l.tx_done ≡ none) × (age + left ≡ ms))
        ⊎ (Free l × (s : S) × (ops.k_sem_take l.tx_done ≡ some s)))
InTime ops ms l age (returned outcome) = Free l
InTime ops ms l age sending = ⊥

module _ {S : Type 0} {ops : SemOps S} (sem : IsSem ops) (ms : ℕ) where
  abbrev Keeps : Line S → ℕ → Line S → Type 0
  Keeps l age l' = InTime ops ms l' age l'.sending × (on_wire l' ≡ on_wire l)

  wait_keeps :
      (left age : ℕ) (l : Line S)
      → l.sending ≡ wait left
      → InTime ops ms l age (wait left)
      → (l.busy ≡ true → age < ms)
      → (tx_ok : Bool)
      → (let l' = transport_step ops ms tx_ok (wait left) l in
          InTime ops ms l' (suc age) l'.sending × (on_wire l' ≡ l.wire ++ l.todo))
  unfolding transport_step
  wait_keeps left age l e (calm, inl (b, empty, sum)) time tx_ok =
      waited_lem (λ l'. InTime ops ms l' (suc age) l'.sending × (on_wire l' ≡ l.wire ++ l.todo))
        (ops.k_sem_take l.tx_done) left
        (λ s. record l { tx_done = s; sending = returned completed }) (record l { sending = abort })
        (λ rest. record l { sending = wait rest }) (λ s h. absurd (cc (h, empty)))
        (λ _ h. absurd (omega (arith, time b, sum, h)))
        (λ rest _ h. ((calm, inl (b, empty, omega (arith, sum, h))), refl))
  wait_keeps left age l e (calm, inr (idle, s, full)) time tx_ok =
      waited_lem (λ l'. InTime ops ms l' (suc age) l'.sending × (on_wire l' ≡ l.wire ++ l.todo))
        (ops.k_sem_take l.tx_done) left
        (λ s. record l { tx_done = s; sending = returned completed }) (record l { sending = abort })
        (λ rest. record l { sending = wait rest })
        (λ _ _. (idle, ap (λ bytes. l.wire ++ bytes) (sym idle.1))) (λ h _. absurd (cc (h, full)))
        (λ _ h _. absurd (cc (h, full)))

  -- A step in `transport_send`.
  pub step_keeps :
      (tx_ok : Bool) (p : Sending) (l : Line S) (age : ℕ)
      → l.sending ≡ p
      → InTime ops ms l age p
      → Accepts tx_ok p l.busy
      → (l.busy ≡ true → age < ms)
      → (let l' = transport_step ops ms tx_ok p l in
          InTime ops ms l' (aged p age) l'.sending
          × (on_wire l' ≡ l.wire ++ coming p l.frame l.todo))
  unfolding transport_step
  step_keeps tx_ok reset l age e h ok time = ((h, sem.take_reset l.tx_done), refl)
  step_keeps true start l age e (idle, empty) ok time =
      ((refl, inl (refl, empty, omega arith)), refl)
  step_keeps false start l age e (idle, empty) ok time = absurd (cc (ok, idle.0))
  step_keeps tx_ok (wait left) l age e h ok time = wait_keeps left age l e h time tx_ok
  step_keeps tx_ok abort l age e h ok time = elim h [ ]
  step_keeps tx_ok (reap left) l age e h ok time = elim h [ ]
  step_keeps tx_ok (returned outcome) l age e h ok time =
      (rw e h, ap (λ p. l.wire ++ coming p l.frame l.todo) e)

  -- A transfer ends.
  done_keeps :
      (p : Sending) (l : Line S) (age : ℕ)
      → l.busy ≡ true
      → l.todo ≡ []
      → InTime ops ms l age p
      → InTime ops ms
          (record l { tx_done = ops.k_sem_give l.tx_done; busy = false; aborting = false })
          age
          p
  done_keeps reset l age b t h = absurd (cc (b, h.0))
  done_keeps start l age b t h = absurd (cc (b, h.0.0))
  done_keeps (wait left) l age b t h =
      let (s, full) = sem.take_give l.tx_done in (refl, inr ((refl, t), s, full))
  done_keeps abort l age b t h = elim h [ ]
  done_keeps (reap left) l age b t h = elim h [ ]
  done_keeps (returned outcome) l age b t h = absurd (cc (b, h.0))

  -- None is aborted.
  not_aborting :
      (p : Sending) (l : Line S) (age : ℕ)
      → l.busy ≡ true
      → l.aborting ≡ true
      → InTime ops ms l age p
      → ⊥
  not_aborting reset l age b a h = absurd (cc (b, h.0))
  not_aborting start l age b a h = absurd (cc (b, h.0.0))
  not_aborting (wait left) l age b a h = absurd (cc (a, h.0))
  not_aborting abort l age b a h = h
  not_aborting (reap left) l age b a h = h
  not_aborting (returned outcome) l age b a h = absurd (cc (b, h.0))

  pub callback-Keeps :
      (event : UartEvent) (x : Linked S)
      → InTime ops ms x.line x.age x.line.sending
      → IsServed ms (Act.callback event) x
      → Keeps x.line x.age (uart_cb ops ms event x.line)
  unfolding uart_cb
  callback-Keeps uart_tx_done x h (b, t) = (done_keeps x.line.sending x.line x.age b t h, refl)
  callback-Keeps uart_tx_aborted x h (b, a) =
      absurd (not_aborting x.line.sending x.line x.age b a h)
  callback-Keeps other x h ok = (h, refl)

  -- A byte goes out.
  bytes_keep :
      (bytes : List ℕ) (p : Sending) (l : Line S) (age : ℕ)
      → l.sending ≡ p
      → l.todo ≡ bytes
      → InTime ops ms l age p
      → (let l' = shifted ops ms bytes l in
          InTime ops ms l' age p
          × (l'.wire ++ coming p l'.frame l'.todo ≡ l.wire ++ coming p l.frame l.todo))
  bytes_keep [] p l age e t h = (h, refl)
  bytes_keep (byte ∷ bytes) reset l age e t h = absurd (cc (t, h.1))
  bytes_keep (byte ∷ bytes) start l age e t h = absurd (cc (t, h.0.1))
  bytes_keep (byte ∷ bytes) (wait left) l age e t (calm, inl busy) = (
    (calm, inl busy),
    append_assoc l.wire (byte ∷ []) bytes ∙ ap (λ todo. l.wire ++ todo) (sym t),
  )
  bytes_keep (byte ∷ bytes) (wait left) l age e t (calm, inr over) = absurd (cc (t, over.0.1))
  bytes_keep (byte ∷ bytes) abort l age e t h = elim h [ ]
  bytes_keep (byte ∷ bytes) (reap left) l age e t h = elim h [ ]
  bytes_keep (byte ∷ bytes) (returned outcome) l age e t h = absurd (cc (t, h.1))

  shifted-sending : (bytes : List ℕ) (l : Line S) → (shifted ops ms bytes l).sending ≡ l.sending
  shifted-sending [] l = refl
  shifted-sending (byte ∷ bytes) l = refl

  pub shift-Keeps :
      (l : Line S) (age : ℕ) → InTime ops ms l age l.sending → Keeps l age (shifted ops ms l.todo l)
  shift-Keeps l age h =
      rw (shifted-sending l.todo l) (bytes_keep l.todo l.sending l age refl refl h)
