-- ===== src/Transport.antt =====
-- src/outpost.c, the transport: `uart_cb` and `transport_send`, with the asynchronous driver and with
-- the polling one. The drain thread sends; the driver calls back from interrupts.
pub mod Waits
pub mod Returns
pub mod Branches
pub mod Poll
use embarch_outpost.Prelude.{
  ℕ, zero, suc, ◌≡◌, Bool, true, false, List, [], ◌∷◌, ◌++◌, Option, none, some, get_elem?, length,
  ◌>>=◌,
}

-- What the code uses of a Zephyr semaphore, which may be the kernel's in any state `S`:
-- `k_sem_reset`, `k_sem_give`, and `k_sem_take` with `none` where it would have to wait.
pub record SemOps (S : Type 0) : Type 0 where
  pub k_sem_reset : S → S
  pub k_sem_give : S → S
  pub k_sem_take : S → Option S

-- As documented: a reset semaphore has nothing to take, and one that was given has.
pub record IsSem {S : Type 0} (ops : SemOps S) : Type 0 where
  pub take_reset : (s : S) → ops.k_sem_take (ops.k_sem_reset s) ≡ none
  pub take_give : (s : S) → (s' : S) × (ops.k_sem_take (ops.k_sem_give s) ≡ some s')

-- `enum uart_event_type`, as far as `uart_cb` tells it apart.
pub data UartEvent : Type 0 where
  uart_tx_done uart_tx_aborted other : UartEvent

-- How a call of `transport_send` came to its end: `uart_tx` refused the frame, its completion was
-- taken, or the wait expired and after the abort a completion was taken, or none.
pub data Outcome : Type 0 where
  refused completed reaped lost : Outcome

-- Where the thread stands in `transport_send`: its next call, and the milliseconds left of a wait.
pub data Sending : Type 0 where
  reset : Sending
  start : Sending
  wait : (left : ℕ) → Sending
  abort : Sending
  reap : (left : ℕ) → Sending
  returned : Outcome → Sending

-- `tx_done`, the thread, and the frame that the driver is handed. Of the driver: `busy` while a
-- transfer that it accepted has not ended, `aborting` from `uart_tx_abort` on, the bytes of the
-- transfer that are still to go out, and those that have gone out since the boot, on `wire`.
pub record Line (S : Type 0) : Type 0 where
  pub tx_done : S
  pub sending : Sending
  pub frame : List ℕ
  pub busy : Bool
  pub aborting : Bool
  pub todo : List ℕ
  pub wire : List ℕ

-- What happens next: the drain thread sends a frame, once its last call is over; it makes a call, or
-- waits for a millisecond, with what `uart_tx` would return as an argument; the driver puts the next
-- byte on the wire, or calls back.
pub data Move : Type 0 where
  send : List ℕ → Move
  thread : (tx_ok : Bool) → Move
  callback : UartEvent → Move
  shift : Move

-- A wait that has something to take, or is over, or lasts another millisecond.
abbrev pub waited : {S : Type 0} → Option S → ℕ → (S → Line S) → Line S → (ℕ → Line S) → Line S
waited (some s) left took expired more = took s
waited none zero took expired more = expired
waited none (suc left) took expired more = more left

module _ {S : Type 0} (ops : SemOps S) (tx_timeout_ms : ℕ) where
  -- The next call of `transport_send`.
  unfoldable pub transport_step : Bool → Sending → Line S → Line S
  transport_step tx_ok reset l = record l { tx_done = ops.k_sem_reset l.tx_done; sending = start }
  transport_step true start l = record l {
    sending = wait tx_timeout_ms;
    busy = true;
    aborting = false;
    todo = l.frame;
  }
  transport_step false start l = record l { sending = returned refused }
  transport_step tx_ok (wait left) l =
      waited (ops.k_sem_take l.tx_done) left
        (λ s. record l { tx_done = s; sending = returned completed }) (record l { sending = abort })
        (λ rest. record l { sending = wait rest })
  transport_step tx_ok abort l = record l { sending = reap tx_timeout_ms; aborting = l.busy }
  transport_step tx_ok (reap left) l =
      waited (ops.k_sem_take l.tx_done) left
        (λ s. record l { tx_done = s; sending = returned reaped })
        (record l { sending = returned lost }) (λ rest. record l { sending = reap rest })
  transport_step tx_ok (returned outcome) l = l

  -- The driver has ended its transfer when it says so, and of one that was aborted it sends no more.
  unfoldable pub uart_cb : UartEvent → Line S → Line S
  uart_cb uart_tx_done l = record l {
    tx_done = ops.k_sem_give l.tx_done;
    busy = false;
    aborting = false;
  }
  uart_cb uart_tx_aborted l = record l {
    tx_done = ops.k_sem_give l.tx_done;
    busy = false;
    aborting = false;
    todo = [];
  }
  uart_cb other l = l

  -- The driver puts a byte on the wire.
  abbrev pub shifted : List ℕ → Line S → Line S
  shifted [] l = l
  shifted (byte ∷ bytes) l = record l { todo = bytes; wire = l.wire ++ byte ∷ [] }

  abbrev pub call_send : List ℕ → Sending → Line S → Line S
  call_send buf (returned outcome) l = record l { sending = reset; frame = buf }
  call_send buf sending l = l

  unfoldable pub line_move : Move → Line S → Line S
  line_move (send buf) l = call_send buf l.sending l
  line_move (thread tx_ok) l = transport_step tx_ok l.sending l
  line_move (callback event) l = uart_cb event l
  line_move shift l = shifted l.todo l

  unfoldable pub line_run : List Move → Line S → Line S
  line_run [] l = l
  line_run (m ∷ moves) l = line_run moves (line_move m l)

-- `transport_send` on the polling driver: the bytes that go to `uart_poll_out`, in turn.
unfoldable pub poll_loop : (left i : ℕ) → List ℕ → List ℕ → Option (List ℕ)
poll_loop zero i buf out = some out
poll_loop (suc left) i buf out =
    get_elem? buf i >>= λ byte. poll_loop left (suc i) buf (out ++ byte ∷ [])

unfoldable pub poll_send : List ℕ → ℕ → List ℕ → Option (List ℕ)
poll_send buf len out = poll_loop len 0 buf out

-- The calls for one frame after another.
unfoldable pub poll_frames : List (List ℕ) → List ℕ → Option (List ℕ)
poll_frames [] out = some out
poll_frames (frame ∷ frames) out =
    poll_send frame (length frame) out >>= λ out'. poll_frames frames out'

-- As documented, the driver accepts a transfer only while none is in progress.
abbrev pub Answers : Bool → Sending → Bool → Type 0
Answers true start busy = busy ≡ false
Answers tx_ok sending busy = Unit
