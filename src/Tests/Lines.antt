-- ===== src/Tests/Lines.antt =====
-- The transport, with a semaphore of one bit and a timeout of three milliseconds, and the
-- initialisation, with a device that is only a flag.
use embarch_outpost.Prelude.{
  ℕ, ◌≡◌, refl, Bool, true, false, ◌&&◌, List, [], ◌∷◌, none, some, if◌then◌else◌, arith,
}
use embarch_outpost.Transport.{
  SemOps, IsSem, Line, Outcome, Move, reset, returned, completed, send, thread, callback,
  uart_tx_done, transport_step, uart_cb, line_move, line_run, poll_send, poll_loop,
}
use embarch_outpost.Transport.Returns.{line_run_returns}
use embarch_outpost.Transport.Branches.{waits}
use embarch_outpost.Init.{
  pos, negsuc, is_zero, Zephyr, PortConfig, outpost_init, try_baud, transport_init,
}
use embarch_outpost.Init.Outcomes.{IsZephyr, outpost_init-running}

abbrev pub one_bit : SemOps Bool
one_bit = record {
  k_sem_reset = λ s. false;
  k_sem_give = λ s. true;
  k_sem_take = λ s. if s then some false else none;
}

pub one_bit-IsSem : IsSem one_bit
one_bit-IsSem = record { take_reset = λ s. refl; take_give = λ s. (false, refl) }

-- A call begins while the completion of an earlier transfer is still to be taken.
abbrev stale : Line Bool
stale = record {
  tx_done = true;
  sending = reset;
  frame = 1 ∷ 2 ∷ 0 ∷ [];
  busy = false;
  aborting = false;
  todo = [];
  wire = [];
}

abbrev sent : List Move
sent = thread true ∷ thread true ∷ thread true ∷ callback uart_tx_done ∷ thread true ∷ []

-- It waits for its own.
sent_completed : (line_run one_bit 3 sent stale).sending ≡ returned completed
unfolding line_run line_move transport_step uart_cb
sent_completed = refl

abbrev silent : List Move
silent = waits 11 []

line_run_returns_example :
    (outcome : Outcome) × ((line_run one_bit 3 silent stale).sending ≡ returned outcome)
line_run_returns_example = line_run_returns one_bit 3 silent stale refl refl (omega arith)

-- The completion of a transfer that was given up on comes between the next call's `k_sem_reset` and
-- its `uart_tx`: that call takes it for its own, and returns while the driver reads the frame.
abbrev late : List Move
late =
    thread true
    ∷ thread true
    ∷ waits 4 (
        thread true
        ∷ waits 4 (
            send (3 ∷ 0 ∷ [])
            ∷ thread true
            ∷ callback uart_tx_done
            ∷ thread true
            ∷ thread true
            ∷ []))

late_completed :
    ((line_run one_bit 3 late stale).sending ≡ returned completed)
    × ((line_run one_bit 3 late stale).busy ≡ true)
unfolding line_run line_move transport_step uart_cb
late_completed = (refl, refl)

-- Two bytes out.
polled : poll_send (7 ∷ 8 ∷ 9 ∷ []) 2 [] ≡ some (7 ∷ 8 ∷ [])
unfolding poll_send poll_loop
polled = refl

-- A board whose UART cannot be configured: the state is whether the drain thread has been created.
abbrev fixed_uart : Zephyr Bool ℕ
fixed_uart = record {
  device_is_ready = λ d. true;
  uart_config_get = λ d. (negsuc 87, 0);
  set_baudrate = λ baud cfg. baud;
  uart_configure = λ cfg d. (negsuc 87, d);
  uart_callback_set = λ d. (pos 0, d);
  k_thread_create = λ d. true;
  k_thread_name_set = λ d. d;
  failed = negsuc 18;
}

fixed_uart-IsZephyr : IsZephyr fixed_uart (λ d. d)
fixed_uart-IsZephyr = record {
  configure = λ cfg d. refl;
  callback = λ d. refl;
  create = λ d. refl;
  name = λ d. refl;
  failed = refl;
}

abbrev fast : PortConfig
fast = record { baud = 1000000; uart_async = true }

-- The trace is up all the same.
fixed_uart_up : is_zero (outpost_init fixed_uart fast false).0 ≡ true
unfolding outpost_init transport_init
fixed_uart_up = refl

outpost_init-running_example :
    ((outpost_init fixed_uart fast false).1 ≡ is_zero (outpost_init fixed_uart fast false).0)
    × (is_zero (outpost_init fixed_uart fast false).0
        ≡ (true && is_zero (transport_init fixed_uart fast (try_baud fixed_uart fast false).0).0))
outpost_init-running_example = outpost_init-running fixed_uart-IsZephyr fast false refl
