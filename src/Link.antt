-- ===== src/Link.antt =====
-- src/outpost.c, the drain thread and its transport together: `send_body` and `send_header` end in a call
-- of `transport_send`, and the thread does nothing else until that has returned.
pub mod Frames
pub mod Serving
pub mod Delivery
pub mod Buffer
use embarch_outpost.Prelude.{ℕ, suc, Bool, List, [], ◌∷◌, length, drop}
use embarch_outpost.Config.{Config}
use embarch_outpost.Drain.{Image}
use embarch_outpost.Hooks.{Board, Event}
use embarch_outpost.Transport.{
  SemOps, Sending, Line, UartEvent, returned, transport_step, uart_cb, shifted, call_send, start,
}
use embarch_outpost.Concurrent.{System, Deed, perform}

-- The system, and the line to the driver. A ghost: `age` is how many steps the thread has made in
-- `transport_send` since its last call of `uart_tx`, a millisecond for each of a wait.
pub record Linked (S : Type 0) : Type 0 where
  pub system : System
  pub line : Line S
  pub age : ℕ

-- A hook is called or takes a step; the drain thread takes one, in `transport_send` or outside, at an
-- uptime and with what `uart_tx` would return; or the driver puts a byte on the wire, or calls back.
pub data Act : Type 0 where
  event : ℕ → ℕ → Bool → Event → Act
  go_on : ℕ → Act
  thread : ℕ → (tx_ok : Bool) → Act
  callback : UartEvent → Act
  shift : Act

abbrev pub aged : Sending → ℕ → ℕ
aged start age = 0
aged sending age = suc age

module _ (c : Config) (board : Board) (image : Image) (crc32 : List ℕ → ℕ) {S : Type 0}
    (ops : SemOps S) (tx_timeout_ms : ℕ) where
  -- The frame that a step has handed over, if any.
  abbrev pub hand_over : List (List ℕ) → Line S → Line S
  hand_over [] l = l
  hand_over (frame ∷ frames) l = call_send ops tx_timeout_ms frame l.sending l

  abbrev pub outside : System → Linked S → Linked S
  outside s x = record x {
    system = s;
    line = hand_over (drop (length x.system.desk.drain.sent) s.desk.drain.sent) x.line;
  }

  -- The thread is in `transport_send`, or not.
  abbrev pub thread_act : ℕ → Bool → Sending → Linked S → Linked S
  thread_act now tx_ok (returned outcome) x =
      outside (perform c board image crc32 (Deed.thread now) x.system) x
  thread_act now tx_ok sending x = record x {
    line = transport_step ops tx_timeout_ms tx_ok sending x.line;
    age = aged sending x.age;
  }

  unfoldable pub act : Act → Linked S → Linked S
  act (Act.event i now may_block e) x = record x {
    system = perform c board image crc32 (Deed.event i now may_block e) x.system;
  }
  act (Act.go_on i) x = record x { system = perform c board image crc32 (Deed.go_on i) x.system }
  act (Act.thread now tx_ok) x = thread_act now tx_ok x.line.sending x
  act (Act.callback e) x = record x { line = uart_cb ops tx_timeout_ms e x.line }
  act Act.shift x = record x { line = shifted ops tx_timeout_ms x.line.todo x.line }

  unfoldable pub act_run : List Act → Linked S → Linked S
  act_run [] x = x
  act_run (a ∷ acts) x = act_run acts (act a x)
