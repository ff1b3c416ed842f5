-- ===== src/Thread.antt =====
-- src/outpost.c, `drain_thread_fn`: the loop of the drain thread as a machine, a step from one point
-- where hooks can run to the next, and the system that interleaves it with events.
pub mod System
pub mod Progress
pub mod Books
pub mod Delivery
pub mod Answered
use embarch_outpost.Prelude.{
  false, ℕ, ◌+◌, ◌-◌, Bool, List, [], ◌∷◌, Option, none, some, if◌then◌else◌, ◌==◌, ltb, leb, ◌&&◌,
  ◌>>=◌,
}
use embarch_outpost.Config.{Config, batch_records_target}
use embarch_outpost.Ring.{Ring, ring_slots, ring_pending}
use embarch_outpost.Drain.{Drain, Image, send_header, send_body, build_records_frame}
use embarch_outpost.Hooks.{Board, Event, fire}

-- Where the thread stands: before its first header, at the top of the loop, before the fill wait,
-- asleep in it, before the frame is built, and asleep with nothing to send.
pub data Position : Type 0 where
  begin top fill filling build idle : Position

-- `last_header` beside the static variables. Uptimes are not negative and do not go back.
pub record Thread : Type 0 where
  pub drain : Drain
  pub last_header : ℕ
  pub position : Position

module _ (c : Config) (image : Image) (crc32 : List ℕ → ℕ) where
  -- `if (body_len == 0) { k_sleep(...); continue; } send_body(batch_buf, body_len);`
  abbrev pub sent_frame : Thread → ℕ × Drain × Ring → Thread × Ring
  sent_frame t (body_len, d, r) =
      if body_len == 0
      then (record t { drain = d; position = Position.idle }, r)
      else (record t { drain = send_body crc32 body_len d; position = Position.top }, r)

  -- One step at the uptime `now`, which is read at most once.
  unfoldable pub thread_step : ℕ → Position → Thread → Ring → Thread × Ring
  thread_step now Position.begin t r = (
    record t {
      drain = send_header c image crc32 t.drain;
      last_header = now;
      position = Position.top;
    },
    r,
  )
  thread_step now Position.top t r =
      if ltb 0 c.header_interval_ms && leb c.header_interval_ms (now - t.last_header)
      then (
        record t {
          drain = send_header c image crc32 t.drain;
          last_header = now;
          position = Position.fill;
        },
        r,
      )
      else (record t { position = Position.fill }, r)
  thread_step now Position.fill t r =
      if ltb 0 c.fill_wait_ms
        && ltb (ring_pending (ring_slots c.ring_bytes) r) (batch_records_target c)
      then (record t { position = Position.filling }, r)
      else (record t { position = Position.build }, r)
  thread_step now Position.filling t r = (record t { position = Position.build }, r)
  thread_step now Position.build t r = sent_frame t (build_records_frame c t.drain r)
  thread_step now Position.idle t r = (record t { position = Position.top }, r)

-- What happens next in the system: an event at a cycle count, or a step of the thread at an uptime.
pub data Action : Type 0 where
  event : ℕ → Event → Action
  thread : ℕ → Action

module _ (c : Config) (board : Board) (image : Image) (crc32 : List ℕ → ℕ) where
  -- Producers may not block; `none` if a hook did not return.
  unfoldable pub system_run : List Action → Thread → Ring → Option (Thread × Ring)
  system_run [] t r = some (t, r)
  system_run (event now e ∷ actions) t r =
      fire c board (ring_slots c.ring_bytes) now false e r >>= λ r'. system_run actions t r'
  system_run (thread now ∷ actions) t r =
      let (t', r') = thread_step c image crc32 now t.position t r in system_run actions t' r'
