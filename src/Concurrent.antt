-- ===== src/Concurrent.antt =====
-- src/outpost.c, `drain_thread_fn`, and src/outpost_ring.c: the whole system with each access of the drain
-- thread and of the hooks to shared memory a step, which any other may follow.
pub mod Fits
pub mod Filling
pub mod Flow
pub mod Steps
pub mod Reads
pub mod Moves
pub mod Runs
pub mod Delivery
pub mod Accounts
pub mod Rounds
pub mod Alone
pub mod Midway
pub mod Drained
pub mod Liveness
pub mod Whole
pub mod Refine
pub mod Burst
use embarch_outpost.Prelude.{
  ℕ, ◌-◌, Bool, false, List, [], ◌∷◌, Option, none, some, length, if◌then◌else◌, ◌==◌, ltb, leb,
  ◌&&◌,
}
use embarch_outpost.Config.{Config, batch_records_target}
use embarch_outpost.Wire.{Rec, put_record, record_max_bytes}
use embarch_outpost.Ring.{Ring, Gap, Phase, ring_slots, ring_pending}
use embarch_outpost.Ring.Taker.{Taker, take_step}
use embarch_outpost.Ring.Reader.{Reader, get_step}
use embarch_outpost.Drain.{Drain, Image, Batch, added, add_gap, started, finish, send_header}
use embarch_outpost.Drain.Answers.{after_frame}
use embarch_outpost.Hooks.{Board, Event, Put, hook, stamped}
use embarch_outpost.Interleaving.{Context, World, Pick, call, go, read, take, move, opening}

-- Where the drain thread stands: the points of the machine of whole calls; in `outpost_ring_pending`, with
-- the head that it has loaded; and in `build_records_frame`, with its locals: in
-- `outpost_ring_take_gap`, at the head of the record loop, and in `outpost_ring_get`.
pub data Stand : Type 0 where
  begin top fill filling build idle : Stand
  pending : (head : ℕ) → Stand
  gapping looping getting : (b : Batch) → Stand

pub record Desk : Type 0 where
  pub drain : Drain
  pub last_header : ℕ
  pub stand : Stand

pub record System : Type 0 where
  pub desk : Desk
  pub world : World

-- A hook is called in a context, at a cycle count, and where it may block or not; a context takes a step
-- in `outpost_ring_put`; or the drain thread takes one, at an uptime.
pub data Deed : Type 0 where
  event : ℕ → ℕ → Bool → Event → Deed
  go_on : ℕ → Deed
  thread : ℕ → Deed

-- `outpost_ring_take_gap` goes on, or has returned.
abbrev pub after_take : Taker → Option Gap → Batch → Stand
after_take Taker.rest gap b = Stand.looping (add_gap gap b)
after_take taker gap b = Stand.gapping b

module _ (crc32 : List ℕ → ℕ) where
  -- `if (body_len == 0) { k_sleep(...); continue; } send_body(batch_buf, body_len);`
  abbrev pub close : Desk → ℕ × Drain × Ring → Desk
  close t out = record t {
    drain = after_frame crc32 out;
    stand = if out.0 == 0 then Stand.idle else Stand.top;
  }

  -- `if (w == 0) { break; } n += w; count++;`
  abbrev pub after_put : Desk → Batch → List ℕ × ℕ → Desk
  after_put t b (buf, w) =
      if w == 0
      then close t (finish t.drain (record b { buf = buf }))
      else record t { stand = Stand.looping (added b (buf, w)) }

  -- `outpost_ring_get` goes on, or has returned.
  abbrev pub after_get : Reader → Option Rec → Desk → Batch → Desk
  after_get Reader.rest none t b = close t (finish t.drain b)
  after_get Reader.rest (some rec) t b =
      after_put t b (put_record b.buf b.n (length b.buf - b.n) rec)
  after_get reader out t b = record t { stand = Stand.getting b }

module _ (c : Config) (image : Image) (crc32 : List ℕ → ℕ) where
  -- A step of the drain thread at the uptime `now`, which is read at most once.
  unfoldable pub desk_step : ℕ → Stand → Desk → World → Desk
  desk_step now Stand.begin t w = record t {
    drain = send_header c image crc32 t.drain;
    last_header = now;
    stand = Stand.top;
  }
  desk_step now Stand.top t w =
      if ltb 0 c.header_interval_ms && leb c.header_interval_ms (now - t.last_header)
      then record t {
        drain = send_header c image crc32 t.drain;
        last_header = now;
        stand = Stand.fill;
      }
      else record t { stand = Stand.fill }
  desk_step now Stand.fill t w = record t {
    stand = if ltb 0 c.fill_wait_ms then Stand.pending w.ring.head else Stand.build;
  }
  desk_step now (Stand.pending head) t w = record t {
    stand =
        if ltb (ring_pending (ring_slots c.ring_bytes) (record w.ring { head = head }))
          (batch_records_target c)
        then Stand.filling
        else Stand.build;
  }
  desk_step now Stand.filling t w = record t { stand = Stand.build }
  desk_step now Stand.build t w = record t { stand = Stand.gapping (started t.drain w.ring) }
  desk_step now (Stand.gapping b) t w =
      let (taker, ring, gap) = take_step w.taker w.ring in
      record t { stand = after_take taker gap b }
  desk_step now (Stand.looping b) t w =
      if ltb b.count 127 && leb record_max_bytes (length b.buf - b.n)
      then record t { stand = Stand.getting b }
      else close crc32 t (finish t.drain b)
  desk_step now (Stand.getting b) t w =
      let (reader, ring, out) = get_step (ring_slots c.ring_bytes) w.reader w.ring in
      after_get crc32 reader out t b
  desk_step now Stand.idle t w = record t { stand = Stand.top }

-- What the step does to shared memory.
abbrev pub thread_pick : Stand → Option Pick
thread_pick (Stand.gapping b) = some take
thread_pick (Stand.getting b) = some read
thread_pick stand = none

-- A hook that has something to record calls `outpost_ring_put`.
abbrev pub put_pick : ℕ → ℕ → Bool → Option Put → Option Pick
put_pick i now may_block none = none
put_pick i now may_block (some p) = some (call i (stamped now may_block p))

abbrev pub moved : ℕ → Option Pick → World → World
moved n none w = w
moved n (some pick) w = move n pick w

module _ (c : Config) (board : Board) where
  abbrev pub deed_pick : Deed → System → Option Pick
  deed_pick (Deed.event i now may_block e) s = put_pick i now may_block (hook c board e)
  deed_pick (Deed.go_on i) s = some (go i)
  deed_pick (Deed.thread now) s = thread_pick s.desk.stand

module _ (c : Config) (board : Board) (image : Image) (crc32 : List ℕ → ℕ) where
  abbrev pub deed_desk : Deed → System → Desk
  deed_desk (Deed.event i now may_block e) s = s.desk
  deed_desk (Deed.go_on i) s = s.desk
  deed_desk (Deed.thread now) s = desk_step c image crc32 now s.desk.stand s.desk s.world

  unfoldable pub perform : Deed → System → System
  perform deed s = record {
    desk = deed_desk deed s;
    world = moved (ring_slots c.ring_bytes) (deed_pick c board deed s) s.world;
  }

  unfoldable pub run : List Deed → System → System
  run [] s = s
  run (deed ∷ deeds) s = run deeds (perform deed s)

-- No hook has been called yet.
abbrev pub no_call : Context
no_call = record {
  call = record { rec = record { cycles = 0; kind = 0; a = 0; b = 0 }; may_block = false };
  phase = Phase.done;
  seen = 0;
  mine = 0;
}

-- The drain thread begins on a ring after `outpost_ring_init_at(start)`.
abbrev pub boot : Config → ℕ → Drain → ℕ → Ring → System
boot c uptime d start r = record {
  desk = record { drain = d; last_header = uptime; stand = Stand.begin };
  world = opening (ring_slots c.ring_bytes) start r no_call;
}
