-- ===== src/Drain.antt =====
-- src/outpost.c: the frames, and the rounds of the drain thread. `crc32_ieee` is Zephyr's, and a
-- parameter; so are the cycle rate, the uptime and the strings of the generated header.
pub mod Flags
pub mod Records
pub mod Losses
pub mod Build
pub mod Stream
pub mod Fields
pub mod Header
pub mod Answers
use embarch_outpost.Prelude.{
  ℕ, zero, suc, ◌+◌, ◌-◌, ◌%◌, ◌^◌, ◌≤◌, ◌<◌, bit_or, Bool, true, false, List, [], ◌∷◌, ◌++◌,
  Option, none, some, length, set, take, if◌then◌else◌, ◌==◌, ltb, leb, ◌&&◌,
}
use embarch_outpost.Config.{Config, frame_buf_bytes, batch_records_target}
use embarch_outpost.Wire.{
  Rec, put_varint, put_string, put_record, Emit, ◌>>◌, advance, emit_varint, record_max_bytes,
}
use embarch_outpost.Frame.{frame}
use embarch_outpost.Ring.{Ring, Gap, ring_slots, ring_get, ring_take_gap, ring_pending}

-- `OUTPOST_FRAME_RECORDS`, `OUTPOST_FRAME_HEADER`, `OUTPOST_RECORD_LAYOUT_VERSION`, `OUTPOST_KIND_GAP`
abbrev pub frame_records : ℕ
frame_records = 0x01

abbrev pub frame_header : ℕ
frame_header = 0x02

abbrev pub record_layout_version : ℕ
record_layout_version = 3

abbrev pub kind_gap : ℕ
kind_gap = 8

-- `enum outpost_header_flag`
abbrev pub flag_trace_threads : ℕ
flag_trace_threads = 2 ^ 0

abbrev pub flag_trace_isrs : ℕ
flag_trace_isrs = 2 ^ 1

abbrev pub flag_trace_idle : ℕ
flag_trace_idle = 2 ^ 2

abbrev pub flag_trace_markers : ℕ
flag_trace_markers = 2 ^ 3

abbrev pub flag_isr_identify : ℕ
flag_isr_identify = 2 ^ 4

abbrev pub flag_overflow_block : ℕ
flag_overflow_block = 2 ^ 5

abbrev pub flag_trace_gpio : ℕ
flag_trace_gpio = 2 ^ 6

abbrev pub flag_trace_self : ℕ
flag_trace_self = 2 ^ 7

-- `#if defined(...) flags |= BIT(n); #endif`
abbrev pub or_flag : Bool → ℕ → ℕ → ℕ
or_flag enabled bit flags = if enabled then bit_or flags bit else flags

unfoldable pub header_flags : Config → ℕ
header_flags c = or_flag c.trace_self flag_trace_self (
    or_flag c.trace_gpio flag_trace_gpio (
      or_flag c.overflow_block flag_overflow_block (
        or_flag c.isr_identify flag_isr_identify (
          or_flag c.trace_markers flag_trace_markers (
            or_flag c.trace_idle flag_trace_idle (
              or_flag c.trace_isrs flag_trace_isrs
                (or_flag c.trace_threads flag_trace_threads 0)))))))

-- The static variables of the drain thread, and the frames handed to `transport_send`, oldest first.
pub record Drain : Type 0 where
  pub batch_buf : List ℕ
  pub frame_buf : List ℕ
  pub sealed : List ℕ
  pub frame_seq : ℕ
  pub sent : List (List ℕ)

-- `body[n++] = byte;`
unfoldable pub append_byte : ℕ → Emit
append_byte byte buf n = (set buf n byte, some (n + 1))

unfoldable pub emit_string : ℕ → Option (List ℕ) → Emit
emit_string cap s buf n = advance n (put_string buf n (cap - n) s)

-- The locals of `build_records_frame`, with the ring.
pub record Batch : Type 0 where
  pub buf : List ℕ
  pub n : ℕ
  pub count : ℕ
  pub ring : Ring

-- The gap record, stamped when the losses started.
abbrev pub gap_record : Gap → Rec
gap_record g = record { cycles = g.first_cycles; kind = kind_gap; a = g.dropped; b = g.cycle_span }

-- `if (w > 0) { n += w; count++; }`
abbrev pub added : Batch → List ℕ × ℕ → Batch
added b (buf, w) =
    if w == 0
    then record b { buf = buf }
    else record b { buf = buf; n = b.n + w; count = b.count + 1 }

abbrev pub add_gap : Option Gap → Batch → Batch
add_gap none b = b
add_gap (some g) b = added b (put_record b.buf b.n (length b.buf - b.n) (gap_record g))

-- `if (outpost_ring_take_gap(...)) { ... }`
unfoldable pub take_gap_record : Batch → Batch
take_gap_record b = let (gap, ring) = ring_take_gap b.ring in add_gap gap (record b { ring = ring })

-- The start of `build_records_frame`, with room for a count of one byte.
unfoldable pub started : Drain → Ring → Batch
started d r = record {
  buf = set (set d.batch_buf 0 frame_records) 1 d.frame_seq;
  n = 3;
  count = 0;
  ring = r;
}

-- Its end: what it returns, and the state that it leaves.
unfoldable pub finish : Drain → Batch → ℕ × Drain × Ring
finish d b = if b.count == 0 then (0, record d { batch_buf = b.buf }, b.ring) else (
  b.n,
  record d { batch_buf = set b.buf 2 (b.count % 256); frame_seq = (d.frame_seq + 1) % 256 },
  b.ring,
)

module _ (c : Config) where
  -- The record loop. `fuel` is 127, which the count reaches first.
  unfoldable pub build_loop : ℕ → Batch → Batch
  build_loop zero b = b
  build_loop (suc fuel) b =
      let (out, ring) = ring_get (ring_slots c.ring_bytes) b.ring in
      let popped = record b { ring = ring } in
      let go = λ (rec : Rec).
        let (buf, w) = put_record b.buf b.n (length b.buf - b.n) rec in
        let next = build_loop fuel (added popped (buf, w)) in
        if w == 0 then record popped { buf = buf } else next in
      if ltb b.count 127 && leb record_max_bytes (length b.buf - b.n)
      then elim out [ none ↦ popped | some rec ↦ go rec ]
      else b

  unfoldable pub build_records_frame : Drain → Ring → ℕ × Drain × Ring
  build_records_frame d r = finish d (build_loop 127 (take_gap_record (started d r)))

module _ (crc32 : List ℕ → ℕ) where
  -- `send_body(batch_buf, body_len)`
  unfoldable pub send_body : ℕ → Drain → Drain
  send_body body_len d =
      let f = frame crc32 d.sealed (take body_len d.batch_buf) d.frame_buf (length d.frame_buf) in
      let framed = record d { sealed = f.sealed; frame_buf = f.out } in
      if f.framed == 0 then framed else record framed { sent = d.sent ++ take f.framed f.out ∷ [] }

-- What `send_header` reads: the rate in cycles, the version and the build ID.
pub record Image : Type 0 where
  pub cycles_per_sec : ℕ
  pub version : List ℕ
  pub build_id : List ℕ

module _ (c : Config) (image : Image) where
  -- The part of `send_header` that can return early.
  unfoldable pub header_fields : ℕ → ℕ → Emit
  header_fields cap seq = do
    append_byte frame_header
    append_byte seq
    append_byte record_layout_version
    append_byte (header_flags c)
    emit_varint 0 cap (image.cycles_per_sec % 2 ^ 32)
    emit_string cap (some image.version)
    emit_string cap (some image.build_id)

module _ (crc32 : List ℕ → ℕ) where
  -- After an early return the sequence number is spent all the same.
  abbrev pub send_fields : Drain → List ℕ × Option ℕ → Drain
  send_fields d (buf, none) = record d { batch_buf = buf; frame_seq = (d.frame_seq + 1) % 256 }
  send_fields d (buf, some n) =
      send_body crc32 n (record d { batch_buf = buf; frame_seq = (d.frame_seq + 1) % 256 })

module _ (c : Config) (image : Image) (crc32 : List ℕ → ℕ) where
  unfoldable pub send_header : Drain → Drain
  send_header d =
      send_fields crc32 d (header_fields c image (length d.batch_buf) d.frame_seq d.batch_buf 0)
