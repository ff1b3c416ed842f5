-- ===== src/Lib.antt =====
-- The embarch outpost is a trace recorder for Zephyr. Hooks in the kernel's hottest paths put one
-- record each into a lock-free ring; a drain thread takes records out in batches, reports the losses,
-- seals each batch with a CRC, stuffs it with COBS and sends it over a UART; a host splits the stream
-- at the delimiters, checks the frames and decodes them.
--
-- Prelude: lists over native numbers, Boolean tests, writes into buffers.
-- Config: the symbols of Kconfig that the C code reads, with their ranges, and the buffer sizes that
--   src/outpost.c computes (FRAME_BYTES, HEADER_MAX_BYTES).
-- Wire: the encoders of src/outpost_wire.c. `put_varint`, `put_string` and `put_record` are
--   `outpost_put_varint`, `outpost_put_string` and `outpost_put_record`: a buffer with an offset and a
--   capacity goes in, the buffer and the result come out. The do-while loop is recursion on the
--   number, which gets smaller.
-- Frame: the rest of src/outpost_wire.c. `cobs_encode` is `outpost_cobs_encode`, a step for each byte;
--   `frame` is `outpost_frame`, with the static buffer `sealed` as state.
-- Ring: src/outpost_ring.c. `put_step` is `outpost_ring_put` with a step for each access to shared
--   memory; `ring_put` is a call that nobody interrupts, on a fuel of eight steps, which the longest
--   way takes. `ring_get`, `ring_pending` and `ring_take_gap` are whole calls; `Ring.Reader` and
--   `Ring.Taker` are `outpost_ring_get` and `outpost_ring_take_gap` in steps. `Ring.Queue` is the
--   specification: a bounded queue with an account of the losses.
-- Interleaving: any number of contexts in `outpost_ring_put`, and the consumer in `outpost_ring_get`
--   and `outpost_ring_take_gap`, a step at a time in any order; a store is seen by all contexts at once.
--   Ghost fields count the reservations
--   without wrapping, and log the record of each. A compare-and-swap cannot tell a head from the same
--   head 2 ^ 32 reservations later; `Prompt` excludes that, and only a run of more than 2 ^ 32 steps
--   can fail it (`Interleaving.Short`). The consumer's two functions may overlap here, which one drain
--   thread does not do.
-- Drain: src/outpost.c. `build_records_frame`, `header_flags`, `send_header` and `send_body`, with the
--   static buffers and the frames handed to the transport as state. The record loop has a fuel of
--   127: its counter starts at 0 or 1, and stops it at 127.
-- Drain.Answers: `build_records_frame` again, with the answers of its calls of the ring as arguments,
--   since hooks can change the ring between them, and the rounds of the loop with it;
--   `Thread.Answered` puts them on a run of `Interleaving`.
-- Hooks: src/outpost_hooks.c. Every hook and `outpost_marker`, as the arguments of its call of
--   `outpost_ring_put`, and `fire` for an event as a whole. `Hooks.Shown` holds the documented names and
--   numbers of the events.
-- Thread: `drain_thread_fn` of src/outpost.c, a step from one wait to the next, and `system_run`, which
--   lets events and steps of the thread alternate. `Thread.Books` says what is compared: the records that
--   the hooks offered, those that the host decodes, those in the ring, and the losses.
-- Concurrent: the whole system in the smallest steps. `desk_step` is `drain_thread_fn` and
--   `build_records_frame` with a step for each access to shared memory, on the ring of `Interleaving`; a
--   `Deed` is a call of a hook, a step of a context in its call, or a step of the thread. A header
--   frame, and the sealing and sending of a frame, touch no shared memory and are part of a step. The
--   record loop needs no fuel here. `Concurrent.Refine` compares it with `Thread`,
--   and `Concurrent.Burst` with what a frame is to say.
-- Transport: `uart_cb` and `transport_send` of src/outpost.c, a step for each call of Zephyr and for each
--   millisecond of a wait, with callbacks in between; `poll_send` is the version without an
--   asynchronous driver. `Transport.SemOps` is the semaphore. Of the driver, the bytes on the wire and
--   the rest of the transfer are state: `uart_tx` starts a transfer, its bytes go out one at a time, and
--   one that was aborted leaves the bytes on the wire that had gone out, without a delimiter.
-- Link: the drain thread and its transport together. A step of the thread that sends a frame begins a call
--   of `transport_send`, and the thread's next steps are that call's until it has returned, while hooks,
--   the bytes of the transfer and the driver's callbacks go on.
-- Init: `outpost_init` and `transport_init` of src/outpost.c, over `Zephyr`, the calls that they make.
-- Markers: src/outpost_markers.c, the enumerators and OUTPOST_EVT of include/embarch/outpost.h, and
--   `read_markers` of scripts/gen_outpost_manifest.py, over the words and strings of an ELF file.
-- Platform: `outpost_cycles` of src/outpost_time.h, and OUTPOST_SELF_IRQ of src/outpost_priv.h, over the
--   counters and the devicetree as parameters.
-- Host: scripts/decode_outpost.py. `cobs_decode`, `take_varint`, `take_string`, and
--   `decode_stream`, with `decode_chunk` for the body of its loop. The COBS loop has as much fuel as
--   the chunk has bytes. `Host.Text` is Python's UTF-8 decoding, and `Host.Kinds` is KIND_NAMES.
--   `Host.Stats` is what it counts (lost frames by their sequence numbers), and `Host.Unwrap` the
--   absolute times of `render`.
-- Tests: runs with literal bytes, and the theorems at concrete inputs.
--
-- `crc32_ieee` and `binascii.crc32` are one parameter, a function from bytes to a uint32_t. The cycle
-- counter, the cycle rate, the version and build strings, the addresses of threads and the number of
-- the active interrupt are arguments.
--
-- Not modelled: the rest of the manifest generator; the rows that the host renders and their arrival
-- stamps.
pub mod Prelude
pub mod Wire
pub mod Frame
pub mod Host
pub mod Ring
pub mod Concurrent
pub mod Link
pub mod Config
pub mod Drain
pub mod Interleaving
pub mod Transport
pub mod Init
pub mod Hooks
pub mod Markers
pub mod Platform
pub mod Thread
mod Tests
