-- ===== src/Tests/Data.antt =====
-- The data of the runs: a checksum in the place of the CRC, a small configuration, and a ring with
-- two records and a loss, at the wraparound of its counters.
use embarch_outpost.Prelude.{
  ℕ, zero, suc, ◌+◌, ◌*◌, ◌%◌, ◌^◌, ◌<◌, refl, true, false, List, [], ◌∷◌, arith,
}
use embarch_outpost.Config.{Config, IsConfig, header_max_bytes, frame_buf_bytes}
use embarch_outpost.Wire.{Rec}
use embarch_outpost.Wire.Fields.{IsRec}
use embarch_outpost.Ring.{Ring, Call, ring_slots, seq_for}
use embarch_outpost.Ring.Config.{IsSlots, ring_slots-IsSlots}
use embarch_outpost.Ring.Refine.{IsValid, stored-IsValid}
use embarch_outpost.Ring.Put.{stored}
use embarch_outpost.Drain.{Drain, Image}
use embarch_outpost.Drain.Losses.{IsDrain, IsLive}
use embarch_outpost.Hooks.{Board}
use embarch_outpost.Thread.Answered.{IsImage}

abbrev pub checksum : List ℕ → ℕ
checksum [] = 0
checksum (byte ∷ bytes) = (31 * checksum bytes + byte) % 2 ^ 32

pub checksum_word : (bytes : List ℕ) → checksum bytes < 2 ^ 32
checksum_word [] = omega arith
checksum_word (byte ∷ bytes) = omega arith

abbrev pub small : Config
small = record {
  ring_bytes = 400;
  batch_bytes = 64;
  fill_wait_ms = 50;
  thread_wait_ms = 10;
  header_interval_ms = 1000;
  build_id_max = 16;
  trace_threads = true;
  trace_isrs = true;
  trace_idle = true;
  trace_markers = true;
  isr_identify = true;
  overflow_block = false;
  trace_gpio = true;
  trace_self = false;
}

pub small-IsConfig : IsConfig small
unfolding header_max_bytes
small-IsConfig = record {
  ring_bytes = omega arith;
  batch_bytes = omega arith;
  build_id_max = omega arith;
  header_fits = omega arith;
}

-- `n` zero bytes
abbrev pub zeros : ℕ → List ℕ
zeros zero = []
zeros (suc n) = 0 ∷ zeros n

abbrev pub fresh_drain : Drain
fresh_drain = record {
  batch_buf = zeros 64;
  frame_buf = zeros 71;
  sealed = zeros 72;
  frame_seq = 255;
  sent = [];
}

pub fresh_drain-IsDrain : IsDrain small fresh_drain
unfolding frame_buf_bytes
fresh_drain-IsDrain = record {
  batch_buf = refl;
  frame_buf = refl;
  sealed = refl;
  frame_seq = omega arith;
}

abbrev pub zero_rec : Rec
zero_rec = record { cycles = 0; kind = 0; a = 0; b = 0 }

abbrev pub bss : Ring
bss = record {
  slots = λ i. record { rec = zero_rec; seq = 0 };
  head = 0;
  tail = 0;
  gap_dropped = 0;
  gap_first = 0;
  gap_last = 0;
}

abbrev pub marker_rec : Rec
marker_rec = record { cycles = 300; kind = 7; a = 1; b = 128 }

abbrev pub isr_rec : Rec
isr_rec = record { cycles = 0xFFFFFFFF; kind = 2; a = 6; b = 0 }

abbrev pub marker_call : Call
marker_call = record { rec = marker_rec; may_block = false }

abbrev pub isr_call : Call
isr_call = record { rec = isr_rec; may_block = false }

pub IsSlots-16 : IsSlots 16
unfolding ring_slots
IsSlots-16 = ring_slots-IsSlots 400

-- The counters stand at 2 ^ 32 - 1, so that the second record wraps.
abbrev pub at_wrap : Ring
at_wrap = record bss { head = 0xFFFFFFFF; tail = 0xFFFFFFFF }

abbrev pub one_in : Ring
one_in = stored 16 marker_call at_wrap

abbrev pub two_in : Ring
two_in = stored 16 isr_call one_in

pub at_wrap-IsValid : IsValid 16 at_wrap
at_wrap-IsValid = record {
  head = omega arith;
  tail = omega arith;
  bounded = omega arith;
  published = tt;
}

pub two_in-IsValid : IsValid 16 two_in
two_in-IsValid =
    stored-IsValid IsSlots-16 isr_call one_in
      (stored-IsValid IsSlots-16 marker_call at_wrap at_wrap-IsValid (omega arith)) (omega arith)

-- Two losses beside the two records.
abbrev pub lossy : Ring
lossy = record two_in { gap_dropped = 2; gap_first = 100; gap_last = 90 }

pub marker_rec-IsRec : IsRec marker_rec
marker_rec-IsRec = record {
  cycles = omega arith;
  kind = omega arith;
  a = omega arith;
  b = omega arith;
}

pub isr_rec-IsRec : IsRec isr_rec
isr_rec-IsRec = record {
  cycles = omega arith;
  kind = omega arith;
  a = omega arith;
  b = omega arith;
}

pub lossy-IsLive : IsLive small lossy
unfolding ring_slots seq_for
lossy-IsLive = record {
  valid = record {
    head = two_in-IsValid.head;
    tail = two_in-IsValid.tail;
    bounded = two_in-IsValid.bounded;
    published = two_in-IsValid.published;
  };
  recs = (marker_rec-IsRec, (isr_rec-IsRec, tt));
  gap_dropped = omega arith;
  gap_first = omega arith;
}

abbrev pub image : Image
image = record {
  cycles_per_sec = 128000000;
  version = 0x31 ∷ 0x2E ∷ 0x30 ∷ [];
  build_id = 0x61 ∷ 0x62 ∷ 0x63 ∷ 0x64 ∷ [];
}

-- The outpost's UART has interrupt 6.
abbrev pub board : Board
board = record { self_irq = 6; marker_count = 2; drain_thread = 0x20001000 }

pub image-IsImage : IsImage small image
image-IsImage = record {
  version = omega arith;
  build_id = omega arith;
  chars = (
    (omega arith, (omega arith, (omega arith, tt))),
    (omega arith, (omega arith, (omega arith, (omega arith, tt)))),
  );
}
