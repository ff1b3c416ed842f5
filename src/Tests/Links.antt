-- ===== src/Tests/Links.antt =====
-- The drain thread and its transport: the first header frame goes over the line, and hooks fire meanwhile.
use embarch_outpost.Prelude.{
  ℕ, zero, suc, ◌+◌, ◌-◌, ◌≡◌, ◌⊎◌, refl, Bool, true, false, List, [], ◌∷◌, ◌++◌, arith,
}
use native.Mathlib.Decide.{dec_lt}
use embarch_outpost.Prelude.{lt_wf}
use embarch_outpost.Wire.{Rec, put_varint, put_varint_loop, shift_lt, put_string, emit_varint}
use embarch_outpost.Frame.{frame, cobs_encode, cobs_finish, cobs_loop, cobs_step, crc_bytes}
use embarch_outpost.Drain.{
  send_header, header_fields, append_byte, emit_string, send_body, header_flags,
}
use embarch_outpost.Transport.{transport_step, uart_cb, shifted}
use embarch_outpost.Concurrent.{desk_step, perform}
use embarch_outpost.Interleaving.{move}
use embarch_outpost.Ring.{ring_slots}
use embarch_outpost.Host.{decode_stream}
use embarch_outpost.Hooks.{Event}
use embarch_outpost.Thread.Progress.{not_gap, lost_in, trace}
use embarch_outpost.Interleaving.{opening, Prompt}
use embarch_outpost.Interleaving.Invariant.{span}
use embarch_outpost.Interleaving.Losses.{total}
use embarch_outpost.Transport.{Line, returned, completed, uart_tx_done}
use embarch_outpost.Concurrent.{boot, no_call}
use embarch_outpost.Concurrent.Runs.{picks, picks-Prompt}
use embarch_outpost.Concurrent.Delivery.{InBatch}
use embarch_outpost.Link.{Linked, Act, act, act_run}
use embarch_outpost.Link.Serving.{Serves, on_wire}
use embarch_outpost.Link.Delivery.{deeds_of, length-deeds_of, act_run_delivers}
use embarch_outpost.Link.Buffer.{NotLost, Behaves, act_run-frame_buf}
use embarch_outpost.Tests.Data.{
  board, image, checksum, checksum_word, small, small-IsConfig, fresh_drain, fresh_drain-IsDrain,
  bss, image-IsImage,
}
use embarch_outpost.Tests.Lines.{one_bit, one_bit-IsSem}

abbrev quiet_line : Line Bool
quiet_line = record {
  tx_done = false;
  sending = returned completed;
  frame = [];
  busy = false;
  aborting = false;
  todo = [];
  wire = [];
}

abbrev booted : Linked Bool
booted = record { system = boot small 3 fresh_drain 0xFFFFFFFF bss; line = quiet_line; age = 0 }

-- So many bytes go out.
abbrev bytes : ℕ → List Act → List Act
bytes zero acts = acts
bytes (suc n) acts = Act.shift ∷ bytes n acts

-- A marker's hook fires while the frame is on the line.
abbrev first : List Act
first =
    Act.thread 3 true
    ∷ Act.thread 3 true
    ∷ Act.event 0 5000 false (Event.marked 1 77)
    ∷ Act.thread 3 true
    ∷ Act.go_on 0
    ∷ []

abbrev last : List Act
last =
    Act.callback uart_tx_done
    ∷ Act.go_on 0
    ∷ Act.thread 4 true
    ∷ Act.go_on 0
    ∷ Act.thread 4 true
    ∷ []

abbrev acts : List Act
acts = first ++ bytes 23 last

abbrev ended : Linked Bool
ended = act_run small board image checksum one_bit 3 acts booted

acts-Prompt :
    Prompt
      (ring_slots small.ring_bytes)
      (picks checksum small board image
        (deeds_of small board image checksum one_bit 3 acts booted)
        (boot small 3 fresh_drain 0xFFFFFFFF bss))
      (opening (ring_slots small.ring_bytes) 0xFFFFFFFF bss no_call)
acts-Prompt =
    picks-Prompt checksum small board image
      (deeds_of small board image checksum one_bit 3 acts booted) 3 fresh_drain 0xFFFFFFFF bss
      (omega (arith, length-deeds_of small board image checksum one_bit 3 acts booted))

bytes-Serves :
    (n : ℕ) (more : List Act) (x : Linked Bool)
    → Serves small board image checksum one_bit 3 more
        (act_run small board image checksum one_bit 3 (bytes n []) x)
    → Serves small board image checksum one_bit 3 (bytes n more) x
unfolding act_run
bytes-Serves zero more x h = h
bytes-Serves (suc n) more x h =
    (tt, bytes-Serves n more (act small board image checksum one_bit 3 Act.shift x) h)

acts-Serves : Serves small board image checksum one_bit 3 acts booted
unfolding act perform desk_step send_header header_fields append_byte emit_varint put_varint
    put_varint_loop emit_string put_string send_body frame cobs_encode cobs_finish cobs_loop
    crc_bytes cobs_step header_flags transport_step uart_cb move shift_lt lt_wf dec_lt act_run
acts-Serves = (
  (tt, λ b. absurd (cc b)),
  (
    (tt, λ b. absurd (cc b)),
    (
      tt,
      (
        (refl, λ b. absurd (cc b)),
        (
          tt,
          bytes-Serves 23 last (act_run small board image checksum one_bit 3 first booted) (
            (refl, refl),
            (tt, ((tt, λ b. absurd (cc b)), (tt, ((tt, λ b. absurd (cc b)), tt)))),
          ),
        ),
      ),
    ),
  ),
)

act_run_delivers_example :
    (held : List Rec) × InBatch ended.system.desk.drain held ended.system.desk.stand
    × (let w = ended.system.world in
        let ds = decode_stream checksum (on_wire ended.line) in
        (not_gap (trace ds) ++ (not_gap held ++ span w.log w.taken (w.reserved - w.taken))
          ≡ span w.log 0xFFFFFFFF (w.reserved - 0xFFFFFFFF))
        × (lost_in (trace ds) + lost_in held ≡ total w.reported))
act_run_delivers_example =
    act_run_delivers checksum checksum_word small small-IsConfig board image image-IsImage
      fresh_drain fresh_drain-IsDrain refl 3 0xFFFFFFFF (omega arith) bss one_bit-IsSem 3 0
      quiet_line completed refl (refl, refl, refl) acts (ground arith) acts-Prompt acts-Serves

shifted-NotLost :
    (bytes : List ℕ) (l : Line Bool)
    → NotLost l.sending
    → NotLost (shifted one_bit 3 bytes l).sending
shifted-NotLost [] l h = h
shifted-NotLost (byte ∷ bytes) l h = h

bytes-Behaves :
    (n : ℕ) (more : List Act) (x : Linked Bool)
    → NotLost x.line.sending
    → Behaves one_bit-IsSem 3 small board image checksum more
        (act_run small board image checksum one_bit 3 (bytes n []) x)
    → Behaves one_bit-IsSem 3 small board image checksum (bytes n more) x
unfolding act_run act
bytes-Behaves zero more x free h = h
bytes-Behaves (suc n) more x free h = (
  free,
  tt,
  bytes-Behaves n more (act small board image checksum one_bit 3 Act.shift x)
      (shifted-NotLost x.line.todo x.line free) h,
)

acts-Behaves : Behaves one_bit-IsSem 3 small board image checksum acts booted
unfolding act perform desk_step send_header header_fields append_byte emit_varint put_varint
    put_varint_loop emit_string put_string send_body frame cobs_encode cobs_finish cobs_loop
    crc_bytes cobs_step header_flags transport_step uart_cb move shift_lt lt_wf dec_lt act_run
acts-Behaves = (
  tt,
  tt,
  (
    tt,
    tt,
    (
      tt,
      tt,
      (
        tt,
        refl,
        (
          tt,
          tt,
          bytes-Behaves 23 last (act_run small board image checksum one_bit 3 first booted) tt
              (tt, refl, (tt, tt, (tt, tt, (tt, tt, (tt, tt, tt))))),
        ),
      ),
    ),
  ),
)

act_run-frame_buf_example :
    ((act small board image checksum one_bit 3
        (Act.thread 5 true)
        ended).system.desk.drain.frame_buf
      ≡ ended.system.desk.drain.frame_buf)
    ⊎ (ended.line.busy ≡ false)
act_run-frame_buf_example =
    act_run-frame_buf one_bit-IsSem 3 small board image checksum acts booted completed refl refl
      acts-Behaves (Act.thread 5 true)
