-- ===== src/Drain/Answers.antt =====
-- src/outpost.c, `build_records_frame` while hooks fire between its calls of the ring: what those calls
-- answer is an argument. The field `ring` of a batch is not used here.
pub mod Loop
pub mod Frame
use embarch_outpost.Prelude.{
  ℕ, zero, suc, ◌+◌, ◌-◌, List, [], ◌∷◌, Option, none, some, length, if◌then◌else◌, ◌==◌, ltb, leb,
  ◌&&◌,
}
use embarch_outpost.Config.{Config}
use embarch_outpost.Wire.{Rec, put_record, record_max_bytes}
use embarch_outpost.Ring.{Ring, Gap}
use embarch_outpost.Drain.{
  Drain, Batch, added, add_gap, started, finish, send_body, Image, send_header,
}

-- The record loop, on the answers of `outpost_ring_get`; those that it has not used are left.
unfoldable pub answered_loop : ℕ → List (Option Rec) → Batch → Batch × List (Option Rec)
answered_loop zero gets b = (b, gets)
answered_loop (suc fuel) [] b = (b, [])
answered_loop (suc fuel) (none ∷ gets) b =
    if ltb b.count 127 && leb record_max_bytes (length b.buf - b.n)
    then (b, gets)
    else (b, none ∷ gets)
answered_loop (suc fuel) (some rec ∷ gets) b =
    let (buf, w) = put_record b.buf b.n (length b.buf - b.n) rec in
    let next = answered_loop fuel gets (added b (buf, w)) in
    if ltb b.count 127 && leb record_max_bytes (length b.buf - b.n)
    then (if w == 0 then (record b { buf = buf }, gets) else next)
    else (b, some rec ∷ gets)

-- `build_records_frame`, with the answer of `outpost_ring_take_gap` first.
unfoldable pub answered_frame :
    Option Gap → List (Option Rec) → Drain → Ring → (ℕ × Drain × Ring) × List (Option Rec)
answered_frame gap gets d r =
    let (b, rest) = answered_loop 127 gets (add_gap gap (started d r)) in (finish d b, rest)

-- `if (body_len != 0) { send_body(batch_buf, body_len); }`
abbrev pub after_frame : (List ℕ → ℕ) → ℕ × Drain × Ring → Drain
after_frame crc32 (body_len, d, r) = if body_len == 0 then d else send_body crc32 body_len d

-- What the loop of the drain thread does in a round: a header frame when it is due, or a records frame,
-- with the answer of `outpost_ring_take_gap`.
pub data Round : Type 0 where
  header_round : Round
  records_round : Option Gap → Round

unfoldable pub answered_rounds :
    Config
    → Image
    → (List ℕ → ℕ)
    → List Round
    → List (Option Rec)
    → Drain
    → Ring
    → Drain × List (Option Rec)
answered_rounds c image crc32 [] gets d r = (d, gets)
answered_rounds c image crc32 (header_round ∷ rounds) gets d r =
    answered_rounds c image crc32 rounds gets (send_header c image crc32 d) r
answered_rounds c image crc32 (records_round gap ∷ rounds) gets d r =
    let (out, rest) = answered_frame gap gets d r in
    answered_rounds c image crc32 rounds rest (after_frame crc32 out) r
