-- ===== src/Config.antt =====
-- Kconfig: the symbols of the outpost that the C code reads, with their ranges.
use embarch_outpost.Prelude.{ℕ, ◌*◌, ◌+◌, ◌/◌, ◌-◌, ◌≤◌, Bool}

pub record Config : Type 0 where
  pub ring_bytes : ℕ
  pub batch_bytes : ℕ
  pub fill_wait_ms : ℕ
  pub thread_wait_ms : ℕ
  pub header_interval_ms : ℕ
  pub build_id_max : ℕ
  pub trace_threads : Bool
  pub trace_isrs : Bool
  pub trace_idle : Bool
  pub trace_markers : Bool
  pub isr_identify : Bool
  pub overflow_block : Bool
  pub trace_gpio : Bool
  pub trace_self : Bool

-- `FRAME_BYTES`, `BATCH_RECORDS_TARGET` and `HEADER_MAX_BYTES`
unfoldable pub frame_buf_bytes : Config → ℕ
frame_buf_bytes c = c.batch_bytes + 4 + (c.batch_bytes + 4) / 254 + 3

unfoldable pub batch_records_target : Config → ℕ
batch_records_target c = (c.batch_bytes - 3) / 16

unfoldable pub header_max_bytes : Config → ℕ
header_max_bytes c = 9 + 2 * (2 + c.build_id_max)

-- The ranges of Kconfig, and the BUILD_ASSERT that a batch holds a header.
pub record IsConfig (c : Config) : Type 0 where
  pub ring_bytes : (256 ≤ c.ring_bytes) × (c.ring_bytes ≤ 262144)
  pub batch_bytes : (64 ≤ c.batch_bytes) × (c.batch_bytes ≤ 8192)
  pub build_id_max : (16 ≤ c.build_id_max) × (c.build_id_max ≤ 128)
  pub header_fits : header_max_bytes c ≤ c.batch_bytes
