-- ===== src/Host/Unwrap.antt =====
-- scripts/decode_outpost.py, `render`: the absolute time of a record.
pub mod Times
use embarch_outpost.Prelude.{
  ℕ, ◌+◌, ◌-◌, ◌*◌, ◌^◌, List, [], ◌∷◌, Option, none, some, if◌then◌else◌, ltb,
}

-- `unwrap_state`
pub record UnwrapState : Type 0 where
  pub last : Option ℕ
  pub wraps : ℕ

-- The state after a record with this cycle count.
unfoldable pub unwrap : ℕ → Option ℕ → UnwrapState → UnwrapState
unwrap cycles none u = record u { last = some cycles }
unwrap cycles (some last) u =
    if ltb cycles last
    then (if ltb (2 ^ 31) (last - cycles)
        then record { last = some cycles; wraps = u.wraps + 1 }
        else u)
    else record u { last = some cycles }

-- The column `absolute`, for one record after another.
unfoldable pub absolutes : List ℕ → UnwrapState → List ℕ
absolutes [] u = []
absolutes (cycles ∷ stream) u =
    let u' = unwrap cycles u.last u in (u'.wraps * 2 ^ 32 + cycles) ∷ absolutes stream u'

abbrev pub unwrap_start : UnwrapState
unwrap_start = record { last = none; wraps = 0 }
