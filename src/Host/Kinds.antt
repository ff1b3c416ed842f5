-- ===== src/Host/Kinds.antt =====
-- The names of the record kinds in scripts/decode_outpost.py.
use Prim.Native.String.{String}
use embarch_outpost.Prelude.{ℕ, Option, none, some, if◌then◌else◌, ◌==◌}

-- `KIND_NAMES.get(kind)`
unfoldable pub kind_name : ℕ → Option String
kind_name kind =
    if kind == 0
    then some "thread_switch_in"
    else if kind == 1
    then some "thread_switch_out"
    else if kind == 2
    then some "isr_enter"
    else if kind == 3
    then some "isr_exit"
    else if kind == 4
    then some "idle"
    else if kind == 5
    then some "thread_create"
    else if kind == 6
    then some "thread_name"
    else if kind == 7
    then some "marker"
    else if kind == 8
    then some "gap"
    else if kind == 9
    then some "gpio_dispatch"
    else if kind == 10
    then some "gpio_callback_done"
    else none
