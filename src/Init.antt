-- ===== src/Init.antt =====
-- src/outpost.c, `outpost_init`: the device, its baud rate, the transport and the drain thread. What
-- Zephyr does is a parameter.
pub mod Outcomes
use embarch_outpost.Prelude.{ℕ, Bool, true, false, List, [], ◌∷◌, ◌++◌, if◌then◌else◌, ◌==◌, ltb}

-- An `int`; errors are negative.
pub data ℤ : Type 0 where
  pos : ℕ → ℤ
  negsuc : ℕ → ℤ

-- `err == 0`
abbrev pub is_zero : ℤ → Bool
is_zero (pos n) = n == 0
is_zero (negsuc n) = false

-- What the code uses of Zephyr, for any state `D` of the device and the kernel, and any
-- `struct uart_config`; `set_baudrate` is the assignment to its field. `failed` is `-ENODEV`.
pub record Zephyr (D : Type 0) (UartConfig : Type 0) : Type 0 where
  pub device_is_ready : D → Bool
  pub uart_config_get : D → ℤ × UartConfig
  pub set_baudrate : ℕ → UartConfig → UartConfig
  pub uart_configure : UartConfig → D → ℤ × D
  pub uart_callback_set : D → ℤ × D
  pub k_thread_create : D → D
  pub k_thread_name_set : D → D
  pub failed : ℤ

-- CONFIG_EMBARCH_OUTPOST_BAUD, with 0 for every number that is not above 0, and
-- CONFIG_EMBARCH_OUTPOST_UART_ASYNC.
pub record PortConfig : Type 0 where
  pub baud : ℕ
  pub uart_async : Bool

-- The messages, without their text.
pub data Log : Type 0 where
  err_not_ready : Log
  wrn_baud : ℤ → Log
  err_transport : ℤ → Log
  inf_up : Log

module _ {D : Type 0} {UartConfig : Type 0} (z : Zephyr D UartConfig) (c : PortConfig) where
  -- The two calls for the baud rate, and their error.
  unfoldable pub configure_baud : D → ℤ × D
  configure_baud d =
      let (err, cfg) = z.uart_config_get d in
      if is_zero err then z.uart_configure (z.set_baudrate c.baud cfg) d else (err, d)

  unfoldable pub try_baud : D → D × List Log
  try_baud d =
      let (err, d') = configure_baud d in
      if ltb 0 c.baud then (d', if is_zero err then [] else wrn_baud err ∷ []) else (d, [])

  unfoldable pub transport_init : D → ℤ × D
  transport_init d = if c.uart_async then z.uart_callback_set d else (pos 0, d)

  -- The result, and the messages.
  unfoldable pub outpost_init : D → ℤ × D × List Log
  outpost_init d =
      let (d1, logs) = try_baud d in
      let (err, d2) = transport_init d1 in
      if z.device_is_ready d
      then (if is_zero err
          then (pos 0, z.k_thread_name_set (z.k_thread_create d2), logs ++ inf_up ∷ [])
          else (err, d2, logs ++ err_transport err ∷ []))
      else (z.failed, d, err_not_ready ∷ [])
