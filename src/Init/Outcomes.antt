-- ===== src/Init/Outcomes.antt =====
-- When the drain thread runs after the initialisation.
use embarch_outpost.Prelude.{
  ◌≡◌, refl, sym, ◌∙◌, Bool, true, false, Bool-cases, inl, inr, ◌&&◌, ltb,
}
use embarch_outpost.Init.{
  is_zero, Zephyr, PortConfig, configure_baud, try_baud, transport_init, outpost_init,
}

-- What Zephyr documents of its calls, for `running`, which says whether the drain thread has been
-- created: only `k_thread_create` creates it. The error code is not 0.
pub record IsZephyr {D : Type 0} {UartConfig : Type 0} (z : Zephyr D UartConfig)
    (running : D → Bool) : Type 0 where
  pub configure : (cfg : UartConfig) (d : D) → running (z.uart_configure cfg d).1 ≡ running d
  pub callback : (d : D) → running (z.uart_callback_set d).1 ≡ running d
  pub create : (d : D) → running (z.k_thread_create d) ≡ true
  pub name : (d : D) → running (z.k_thread_name_set d) ≡ running d
  pub failed : is_zero z.failed ≡ false

module _ {D : Type 0} {UartConfig : Type 0} {z : Zephyr D UartConfig} {running : D → Bool}
    (zephyr : IsZephyr z running) (c : PortConfig) where
  baud-running : (d : D) → running (try_baud z c d).0 ≡ running d
  unfolding try_baud configure_baud
  baud-running d = elim (Bool-cases (ltb 0 c.baud)) [
    | inl on ↦ elim (Bool-cases (is_zero (z.uart_config_get d).0)) [
      | inl ok ↦ rw (on, ok) (zephyr.configure (z.set_baudrate c.baud (z.uart_config_get d).1) d)
      | inr bad ↦ rw (on, bad) refl
    ]
    | inr off ↦ rw off refl
  ]

  transport-running : (d : D) → running (transport_init z c d).1 ≡ running d
  unfolding transport_init
  transport-running d = elim (Bool-cases c.uart_async) [
    | inl on ↦ rw on (zephyr.callback d)
    | inr off ↦ rw off refl
  ]

  -- Where only `k_thread_create` creates the drain thread, after `outpost_init` it has been created
  -- just when the result is 0, and the result is 0 just when the device is ready and the
  -- transport's initialisation succeeds: an error in setting the baud rate is no error of the
  -- initialisation.
  pub outpost_init-running :
      (d : D)
      → running d ≡ false
      → (running (outpost_init z c d).1 ≡ is_zero (outpost_init z c d).0)
        × (is_zero (outpost_init z c d).0
            ≡ (z.device_is_ready d && is_zero (transport_init z c (try_baud z c d).0).0))
  unfolding outpost_init
  outpost_init-running d stopped = elim (Bool-cases (z.device_is_ready d)) [
    | inr down ↦ rw down (stopped ∙ sym zephyr.failed, zephyr.failed)
    | inl ready ↦ elim (Bool-cases (is_zero (transport_init z c (try_baud z c d).0).0)) [
      | inl up ↦
          rw (ready, up)
            (
              zephyr.name (z.k_thread_create (transport_init z c (try_baud z c d).0).1)
                  ∙ zephyr.create (transport_init z c (try_baud z c d).0).1,
              refl,
            )
      | inr bad ↦
          rw (ready, bad)
            (transport-running (try_baud z c d).0 ∙ baud-running d ∙ stopped ∙ sym bad, bad)
    ]
  ]
