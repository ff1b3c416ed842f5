-- ===== src/Drain/Flags.antt =====
-- The flags byte of the header.
use embarch_outpost.Prelude.{
  ℕ, ◌/◌, ◌%◌, ◌^◌, ◌<◌, ◌≡◌, refl, Bool, true, false, ◌==◌, ◌&&◌, ltb, ltb→lt, arith,
}
use embarch_outpost.Config.{Config}
use embarch_outpost.Drain.{header_flags, or_flag}

-- Whether BIT(n) is set.
abbrev pub has_bit : ℕ → ℕ → Bool
has_bit n flags = flags / 2 ^ n % 2 == 1

abbrev agree : Bool → Bool → Bool
agree true b = b
agree false true = false
agree false false = true

agree→eq : (a b : Bool) → agree a b ≡ true → a ≡ b
agree→eq a b h = ground arith

-- All values of a Boolean.
abbrev both : (Bool → Bool) → Bool
both p = p true && p false

both_sound : (p : Bool → Bool) (b : Bool) → both p ≡ true → p b ≡ true
both_sound p true h = ground arith
both_sound p false h = ground arith

abbrev flag_tests : Bool → Bool → Bool → Bool → Bool → Bool → Bool → Bool → Bool
flag_tests threads isrs idle markers identify block gpio self =
    let flags = or_flag self (2 ^ 7) (
      or_flag gpio (2 ^ 6) (
        or_flag block (2 ^ 5) (
          or_flag identify (2 ^ 4) (
            or_flag markers (2 ^ 3)
              (or_flag idle (2 ^ 2) (or_flag isrs (2 ^ 1) (or_flag threads (2 ^ 0) 0))))))) in
    agree (has_bit 0 flags) threads
    && (agree (has_bit 1 flags) isrs
        && (agree (has_bit 2 flags) idle
            && (agree (has_bit 3 flags) markers
                && (agree (has_bit 4 flags) identify
                    && (agree (has_bit 5 flags) block
                        && (agree (has_bit 6 flags) gpio
                            && (agree (has_bit 7 flags) self && ltb flags 256)))))))

flag_table :
    both (λ a. both (λ b. both (λ c.
      both (λ d. both (λ e. both (λ f. both (λ g. both (λ h. flag_tests a b c d e f g h))))))))
    ≡ true
flag_table = refl

flag_tests_hold : (a b c d e f g h : Bool) → flag_tests a b c d e f g h ≡ true
flag_tests_hold a b c d e f g h =
    both_sound (λ h. flag_tests a b c d e f g h) h
      (both_sound (λ g. both (λ h. flag_tests a b c d e f g h)) g
        (both_sound (λ f. both (λ g. both (λ h. flag_tests a b c d e f g h))) f
          (both_sound (λ e. both (λ f. both (λ g. both (λ h. flag_tests a b c d e f g h)))) e
            (both_sound
              (λ d. both (λ e. both (λ f. both (λ g. both (λ h. flag_tests a b c d e f g h))))) d
              (both_sound
                (λ c.
                  both (λ d.
                    both (λ e. both (λ f. both (λ g. both (λ h. flag_tests a b c d e f g h))))))
                c
                (both_sound
                  (λ b. both (λ c. both (λ d.
                    both (λ e. both (λ f. both (λ g. both (λ h. flag_tests a b c d e f g h)))))))
                  b
                  (both_sound
                    (λ a. both (λ b. both (λ c. both (λ d.
                      both (λ e. both (λ f. both (λ g. both (λ h. flag_tests a b c d e f g h))))))))
                    a flag_table)))))))

&&-split : (a b : Bool) → (a && b) ≡ true → (a ≡ true) × (b ≡ true)
&&-split a b h = ground arith

-- In every configuration each of the eight bits of the flags says whether its option is compiled
-- in, and the flags fit a byte.
pub header_flags_bits :
    (c : Config)
    → (has_bit 0 (header_flags c) ≡ c.trace_threads)
      × (has_bit 1 (header_flags c) ≡ c.trace_isrs)
      × (has_bit 2 (header_flags c) ≡ c.trace_idle)
      × (has_bit 3 (header_flags c) ≡ c.trace_markers)
      × (has_bit 4 (header_flags c) ≡ c.isr_identify)
      × (has_bit 5 (header_flags c) ≡ c.overflow_block)
      × (has_bit 6 (header_flags c) ≡ c.trace_gpio)
      × (has_bit 7 (header_flags c) ≡ c.trace_self)
      × (header_flags c < 256)
unfolding header_flags
header_flags_bits c =
    let h =
      flag_tests_hold c.trace_threads c.trace_isrs c.trace_idle c.trace_markers c.isr_identify
        c.overflow_block c.trace_gpio c.trace_self in
    let (h0, r0) = &&-split _ _ h in
    let (h1, r1) = &&-split _ _ r0 in
    let (h2, r2) = &&-split _ _ r1 in
    let (h3, r3) = &&-split _ _ r2 in
    let (h4, r4) = &&-split _ _ r3 in
    let (h5, r5) = &&-split _ _ r4 in
    let (h6, r6) = &&-split _ _ r5 in
    let (h7, r7) = &&-split _ _ r6 in
    (
      agree→eq _ _ h0,
      agree→eq _ _ h1,
      agree→eq _ _ h2,
      agree→eq _ _ h3,
      agree→eq _ _ h4,
      agree→eq _ _ h5,
      agree→eq _ _ h6,
      agree→eq _ _ h7,
      ltb→lt _ _ r7,
    )
