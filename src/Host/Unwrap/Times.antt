-- ===== src/Host/Unwrap/Times.antt =====
-- When the absolute times are the true ones.
use embarch_outpost.Prelude.{
  ℕ, ◌+◌, ◌-◌, ◌/◌, ◌%◌, ◌^◌, ◌≤◌, ◌<◌, ◌≡◌, ◌⊎◌, inl, inr, refl, sym, ap, ap₂, ◌∙◌, Bool-cases,
  List, [], ◌∷◌, some, if◌then◌else◌, ltb, leb, ltb-false, ltb→lt, lt→ltb, le→leb, leb-false, arith,
}
use embarch_outpost.Host.Unwrap.{UnwrapState, unwrap, absolutes, unwrap_start}

-- A time that follows on a latest time `t`: later by less than half a turn of the counter, or earlier
-- by at most that and in the same turn.
abbrev pub Follows : ℕ → ℕ → Type 0
Follows t now =
    ((t ≤ now) × (now < t + 2 ^ 31))
    ⊎ ((now < t) × (t ≤ now + 2 ^ 31) × (now / 2 ^ 32 ≡ t / 2 ^ 32))

abbrev pub latest : ℕ → ℕ → ℕ
latest t now = if leb t now then now else t

abbrev pub Paced : ℕ → List ℕ → Type 0
Paced t [] = Unit
Paced t (now ∷ times) = Follows t now × Paced (latest t now) times

abbrev pub counts : List ℕ → List ℕ
counts [] = []
counts (t ∷ times) = t % 2 ^ 32 ∷ counts times

-- The state that the host should be in.
abbrev at : ℕ → UnwrapState
at t = record { last = some (t % 2 ^ 32); wraps = t / 2 ^ 32 }

at-≡ : (c w t : ℕ) → c ≡ t % 2 ^ 32 → w ≡ t / 2 ^ 32 → record { last = some c; wraps = w } ≡ at t
at-≡ c w t e f = rw (e, f) refl

unwrap-at :
    (t now : ℕ)
    → Follows t now
    → unwrap (now % 2 ^ 32) (some (t % 2 ^ 32)) (at t) ≡ at (latest t now)
unfolding unwrap
unwrap-at t now (inl (le, lt)) = elim (Bool-cases (ltb (now % 2 ^ 32) (t % 2 ^ 32))) [
  | inl back ↦
      (let h = ltb→lt (now % 2 ^ 32) (t % 2 ^ 32) back in
        rw (back, lt→ltb (2 ^ 31) (t % 2 ^ 32 - now % 2 ^ 32) (omega (arith, h)), le→leb t now le)
          (at-≡ (now % 2 ^ 32) (t / 2 ^ 32 + 1) now refl (omega (arith, h))))
  | inr on ↦
      (let h : t % 2 ^ 32 ≤ now % 2 ^ 32 = ground arith in
        rw (on, le→leb t now le) (at-≡ (now % 2 ^ 32) (t / 2 ^ 32) now refl (omega (arith, h))))
]
unwrap-at t now (inr (lt, near, turn)) =
    rw
      (
        lt→ltb (now % 2 ^ 32) (t % 2 ^ 32) (omega arith),
        ltb-false (2 ^ 31) (t % 2 ^ 32 - now % 2 ^ 32) (omega arith),
        leb-false t now lt,
      )
      refl

-- The record is in the turn that the state counts.
latest-turn : (t now : ℕ) → Follows t now → latest t now / 2 ^ 32 ≡ now / 2 ^ 32
latest-turn t now (inl (le, lt)) = rw (le→leb t now le) refl
latest-turn t now (inr (lt, near, turn)) = rw (leb-false t now lt) (sym turn)

absolutes-at : (t : ℕ) (times : List ℕ) → Paced t times → absolutes (counts times) (at t) ≡ times
unfolding absolutes
absolutes-at t [] paced = refl
absolutes-at t (now ∷ times) (next, paced) = rw (unwrap-at t now next) (
    ap₂ (λ x l. x ∷ l) (omega (arith, latest-turn t now next))
      (absolutes-at (latest t now) times paced))

-- From a first record before the first wrap of the cycle counter, where each record's time is less
-- than 2 ^ 31 cycles after the latest before it, or earlier by at most that and in the same turn of
-- the counter, as a gap record's may be, the absolute time of every record is its time.
pub absolutes_lem :
    (t : ℕ) (times : List ℕ)
    → t < 2 ^ 32
    → Paced t times
    → absolutes (counts (t ∷ times)) unwrap_start ≡ t ∷ times
unfolding absolutes unwrap
absolutes_lem t times small paced =
    ap₂ (λ x l. x ∷ l) (omega arith)
      (ap (absolutes (counts times)) (at-≡ (t % 2 ^ 32) 0 t refl (omega arith))
        ∙ absolutes-at t times paced)
