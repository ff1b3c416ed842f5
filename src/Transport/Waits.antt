-- ===== src/Transport/Waits.antt =====
-- The three ways of a millisecond of waiting.
use embarch_outpost.Prelude.{ℕ, zero, suc, ◌≡◌, refl, Bool, true, false, Option, none, some}
use embarch_outpost.Transport.{Line, waited}

pub waited_lem :
    {S : Type 0} (P : Line S → Type 0) (o : Option S) (left : ℕ) (took : S → Line S)
    (expired : Line S) (more : ℕ → Line S)
    → ((s : S) → o ≡ some s → P (took s))
    → (o ≡ none → left ≡ 0 → P expired)
    → ((rest : ℕ) → o ≡ none → left ≡ suc rest → P (more rest))
    → P (waited o left took expired more)
waited_lem P (some s) left took expired more a b c = a s refl
waited_lem P none zero took expired more a b c = b refl refl
waited_lem P none (suc rest) took expired more a b c = c rest refl refl

-- What can be taken only while no transfer is in progress.
pub taken_idle :
    {S : Type 0} (busy : Bool) (o : Option S) (s : S)
    → (busy ≡ true → o ≡ none)
    → o ≡ some s
    → busy ≡ false
taken_idle true o s h e = cc (h refl, e)
taken_idle false o s h e = refl
