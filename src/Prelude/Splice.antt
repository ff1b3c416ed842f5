-- ===== src/Prelude/Splice.antt =====
-- Writing a run of bytes into a buffer: what `memcpy` and a writing loop leave behind.
use Prim.Native.Nat.{ℕ, zero, suc, ◌+◌, ◌≤◌, ◌<◌}
use mathlib.Core.Path.{◌≡◌, refl, ap, sym, ◌∙◌}
use mathlib.Core.List.{List, [], ◌∷◌, ◌++◌}
use native.Mathlib.Omega.{arith}
use embarch_outpost.Prelude.Lists.{length, set, take, drop, length-set}

module _ {ℓ} {A : Type ℓ} where
  -- `memcpy(&buf[off], bytes, length bytes)`
  abbrev pub splice : List A → ℕ → List A → List A
  splice buf off [] = buf
  splice buf off (b ∷ bs) = splice (set buf off b) (suc off) bs

module _ {ℓ} {A : Type ℓ} where
  pub length-splice :
      (buf : List A) (off : ℕ) (bs : List A) → length (splice buf off bs) ≡ length buf
  length-splice buf off [] = refl
  length-splice buf off (b ∷ bs) = length-splice (set buf off b) (suc off) bs ∙ length-set buf off b

  -- Two runs, one behind the other, are one run.
  pub splice-append :
      (buf : List A) (off mid : ℕ) (xs ys : List A)
      → mid ≡ off + length xs
      → splice (splice buf off xs) mid ys ≡ splice buf off (xs ++ ys)
  splice-append buf off mid [] ys e = let e' : mid ≡ off = omega arith in rw e'
  splice-append buf off mid (x ∷ xs) ys e =
      splice-append (set buf off x) (suc off) mid xs ys (omega arith)

  set-set_lt :
      (buf : List A) (i j : ℕ) (x y : A) → i < j → set (set buf i x) j y ≡ set (set buf j y) i x
  set-set_lt [] i j x y h = refl
  set-set_lt (b ∷ buf) zero zero x y h = absurd (omega arith)
  set-set_lt (b ∷ buf) (suc i) zero x y h = absurd (omega arith)
  set-set_lt (b ∷ buf) zero (suc j) x y h = refl
  set-set_lt (b ∷ buf) (suc i) (suc j) x y h =
      ap (λ l. b ∷ l) (set-set_lt buf i j x y (omega arith))

  -- A write below a run can be made before it.
  pub set-splice_lt :
      (buf : List A) (i off : ℕ) (x : A) (bs : List A)
      → i < off
      → set (splice buf off bs) i x ≡ splice (set buf i x) off bs
  set-splice_lt buf i off x [] h = refl
  set-splice_lt buf i off x (b ∷ bs) h =
      set-splice_lt (set buf off b) i (suc off) x bs (omega arith)
      ∙ ap (λ l. splice l (suc off) bs) (sym (set-set_lt buf i off x b h))

  set-splice_zero :
      (b : A) (buf : List A) (off : ℕ) (bs : List A)
      → splice (b ∷ buf) (suc off) bs ≡ b ∷ splice buf off bs
  set-splice_zero b buf off [] = refl
  set-splice_zero b buf off (x ∷ bs) = set-splice_zero b (set buf off x) (suc off) bs

  -- A run that fits is read back from the front of the buffer.
  pub take-splice :
      (buf bs : List A) → length bs ≤ length buf → take (length bs) (splice buf 0 bs) ≡ bs
  take-splice buf [] h = refl
  take-splice [] (b ∷ bs) h = absurd (omega arith)
  take-splice (c ∷ buf) (b ∷ bs) h =
      ap (take (suc (length bs))) (set-splice_zero b buf 0 bs)
      ∙ ap (λ l. b ∷ l) (take-splice buf bs (omega arith))

  -- What stands behind the run stays.
  pub drop-splice : (buf bs : List A) → drop (length bs) (splice buf 0 bs) ≡ drop (length bs) buf
  drop-splice buf [] = refl
  drop-splice [] (b ∷ bs) = absorbed (suc 0) bs
    where
      absorbed : (off : ℕ) (cs : List A) → drop (suc (length bs)) (splice [] off cs) ≡ []
      absorbed off [] = refl
      absorbed off (c ∷ cs) = absorbed (suc off) cs
  drop-splice (c ∷ buf) (b ∷ bs) =
      ap (drop (suc (length bs))) (set-splice_zero b buf 0 bs) ∙ drop-splice buf bs

  -- A run at the front replaces as many elements.
  pub splice_zero :
      (buf bs : List A) → length bs ≤ length buf → splice buf 0 bs ≡ bs ++ drop (length bs) buf
  splice_zero buf [] h = refl
  splice_zero [] (b ∷ bs) h = absurd (omega arith)
  splice_zero (c ∷ buf) (b ∷ bs) h =
      set-splice_zero b buf 0 bs ∙ ap (λ l. b ∷ l) (splice_zero buf bs (omega arith))
