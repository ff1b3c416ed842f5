-- ===== src/Markers/Table.antt =====
-- The numbers of the markers, and the rows of the table.
use embarch_outpost.Prelude.{
  ℕ, suc, ◌+◌, ◌≤◌, ◌<◌, ◌≡◌, refl, sym, ap, ◌∙◌, true, false, Bool-cases, inl, inr, List, [], ◌∷◌,
  ◌++◌, append_assoc, length, length-append, none, some, ==_refl, arith,
}
use embarch_outpost.Markers.{
  MarkerDef, same, enumerator, marker_count_from, marker_rows, marker_table,
}

-- No enumerator is declared twice: C would not compile that.
abbrev pub Absent : List ℕ → List (List ℕ) → Type 0
Absent name [] = Unit
Absent name (n ∷ names) = (same name n ≡ false) × Absent name names

abbrev pub Distinct : List (List ℕ) → Type 0
Distinct [] = Unit
Distinct (name ∷ names) = Absent name names × Distinct names

-- The rows from the number `i` on.
abbrev pub rows_from : ℕ → List (List ℕ) → List MarkerDef
rows_from i [] = record { id = 0; name = none } ∷ []
rows_from i (name ∷ names) = record { id = i; name = some name } ∷ rows_from (suc i) names

same_refl : (name : List ℕ) → same name name ≡ true
same_refl [] = refl
same_refl (x ∷ name) = rw (==_refl x) (same_refl name)

Absent-later :
    (n : List ℕ) (pre : List (List ℕ)) (name : List ℕ) (names : List (List ℕ))
    → Absent n (pre ++ name ∷ names)
    → same n name ≡ false
Absent-later n [] name names h = h.0
Absent-later n (p ∷ pre) name names h = Absent-later n pre name names h.1

enumerator_at :
    (i : ℕ) (pre : List (List ℕ)) (name : List ℕ) (names : List (List ℕ))
    → Distinct (pre ++ name ∷ names)
    → enumerator i (pre ++ name ∷ names) name ≡ some (i + length pre)
unfolding enumerator
enumerator_at i [] name names d = rw (same_refl name) (ap some (omega arith))
enumerator_at i (p ∷ pre) name names d =
    rw (Absent-later p pre name names d.0)
      (enumerator_at (suc i) pre name names d.1 ∙ ap some (omega arith))

marker_rows_lem :
    (pre names : List (List ℕ))
    → Distinct (pre ++ names)
    → marker_rows (pre ++ names) names ≡ some (rows_from (length pre) names)
unfolding marker_rows
marker_rows_lem pre [] d = refl
marker_rows_lem pre (name ∷ names) d =
    let shift = append_assoc pre (name ∷ []) names in
    let rest = marker_rows_lem (pre ++ name ∷ []) names (rw shift d) in
    let rest' : marker_rows (pre ++ name ∷ names) names
        ≡ some (rows_from (suc (length pre)) names) =
      ap (λ all. marker_rows all names) (sym shift)
      ∙ rest
      ∙ ap (λ i. some (rows_from i names)) (length-append pre (name ∷ []) ∙ omega arith) in
    rw (enumerator_at 0 pre name names d, rest')
      (ap some (
        ap (λ i. record { id = i; name = some name } ∷ rows_from (suc (length pre)) names)
          (omega arith)))

pub marker_table_lem :
    (names : List (List ℕ)) → Distinct names → marker_table names ≡ some (rows_from 0 names)
unfolding marker_table
marker_table_lem names d = marker_rows_lem [] names d

pub marker_count_lem :
    (i : ℕ) (names : List (List ℕ)) → marker_count_from i names ≡ i + length names
unfolding marker_count_from
marker_count_lem i [] = omega arith
marker_count_lem i (n ∷ names) = marker_count_lem (suc i) names ∙ omega arith

-- A number that an enumerator has is below the count.
pub enumerator-bounded :
    (i : ℕ) (names : List (List ℕ)) (name : List ℕ) (id : ℕ)
    → enumerator i names name ≡ some id
    → (i ≤ id) × (id < i + length names)
unfolding enumerator
enumerator-bounded i [] name id e = absurd (cc e)
enumerator-bounded i (n ∷ names) name id e = elim (Bool-cases (same n name)) [
  | inl hit ↦ (let h : some i ≡ some id = rw hit at e in ground arith)
  | inr miss ↦
      (let h = enumerator-bounded (suc i) names name id (rw miss at e) in
        (omega (arith, h.0), omega (arith, h.1)))
]
