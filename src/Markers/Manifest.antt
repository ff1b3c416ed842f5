-- ===== src/Markers/Manifest.antt =====
-- What the manifest says of the markers, against what the firmware puts on the wire.
use embarch_outpost.Prelude.{
  ℕ, suc, ◌+◌, ◌-◌, ◌*◌, ◌/◌, ◌<◌, ◌≡◌, ◌≢◌, refl, sym, ap, ap₂, ◌∙◌, Bool, true, false, Bool-cases,
  inl, inr, List, [], ◌∷◌, ◌++◌, append-nil, append_assoc, length, Option, none, some,
  if◌then◌else◌, ◌==◌, ==_refl, ==_iff, ==_ne, leb-false, arith,
}
use mathlib.Core.Option.{some-injective}
use embarch_outpost.Config.{Config}
use embarch_outpost.Hooks.{Board, Kind, outpost_marker, truncated}
use embarch_outpost.Markers.{
  MarkerDef, Elf, MarkerNames, traced, same, enumerator, marker_count_from, marker_table,
  outpost_evt, assign, row_bytes, read_row, read_rows, read_markers,
}
use embarch_outpost.Markers.Table.{
  Distinct, rows_from, marker_table_lem, marker_count_lem, enumerator-bounded,
}

-- The ELF file holds rows from the row `i` of the table at `base` on.
abbrev pub IsPointer : Elf → Option (List ℕ) → Option ℕ → Type 0
IsPointer elf none p = p ≡ some 0
IsPointer elf (some name) p = (a : ℕ) × (p ≡ some a) × (a ≢ 0) × (elf.cstring a ≡ some name)

abbrev pub Holds : Elf → ℕ → ℕ → List MarkerDef → Type 0
Holds elf base i [] = Unit
Holds elf base i (row ∷ rows) =
    (elf.u32 (base + i * row_bytes elf) ≡ some row.id)
    × IsPointer elf row.name (elf.word (base + i * row_bytes elf + (row_bytes elf - elf.ptr_bytes)))
    × Holds elf base (suc i) rows

-- The names with their numbers, from `i` on.
abbrev pub numbered : ℕ → List (List ℕ) → List (ℕ × List ℕ)
numbered i [] = []
numbered i (name ∷ names) = (i, name) ∷ numbered (suc i) names

-- No number of the list is `i` or above.
abbrev Below : ℕ → List (ℕ × List ℕ) → Type 0
Below i [] = Unit
Below i ((j, name) ∷ out) = (j < i) × Below i out

assign_new :
    (i : ℕ) (name : List ℕ) (out : List (ℕ × List ℕ))
    → Below i out
    → assign i name out ≡ out ++ (i, name) ∷ []
assign_new i name [] h = refl
assign_new i name ((j, n) ∷ out) h =
    rw (==_ne j i (λ e. absurd (omega (arith, e, h.0))))
      (ap (λ l. (j, n) ∷ l) (assign_new i name out h.1))

Below-next :
    (i : ℕ) (name : List ℕ) (out : List (ℕ × List ℕ))
    → Below i out
    → Below (suc i) (out ++ (i, name) ∷ [])
Below-next i name [] h = (omega arith, tt)
Below-next i name ((j, n) ∷ out) h = (omega (arith, h.0), Below-next i name out h.1)

-- The row at the index `i`, as it is read.
abbrev row_at : Elf → ℕ → ℕ → MarkerNames → Bool × MarkerNames
row_at elf base i m =
    read_row elf i (elf.u32 (base + i * row_bytes elf))
      (elf.word (base + i * row_bytes elf + (row_bytes elf - elf.ptr_bytes))) m

read_rows_on :
    (elf : Elf) (left base i : ℕ) (m m' : MarkerNames)
    → row_at elf base i m ≡ (true, m')
    → read_rows elf (suc left) base i m ≡ read_rows elf left base (suc i) m'
unfolding read_rows
read_rows_on elf left base i m m' e =
    ap (λ (p : Bool × MarkerNames). if p.0 then read_rows elf left base (suc i) p.1 else p.1) e

read_rows_end :
    (elf : Elf) (left base i : ℕ) (m : MarkerNames)
    → row_at elf base i m ≡ (false, m)
    → read_rows elf (suc left) base i m ≡ m
unfolding read_rows
read_rows_end elf left base i m e =
    ap (λ (p : Bool × MarkerNames). if p.0 then read_rows elf left base (suc i) p.1 else p.1) e

read_rows_lem :
    (elf : Elf) (base i : ℕ) (names : List (List ℕ)) (m : MarkerNames)
    → Below i m.names
    → Holds elf base i (rows_from i names)
    → read_rows elf (suc (length names)) base i m ≡ record m { names = m.names ++ numbered i names }
read_rows_lem elf base i [] m b h =
    read_rows_end elf 0 base i m (rw (h.0, h.1))
    ∙ ap (λ l. record m { names = l }) (sym (append-nil m.names))
read_rows_lem elf base i (name ∷ names) m b (id_at, (a, pointer, set, name_at), rest) =
    let m' : MarkerNames = record m { names = m.names ++ (i, name) ∷ [] } in
    read_rows_on elf (suc (length names)) base i m m'
      (rw (id_at, pointer, ==_ne a 0 set, name_at, assign_new i name m.names b))
    ∙ read_rows_lem elf base (suc i) names m' (Below-next i name m.names b) rest
    ∙ ap (λ l. record m { names = l })
        (append_assoc m.names ((i, name) ∷ []) (numbered (suc i) names))

-- The size of the table, with its sentinel, in bytes.
abbrev pub table_bytes : Elf → List (List ℕ) → ℕ
table_bytes elf names = suc (length names) * row_bytes elf

rows_of_table :
    (elf : Elf) (names : List (List ℕ)) → table_bytes elf names / row_bytes elf ≡ suc (length names)
rows_of_table elf names = elim (Bool-cases (elf.ptr_bytes == 4)) [
  | inl four ↦ rw four (omega arith)
  | inr eight ↦ rw eight (omega arith)
]

pub read_markers-marker_table :
    (elf : Elf) (base : ℕ) (names : List (List ℕ)) (rows : List MarkerDef)
    → Distinct names
    → marker_table names ≡ some rows
    → Holds elf base 0 rows
    → read_markers elf (some (base, table_bytes elf names))
      ≡ record { names = numbered 0 names; notes = [] }
unfolding read_markers
read_markers-marker_table elf base names rows d t h =
    let same_rows : rows ≡ rows_from 0 names =
      some-injective rows (rows_from 0 names) (sym t ∙ marker_table_lem names d) in
    rw (rows_of_table elf names, ==_ne (suc (length names)) 0 (λ e. absurd (omega (arith, e))))
      (read_rows_lem elf base 0 names (record { names = []; notes = [] }) tt (rw (← same_rows) h))

-- The name of a number in the manifest.
abbrev pub name_of : ℕ → List (ℕ × List ℕ) → Option (List ℕ)
name_of id [] = none
name_of id ((i, name) ∷ names) = if i == id then some name else name_of id names

same-≡ : (xs ys : List ℕ) → same xs ys ≡ true → xs ≡ ys
same-≡ [] [] h = refl
same-≡ [] (y ∷ ys) h = absurd (cc h)
same-≡ (x ∷ xs) [] h = absurd (cc h)
same-≡ (x ∷ xs) (y ∷ ys) h = elim (Bool-cases (x == y)) [
  | inl hd ↦ ap₂ (λ z l. z ∷ l) ((==_iff x y).0 hd) (same-≡ xs ys (rw hd at h))
  | inr ne ↦ absurd (cc (rw ne at h))
]

name_of-enumerator :
    (i : ℕ) (names : List (List ℕ)) (name : List ℕ) (id : ℕ)
    → enumerator i names name ≡ some id
    → name_of id (numbered i names) ≡ some name
unfolding enumerator
name_of-enumerator i [] name id e = absurd (cc e)
name_of-enumerator i (n ∷ names) name id e = elim (Bool-cases (same n name)) [
  | inl hit ↦
      (let h : some i ≡ some id = rw hit at e in
        rw (← some-injective i id h, ==_refl i) (ap some (same-≡ n name hit)))
  | inr miss ↦
      (let h : enumerator (suc i) names name ≡ some id = rw miss at e in
        let b = enumerator-bounded (suc i) names name id h in
        rw (==_ne i id (λ e. absurd (omega (arith, e, b.0))))
          (name_of-enumerator (suc i) names name id h))
]

-- Where no marker is registered twice and the ELF file holds the marker table, for a registered
-- name OUTPOST_EVT compiles to a record with its number, which the guard of `outpost_marker` lets
-- through, and the manifest that `read_markers` makes of the table has that name under that number.
pub outpost_evt-read_markers :
    (c : Config) (board : Board) (elf : Elf) (base : ℕ) (names : List (List ℕ))
    (rows : List MarkerDef) (name : List ℕ) (arg id : ℕ)
    → board.marker_count ≡ marker_count_from 0 names
    → Distinct names
    → marker_table names ≡ some rows
    → Holds elf base 0 rows
    → enumerator 0 names name ≡ some id
    → (outpost_evt c board names traced name arg
        ≡ some (some (record { kind = Kind.marker; a = id; b = truncated arg })))
      × (name_of id (read_markers elf (some (base, table_bytes elf names))).names ≡ some name)
unfolding outpost_evt outpost_marker
outpost_evt-read_markers c board elf base names rows name arg id counted d t h e =
    let b = enumerator-bounded 0 names name id e in
    let n = marker_count_lem 0 names in
    (
      rw (e, leb-false board.marker_count id (omega (arith, counted, n, b.1))),
      rw (read_markers-marker_table elf base names rows d t h)
          (name_of-enumerator 0 names name id e),
    )
