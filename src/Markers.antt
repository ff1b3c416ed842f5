-- ===== src/Markers.antt =====
-- src/outpost_markers.c and include/embarch/outpost.h: the markers that an application registers, their
-- numbers and their table, OUTPOST_EVT, and `read_markers` of scripts/gen_outpost_manifest.py, which
-- reads the table out of the ELF file.
pub mod Table
pub mod Manifest
use embarch_outpost.Prelude.{
  ℕ, zero, suc, ◌+◌, ◌-◌, ◌*◌, ◌/◌, ◌≡◌, ◌≢◌, Bool, true, false, List, [], ◌∷◌, ◌++◌, Option, none,
  some, if◌then◌else◌, ◌==◌, ◌&&◌, ◌>>=◌,
}
use embarch_outpost.Config.{Config}
use embarch_outpost.Hooks.{Board, Put, outpost_marker, truncated}

-- Names are as in the source, a list of characters each.
abbrev pub same : List ℕ → List ℕ → Bool
same [] [] = true
same [] (y ∷ ys) = false
same (x ∷ xs) [] = false
same (x ∷ xs) (y ∷ ys) = (x == y) && same xs ys

-- `enum outpost_marker_id`, from the value `i` on; `none` where no enumerator has the name, which is an
-- error of the build.
unfoldable pub enumerator : ℕ → List (List ℕ) → List ℕ → Option ℕ
enumerator i [] name = none
enumerator i (n ∷ names) name =
    let rest = enumerator (suc i) names name in if same n name then some i else rest

-- `OUTPOST_MARKER_COUNT`, from the value `i` on
unfoldable pub marker_count_from : ℕ → List (List ℕ) → ℕ
marker_count_from i [] = i
marker_count_from i (n ∷ names) = marker_count_from (suc i) names

-- `struct outpost_marker_def`
pub record MarkerDef : Type 0 where
  pub id : ℕ
  pub name : Option (List ℕ)

-- `outpost_marker_table`: a row for each name of the list, and the sentinel.
unfoldable pub marker_rows : List (List ℕ) → List (List ℕ) → Option (List MarkerDef)
marker_rows all [] = some (record { id = 0; name = none } ∷ [])
marker_rows all (name ∷ names) = enumerator 0 all name >>= λ id.
    marker_rows all names >>= λ rows. some (record { id = id; name = some name } ∷ rows)

unfoldable pub marker_table : List (List ℕ) → Option (List MarkerDef)
marker_table names = marker_rows names names

-- The three ways to build an image: with markers, without them, and without the outpost.
pub data Build : Type 0 where
  traced markers_out module_out : Build

-- `OUTPOST_EVT(id, arg)`: `none` where it does not compile, and else its call of `outpost_ring_put`.
unfoldable pub outpost_evt :
    Config → Board → List (List ℕ) → Build → List ℕ → ℕ → Option (Option Put)
outpost_evt c board names traced name arg =
    enumerator 0 names name >>= λ id. some (outpost_marker c board id (truncated arg))
outpost_evt c board names markers_out name arg = enumerator 0 names name >>= λ id. some none
outpost_evt c board names module_out name arg = some none

-- What `read_markers` uses of the ELF file.
pub record Elf : Type 0 where
  pub ptr_bytes : ℕ
  pub u32 : ℕ → Option ℕ
  pub word : ℕ → Option ℕ
  pub cstring : ℕ → Option (List ℕ)

pub data Note : Type 0 where
  no_table no_size : Note
  unreadable_row : ℕ → Note
  unreadable_name : ℕ → Note

pub record MarkerNames : Type 0 where
  pub names : List (ℕ × List ℕ)
  pub notes : List Note

-- `out[str(ident)] = name`
abbrev pub assign : ℕ → List ℕ → List (ℕ × List ℕ) → List (ℕ × List ℕ)
assign ident name [] = (ident, name) ∷ []
assign ident name ((i, n) ∷ out) =
    let rest = assign ident name out in if i == ident then (ident, name) ∷ out else (i, n) ∷ rest

abbrev pub note : Note → MarkerNames → MarkerNames
note n m = record m { notes = m.notes ++ n ∷ [] }

module _ (elf : Elf) where
  abbrev pub row_bytes : ℕ
  row_bytes = if elf.ptr_bytes == 4 then 8 else 16

  abbrev pub named : ℕ → Option (List ℕ) → MarkerNames → MarkerNames
  named ident none m = note (unreadable_name ident) m
  named ident (some name) m = record m { names = assign ident name m.names }

  -- The body of the loop, and whether it goes on.
  abbrev pub read_row : ℕ → Option ℕ → Option ℕ → MarkerNames → Bool × MarkerNames
  read_row i none pointer m = (false, note (unreadable_row i) m)
  read_row i (some ident) none m = (false, note (unreadable_row i) m)
  read_row i (some ident) (some pointer) m =
      if pointer == 0 then (false, m) else (true, named ident (elf.cstring pointer) m)

  unfoldable pub read_rows : (left base i : ℕ) → MarkerNames → MarkerNames
  read_rows zero base i m = m
  read_rows (suc left) base i m =
      let addr = base + i * row_bytes in
      let (more, m') =
        read_row i (elf.u32 addr) (elf.word (addr + (row_bytes - elf.ptr_bytes))) m in
      let rest = read_rows left base (suc i) m' in if more then rest else m'

  -- The address and the size of the table, if the symbol is there.
  unfoldable pub read_markers : Option (ℕ × ℕ) → MarkerNames
  read_markers none = record { names = []; notes = no_table ∷ [] }
  read_markers (some (base, size)) =
      if size / row_bytes == 0
      then record { names = []; notes = no_size ∷ [] }
      else read_rows (size / row_bytes) base 0 (record { names = []; notes = [] })
