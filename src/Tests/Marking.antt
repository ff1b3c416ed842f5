-- ===== src/Tests/Marking.antt =====
-- Two markers, and an ELF file for a 32-bit target that has their table at the address 256 and their
-- names at 1024 and 1028.
use embarch_outpost.Prelude.{ℕ, ◌≡◌, refl, List, [], ◌∷◌, none, some, if◌then◌else◌, ◌==◌, arith}
use embarch_outpost.Hooks.{Board, Kind}
use embarch_outpost.Markers.{
  MarkerDef, Elf, traced, enumerator, marker_count_from, marker_table, marker_rows, outpost_evt,
  read_markers,
}
use embarch_outpost.Markers.Manifest.{Holds, table_bytes, name_of, outpost_evt-read_markers}
use embarch_outpost.Tests.Data.{small}

abbrev begin_name : List ℕ
begin_name = 66 ∷ []

abbrev end_name : List ℕ
end_name = 69 ∷ []

abbrev two_names : List (List ℕ)
two_names = begin_name ∷ end_name ∷ []

abbrev two_rows : List MarkerDef
two_rows =
    record { id = 0; name = some begin_name }
    ∷ record { id = 1; name = some end_name }
    ∷ record { id = 0; name = none }
    ∷ []

abbrev linked : Elf
linked = record {
  ptr_bytes = 4;
  u32 = λ addr. some (if addr == 264 then 1 else 0);
  word = λ addr. some (if addr == 260 then 1024 else if addr == 268 then 1028 else 0);
  cstring = λ addr.
      if addr == 1024 then some begin_name else if addr == 1028 then some end_name else none;
}

abbrev two_markers : Board
two_markers = record { self_irq = 3; marker_count = 2; drain_thread = 0x20000000 }

two_table : marker_table two_names ≡ some two_rows
unfolding marker_table marker_rows enumerator
two_table = refl

two_count : two_markers.marker_count ≡ marker_count_from 0 two_names
unfolding marker_count_from
two_count = refl

two_end : enumerator 0 two_names end_name ≡ some 1
unfolding enumerator
two_end = refl

linked-Holds : Holds linked 256 0 two_rows
linked-Holds = (
  refl,
  (1024, refl, (λ e. absurd (omega (arith, e))), refl),
  (refl, (1028, refl, (λ e. absurd (omega (arith, e))), refl), (refl, refl, tt)),
)

outpost_evt-read_markers_example :
    (outpost_evt small two_markers two_names traced end_name 5
      ≡ some (some (record { kind = Kind.marker; a = 1; b = 5 })))
    × (name_of 1 (read_markers linked (some (256, table_bytes linked two_names))).names
        ≡ some end_name)
outpost_evt-read_markers_example =
    outpost_evt-read_markers small two_markers linked 256 two_names two_rows end_name 5 1 two_count
      ((refl, tt), (tt, tt)) two_table linked-Holds two_end
