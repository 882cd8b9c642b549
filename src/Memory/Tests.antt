-- ===== src/Memory/Tests.antt =====
-- A guest of two adjacent banks, the second read-only.
use modvm.Prelude.{◌+◌, ◌-◌, ◌≡◌, refl, inl, ◌↔◌, true, false, [], ◌∷◌, some, arith, IsIn}
use modvm.Memory.{MemRegion, MemSpace, map_chunk, map_range, find_region}
use modvm.Memory.Translate.{
  IsValid, translate, is_writable, map_chunk-translate, map_range-exact, Holds,
}

abbrev banks : MemSpace
banks = record {
  regions =
      record { gpa = 0; size = 4096; hva = 65536; flags = 0 }
      ∷ record { gpa = 4096; size = 8192; hva = 1048576; flags = 1 }
      ∷ [];
  total_ram = 12288;
  host_page_size = 4096;
}

banks-IsValid : IsValid banks
banks-IsValid = record {
  fit = (omega arith, (omega arith, tt));
  apart = ((inl (omega arith), tt), (tt, tt));
}

-- A chunk ends with its bank.
map_chunk-translate_example :
    (translate banks (4000 + 90) ≡ some (69536 + 90))
    × (true ≡ true → is_writable banks (4000 + 90) ≡ true)
unfolding map_chunk find_region
map_chunk-translate_example =
    map_chunk-translate banks 4000 4096 90 true {h = 69536} {n = 96} banks-IsValid (omega arith)
      refl (omega arith)

map_range-exact_example : (map_range banks 5000 100 false ≡ some 1049480) ↔ (
    (r : MemRegion) × IsIn r banks.regions
    × Holds r 5000 100 false
    × (1049480 ≡ r.hva + (5000 - r.gpa)))
map_range-exact_example =
    map_range-exact banks 5000 100 1049480 false banks-IsValid (omega arith) (omega arith)
