-- ===== src/Memory.antt =====
-- src/core/memory.c: guest physical memory as a list of RAM regions, and the lookups in it. Host
-- virtual addresses are numbers, and a NULL result is `none`.
pub mod Regions
pub mod Translate
mod Tests
use modvm.Prelude.{
  ℕ, ◌-◌, ◌%◌, Bool, true, false, ◌&&◌, ◌||◌, List, [], ◌∷◌, Option, none, some, ltb, leb, ◌==◌,
  ◌!=◌, bit_and, if◌then◌else◌,
}
use modvm.Prelude.Errno.{eio}
use modvm.Prelude.Words.{u64_max, add64, sub64}

pub record MemRegion : Type 0 where
  pub gpa : ℕ
  pub size : ℕ
  pub hva : ℕ
  pub flags : ℕ

pub record MemSpace : Type 0 where
  pub regions : List MemRegion
  pub total_ram : ℕ
  pub host_page_size : ℕ

abbrev pub mem_readonly : ℕ
mem_readonly = 1

-- `page_size` is what `host_page_size` returns.
pub space_init : ℕ → MemSpace × ℕ
space_init page_size = (
  record { regions = []; total_ram = 0; host_page_size = page_size },
  if page_size == 0 then eio else 0,
)

unfoldable pub region_is_overlap : ℕ → ℕ → ℕ → ℕ → Bool
region_is_overlap base1 size1 base2 size2 =
    ltb base1 (add64 base2 size2) && ltb base2 (add64 base1 size1)

unfoldable pub find_region : List MemRegion → ℕ → Option MemRegion
find_region [] addr = none
find_region (reg ∷ regs) addr =
    if leb reg.gpa addr && ltb (sub64 addr reg.gpa) reg.size
    then some reg
    else find_region regs addr

freed_pages : List MemRegion → List (ℕ × ℕ)
freed_pages [] = []
freed_pages (r ∷ rs) = (r.hva, r.size) ∷ freed_pages rs

-- The second result is the calls of `host_page_free`, in order.
pub space_destroy : MemSpace → MemSpace × List (ℕ × ℕ)
unfolding freed_pages
space_destroy space = (record space { regions = []; total_ram = 0 }, freed_pages space.regions)

module _ (space : MemSpace) where
  -- The second result is `*out_len`.
  unfoldable pub map_chunk : ℕ → ℕ → Bool → Option ℕ × ℕ
  map_chunk gpa len write =
      if len == 0 || ltb (u64_max - gpa) len
      then (none, 0)
      else elim (find_region space.regions gpa) [
        | none ↦ (none, 0)
        | some reg ↦
            if write && bit_and reg.flags mem_readonly != 0
            then (none, 0)
            else (let offset = sub64 gpa reg.gpa in
                let available = reg.size - offset in
                (some (add64 reg.hva offset), if ltb len available then len else available))
      ]

  unfoldable pub map_range : ℕ → ℕ → Bool → Option ℕ
  unfolding map_chunk
  map_range gpa len write =
      let (hva, available) = map_chunk gpa len write in if available == len then hva else none
