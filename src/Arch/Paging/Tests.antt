-- ===== src/Arch/Paging/Tests.antt =====
-- Runs of the page tables of src/arch/x86/pde.c, and their theorems at a directory with one table.
use dek_os.Base.{◌+◌, ◌*◌, ◌/◌, ◌%◌, ◌^◌, ◌≡◌, refl, inl, arith, load32, ◌==◌, if◌then◌else◌}
use dek_os.Arch.Paging.{Paging, pde_map, pde_v_to_p, pde_p_to_v}
use dek_os.Arch.Paging.Translate.{v_to_p-map}
use dek_os.Arch.Paging.Search.{Searched, p_to_v-Searched}

-- The directory entry for the addresses from 0x40000000 on is present.
abbrev mapped_once : Paging
mapped_once = record {
  mem = λ a. if a == 0x100400 then 3 else 0;
  total_frames = 4;
  used_frames = 0;
  page_directory = 0x100000;
  page_tables = 0x200000;
}

v_to_p-map_example : pde_v_to_p 0x40003abc (pde_map 0x40003000 0x7000 3 mapped_once) ≡ (
    if ◌==◌ (0x40003abc / 2 ^ 12) (0x40003000 / 2 ^ 12)
    then 0x7000 / 2 ^ 12 * 2 ^ 12 + 0x40003abc % 2 ^ 12
    else pde_v_to_p 0x40003abc mapped_once)
unfolding load32
v_to_p-map_example =
    v_to_p-map 0x40003000 0x7000 3 0x40003abc mapped_once (omega arith) (omega arith) (omega arith)
      (inl (omega arith)) refl

p_to_v-Searched_example :
    Searched 0x7000 0x1000
      (0x1000 + 0x4000)
      mapped_once
      (pde_p_to_v 0x7000 0x1000 0x4000 mapped_once)
p_to_v-Searched_example = p_to_v-Searched 0x7000 0x1000 0x4000 mapped_once (omega arith)
