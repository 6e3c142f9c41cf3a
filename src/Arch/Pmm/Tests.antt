-- ===== src/Arch/Pmm/Tests.antt =====
-- Runs of the physical page allocator of src/arch/x86/pmm.c, and its theorems at a machine of
-- 4 MB that has been set up.
use dek_os.Base.{◌/◌, ◌≡◌, refl, true, false, arith, if◌then◌else◌, ◌==◌}
use dek_os.Base.Bits.{is_set, set_bit}
use dek_os.Base.Bitmap.{bit, mark}
use dek_os.Arch.Pmm.{Pmm, no_page, alloc_loop, alloc_physical_page, free_physical_page}
use dek_os.Arch.Pmm.Alloc.{taken}
use dek_os.Arch.Pmm.Free.{free-alloc_physical_page}
use dek_os.Arch.Pmm.Count.{IsCounted, count}

abbrev blank : Pmm
blank = record { bitmap = λ _. 0xdead; total_frames = 0; used_frames = 0 }

-- Three frames, of which the second is taken.
abbrev three : Pmm
three = record { bitmap = λ i. if i == 0 then 2 else 0; total_frames = 3; used_frames = 1 }

first_pages :
    ((alloc_physical_page three).0 ≡ 0)
    × ((alloc_physical_page (alloc_physical_page three).1).0 ≡ 0x2000)
    × ((alloc_physical_page (alloc_physical_page (alloc_physical_page three).1).1).0 ≡ no_page)
unfolding alloc_physical_page alloc_loop bit mark is_set set_bit
first_pages = (refl, refl, refl)

free-alloc_physical_page_example :
    (taken (free_physical_page 0 (alloc_physical_page three).1) 0 ≡ taken three 0)
    × ((free_physical_page 0 (alloc_physical_page three).1).used_frames ≡ 1)
unfolding alloc_physical_page alloc_loop bit is_set
free-alloc_physical_page_example =
    free-alloc_physical_page three 0 (omega arith) (omega arith) (omega arith)

three-IsCounted : IsCounted three
unfolding count bit is_set
three-IsCounted = record { small = omega arith; counted = refl }

second_is_taken : taken three (0x1000 / 4096) ≡ true
unfolding bit is_set
second_is_taken = refl

third_is_free : taken three (0x2000 / 4096) ≡ false
unfolding bit is_set
third_is_free = refl
