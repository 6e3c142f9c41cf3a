-- ===== src/Arch/Gdt/Tests.antt =====
-- The descriptors that src/arch/x86/gdt.c sets at start-up.
use dek_os.Base.{ℕ, ◌≡◌, refl}
use dek_os.Arch.Gdt.{Entry, gdt_set_entry, gdt_set_tss_entry, gdt_init, base_of, limit_of}

abbrev blank : ℕ → Entry
blank i = record {
  limit_low = 0;
  base_low = 0;
  base_middle = 0;
  access = 0;
  granularity = 0;
  base_high = 0;
}

-- A flat code segment for user programs, and the task state segment.
start_up :
    (base_of (gdt_init 0x123456 104 blank 3) ≡ 0)
    × (limit_of (gdt_init 0x123456 104 blank 3) ≡ 0xfffff)
    × (base_of (gdt_init 0x123456 104 blank 5) ≡ 0x123456)
    × (limit_of (gdt_init 0x123456 104 blank 5) ≡ 103)
unfolding gdt_init gdt_set_entry gdt_set_tss_entry
start_up = (refl, refl, refl, refl)
