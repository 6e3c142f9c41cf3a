-- ===== src/Arch/Pmm.antt =====
-- The physical page allocator of src/arch/x86/pmm.c: one bit for each 4 KB frame, in 32-bit words
-- at a fixed address. `bitmap`, `total_frames` and `used_frames` are the file's static variables.
pub mod Alloc
pub mod Free
pub mod Count
mod Tests
use dek_os.Base.{ℕ, zero, suc, ◌+◌, ◌-◌, ◌*◌, ◌/◌, ◌%◌, ◌^◌, Mem, ltb, if◌then◌else◌}
use dek_os.Base.Bitmap.{bit, mark, unmark}

pub record Pmm : Type 0 where
  pub bitmap : Mem
  pub total_frames : ℕ
  pub used_frames : ℕ

abbrev pub no_page : ℕ
no_page = 0xffff_ffff

-- The loop of `pmm_init` that takes the first megabyte, `n` frames from `i` on.
unfoldable pub reserve : ℕ → ℕ → Pmm → Pmm
reserve zero i p = p
reserve (suc n) i p =
    reserve n (i + 1)
      (record p { bitmap = mark 32 p.bitmap i; used_frames = (p.used_frames + 1) % 2 ^ 32 })

-- `memset` clears whole words, `bitmap_size` of them.
unfoldable pub pmm_init : ℕ → Pmm → Pmm
pmm_init total_memory_kb p =
    let total = total_memory_kb * 1024 % 2 ^ 32 / 4096 in
    let bitmap_size = (total + 31) % 2 ^ 32 / 32 in
    reserve 256 0
      (record p { total_frames = total; bitmap = λ i. if ltb i bitmap_size then 0 else p.bitmap i })

-- The loop of `alloc_physical_page` from frame `i` on, with `n` frames left.
unfoldable pub alloc_loop : ℕ → ℕ → Pmm → ℕ × Pmm
alloc_loop zero i p = (no_page, p)
alloc_loop (suc n) i p = if bit 32 p.bitmap i then alloc_loop n (i + 1) p else (
  i * 4096 % 2 ^ 32,
  record p { bitmap = mark 32 p.bitmap i; used_frames = (p.used_frames + 1) % 2 ^ 32 },
)

unfoldable pub alloc_physical_page : Pmm → ℕ × Pmm
alloc_physical_page p = alloc_loop p.total_frames 0 p

-- `used_frames--` wraps at 0.
unfoldable pub free_physical_page : ℕ → Pmm → Pmm
free_physical_page phys p = record p {
  bitmap = unmark 32 p.bitmap (phys / 4096);
  used_frames = (p.used_frames + 2 ^ 32 - 1) % 2 ^ 32;
}
