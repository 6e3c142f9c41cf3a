-- ===== src/Arch/Paging.antt =====
-- The page tables of src/arch/x86/pde.h and src/arch/x86/pde.c. The directory, the tables and the bitmap
-- of the page allocator are words of one memory, by the addresses that the code uses; `page_directory`
-- and `page_tables` are the file's variables. Before `PDEInit` the bitmap is the table `page_tables[1]`.
-- How the processor maps these addresses meanwhile, its caches (`invlpg`, `invalidate_tlb`) and the
-- loading of the directory are left out.
pub mod Table
pub mod Translate
pub mod Search
mod Tests
use dek_os.Base.{
  ℕ, zero, suc, ◌+◌, ◌*◌, ◌/◌, ◌%◌, ◌^◌, Bool, not, Mem, store32, load32, ltb, ◌==◌, if◌then◌else◌,
  Run, ok, hung,
}
use dek_os.Memory.Block.{memset}
use dek_os.Arch.Pmm.{Pmm, no_page, alloc_physical_page}

pub record Paging : Type 0 where
  pub mem : Mem
  pub total_frames : ℕ
  pub used_frames : ℕ
  pub page_directory : ℕ
  pub page_tables : ℕ

-- `bitmap` of the page allocator
abbrev pub bitmap_address : ℕ
bitmap_address = 0x102000

abbrev pub pmm_of : Paging → Pmm
pmm_of s = record {
  bitmap = λ i. load32 s.mem (bitmap_address + i * 4);
  total_frames = s.total_frames;
  used_frames = s.used_frames;
}

-- `alloc_physical_page`, with the word of the bitmap that it changes
unfoldable pub take_page : Paging → ℕ × Paging
take_page s =
    let (page, p) = alloc_physical_page (pmm_of s) in
    let word = page / 4096 / 32 in
    if page == no_page then (page, s) else (
      page,
      record s {
        mem = store32 s.mem (bitmap_address + word * 4) (p.bitmap word);
        used_frames = p.used_frames;
      },
    )

-- The bit fields of `pde_t` and `pte_t`: `present`, `rw` and `user` are bits 0 to 2, and the address is
-- the upper 20 bits.
abbrev pub is_present : ℕ → Bool
is_present e = e % 2 == 1

abbrev pub set_present : ℕ → ℕ
set_present e = e / 2 * 2 + 1

abbrev pub set_rw : ℕ → ℕ → ℕ
set_rw b e = e / 4 * 4 + b * 2 + e % 2

abbrev pub set_user : ℕ → ℕ → ℕ
set_user b e = e / 8 * 8 + b * 4 + e % 4

abbrev pub set_addr : ℕ → ℕ → ℕ
set_addr a e = a % 2 ^ 20 * 2 ^ 12 + e % 2 ^ 12

-- `KERNEL_VIRTUAL_BASE`: the kernel reaches a physical address there.
abbrev pub kernel_virtual : ℕ → ℕ
kernel_virtual phys = (phys + 0xC0000000) % 2 ^ 32

abbrev pub pd_index : ℕ → ℕ
pd_index virt = virt / 2 ^ 22

abbrev pub pt_index : ℕ → ℕ
pt_index virt = virt / 2 ^ 12 % 2 ^ 10

-- `&page_directory[i]` and `&page_tables[i][j]`
abbrev pub directory_entry : ℕ → Paging → ℕ
directory_entry i s = s.page_directory + i * 4

abbrev pub table_entry : ℕ → ℕ → Paging → ℕ
table_entry i j s = s.page_tables + i * 4096 + j * 4

-- `page_tables[pd_index][i] = (*new_table)[i]`, with `n` words left
unfoldable pub copy_table : ℕ → ℕ → ℕ → ℕ → Mem → Mem
copy_table zero from to i m = m
copy_table (suc n) from to i m =
    copy_table n from to (i + 1) (store32 m (to + i * 4) (load32 m (from + i * 4)))

-- The loops of `PDEInit`, each with `n` entries left from entry `i` on: the pages taken for the four
-- tables are in `pt_phys`.
unfoldable pub alloc_tables : ℕ → ℕ → (ℕ → ℕ) → Paging → (ℕ → ℕ) × Paging
alloc_tables zero i pt_phys s = (pt_phys, s)
alloc_tables (suc n) i pt_phys s =
    let (page, s') = take_page s in
    alloc_tables n (i + 1) (λ k. if k == i then page else pt_phys k) s'

unfoldable pub clear_tables : ℕ → ℕ → (ℕ → ℕ) → Mem → Mem
clear_tables zero i pt_phys m = m
clear_tables (suc n) i pt_phys m =
    clear_tables n (i + 1) pt_phys (memset m (kernel_virtual (pt_phys i)) 0 4096)

unfoldable pub enter_tables : ℕ → ℕ → ℕ → (ℕ → ℕ) → Mem → Mem
enter_tables zero i pd_virt pt_phys m = m
enter_tables (suc n) i pd_virt pt_phys m =
    let e = load32 m (pd_virt + i * 4) in
    enter_tables n (i + 1) pd_virt pt_phys
      (store32 m (pd_virt + i * 4) (set_addr (pt_phys i / 2 ^ 12) (set_rw 1 (set_present e))))

-- `page_addr = i`, for each entry of a table
unfoldable pub identity_table : ℕ → ℕ → ℕ → Mem → Mem
identity_table zero i pt m = m
identity_table (suc n) i pt m =
    let e = load32 m (pt + i * 4) in
    identity_table n (i + 1) pt (store32 m (pt + i * 4) (set_addr i (set_rw 1 (set_present e))))

unfoldable pub pde_init : Paging → Paging
pde_init s =
    let (pd_phys, s₁) = take_page s in
    let pd_virt = kernel_virtual pd_phys in
    let (pt_phys, s₂) = alloc_tables 4 0 (λ _. 0) s₁ in
    let cleared = clear_tables 4 0 pt_phys (memset s₂.mem pd_virt 0 4096) in
    let m = enter_tables 4 0 pd_virt pt_phys cleared in
    let m' = identity_table 1024 0 (kernel_virtual (pt_phys 0)) m in
    record s₂ {
      mem = identity_table 1024 0 (kernel_virtual (pt_phys 1)) m';
      page_directory = pd_virt;
      page_tables = kernel_virtual (pt_phys 0);
    }

-- A directory entry that is not present is given a table.
unfoldable pub ensure_table : ℕ → Paging → Paging
ensure_table i s =
    if is_present (load32 s.mem (directory_entry i s))
    then s
    else (let (pt_phys, t) = take_page s in
        let new_table = kernel_virtual pt_phys in
        let cleared = memset t.mem new_table 0 4096 in
        let m = copy_table 1024 new_table (s.page_tables + i * 4096) 0 cleared in
        let e = load32 m (directory_entry i s) in
        record t {
          mem =
              store32 m (directory_entry i s)
                (set_addr (pt_phys / 2 ^ 12) (set_rw 1 (set_present e)));
        })

-- `PAGE_WRITABLE` and `PAGE_USER` of the flags, as 0 or 1
abbrev pub writable : ℕ → ℕ
writable flags = flags / 2 % 2

abbrev pub user : ℕ → ℕ
user flags = flags / 4 % 2

unfoldable pub pde_map : ℕ → ℕ → ℕ → Paging → Paging
pde_map virt phys flags s =
    let s' = ensure_table (pd_index virt) s in
    let at = table_entry (pd_index virt) (pt_index virt) s' in
    let e = load32 s'.mem at in
    record s' {
      mem = store32 s'.mem at (
          set_addr (phys / 2 ^ 12)
            (set_user (user flags) (set_rw (writable flags) (set_present e))));
    }

-- `PDEPages` from page `i` on, with `n` pages left
unfoldable pub pages_loop : ℕ → ℕ → ℕ → ℕ → ℕ → Paging → Paging
pages_loop zero i virt_start phys_start flags s = s
pages_loop (suc n) i virt_start phys_start flags s =
    pages_loop n (i + 1) virt_start phys_start flags
      (pde_map ((virt_start + i * 4096) % 2 ^ 32) ((phys_start + i * 4096) % 2 ^ 32) flags s)

unfoldable pub pde_pages : ℕ → ℕ → ℕ → ℕ → Paging → Paging
pde_pages virt_start phys_start count flags s = pages_loop count 0 virt_start phys_start flags s

abbrev pub unmapped : ℕ
unmapped = 0xFFFFFFFF

unfoldable pub pde_v_to_p : ℕ → Paging → ℕ
pde_v_to_p virt s =
    let pt = load32 s.mem (table_entry (pd_index virt) (pt_index virt) s) in
    if not (is_present (load32 s.mem (directory_entry (pd_index virt) s)))
    then unmapped
    else if not (is_present pt)
    then unmapped
    else pt / 2 ^ 12 * 2 ^ 12 + virt % 2 ^ 12

-- The addresses wrap, and nothing else changes: after 2 ^ 20 pages the search starts again, for ever.
unfoldable pub p_to_v_loop : ℕ → ℕ → ℕ → ℕ → Paging → Run ℕ
p_to_v_loop zero phys virt stop s = hung
p_to_v_loop (suc fuel) phys virt stop s =
    let rest = p_to_v_loop fuel phys ((virt + 4096) % 2 ^ 32) stop s in
    if ltb virt stop then (if pde_v_to_p virt s == phys then ok virt else rest) else ok unmapped

unfoldable pub pde_p_to_v : ℕ → ℕ → ℕ → Paging → Run ℕ
pde_p_to_v phys start_virt size s =
    p_to_v_loop (2 ^ 20) phys start_virt ((start_virt + size) % 2 ^ 32) s
