-- ===== src/Arch/Paging/Translate.antt =====
-- What `PDEMap` of src/arch/x86/pde.c does to the translation of addresses.
use mathlib.Core.Path.{ap₂}
use dek_os.Base.{
  ℕ, ◌+◌, ◌*◌, ◌/◌, ◌%◌, ◌^◌, ◌<◌, ◌≡◌, refl, inl, inr, Bool, true, false, not, sym, ◌∙◌, arith,
  Bool-cases, Mem, store32, load32, load32-store32_wrap, load32-store32_apart, ◌==◌, if◌then◌else◌,
}
use dek_os.Arch.Paging.{
  Paging, user, writable, is_present, set_present, set_rw, set_user, set_addr, pd_index, pt_index,
  directory_entry, table_entry, ensure_table, pde_map, unmapped, pde_v_to_p,
}
use dek_os.Arch.Paging.Table.{IsLaid, narrow, swap-Apart, separate_entries}

-- What `PDEVToP` makes of the two entries it reads.
abbrev pub translate : ℕ → ℕ → ℕ → ℕ
translate directory table virt =
    if not (is_present directory)
    then unmapped
    else if not (is_present table)
    then unmapped
    else table / 2 ^ 12 * 2 ^ 12 + virt % 2 ^ 12

v_to_p-translate :
    (virt : ℕ) (s : Paging)
    → pde_v_to_p virt s
      ≡ translate
          (load32 s.mem (directory_entry (pd_index virt) s))
          (load32 s.mem (table_entry (pd_index virt) (pt_index virt) s))
          virt
unfolding pde_v_to_p
v_to_p-translate virt s = refl

-- the entry that `PDEMap` writes
abbrev pub mapped : ℕ → ℕ → ℕ → ℕ
mapped phys flags e =
    set_addr (phys / 2 ^ 12) (set_user (user flags) (set_rw (writable flags) (set_present e)))

abbrev same_page : ℕ → ℕ → Bool
same_page v w = v / 2 ^ 12 == w / 2 ^ 12

translate-mapped :
    (phys flags v d e : ℕ)
    → is_present d ≡ true
    → phys < 2 ^ 32
    → translate d (mapped phys flags e % 2 ^ 32) v ≡ phys / 2 ^ 12 * 2 ^ 12 + v % 2 ^ 12
translate-mapped phys flags v d e p small =
    let odd : mapped phys flags e % 2 ^ 32 % 2 ≡ 1 = omega arith in
    let frame : mapped phys flags e % 2 ^ 32 / 2 ^ 12 ≡ phys / 2 ^ 12 = omega arith in
    rw (p, odd, frame) refl

module _ (virt phys flags : ℕ) (s : Paging) (low : virt < 2 ^ 32) (laid : IsLaid s)
    (there : is_present (load32 s.mem (directory_entry (pd_index virt) s)) ≡ true) where
  abbrev put : Mem
  put =
      let at = table_entry (pd_index virt) (pt_index virt) s in
      store32 s.mem at (mapped phys flags (load32 s.mem at))

  put-directory :
      (k : ℕ) → k < 1024 → load32 put (directory_entry k s) ≡ load32 s.mem (directory_entry k s)
  put-directory k h =
      let at = table_entry (pd_index virt) (pt_index virt) s in
      load32-store32_apart s.mem at (directory_entry k s) (mapped phys flags (load32 s.mem at)) (
        swap-Apart (directory_entry k s) 4 at 4 (
          narrow s.page_directory 4096 s.page_tables (2 ^ 22) (directory_entry k s) 4 at 4 laid
            (omega arith)))

  put-other :
      (v : ℕ)
      → v < 2 ^ 32
      → same_page v virt ≡ false
      → load32 put (table_entry (pd_index v) (pt_index v) s)
        ≡ load32 s.mem (table_entry (pd_index v) (pt_index v) s)
  put-other v h ne =
      let at = table_entry (pd_index virt) (pt_index virt) s in
      let e : s.page_tables + virt / 2 ^ 12 * 4 ≡ at = omega arith in
      let e' : s.page_tables + v / 2 ^ 12 * 4 ≡ table_entry (pd_index v) (pt_index v) s =
        omega arith in
      load32-store32_apart s.mem at (table_entry (pd_index v) (pt_index v) s)
        (mapped phys flags (load32 s.mem at))
        (rw (← e, ← e') (separate_entries s.page_tables (virt / 2 ^ 12) (v / 2 ^ 12) ne))

  put-own :
      load32 put (table_entry (pd_index virt) (pt_index virt) s)
      ≡ mapped phys flags (load32 s.mem (table_entry (pd_index virt) (pt_index virt) s)) % 2 ^ 32
  put-own =
      let at = table_entry (pd_index virt) (pt_index virt) s in
      load32-store32_wrap s.mem at (mapped phys flags (load32 s.mem at))

  put-translate :
      (v : ℕ)
      → v < 2 ^ 32
      → phys < 2 ^ 32
      → pde_v_to_p v (record s { mem = put })
        ≡ (if same_page v virt then phys / 2 ^ 12 * 2 ^ 12 + v % 2 ^ 12 else pde_v_to_p v s)
  put-translate v h small = elim (Bool-cases (same_page v virt)) [
    | inl same ↦
        let d : pd_index v ≡ pd_index virt = ground arith in
        let t : pt_index v ≡ pt_index virt = ground arith in
        rw same (
          v_to_p-translate v (record s { mem = put })
          ∙ rw (d, t)
              (ap₂ (λ (x y : ℕ). translate x y v) (put-directory (pd_index virt) (omega arith))
                  put-own
                ∙ translate-mapped phys flags v (load32 s.mem (directory_entry (pd_index virt) s))
                    (load32 s.mem (table_entry (pd_index virt) (pt_index virt) s)) there small))
    | inr other ↦
        let directory = put-directory (pd_index v) (omega arith) in
        let table = put-other v h other in
        rw other (
          v_to_p-translate v (record s { mem = put })
          ∙ ap₂ (λ (x y : ℕ). translate x y v) directory table
          ∙ sym (v_to_p-translate v s))
  ]

-- Where the directory has a table for the address, and the directory and the tables do not overlap,
-- `PDEMap` makes `PDEVToP` translate the addresses of the one page to the frame, each with its offset,
-- and leaves the translation of every other page as it was.
pub v_to_p-map :
    (virt phys flags v : ℕ) (s : Paging)
    → virt < 2 ^ 32
    → phys < 2 ^ 32
    → v < 2 ^ 32
    → IsLaid s
    → is_present (load32 s.mem (directory_entry (pd_index virt) s)) ≡ true
    → pde_v_to_p v (pde_map virt phys flags s) ≡ (
        if v / 2 ^ 12 == virt / 2 ^ 12 then phys / 2 ^ 12 * 2 ^ 12 + v % 2 ^ 12 else pde_v_to_p v s)
unfolding pde_map ensure_table
v_to_p-map virt phys flags v s low small h laid there =
    rw there (put-translate virt phys flags s low laid there v h small)
