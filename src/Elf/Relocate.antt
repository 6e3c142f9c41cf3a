-- ===== src/Elf/Relocate.antt =====
-- Relocation, src/programs/elf/elf.c: `elfDoRelocation`, `elfApplyRelativeRelocation` and
-- `elfLoadStageTwo`. They read the headers again and again from the memory that they change. The
-- number of sections has 16 bits and that of the relocations 32, so that the rounds given suffice.
use dek_os.Base.{
  ℕ, zero, suc, ◌+◌, ◌-◌, ◌*◌, ◌/◌, ◌%◌, ◌^◌, not, ◌&&◌, Mem, null, load32, store32, ltb, ◌==◌,
  if◌then◌else◌, Run, ok, hung, faulted, ◌>>=◌,
}
use dek_os.Elf.{
  Externs, elf_error, elf_section, elf_get_symbol_value, sh_type, sh_offset, sh_size, sh_link,
  sh_info, sh_entsize, e_shoff, e_shnum,
}

-- `elf32Rel_t`, with `ELF32_R_SYM` and `ELF32_R_TYPE` of its second word
abbrev pub r_offset : Mem → ℕ → ℕ
r_offset m rel = load32 m rel

abbrev pub r_sym : Mem → ℕ → ℕ
r_sym m rel = load32 m (rel + 4) / 2 ^ 8

abbrev pub r_type : Mem → ℕ → ℕ
r_type m rel = load32 m (rel + 4) % 2 ^ 8

-- the word that a relocation changes
abbrev pub ref_of : ℕ → ℕ → ℕ → Mem → ℕ
ref_of hdr rel reltab m =
    (hdr + sh_offset m (elf_section m hdr (sh_info m reltab)) + r_offset m rel) % 2 ^ 32

-- `DO_386_32` and `DO_386_PC32`
abbrev pub do_386_32 : ℕ → ℕ → ℕ
do_386_32 s a = (s + a) % 2 ^ 32

abbrev pub do_386_pc32 : ℕ → ℕ → ℕ → ℕ
do_386_pc32 s a p = (s + a + 2 ^ 32 - p) % 2 ^ 32

-- the switch on the type
unfoldable pub relocate_word : ℕ → ℕ → ℕ → Mem → ℕ × Mem
relocate_word type ref symbol_value m =
    if type == 0
    then (symbol_value, m)
    else if type == 1
    then (symbol_value, store32 m ref (do_386_32 symbol_value (load32 m ref)))
    else if type == 2
    then (symbol_value, store32 m ref (do_386_pc32 symbol_value (load32 m ref) ref))
    else (elf_error, m)

unfoldable pub elf_do_relocation : Externs → ℕ → ℕ → ℕ → Mem → Run (ℕ × Mem)
elf_do_relocation x hdr rel reltab m =
    if elf_section m hdr (sh_info m reltab) == null then faulted else (do
      symbol_value ←
          if r_sym m rel == 0
          then ok 0
          else elf_get_symbol_value x hdr (sh_link m reltab) (r_sym m rel) m
      ok (
          if not (r_sym m rel == 0) && (symbol_value == elf_error)
          then (elf_error, m)
          else relocate_word (r_type m rel) (ref_of hdr rel reltab m) symbol_value m))

unfoldable pub apply_loop : ℕ → Externs → ℕ → ℕ → ℕ → Mem → Run (ℕ × Mem)
apply_loop zero x hdr sect idx m = hung
apply_loop (suc fuel) x hdr sect idx m =
    let rel = (hdr + sh_offset m sect + idx * 8) % 2 ^ 32 in
    let next : Run (ℕ × Mem) = (do
      (result, m') ← elf_do_relocation x hdr rel sect m
      let rest = apply_loop fuel x hdr sect (idx + 1) m'
      if result == elf_error then ok (elf_error, m') else rest) in
    if sh_entsize m sect == 0
    then faulted
    else if ltb idx (sh_size m sect / sh_entsize m sect)
    then next
    else ok (0, m)

unfoldable pub elf_apply_relative_relocation : Externs → ℕ → ℕ → Mem → Run (ℕ × Mem)
elf_apply_relative_relocation x hdr sect m = apply_loop (2 ^ 32) x hdr sect 0 m

-- `sections` is computed once.
unfoldable pub stage_two_loop : ℕ → Externs → ℕ → ℕ → ℕ → Mem → Run (ℕ × Mem)
stage_two_loop zero x hdr sections i m = hung
stage_two_loop (suc fuel) x hdr sections i m =
    let sect = (sections + i * 40) % 2 ^ 32 in
    let skip = stage_two_loop fuel x hdr sections (i + 1) m in
    let apply : Run (ℕ × Mem) = (do
      (result, m') ← elf_apply_relative_relocation x hdr sect m
      let rest = stage_two_loop fuel x hdr sections (i + 1) m'
      if result == 0 then rest else ok (elf_error, m')) in
    if ltb i (e_shnum m hdr) then (if sh_type m sect == 9 then apply else skip) else ok (0, m)

unfoldable pub elf_load_stage_two : Externs → ℕ → Mem → Run (ℕ × Mem)
elf_load_stage_two x hdr m = stage_two_loop (2 ^ 16) x hdr ((hdr + e_shoff m hdr) % 2 ^ 32) 0 m
