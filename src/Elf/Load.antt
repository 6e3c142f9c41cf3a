-- ===== src/Elf/Load.antt =====
-- Loading a program, src/programs/elf/elf.c: memory for the sections that the file has no bytes of,
-- the whole of `elfLoadFile`, and the functions that copy a file and load it. The scheduler is
-- src/programs/scheduler.c.
use dek_os.Base.{
  ℕ, zero, suc, ◌+◌, ◌-◌, ◌*◌, ◌/◌, ◌%◌, ◌^◌, Bool, true, false, not, ◌&&◌, ◌||◌, Mem, null, load32,
  store32, ltb, leb, ◌==◌, if◌then◌else◌, Option, none, some, Run, ok, hung, faulted, ◌>>=◌,
}
use dek_os.Base.Int.{pos, negsuc}
use dek_os.Memory.Block.{int_count, memset, memcpy}
use dek_os.Memory.Text.{strcmp}
use dek_os.Memory.Heap.{Heap, kmalloc, kfree}
use dek_os.User.{Users}
use dek_os.Sched.{Pid}
use dek_os.Sched.Lifecycle.{Kernel, Request, sched_create_process}
use dek_os.Elf.{
  Externs, elf_error, elf_check_supported, et_rel, e_type, e_entry, e_shoff, e_shnum, section_at,
  sh_type, sh_flags, sh_offset, sh_size, sh_link, sh_entsize, st_name, st_value, st_shndx, shn_abs,
}
use dek_os.Elf.Relocate.{elf_load_stage_two}

-- `elfLoadStageOne` from section `i` on. It writes the place of the memory that it takes into the
-- section's header; a block at NULL is a fault.
unfoldable pub stage_one_loop : ℕ → ℕ → ℕ → ℕ → Heap → Run Heap
stage_one_loop zero hdr sections i h = hung
stage_one_loop (suc fuel) hdr sections i h =
    let sect = (sections + i * 40) % 2 ^ 32 in
    let size = sh_size h.bytes sect in
    let skip = stage_one_loop fuel hdr sections (i + 1) h in
    let take : Run Heap = (do
      (p, h') ← kmalloc size h
      let cleared = memset h'.bytes p 0 size
      let placed = store32 cleared (sect + 16) ((p + 2 ^ 32 - hdr) % 2 ^ 32)
      let rest = stage_one_loop fuel hdr sections (i + 1) (record h' { bytes = placed })
      if p == null then faulted else rest) in
    if ltb i (e_shnum h.bytes hdr)
    then (if (sh_type h.bytes sect == 8) && not (size == 0) && (sh_flags h.bytes sect / 2 % 2 == 1)
        then take
        else skip)
    else ok h

unfoldable pub elf_load_stage_one : ℕ → Heap → Run Heap
elf_load_stage_one hdr h = stage_one_loop (2 ^ 16) hdr ((hdr + e_shoff h.bytes hdr) % 2 ^ 32) 0 h

unfoldable pub elf_load_rel : Externs → ℕ → Heap → Run (ℕ × Heap)
elf_load_rel x hdr h = do
  h' ← elf_load_stage_one hdr h
  (result, m) ← elf_load_stage_two x hdr h'.bytes
  ok (if result == elf_error then elf_error else e_entry m hdr, record h' { bytes = m })

-- A file of type `ET_EXEC` is supported, but gives NULL.
unfoldable pub elf_load_file : Externs → ℕ → Heap → Run (ℕ × Heap)
elf_load_file x file h =
    if not (elf_check_supported h.bytes file)
    then ok (null, h)
    else if e_type h.bytes file == et_rel
    then elf_load_rel x file h
    else ok (null, h)

abbrev pub stack_size : ℕ
stack_size = 0x10000

-- The second result is `*iself`.
unfoldable pub elf_load_program :
    Externs → ℕ → ℕ → ℕ → ℕ → ℕ → Users → Kernel → Run (Option Pid × Bool × Kernel)
elf_load_program x file file_size user argc argv us k =
    if not (elf_check_supported k.heap.bytes file) then ok (none, false, k) else (do
      (program_mem, h) ← kmalloc file_size k.heap
      if program_mem == null then ok (none, true, record k { heap = h }) else (do
        let m = memcpy h.bytes program_mem file (int_count file_size)
        (entry_point, h') ← elf_load_file x program_mem (record h { bytes = m })
        (pid, k') ←
            if entry_point == elf_error
            then (do h'' ← kfree program_mem h'; ok (none, record k { heap = h'' }))
            else (do
              (stack_mem, h'') ← kmalloc stack_size h'
              if stack_mem == null
                  then (do g ← kfree program_mem h''; ok (none, record k { heap = g }))
                  else (let request : Request = record {
                    name = load32 h''.bytes argv;
                    args = argv;
                    argc = argc;
                    program = program_mem;
                    entry_offset = entry_point;
                    stack = stack_mem;
                    stack_length = stack_size;
                    parent = k.sched.current_pid;
                    user = user;
                  } in
                      sched_create_process request us (record k { heap = h'' })))
        ok (pid, true, k')))

unfoldable pub elf_load_no_run : Externs → ℕ → ℕ → Heap → Run (ℕ × Heap)
elf_load_no_run x file file_size h =
    if not (elf_check_supported h.bytes file) then ok (null, h) else (do
      (program_mem, h') ← kmalloc file_size h
      if program_mem == null then ok (null, h') else (do
        let m = memcpy h'.bytes program_mem file (int_count file_size)
        (entry_point, h'') ← elf_load_file x program_mem (record h' { bytes = m })
        if entry_point == elf_error
            then (do g ← kfree program_mem h''; ok (null, g))
            else ok (program_mem, h'')))

-- The symbols of one table, `n` left from symbol `j` on: the first with the name, if there is one.
unfoldable pub symbol_loop : ℕ → ℕ → ℕ → ℕ → ℕ → Mem → Run (Option ℕ)
symbol_loop zero j syms strings name m = ok none
symbol_loop (suc n) j syms strings name m =
    let sym = (syms + j * 16) % 2 ^ 32 in
    let rest = symbol_loop n (j + 1) syms strings name m in
    let compare_names : Run (Option ℕ) = (do
      order ← strcmp (λ k. m ((strings + st_name m sym) % 2 ^ 32 + k)) (λ k. m (name + k))
      elim order [ pos zero ↦ ok (some sym) | pos (suc _) ↦ rest | negsuc _ ↦ rest ]) in
    if st_name m sym == 0 then rest else compare_names

-- The sections, `n` left from section `i` on. `SHT_SYMTAB` is 2 and `SHT_DYNSYM` is 11.
unfoldable pub symbol_table_loop : ℕ → ℕ → ℕ → ℕ → Mem → Run (Option ℕ)
symbol_table_loop zero i module_at name m = ok none
symbol_table_loop (suc n) i module_at name m =
    let sh = section_at m module_at i in
    let strings = (module_at + sh_offset m (section_at m module_at (sh_link m sh))) % 2 ^ 32 in
    let syms = (module_at + sh_offset m sh) % 2 ^ 32 in
    let count = int_count (sh_size m sh / sh_entsize m sh) in
    let rest = symbol_table_loop n (i + 1) module_at name m in
    if not (sh_type m sh == 2) && not (sh_type m sh == 11)
    then rest
    else if leb (e_shnum m module_at) (sh_link m sh)
    then rest
    else if sh_entsize m sh == 0
    then faulted
    else (do
      found ← symbol_loop count 0 syms strings name m
      elim found [ some sym ↦ ok (some sym) | none ↦ rest ])

unfoldable pub elf_symbol : ℕ → ℕ → Mem → Run ℕ
elf_symbol module_at name m =
    let entry = e_entry m module_at in
    let link_address = if ltb entry 0x1000000 then entry / 2 ^ 28 * 2 ^ 28 else 0x08000000 in
    if (module_at == null) || (name == null) then ok null else (do
      found ← symbol_table_loop (e_shnum m module_at) 0 module_at name m
      ok (elim found as (λ _. ℕ) [
        | none ↦ null
        | some sym ↦
            if st_shndx m sym == shn_abs
            then (st_value m sym + module_at) % 2 ^ 32
            else (st_value m sym + 2 ^ 32 - link_address + module_at) % 2 ^ 32
      ]))
