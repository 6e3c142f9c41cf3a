-- ===== src/Sched.antt =====
-- The process scheduler of src/programs/scheduler.c: sixteen process slots, the current process, and
-- the register buffer at 0x9000 through which the assembly code saves and restores a process.
-- The table has the slots 0 to 15. Some checks let larger numbers through, which are other memory: past
-- the table, or, as addresses wrap, in the midst of it. Suspending and resuming such a slot is
-- `faulted`, an access that the model does not follow. `schedSwitch` and `schedKillProcess` let slot 16
-- alone through; what they do there to the memory behind the table is slot 16 of the model, and the
-- theorems on sequences of calls leave it out. Of a process
-- the inbox, the window position and the debugger flag are left out: no function of the file uses them.
-- `cli`, `sti`, `pushf`, `popf` and the acknowledgement of the interrupt are left out too.
pub mod Table
pub mod Lifecycle
pub mod Next
pub mod Context
pub mod Control
pub mod Create
pub mod Reach
mod Tests
unfoldable pub use Table.*
use dek_os.Base.{
  ℕ, zero, suc, ◌+◌, ◌%◌, ◌^◌, Bool, true, false, not, ◌&&◌, ◌||◌, bit_or, ltb, leb, ◌==◌,
  if◌then◌else◌, Option, none, some, Run, ok, hung, faulted, Mem,
}

unfoldable pub find_invalid_loop : ℕ → ℕ → Sched → Option ℕ
find_invalid_loop zero i s = none
find_invalid_loop (suc n) i s =
    let rest = find_invalid_loop n (i + 1) s in if (s.processes i).valid then rest else some i

-- `none` is the result -1.
unfoldable pub sched_find_invalid_process : Sched → Option ℕ
unfolding find_invalid_loop
sched_find_invalid_process s = find_invalid_loop max_procs 0 s

unfoldable pub sched_load_context : Sched → Run Sched
sched_load_context s =
    if not s.current_pid.valid
    then hung
    else ok (record s { buffer = (s.processes s.current_pid.num).regs })

-- `flags | 0x200` keeps interrupts on.
unfoldable pub sched_save_context : Sched → Run Sched
sched_save_context s =
    let num = s.current_pid.num in
    let saved : Regs = record (s.buffer) { flags = bit_or s.buffer.flags 0x200 } in
    if not s.current_pid.valid
    then hung
    else ok (put s num (record (s.processes num) { regs = saved }))

-- `memcpy(processes[0].name, "Adam", 5)`
abbrev pub adam : Mem
adam i =
    if i == 0
    then b'A'
    else if i == 1
    then b'd'
    else if i == 2
    then b'a'
    else if i == 3
    then b'm'
    else 0

-- `k_stack` is the address of `kStack`.
unfoldable pub sched_init : ℕ → Sched → Run Sched
unfolding sched_load_context
sched_init k_stack s =
    let top = k_stack + 4096 in
    let kernel : Process = record zero_process {
      name = adam;
      valid = true;
      active = true;
      stack = k_stack;
      stack_size = 4096;
      regs = record zero_regs {
        esp = top;
        ebp = top;
        flags = 0x202;
        cs = 0x08;
        ss = 0x10;
        ds = 0x10;
        es = 0x10;
        fs = 0x10;
        gs = 0x10;
      };
    } in
    sched_load_context (record s {
      current_pid = record { valid = true; num = 0 };
      processes =
          λ i. if i == 0 then kernel else if ltb i max_procs then zero_process else s.processes i;
    })

-- `true` is an error.
unfoldable pub sched_suspend_process : Pid → Sched → Run (Bool × Sched)
sched_suspend_process pid s =
    let p = s.processes pid.num in
    if (pid.num == 0) || not pid.valid
    then ok (true, s)
    else if leb max_procs pid.num
    then faulted
    else if not p.active || not p.valid
    then ok (true, s)
    else ok (false, put s pid.num (record p { active = false }))

unfoldable pub sched_resume_process : Pid → Sched → Run (Bool × Sched)
sched_resume_process pid s =
    let p = s.processes pid.num in
    if (pid.num == 0) || not pid.valid
    then ok (true, s)
    else if leb max_procs pid.num
    then faulted
    else if p.active || not p.valid
    then ok (true, s)
    else ok (false, put s pid.num (record p { active = true }))

unfoldable pub sched_grab_args : Sched → ℕ × ℕ
sched_grab_args s = let p = s.processes s.current_pid.num in (p.argv, p.argc)

unfoldable pub sched_is_running : Pid → Sched → Bool
sched_is_running pid s =
    if pid.valid && ltb pid.num max_procs
    then (s.processes pid.num).active && (s.processes pid.num).valid
    else false

unfoldable pub sched_switch : ℕ → Sched → Bool × Sched
sched_switch npid s =
    let p = s.processes npid in
    if ltb max_procs npid || not p.valid || not p.active || p.delete
    then (true, s)
    else (false, record s { current_pid = record { valid = true; num = npid } })

-- The rounds left, the slot where the search began and the one last looked at. A slot past the array
-- is never met again, so from there the loop ends only at a process; sixteen rounds visit every slot,
-- and a search that fails sixteen rounds long goes on for ever.
unfoldable pub find_next_loop : ℕ → ℕ → ℕ → Sched → Run (Option ℕ)
find_next_loop zero start next s = hung
find_next_loop (suc n) start next s =
    let i = (next + 1) % max_procs in
    let p = s.processes i in
    let rest = find_next_loop n start i s in
    if p.valid && p.active && not p.delete
    then ok (some i)
    else if i == start
    then ok none
    else rest

unfoldable pub sched_find_next_task : Sched → Run (Option ℕ)
sched_find_next_task s = find_next_loop max_procs s.current_pid.num s.current_pid.num s

unfoldable pub next_context_loop : ℕ → ℕ → Sched → Run Sched
next_context_loop zero next s = hung
next_context_loop (suc n) next s =
    let i = (next + 1) % max_procs in
    let rest = next_context_loop n i s in
    if (s.processes i).valid && (s.processes i).active
    then ok (record s { current_pid = record { valid = true; num = i } })
    else rest

unfoldable pub sched_next_context : Sched → Run Sched
sched_next_context s =
    let start : Pid = if s.current_pid.valid then s.current_pid else no_pid in
    next_context_loop max_procs start.num (record s { current_pid = start })

unfoldable pub sched_timer_handler : Sched → Sched
sched_timer_handler s = record s { tick_counter = (s.tick_counter + 1) % 2 ^ 32 }

abbrev pub sched_get_kernel_pid : Pid
sched_get_kernel_pid = record { valid = true; num = 0 }

unfoldable pub sched_validate_pid : Pid → Sched → Bool
sched_validate_pid pid s =
    if not pid.valid || leb max_procs pid.num
    then false
    else (s.processes pid.num).valid && (s.processes pid.num).active
