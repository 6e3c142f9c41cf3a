-- ===== src/Sched/Lifecycle.antt =====
-- Creating and ending processes, src/programs/scheduler.c: the two functions that use the heap.
use Prim.Native.Nat.{min}
use dek_os.Base.{
  ℕ, zero, suc, ◌+◌, ◌*◌, ◌/◌, ◌%◌, ◌^◌, Bool, true, false, not, ◌&&◌, ◌||◌, ltb, ◌==◌,
  if◌then◌else◌, Option, none, some, Run, ok, ◌>>=◌, Mem, null, load32, store32,
}
use dek_os.Memory.Block.{memcpy}
use dek_os.Memory.Text.{strnlen}
use dek_os.Memory.Heap.{Heap, kmalloc, kfree}
use dek_os.User.{Users, user_test, flag_valid, flag_can_launch}
use dek_os.Sched.{Pid, Process, Sched, max_procs, put, sched_find_invalid_process, zero_regs}

-- The scheduler together with the heap that process arguments are copied to.
pub record Kernel : Type 0 where
  pub sched : Sched
  pub heap : Heap

-- The loop that copies `Args[i]`, … into fresh blocks, whose addresses it stores in `argv`.
unfoldable pub copy_args : ℕ → ℕ → ℕ → ℕ → Heap → Run Heap
copy_args zero i args argv h = ok h
copy_args (suc n) i args argv h =
    let arg = load32 h.bytes (args + 4 * i) in
    let len = strnlen (λ k. h.bytes (arg + k)) 256 + 1 in
    do
      (p, h') ← kmalloc len h
      let h'' : Heap = record h' {
        bytes = memcpy (store32 h'.bytes (argv + 4 * i) p) p (load32 h'.bytes (args + 4 * i)) len;
      }
      copy_args n (i + 1) args argv h''

-- `argv` and `argc` of a new process.
unfoldable pub take_args : ℕ → ℕ → Heap → Run (ℕ × ℕ × Heap)
unfolding copy_args
take_args args argc h = if not (ltb 0 argc && not (args == null)) then ok (null, 0, h) else do
  (argv, h') ← kmalloc (4 * (argc + 1) % 2 ^ 32) h
  h'' ← copy_args argc 0 args argv h'
  ok (argv, argc, record h'' { bytes = store32 h''.bytes (argv + 4 * argc) null })

-- The arguments of `schedCreateProcess`; pointers are addresses.
pub record Request : Type 0 where
  pub name : ℕ
  pub args : ℕ
  pub argc : ℕ
  pub program : ℕ
  pub entry_offset : ℕ
  pub stack : ℕ
  pub stack_length : ℕ
  pub parent : Pid
  pub user : ℕ

-- The slot that `schedCreateProcess` fills, its name at most 32 bytes of the text at `name`, and
-- `& -16` clearing the last four bits of the stack's end.
unfoldable pub new_process : Request → Mem → ℕ → ℕ → Process
new_process r bytes argv argc =
    let top = (r.stack + r.stack_length) % 2 ^ 32 / 16 * 16 in
    let length = min 32 (strnlen (λ k. bytes (r.name + k)) 32) in
    record {
      name = λ i. if ltb i length then bytes (r.name + i) else 0;
      stack_size = r.stack_length;
      program = r.program;
      stack = r.stack;
      regs = record zero_regs {
        eax = r.user;
        ebx = r.parent.num;
        ecx = r.argc;
        edx = argv;
        eip = (r.program + r.entry_offset) % 2 ^ 32;
        esp = top;
        ebp = top;
        flags = 0x202;
        cs = 0x08;
        ds = 0x10;
        es = 0x10;
        ss = 0x10;
        fs = 0x10;
        gs = 0x10;
      };
      parent = r.parent;
      valid = true;
      active = true;
      delete = false;
      argv = argv;
      argc = argc;
      enactor = r.user;
    }

-- `none` is the identifier `{0}` of a process that could not be created.
unfoldable pub sched_create_process : Request → Users → Kernel → Run (Option Pid × Kernel)
sched_create_process r us k =
    if user_test r.user (flag_can_launch + flag_valid) us == 0
    then ok (none, k)
    else elim (sched_find_invalid_process k.sched) [
      | none ↦ ok (none, k)
      | some id ↦
          if not (r.name == null) && not (r.program == null) && ltb 0 id
          then (do
            (argv, argc, h) ← take_args r.args r.argc k.heap
            ok (
              some (record { valid = true; num = id }),
              record { sched = put k.sched id (new_process r k.heap.bytes argv argc); heap = h },
            ))
          else ok (none, k)
    ]

-- The loop that frees the arguments `i`, … of a process.
unfoldable pub free_args : ℕ → ℕ → ℕ → Heap → Run Heap
free_args zero i argv h = ok h
free_args (suc n) i argv h =
    let arg = load32 h.bytes (argv + 4 * i) in
    let freed : Run Heap = if arg == null then ok h else kfree arg h in
    freed >>= λ h'. free_args n (i + 1) argv h'

unfoldable pub sched_kill_process : Pid → Kernel → Run (Bool × Kernel)
sched_kill_process pid k =
    let p = k.sched.processes pid.num in
    let freed : Run Heap =
      if p.argv == null
      then ok k.heap
      else (free_args p.argc 0 p.argv k.heap >>= λ h. kfree p.argv h) in
    if (pid.num == 0) || ltb max_procs pid.num then ok (true, k) else (do
      h ← freed
      ok (
        false,
        record {
          sched =
              put k.sched pid.num
                (record p { argv = null; active = false; valid = false; delete = true });
          heap = h;
        },
      ))
