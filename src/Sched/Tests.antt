-- ===== src/Sched/Tests.antt =====
-- The theorems about the scheduler at one table of processes: the kernel, a suspended process, a running one.
use dek_os.Base.{
  ℕ, ◌≡◌, refl, true, false, arith, Bool, Option, some, Run, ok, ◌==◌, if◌then◌else◌, ◌>>=◌,
}
use dek_os.Base.{◌≤◌, ◌<◌, null, bit_or, ltb}
use dek_os.Memory.Heap.{Heap}
use dek_os.User.{Users, user_test}
use dek_os.Sched.{
  Sched, adam, Pid, Process, put, max_procs, zero_regs, zero_process, find_invalid_loop,
  sched_find_invalid_process, sched_load_context, sched_init, sched_suspend_process,
  sched_is_running, sched_find_next_task, next_context_loop, sched_next_context,
}
use dek_os.Sched.Lifecycle.{Kernel, Request, sched_create_process, new_process, take_args}
use dek_os.Sched.Next.{
  runnable, Found, start_of, behind, TaskFound, sched_next_context-Found,
  sched_find_next_task-TaskFound,
}
use dek_os.Sched.Create.{Creates, create-Creates}
use dek_os.Sched.Reach.{here, then_step, suspend, Reach-next_context}
use dek_os.User.{no_user}

abbrev process : Bool → Process
process running = record zero_process { valid = true; active = running }

abbrev slot : ℕ → Process
slot i =
    if i == 0
    then process true
    else if i == 1
    then process false
    else if i == 2
    then process true
    else zero_process

abbrev sample : Sched
sample = record {
  processes = slot;
  current_pid = record { valid = true; num = 2 };
  buffer = record zero_regs { eax = 7; flags = 2 };
  tick_counter = 0;
}

abbrev three : Pid
three = record { valid = true; num = 3 }

abbrev two : Pid
two = record { valid = true; num = 2 }

abbrev zero_heap : Heap
zero_heap = record {
  bytes = λ _. 0;
  map = λ _. 0;
  raw = 0x1000;
  heap_size = 64;
  mem_size = 0x2000;
  heap_start = 0x1000;
  heap_end = 0x1040;
  heap_map_start = 0x1040;
  heap_map_end = 0x1041;
}

abbrev kernel : Kernel
kernel = record { sched = sample; heap = zero_heap }

-- The search goes round the table, past the slot that does not run, to the kernel's.
next_of_two : Run ℕ
next_of_two = sched_next_context sample >>= λ s. ok s.current_pid.num

next_is_zero : next_of_two ≡ ok 0
unfolding next_of_two sched_next_context next_context_loop
next_is_zero = refl

sched_next_context-Found_example :
    (d : ℕ) × (d ≤ max_procs)
    × Found (runnable sample) (start_of sample) d
    × (sched_next_context sample
        ≡ ok (record sample {
          current_pid = record { valid = true; num = behind (start_of sample) d };
        }))
sched_next_context-Found_example = sched_next_context-Found sample 2 (omega arith) refl

abbrev asleep : Sched
asleep = record sample { processes = λ _. process false }

sched_find_next_task-TaskFound_example : TaskFound sample 2 max_procs (sched_find_next_task sample)
sched_find_next_task-TaskFound_example = sched_find_next_task-TaskFound sample (omega arith)

abbrev saved : Sched
saved = put sample 2 (record (slot 2) { regs = record (sample.buffer) { flags = bit_or 2 0x200 } })

abbrev launcher : Users
launcher = record { slot = λ _. record no_user { flags = 0x18 }; user_count = 1 }

abbrev request : Request
request = record {
  name = 0x2000;
  args = null;
  argc = 0;
  program = 0x8000;
  entry_offset = 4;
  stack = 0x9000;
  stack_length = 0x100;
  parent = two;
  user = 0;
}

-- Process 3 is created, and runs.
created : Run (Option Pid × Bool)
created = sched_create_process request launcher kernel >>= λ (p, k).
    ok (p, sched_is_running three k.sched)

process_3_runs : created ≡ ok (some three, true)
unfolding created sched_create_process sched_find_invalid_process find_invalid_loop take_args
    user_test sched_is_running new_process
process_3_runs = refl

create-Creates_example :
    Creates request launcher kernel (sched_create_process request launcher kernel)
create-Creates_example = create-Creates request launcher kernel

abbrev adam_process : Process
adam_process = record zero_process {
  name = adam;
  valid = true;
  active = true;
  stack = 0x5000;
  stack_size = 4096;
  regs = record zero_regs {
    esp = 0x6000;
    ebp = 0x6000;
    flags = 0x202;
    cs = 0x08;
    ss = 0x10;
    ds = 0x10;
    es = 0x10;
    fs = 0x10;
    gs = 0x10;
  };
}

abbrev booted : Sched
booted = record sample {
  current_pid = record { valid = true; num = 0 };
  buffer = adam_process.regs;
  processes =
      λ i. if i == 0 then adam_process else if ltb i max_procs then zero_process else slot i;
}

abbrev boot : Kernel
boot = record { sched = booted; heap = zero_heap }

abbrev later : Kernel
later = boot

-- After starting up, someone tries to suspend process 2.
Reach-next_context_example :
    (runnable later.sched 0 ≡ true)
    × (later.sched.current_pid.valid ≡ true)
    × ((n : ℕ) × (n < max_procs)
        × (runnable later.sched n ≡ true)
        × (sched_next_context later.sched
            ≡ ok (record (later.sched) { current_pid = record { valid = true; num = n } })))
unfolding sched_init sched_load_context sched_suspend_process
Reach-next_context_example =
    Reach-next_context 0x5000 sample booted boot later refl refl (then_step here (suspend two refl))
