-- ===== src/Sched/Table.antt =====
-- The process table, src/programs/scheduler.h and the variables of src/programs/scheduler.c.
use dek_os.Base.{ℕ, Bool, false, ◌==◌, if◌then◌else◌, Mem, null}

-- `schedPid_t`
pub record Pid : Type 0 where
  pub valid : Bool
  pub num : ℕ

-- `schedRegs_t`, and the buffer of `SCHED_EAX` to `SCHED_FLAGS`
pub record Regs : Type 0 where
  pub eax : ℕ
  pub ebx : ℕ
  pub ecx : ℕ
  pub edx : ℕ
  pub esp : ℕ
  pub ebp : ℕ
  pub esi : ℕ
  pub edi : ℕ
  pub eip : ℕ
  pub cs : ℕ
  pub ds : ℕ
  pub es : ℕ
  pub ss : ℕ
  pub fs : ℕ
  pub gs : ℕ
  pub flags : ℕ

-- `schedProcess_t`
pub record Process : Type 0 where
  pub name : Mem
  pub stack_size : ℕ
  pub program : ℕ
  pub stack : ℕ
  pub regs : Regs
  pub parent : Pid
  pub valid : Bool
  pub active : Bool
  pub delete : Bool
  pub argv : ℕ
  pub argc : ℕ
  pub enactor : ℕ

pub record Sched : Type 0 where
  pub processes : ℕ → Process
  pub current_pid : Pid
  pub buffer : Regs
  pub tick_counter : ℕ

abbrev pub max_procs : ℕ
max_procs = 16

abbrev pub no_pid : Pid
no_pid = record { valid = false; num = 0 }

abbrev pub zero_regs : Regs
zero_regs = record {
  eax = 0;
  ebx = 0;
  ecx = 0;
  edx = 0;
  esp = 0;
  ebp = 0;
  esi = 0;
  edi = 0;
  eip = 0;
  cs = 0;
  ds = 0;
  es = 0;
  ss = 0;
  fs = 0;
  gs = 0;
  flags = 0;
}

-- a slot after `memset(&processes[i], 0, sizeof(schedProcess_t))`
abbrev pub zero_process : Process
zero_process = record {
  name = λ _. 0;
  stack_size = 0;
  program = null;
  stack = null;
  regs = zero_regs;
  parent = no_pid;
  valid = false;
  active = false;
  delete = false;
  argv = null;
  argc = 0;
  enactor = 0;
}

-- `processes[i] = p`
abbrev pub put : Sched → ℕ → Process → Sched
put s i p = record s { processes = λ j. if j == i then p else s.processes j }
