-- ===== src/Syscall/Served.antt =====
-- Whatever system calls of src/isr/system.c are served, the kernel's process lives.
use dek_os.Base.{ℕ, ◌+◌, ◌^◌, ◌≤◌, ◌<◌, ◌≡◌, ◌≢◌, false, Run, ok}
use dek_os.Resource.{resource_get_from_rid}
use dek_os.Sched.{Sched, max_procs}
use dek_os.Sched.Reach.{IsAlive}
use dek_os.Syscall.{
  Machine, Call, Function, Reply, sched_of, heap_of, function_of, yield_call, username_call,
  fetch_call, free_call, blit_call, rblit_call,
}
use dek_os.Syscall.Dispatch.{sys_reply}
use dek_os.Syscall.Alive.{Keeps}

-- A call writes where the model has its memory: a buffer of the caller, or a block that it frees, lies
-- behind the kernel image, bytes copied into a resource end within it, and no process is switched to
-- behind the table.
abbrev pub IsConfined : Function → Call → Machine → Type 0
IsConfined yield_call c m = c.arg1 ≢ max_procs
IsConfined fetch_call c m = ((heap_of m).raw ≤ c.arg1) × (c.arg1 + c.arg2 < 2 ^ 32)
IsConfined username_call c m = ((heap_of m).raw ≤ c.arg1) × (c.arg1 + c.arg2 < 2 ^ 32)
IsConfined free_call c m = (heap_of m).raw + 16 ≤ c.arg1
IsConfined rblit_call c m = ((heap_of m).raw ≤ c.arg2) × (c.arg2 + c.arg4 < 2 ^ 32)
IsConfined blit_call c m =
    (rp : ℕ)
    → resource_get_from_rid c.arg1 false m.resources ≡ ok rp
    → c.arg5 + c.arg4 ≤ (m.resources.node rp).region.size
IsConfined _ c m = Unit {0}

module _ (outside : Function → Call → Machine → Run (Reply × Machine))
    (k : (f : Function) (c : Call) (m : Machine)
      → IsAlive (sched_of m)
      → Keeps (outside f c m)) where
  -- Calls served one after the other, each of which comes back and is confined.
  pub data Served (m : Machine) : Machine → Type 0 where
    none_yet : Served m m
    and_then :
        {m₁ m₂ : Machine} {r : Reply}
        → Served m m₁
        → (c : Call) → IsConfined (function_of c.num) c m₁
        → sys_reply outside c m₁ ≡ ok (r, m₂)
        → Served m m₂
