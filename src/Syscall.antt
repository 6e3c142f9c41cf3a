-- ===== src/Syscall.antt =====
-- The system calls, `sysReply` of src/isr/system.c: what each call of a process does to the scheduler,
-- the inboxes, the heap and the resources.
--
-- The calls that need files, the screen, the keyboard, the mouse or the program loader are a parameter,
-- `outside`: what they do to the machine, and their reply.
pub mod Handlers
pub mod Dispatch
pub mod Message
pub mod Alive
pub mod Served
pub mod Rights
mod Tests
use dek_os.Base.{ℕ, ◌-◌, ◌^◌, ◌==◌, if◌then◌else◌, Run, ok, Bool}
use dek_os.Memory.Heap.{Heap}
use dek_os.User.{Users}
use dek_os.Sched.{Sched, Process}
use dek_os.Sched.Lifecycle.{Kernel}
use dek_os.Resource.{Resources, Result}
use dek_os.Ipc.{Inbox}

-- The variables that the calls use; the inbox of a process stands beside its slot.
pub record Machine : Type 0 where
  pub resources : Resources
  pub inboxes : ℕ → Inbox
  pub users : Users

-- The words at 0x9000: the number of the call and its arguments.
pub record Call : Type 0 where
  pub num : ℕ
  pub arg1 : ℕ
  pub arg2 : ℕ
  pub arg3 : ℕ
  pub arg4 : ℕ
  pub arg5 : ℕ

-- `InterruptFunction_t`, and `no_function` for a number that it does not have
pub data Function : Type 0 where
  exit_call get_my_pid_call get_parents_pid_call yield_call create_process_call kill_process_call
        check_process_call :
      Function
  resume_process_call suspend_process_call username_call ticks_call : Function
  open_call close_call read_call write_call getch_call putch_call : Function
  send_call fetch_call unread_call mousex_call mousey_call mousebtn_call : Function
  malloc_call free_call : Function
  rreq_call blit_call rblit_call rnew_call rdel_call rgive_call rsize_call ronheap_call rtype_call
        rowner_call rprot_call :
      Function
  dload_call dfind_call dunload_call : Function
  no_function : Function

-- the numbers of the calls from 0, from 0x10, from 0x20 and 0x30, and from 0x40 and 0x50 on
abbrev pub process_function : ℕ → Function
process_function n =
    if n == 0
    then exit_call
    else if n == 1
    then get_my_pid_call
    else if n == 2
    then get_parents_pid_call
    else if n == 3
    then yield_call
    else if n == 4
    then create_process_call
    else if n == 5
    then kill_process_call
    else if n == 6
    then check_process_call
    else if n == 7
    then resume_process_call
    else if n == 8
    then suspend_process_call
    else if n == 9
    then username_call
    else if n == 10
    then ticks_call
    else no_function

abbrev pub file_function : ℕ → Function → Function
file_function n other =
    if n == 0x10
    then open_call
    else if n == 0x11
    then close_call
    else if n == 0x12
    then read_call
    else if n == 0x13
    then write_call
    else if n == 0x14
    then getch_call
    else if n == 0x15
    then putch_call
    else other

abbrev pub message_function : ℕ → Function → Function
message_function n other =
    if n == 0x20
    then send_call
    else if n == 0x21
    then fetch_call
    else if n == 0x22
    then unread_call
    else if n == 0x23
    then mousex_call
    else if n == 0x24
    then mousey_call
    else if n == 0x25
    then mousebtn_call
    else if n == 0x30
    then malloc_call
    else if n == 0x31
    then free_call
    else other

abbrev pub resource_function : ℕ → Function → Function
resource_function n other =
    if n == 0x40
    then rreq_call
    else if n == 0x41
    then blit_call
    else if n == 0x42
    then rblit_call
    else if n == 0x43
    then rnew_call
    else if n == 0x44
    then rdel_call
    else if n == 0x45
    then rgive_call
    else if n == 0x46
    then rsize_call
    else if n == 0x47
    then ronheap_call
    else if n == 0x48
    then rtype_call
    else if n == 0x49
    then rowner_call
    else if n == 0x4a
    then rprot_call
    else if n == 0x50
    then dload_call
    else if n == 0x51
    then dfind_call
    else if n == 0x52
    then dunload_call
    else other

unfoldable pub function_of : ℕ → Function
function_of n = resource_function n (message_function n (file_function n (process_function n)))

-- A call returns a word to its process, jumps to the context in the scheduler's buffer, or, for a
-- process that has ended, waits in a loop without end.
pub data Reply : Type 0 where
  returned : ℕ → Reply
  jumped : Reply
  stopped : Reply

-- `(uint32_t)-n`
abbrev pub minus_one : ℕ
minus_one = 2 ^ 32 - 1

abbrev pub sched_of : Machine → Sched
sched_of m = m.resources.sched

abbrev pub heap_of : Machine → Heap
heap_of m = m.resources.heap

abbrev pub with_sched : Sched → Machine → Machine
with_sched s m = record m { resources = record (m.resources) { sched = s } }

abbrev pub with_heap : Heap → Machine → Machine
with_heap h m = record m { resources = record (m.resources) { heap = h } }

abbrev pub with_bytes : (ℕ → ℕ) → Machine → Machine
with_bytes b m = with_heap (record (heap_of m) { bytes = b }) m

abbrev pub kernel_of : Machine → Kernel
kernel_of m = record { sched = sched_of m; heap = heap_of m }

abbrev pub with_kernel : Kernel → Machine → Machine
with_kernel k m = record m { resources = record (m.resources) { sched = k.sched; heap = k.heap } }

-- the number of the process that calls, and its slot
abbrev pub caller : Machine → ℕ
caller m = (sched_of m).current_pid.num

abbrev pub process_of : Machine → Process
process_of m = (sched_of m).processes (caller m)
