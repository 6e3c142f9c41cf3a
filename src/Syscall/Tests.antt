-- ===== src/Syscall/Tests.antt =====
-- System calls in a machine with the kernel's process and two more, of which number 2 runs and has
-- a resource.
use dek_os.Base.{ℕ, ◌%◌, ◌≡◌, refl, arith, true, false, ◌==◌, ltb, if◌then◌else◌, ok, Run}
use dek_os.User.{no_user}
use dek_os.Sched.{adam, Sched, Process, max_procs, zero_process, zero_regs}
use dek_os.Resource.{
  Resource, zero_resource, siblings_loop, resource_recursive_search, resource_get_from_rid,
}
use dek_os.Ipc.{Message, Inbox}
use dek_os.Ipc.Queue.{pending}
use dek_os.Syscall.{Machine, Call, Function, Reply, returned, minus_one, heap_of}
use dek_os.Syscall.Handlers.{sys_send, sys_fetch, sys_rdel, sys_rgive, sys_rprot}
use dek_os.Syscall.Message.{MaySend, fetch-send}
use dek_os.Syscall.Rights.{Spares, foreign-SameRights}

abbrev no_message : Message
no_message = record {
  sender_pid = 0;
  receiver_pid = 0;
  size = 0;
  data_at = λ _. 0;
  is_read = false;
}

abbrev no_messages : Inbox
no_messages = record { messages = λ _. no_message; head = 0; tail = 0; count = 0 }

abbrev owned : Resource
owned = record zero_resource {
  parent = 0x500;
  kind = 1;
  owner = record { valid = true; num = 2 };
  used = true;
  rid = 5;
}

abbrev running : Sched
running = record {
  processes =
      λ i. if ltb i 4 then record zero_process { valid = true; active = true } else zero_process;
  current_pid = record { valid = true; num = 2 };
  buffer = zero_regs;
  tick_counter = 0;
}

abbrev world : Machine
world = record {
  resources = record {
    node = λ p.
        if p == 0x500
        then record zero_resource { first_child = 0x2000 }
        else if p == 0x2000
        then owned
        else zero_resource;
    pool = 0x500;
    counter = 7;
    sched = running;
    heap = record {
      bytes = λ a. a % 256;
      map = λ _. 0;
      raw = 0x1000;
      heap_size = 64;
      mem_size = 0x2000;
      heap_start = 0x1000;
      heap_end = 0x1040;
      heap_map_start = 0x1040;
      heap_map_end = 0x1041;
    };
  };
  inboxes = λ _. no_messages;
  users = record { slot = λ _. no_user; user_count = 0 };
}

-- the machine with another process running
abbrev run_by : ℕ → Machine → Machine
run_by n m = record m {
  resources = record (m.resources) {
    sched = record (m.resources.sched) { current_pid = record { valid = true; num = n } };
  };
}

-- `SEND` of the five bytes at 0x1234 to process 3, and its `FETCH` to 0x3000
abbrev to_three : Call
to_three = record { num = 0x20; arg1 = 3; arg2 = 0x1234; arg3 = 5; arg4 = 0; arg5 = 0 }

abbrev fetch_it : Call
fetch_it = record { num = 0x21; arg1 = 0x3000; arg2 = 16; arg3 = 0; arg4 = 0; arg5 = 0 }

to_three-MaySend : MaySend to_three world
to_three-MaySend = record {
  target = omega arith;
  valid = refl;
  short = omega arith;
  inbox = omega arith;
  room = omega arith;
}

fetch-send_example :
    let (sender, m') = sys_fetch fetch_it (run_by 3 (sys_send to_three world).1) in
    (sender ≡ 2) × ((heap_of m').bytes 0x3002 ≡ (heap_of world).bytes 0x1236)
unfolding pending
fetch-send_example =
    fetch-send to_three fetch_it world (run_by 3 (sys_send to_three world).1) 2 to_three-MaySend
      refl refl refl (omega arith) (omega arith)

-- a call on the resource with identifier 5
abbrev on_five : Call
on_five = record { num = 0x40; arg1 = 5; arg2 = 1; arg3 = 0; arg4 = 0; arg5 = 0 }

found_five : resource_get_from_rid 5 true (run_by 3 world).resources ≡ ok 0x2000
unfolding resource_get_from_rid resource_recursive_search siblings_loop
found_five = refl

foreign-SameRights_example :
    Spares on_five (run_by 3 world) 0x2000 (omega arith) (sys_rdel on_five (run_by 3 world))
    × Spares on_five (run_by 3 world) 0x2000 (omega arith) (sys_rgive on_five (run_by 3 world))
    × Spares on_five (run_by 3 world) 0x2000 (omega arith) (sys_rprot on_five (run_by 3 world))
foreign-SameRights_example = foreign-SameRights on_five (run_by 3 world) 0x2000 (omega arith)

abbrev kernel_process : Process
kernel_process = record zero_process {
  name = adam;
  valid = true;
  active = true;
  stack = 0x5000;
  stack_size = 4096;
  regs = record zero_regs {
    esp = 0x6000;
    ebp = 0x6000;
    flags = 0x202;
    cs = 0x08;
    ss = 0x10;
    ds = 0x10;
    es = 0x10;
    fs = 0x10;
    gs = 0x10;
  };
}

abbrev booted : Sched
booted = record running {
  current_pid = record { valid = true; num = 0 };
  buffer = kernel_process.regs;
  processes = λ i.
      if i == 0
      then kernel_process
      else if ltb i max_procs
      then zero_process
      else running.processes i;
}

abbrev boot : Machine
boot = record world { resources = record (world.resources) { sched = booted } }

-- the calls that are not modelled refused
abbrev refused : Function → Call → Machine → Run (Reply × Machine)
refused f c m = ok (returned minus_one, m)

abbrev suspend_two : Call
suspend_two = record { num = 8; arg1 = 2; arg2 = 0; arg3 = 0; arg4 = 0; arg5 = 0 }

abbrev after_boot : Machine
after_boot = boot
