-- ===== src/Resource/Tests.antt =====
-- The theorems about resources at a pool of two, which belong to the process that runs, and a free heap.
use dek_os.Base.{store32, ◌%◌, ◌≡◌, ◌≢◌, refl, arith, true, false, ok, null, if◌then◌else◌, ◌==◌}
use dek_os.Base.Bits.{is_set}
use dek_os.Base.Bitmap.{bit}
use dek_os.Memory.Heap.{mark_run, Heap, no_region, m_map, find_run, run_is_free, kmalloc}
use dek_os.Sched.{Pid, zero_regs, zero_process, sched_validate_pid}
use dek_os.Resource.{
  Resource, Resources, result_ok, corrupted, zero_resource, siblings_loop,
  resource_recursive_search, resource_get_from_rid, resource_blit_k, resource_r_blit_k,
  resource_unlink_k, resource_release_k, resource_handover_k,
}
use dek_os.Resource.Lifecycle.{
  resource_create_k, assertion_fails, resource_is_valid_type, allocate, insert,
}
use dek_os.Resource.Access.{not_owner-unchanged, MayBlit, blit_past_end}
use dek_os.Resource.Links.{Waits, unlink_after_unlink}
use dek_os.Resource.Create.{create-get}

abbrev two : Pid
two = record { valid = true; num = 2 }

abbrev first : Resource
first = record zero_resource {
  region = record { ptr = 0x1010; size = 16 };
  parent = 0x500;
  next_sibling = 0x2100;
  kind = 1;
  owner = two;
  used = true;
  on_heap = true;
  rid = 5;
}

abbrev second : Resource
second = record first { next_sibling = null; previous_sibling = 0x2000; rid = 6 }

abbrev sample : Resources
sample = record {
  node = λ p.
      if p == 0x500
      then record zero_resource { first_child = 0x2000 }
      else if p == 0x2000
      then first
      else if p == 0x2100
      then second
      else zero_resource;
  pool = 0x500;
  counter = 7;
  sched = record {
    processes =
        λ i. if i == 2 then record zero_process { valid = true; active = true } else zero_process;
    current_pid = two;
    buffer = zero_regs;
    tick_counter = 0;
  };
  heap = record {
    bytes = λ a. a % 256;
    map = λ _. 0;
    raw = 0x1000;
    heap_size = 64;
    mem_size = 0x2000;
    heap_start = 0x1000;
    heap_end = 0x1040;
    heap_map_start = 0x1040;
    heap_map_end = 0x1041;
  };
}

found_second : resource_get_from_rid 6 false sample ≡ ok 0x2100
unfolding resource_get_from_rid resource_recursive_search siblings_loop
found_second = refl

abbrev stranger : Resources
stranger = record sample {
  sched = record (sample.sched) { current_pid = record { valid = true; num = 3 } };
}

not_owner-unchanged_example :
    (((resource_blit_k 0x2000 0x3000 8 8 0 stranger).0 ≢ result_ok)
      × ((resource_blit_k 0x2000 0x3000 8 8 0 stranger).1 ≡ stranger))
    × (((resource_r_blit_k 0x2000 0x3000 8 8 0 stranger).0 ≢ result_ok)
        × ((resource_r_blit_k 0x2000 0x3000 8 8 0 stranger).1 ≡ stranger))
    × (((resource_unlink_k 0x2000 stranger).0 ≢ result_ok)
        × ((resource_unlink_k 0x2000 stranger).1 ≡ stranger))
    × (((resource_release_k 0x2000 stranger).0 ≢ result_ok)
        × ((resource_release_k 0x2000 stranger).1 ≡ stranger))
    × (((resource_handover_k 0x2000 two stranger).0 ≢ result_ok)
        × ((resource_handover_k 0x2000 two stranger).1 ≡ stranger))
not_owner-unchanged_example = not_owner-unchanged 0x2000 0x3000 8 8 0 two stranger (omega arith)

sample-MayBlit : MayBlit 0x2000 0x3000 8 4 sample
sample-MayBlit = record {
  present = (omega arith, omega arith, omega arith);
  owned = refl;
  placed = omega arith;
  long_enough = omega arith;
}

sample-MayBlit_one : MayBlit 0x2000 0x3000 8 1 sample
sample-MayBlit_one = record {
  present = (omega arith, omega arith, omega arith);
  owned = refl;
  placed = omega arith;
  long_enough = omega arith;
}

blit_past_end_example :
    ((resource_blit_k 0x2000 0x3000 8 1 100 sample).0 ≡ result_ok)
    × ((resource_blit_k 0x2000 0x3000 8 1 100 sample).1.heap.bytes 0x1074 ≡ 0)
blit_past_end_example =
    blit_past_end 0x2000 0x3000 8 100 sample sample-MayBlit_one (omega arith) (omega arith)

second_unlinks : (resource_unlink_k 0x2100 sample).0 ≡ result_ok
unfolding resource_unlink_k
second_unlinks = refl

first-Waits : Waits 0x2000 sample
first-Waits = record {
  present = (omega arith, omega arith, omega arith);
  previous = refl;
  parent = refl;
  childless = refl;
  owned = refl;
}

unlink_after_unlink_example :
    resource_unlink_k 0x2000 (resource_unlink_k 0x2100 sample).1
    ≡ (corrupted, (resource_unlink_k 0x2100 sample).1)
unlink_after_unlink_example =
    unlink_after_unlink 0x2000 0x2100 sample second_unlinks (omega arith) (omega arith) first-Waits

-- the heap when its four blocks hold the body of a resource
abbrev full : Heap
full = record (sample.heap) {
  map = mark_run 4 0 0 sample.heap.map;
  bytes = store32 sample.heap.bytes 0x1000 44;
}

abbrev with_third : Resources
with_third = insert 0x1010 0x500 1 no_region two (record sample { heap = full })

third_is_created : resource_create_k null 1 0 two sample ≡ ok (0x1010, result_ok, with_third)
unfolding resource_create_k assertion_fails resource_is_valid_type sched_validate_pid allocate
    kmalloc m_map find_run run_is_free bit is_set
third_is_created = refl

create-get_example : resource_get_from_rid 7 false with_third ≡ ok 0x1010
create-get_example =
    create-get 1 0 0x1010 two sample with_third (omega arith) (omega arith) refl third_is_created
      (omega arith)
