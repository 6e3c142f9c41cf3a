-- ===== src/Resource/Tree.antt =====
-- Resources and the tree of them, src/resource/main.h, and `RESULT` of src/utils.h.
use dek_os.Base.{ℕ, ◌-◌, ◌^◌, Bool, false, ◌==◌, if◌then◌else◌, null}
use dek_os.Memory.Heap.{Heap, Region, no_region}
use dek_os.Sched.{Sched, Pid, no_pid}

-- `RESULT`
pub data Result : Type 0 where
  result_ok failed_to_allocate failed_to_map failed_to_unallocate failed_to_umap : Result
  invalid_arguments permissions_error has_children already_unlinked corrupted : Result
  corrupted_scheduler ok_with_errors todo argument_does_not_exist no_operation : Result
  bounding_offset_error bounding_overflow bounding_underflow unknown_error : Result

-- `KRNLRES`
pub record Resource : Type 0 where
  pub region : Region
  pub parent : ℕ
  pub next_sibling : ℕ
  pub previous_sibling : ℕ
  pub first_child : ℕ
  pub kind : ℕ
  pub owner : Pid
  pub used : Bool
  pub on_heap : Bool
  pub protected : Bool
  pub rid : ℕ

pub record Resources : Type 0 where
  pub node : ℕ → Resource
  pub pool : ℕ
  pub counter : ℕ
  pub sched : Sched
  pub heap : Heap

abbrev pub max_resource_depth : ℕ
max_resource_depth = 32

-- `RESOURCE_TYPE_COUNT`
abbrev pub type_count : ℕ
type_count = 7

abbrev pub invalid_rid : ℕ
invalid_rid = 2 ^ 64 - 1

-- `sizeof(KRNLRES)`
abbrev pub resource_size : ℕ
resource_size = 44

-- the number of the process that runs
abbrev pub self : Resources → ℕ
self s = s.sched.current_pid.num

-- `*p = r`
abbrev pub put : ℕ → Resource → Resources → Resources
put p r s = record s { node = λ q. if q == p then r else s.node q }

abbrev pub zero_resource : Resource
zero_resource = record {
  region = no_region;
  parent = null;
  next_sibling = null;
  previous_sibling = null;
  first_child = null;
  kind = 0;
  owner = no_pid;
  used = false;
  on_heap = false;
  protected = false;
  rid = 0;
}
