-- ===== src/Resource.antt =====
-- The resource manager of src/resource/main.c: a tree of resources, each a region of the heap with an
-- owner. A `KRNLRES *` is an address and `node` is the memory that the resources stand in, apart from
-- the bytes of the regions; `pool` is the address of `grResources`, the root.
-- The lists of siblings are followed for at most 2 ^ 32 links, one for each address: a longer list has
-- come back to a resource, and the search of it, which changes nothing, hangs.
pub mod Tree
pub mod Lifecycle
pub mod Access
pub mod Links
pub mod Create
pub mod Scheduler
mod Tests
unfoldable pub use Tree.*
use dek_os.Base.{
  ℕ, zero, suc, ◌+◌, ◌-◌, ◌%◌, ◌^◌, Bool, true, false, not, ◌&&◌, ◌||◌, ltb, leb, ◌==◌,
  if◌then◌else◌, Option, none, some, Run, ok, hung, ◌>>=◌, null,
}
use dek_os.Memory.Block.{int_count, memcpy}
use dek_os.Memory.Heap.{Heap}
use dek_os.Sched.{Pid, sched_get_kernel_pid, sched_validate_pid}

-- The loop over the siblings from `rp` on, which searches below a sibling by `child`. The result is what
-- the loop stores in `*found`, and the resource.
unfoldable pub siblings_loop :
    ℕ → (ℕ → Run (Bool × ℕ)) → ℕ → ℕ → ℕ → Bool → Resources → Run (Bool × ℕ)
siblings_loop zero child base rp target override s = hung
siblings_loop (suc n) child base rp target override s =
    let rest = siblings_loop n child base (s.node rp).next_sibling target override s in
    if (rp == null) || (rp == base)
    then ok (false, null)
    else if (s.node rp).rid == target
    then ok (true, if ((s.node rp).owner.num == self s) || override then rp else null)
    else (child rp >>= λ (found, rp2). if not (rp2 == null) || found then ok (false, rp2) else rest)

-- `levels` counts down to 0, where `depth` is past its maximum.
unfoldable pub resource_recursive_search : ℕ → ℕ → ℕ → Bool → Resources → Run (Bool × ℕ)
resource_recursive_search zero base target override s = ok (false, null)
resource_recursive_search (suc levels) base target override s =
    let below : ℕ → Run (Bool × ℕ) = λ rp. resource_recursive_search levels rp target override s in
    if base == null
    then ok (false, null)
    else siblings_loop (2 ^ 32) below base (s.node base).first_child target override s

unfoldable pub resource_get_from_rid : ℕ → Bool → Resources → Run ℕ
resource_get_from_rid rid override s = if rid == invalid_rid then ok null else do
  (found, rp) ← resource_recursive_search (max_resource_depth + 1) s.pool rid override s
  let denied = not ((s.node rp).owner.num == self s) && not override
  if (rp == null) || denied then ok null else ok rp

-- The checks of both blit functions; sizes are 64 bits wide, and the region's is extended.
unfoldable pub check_blit : ℕ → ℕ → ℕ → ℕ → ℕ → Resources → Result
check_blit rp buffer buffer_size copy offset s =
    let r = s.node rp in
    if (rp == null) || (buffer == null) || (buffer_size == 0)
    then invalid_arguments
    else if not (r.owner.num == self s)
    then permissions_error
    else if ltb s.heap.heap_end r.region.ptr && r.on_heap
    then corrupted
    else if ltb buffer_size copy || ltb ((r.region.size + 2 ^ 64 - offset) % 2 ^ 64) copy
    then bounding_overflow
    else result_ok

-- what a check that passed leads to
abbrev pub checked : Result → Resources → Resources → Result × Resources
checked result_ok done s = (result_ok, done)
checked failed done s = (failed, s)

unfoldable pub resource_blit_k : ℕ → ℕ → ℕ → ℕ → ℕ → Resources → Result × Resources
unfolding check_blit
resource_blit_k rp buffer buffer_size copy offset s =
    let dest = ((s.node rp).region.ptr + offset) % 2 ^ 32 in
    let h : Heap = record (s.heap) {
      bytes = memcpy s.heap.bytes dest buffer (int_count (copy % 2 ^ 32));
    } in
    checked (check_blit rp buffer buffer_size copy offset s) (record s { heap = h }) s

unfoldable pub resource_r_blit_k : ℕ → ℕ → ℕ → ℕ → ℕ → Resources → Result × Resources
unfolding check_blit
resource_r_blit_k rp buffer buffer_size copy offset s =
    let src = ((s.node rp).region.ptr + offset) % 2 ^ 32 in
    let h : Heap = record (s.heap) {
      bytes = memcpy s.heap.bytes buffer src (int_count (copy % 2 ^ 32));
    } in
    checked (check_blit rp buffer buffer_size copy offset s) (record s { heap = h }) s

-- `rp->NextSibling->PreviousSibling = rp->PreviousSibling`, where there is a next one
unfoldable pub join_next : ℕ → Resources → Resources
join_next rp s =
    let next = (s.node rp).next_sibling in
    if next == null
    then s
    else put next (record (s.node next) { previous_sibling = (s.node rp).previous_sibling }) s

-- `rp->PreviousSibling->NextSibling = rp->NextSibling`, where there is a previous one
unfoldable pub join_previous : ℕ → Resources → Resources
join_previous rp s =
    let previous = (s.node rp).previous_sibling in
    if previous == null
    then s
    else put previous (record (s.node previous) { next_sibling = (s.node rp).next_sibling }) s

-- The parent gets a new first child, if that was `rp`.
unfoldable pub leave_parent : ℕ → Resources → Resources
leave_parent rp s =
    let parent = (s.node rp).parent in
    if not (parent == null) && ((s.node parent).first_child == rp)
    then put parent (record (s.node parent) { first_child = (s.node rp).next_sibling }) s
    else s

-- `rp` becomes the first of the pool.
unfoldable pub enter_pool : ℕ → Resources → Resources
enter_pool rp s =
    let moved =
      put rp
        (record (s.node rp) {
          next_sibling = (s.node s.pool).first_child;
          previous_sibling = null;
          parent = s.pool;
        })
        s in
    put s.pool (record (moved.node s.pool) { first_child = rp }) moved

unfoldable pub relink : ℕ → Resources → Resources
relink rp s = enter_pool rp (leave_parent rp (join_previous rp (join_next rp s)))

unfoldable pub resource_unlink_k : ℕ → Resources → Result × Resources
resource_unlink_k rp s =
    let r = s.node rp in
    if rp == null
    then (invalid_arguments, s)
    else if not (r.owner.num == self s)
    then (permissions_error, s)
    else if not (r.first_child == null)
    then (has_children, s)
    else if (r.parent == null) && (r.next_sibling == null) && (r.previous_sibling == null)
    then (already_unlinked, s)
    else if not (r.parent == null)
        && not ((s.node r.parent).first_child == rp)
        && (r.previous_sibling == null)
    then (corrupted, s)
    else (result_ok, relink rp s)

-- what `ResourceReleaseK` does when the resource has been unlinked
abbrev pub released : ℕ → Result × Resources → Result × Resources
released rp (result_ok, s) =
    (result_ok, put rp (record (s.node rp) { owner = sched_get_kernel_pid; used = false }) s)
released rp (failed, s) = (failed, s)

unfoldable pub resource_release_k : ℕ → Resources → Result × Resources
resource_release_k rp s =
    let r = s.node rp in
    if rp == null
    then (invalid_arguments, s)
    else if not (r.owner.num == self s)
    then (permissions_error, s)
    else if not (r.first_child == null)
    then (has_children, s)
    else if ltb s.heap.heap_end r.region.ptr
    then (corrupted, s)
    else released rp (resource_unlink_k rp s)

unfoldable pub resource_handover_k : ℕ → Pid → Resources → Result × Resources
resource_handover_k rp dest s =
    let r = s.node rp in
    if dest.num == self s
    then (no_operation, s)
    else if not (sched_validate_pid dest s.sched)
    then (argument_does_not_exist, s)
    else if rp == null
    then (invalid_arguments, s)
    else if not (r.owner.num == self s)
    then (permissions_error, s)
    else if not (r.first_child == null)
    then (has_children, s)
    else if ltb s.heap.heap_end r.region.ptr && r.on_heap
    then (corrupted, s)
    else (result_ok, put rp (record r { owner = dest; used = true }) s)

unfoldable pub resource_handover : ℕ → Pid → Resources → Run (Result × Resources)
resource_handover rid dest s = do
  rp ← resource_get_from_rid rid false s
  ok (resource_handover_k rp dest s)

unfoldable pub resource_release : ℕ → Resources → Run (Result × Resources)
resource_release rid s = do rp ← resource_get_from_rid rid false s; ok (resource_release_k rp s)

unfoldable pub resource_data : ℕ → Resources → Run ℕ
resource_data rid s = do
  rp ← resource_get_from_rid rid false s
  if rp == null then ok null else ok (s.node rp).region.ptr

-- There is no check for NULL: what stands at address 0 is read then.
unfoldable pub resource_size_of : ℕ → Resources → Run ℕ
resource_size_of rid s = do rp ← resource_get_from_rid rid false s; ok (s.node rp).region.size

-- The loop along the siblings, whose result is stored in `*P` too.
unfoldable pub next_of_type_loop : ℕ → ℕ → ℕ → Resources → Run ℕ
next_of_type_loop zero p kind s = hung
next_of_type_loop (suc n) p kind s =
    let next = (s.node p).next_sibling in
    let rest = next_of_type_loop n next kind s in
    if (next == null) || ((s.node next).kind == kind) then ok next else rest

-- `p` is `*P`, and `none` is a `P` that is NULL.
unfoldable pub resource_next_of_type : Option ℕ → ℕ → Resources → Run ℕ
resource_next_of_type none kind s = ok null
resource_next_of_type (some p) kind s =
    if (p == null) || leb type_count kind then ok null else next_of_type_loop (2 ^ 32) p kind s
