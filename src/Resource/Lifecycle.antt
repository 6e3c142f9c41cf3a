-- ===== src/Resource/Lifecycle.antt =====
-- Creating resources and cleaning up the dead ones, src/resource/main.c.
use dek_os.Base.{
  ℕ, zero, suc, ◌+◌, ◌%◌, ◌^◌, Bool, true, false, not, ◌&&◌, ◌||◌, ltb, ◌==◌, if◌then◌else◌, Run,
  ok, panicked, hung, ◌>>=◌, null,
}
use dek_os.Memory.Block.{memset}
use dek_os.Memory.Heap.{Heap, Region, no_region, m_map, u_map, kmalloc, kfree}
use dek_os.Sched.{Pid, sched_validate_pid}
use dek_os.Resource.{
  Resource, Resources, Result, invalid_rid, join_next, join_previous, put, resource_get_from_rid,
  resource_size, self, type_count, zero_resource, result_ok, failed_to_allocate, failed_to_map,
  ok_with_errors, permissions_error, corrupted_scheduler,
}

-- `rp` taken out of its list; the parent keeps what it has as its first child
unfoldable pub cut_out : ℕ → Resources → Resources
cut_out rp s =
    let joined = join_previous rp (join_next rp s) in
    put rp (record (joined.node rp) { next_sibling = null; previous_sibling = null }) joined

-- The region of a dead resource is cleared and given back, or counted as invalid.
unfoldable pub drop_region : Resource → ℕ → Resources → ℕ × Resources
drop_region r invalid s =
    let h : Heap = record (s.heap) { bytes = memset s.heap.bytes r.region.ptr 0 r.region.size } in
    if ltb 0 r.region.size && not (r.region.ptr == null) && r.on_heap
    then (invalid, record s { heap = u_map r.region h })
    else ((invalid + 1) % 2 ^ 32, s)

-- The loop over the pool. Each time round a circular list it deletes a resource or has come to its end
-- of change, so that 2 ^ 64 rounds are enough for every list that it gets through.
unfoldable pub cleanup_loop : ℕ → ℕ → ℕ → Resources → Run (ℕ × Resources)
cleanup_loop zero rp invalid s = hung
cleanup_loop (suc n) rp invalid s =
    let next = (s.node rp).next_sibling in
    let kept = cleanup_loop n next invalid s in
    let (invalid', s') = drop_region (s.node rp) invalid (cut_out rp s) in
    let dead = put rp zero_resource s' in
    if rp == null
    then ok (invalid, s)
    else if (s.node rp).used && sched_validate_pid (s.node rp).owner s.sched
    then kept
    else (kfree rp dead.heap >>= λ h. cleanup_loop n next invalid' (record dead { heap = h }))

-- The result, `*invalidCount` and the state.
unfoldable pub resource_cleanup_k : Resources → Run (Result × ℕ × Resources)
resource_cleanup_k s =
    if not (self s == 0)
    then ok (permissions_error, 0, s)
    else if not s.sched.current_pid.valid
    then ok (corrupted_scheduler, 0, s)
    else do
      (invalid', s') ← cleanup_loop (2 ^ 64) (s.node s.pool).first_child 0 s
      ok (if ltb 0 invalid' then ok_with_errors else result_ok, invalid', s')

unfoldable pub resource_is_valid_type : ℕ → Bool
resource_is_valid_type kind = ltb 0 kind && ltb kind type_count

-- `assert(valid && type_ok)` expands to `if (!valid && type_ok) panic(…)`.
unfoldable pub assertion_fails : Pid → ℕ → Resources → Bool
unfolding resource_is_valid_type
assertion_fails owner kind s = not (sched_validate_pid owner s.sched) && resource_is_valid_type kind

-- the region of a new resource; `m_map` takes 32 bits of the size
unfoldable pub allocate : ℕ → Resources → Run (Region × Resources)
allocate bytes s =
    if bytes == 0
    then ok (no_region, s)
    else do (region, h) ← m_map (bytes % 2 ^ 32) s.heap; ok (region, record s { heap = h })

-- the new resource `p` as the first child of `parent`; what `malloc` left in `protected` stays
unfoldable pub insert : ℕ → ℕ → ℕ → Region → Pid → Resources → Resources
insert p parent kind region owner s =
    let sibling = (s.node parent).first_child in
    let s1 =
      put p
        (record (s.node p) {
          owner = owner;
          region = region;
          kind = kind;
          next_sibling = sibling;
          previous_sibling = null;
          first_child = null;
          parent = parent;
          on_heap = true;
          rid = s.counter;
          used = true;
        })
        s in
    let s2 : Resources = put parent (record (s1.node parent) { first_child = p }) s1 in
    let s3 : Resources =
      if sibling == null
      then s2
      else put sibling (record (s2.node sibling) { previous_sibling = p }) s2 in
    record s3 { counter = (s.counter + 1) % 2 ^ 64 }

unfoldable pub resource_create_k : ℕ → ℕ → ℕ → Pid → Resources → Run (ℕ × Result × Resources)
unfolding assertion_fails
resource_create_k parent kind bytes owner s = if assertion_fails owner kind s then panicked else do
  (region, s1) ← allocate bytes s
  if not (bytes == 0) && ((region.ptr == null) || (region.size == 0))
      then ok (null, failed_to_map, s1)
      else do
        (p, h) ← kmalloc resource_size s1.heap
        let s2 : Resources = record s1 { heap = h }
        let s3 : Resources = record s1 { heap = u_map region h }
        if p == null
            then ok (null, failed_to_allocate, s3)
            else ok (
              p,
              result_ok,
              insert p (if parent == null then s2.pool else parent) kind region owner s2,
            )

-- The result is the identifier; the caller gives a place for the `RESULT`.
unfoldable pub resource_create : ℕ → ℕ → ℕ → Pid → Resources → Run (ℕ × Result × Resources)
resource_create parent kind bytes owner s = do
  rp ← resource_get_from_rid parent false s
  (p, result, s') ← resource_create_k rp kind bytes owner s
  if p == null then ok (invalid_rid, result, s') else ok ((s'.node p).rid, result, s')
