-- ===== src/Resource/Scheduler.antt =====
-- The calls of src/resource/main.c that a process makes leave the scheduler alone.
use dek_os.Base.{
  ℕ, ◌%◌, ◌^◌, ◌≡◌, refl, ◌∙◌, not, ◌&&◌, ◌||◌, ◌==◌, arith, if◌then◌else◌, Ensures, Ensures-ok,
  Ensures-if, Ensures-panicked, Ensures-then, Ensures->>=, null,
}
use dek_os.Memory.Heap.{Region, m_map, kmalloc}
use dek_os.Sched.{Pid}
use dek_os.Resource.{
  Result, Resources, result_ok, checked, released, check_blit, resource_blit_k, resource_r_blit_k,
  join_next, join_previous, leave_parent, enter_pool, relink, resource_unlink_k, resource_release_k,
  resource_handover_k, resource_size,
}
use dek_os.Resource.Lifecycle.{assertion_fails, allocate, insert, resource_create_k}

checked-sched :
    (r : Result) (done s : Resources) → done.sched ≡ s.sched → (checked r done s).1.sched ≡ s.sched
checked-sched result_ok done s e = e
checked-sched _ done s e = refl

pub blit-sched :
    (rp buffer size copy offset : ℕ) (s : Resources)
    → (resource_blit_k rp buffer size copy offset s).1.sched ≡ s.sched
unfolding resource_blit_k
blit-sched rp buffer size copy offset s =
    checked-sched (check_blit rp buffer size copy offset s) _ s refl

pub r_blit-sched :
    (rp buffer size copy offset : ℕ) (s : Resources)
    → (resource_r_blit_k rp buffer size copy offset s).1.sched ≡ s.sched
unfolding resource_r_blit_k
r_blit-sched rp buffer size copy offset s =
    checked-sched (check_blit rp buffer size copy offset s) _ s refl

join_next-sched : (rp : ℕ) (s : Resources) → (join_next rp s).sched ≡ s.sched
unfolding join_next
join_next-sched rp s = ground arith

join_previous-sched : (rp : ℕ) (s : Resources) → (join_previous rp s).sched ≡ s.sched
unfolding join_previous
join_previous-sched rp s = ground arith

leave_parent-sched : (rp : ℕ) (s : Resources) → (leave_parent rp s).sched ≡ s.sched
unfolding leave_parent
leave_parent-sched rp s = ground arith

relink-sched : (rp : ℕ) (s : Resources) → (relink rp s).sched ≡ s.sched
unfolding relink enter_pool
relink-sched rp s =
    leave_parent-sched rp (join_previous rp (join_next rp s))
    ∙ join_previous-sched rp (join_next rp s)
    ∙ join_next-sched rp s

unlink-sched : (rp : ℕ) (s : Resources) → (resource_unlink_k rp s).1.sched ≡ s.sched
unfolding resource_unlink_k
unlink-sched rp s = ground (arith, relink-sched rp s)

released-sched : (rp : ℕ) (out : Result × Resources) → (released rp out).1.sched ≡ out.1.sched
released-sched rp (result_ok, s) = refl
released-sched rp (_, s) = refl

pub release-sched : (rp : ℕ) (s : Resources) → (resource_release_k rp s).1.sched ≡ s.sched
unfolding resource_release_k
release-sched rp s = ground (arith, released-sched rp (resource_unlink_k rp s), unlink-sched rp s)

pub handover-sched :
    (rp : ℕ) (dest : Pid) (s : Resources) → (resource_handover_k rp dest s).1.sched ≡ s.sched
unfolding resource_handover_k
handover-sched rp dest s = ground arith

allocate-sched :
    (bytes : ℕ) (s : Resources)
    → Ensures (λ (out : Region × Resources). out.1.sched ≡ s.sched) (allocate bytes s)
unfolding allocate
allocate-sched bytes s =
    Ensures-if (bytes == 0) (Ensures-ok refl)
      (Ensures-then (m_map (bytes % 2 ^ 32) s.heap) (λ a. Ensures-ok refl))

insert-sched :
    (p parent kind : ℕ) (region : Region) (owner : Pid) (s : Resources)
    → (insert p parent kind region owner s).sched ≡ s.sched
unfolding insert
insert-sched p parent kind region owner s = ground arith

pub create-sched :
    (parent kind bytes : ℕ) (owner : Pid) (s : Resources)
    → Ensures
        (λ (out : ℕ × Result × Resources). out.2.sched ≡ s.sched)
        (resource_create_k parent kind bytes owner s)
unfolding resource_create_k
create-sched parent kind bytes owner s =
    Ensures-if (assertion_fails owner kind s) Ensures-panicked (
      Ensures->>= (allocate bytes s) (allocate-sched bytes s) (λ (region, s₁) e.
        Ensures-if (not (bytes == 0) && ((region.ptr == null) || (region.size == 0))) (Ensures-ok e)
          (Ensures-then (kmalloc resource_size s₁.heap) (λ (p, h).
            Ensures-if (p == null) (Ensures-ok e) (
              Ensures-ok (
                insert-sched p (if parent == null then s₁.pool else parent) kind region owner
                  (record s₁ { heap = h })
                ∙ e))))))
