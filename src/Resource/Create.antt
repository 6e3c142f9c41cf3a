-- ===== src/Resource/Create.antt =====
-- Creating a resource, src/resource/main.c.
use dek_os.Base.{
  ℕ, zero, suc, ◌%◌, ◌^◌, ◌<◌, ◌≡◌, ◌≢◌, refl, sym, ◌∙◌, ap, inl, inr, arith, Bool, true, false,
  not, ◌&&◌, ◌||◌, ◌==◌, if◌then◌else◌, Bool-cases, Run, ok, ◌>>=◌, ok-injective, >>=-eq-ok, null,
  panicked≢ok,
}
use dek_os.Memory.Heap.{Heap, Region, m_map, kmalloc, u_map}
use dek_os.Sched.{Pid}
use dek_os.Resource.{
  Result, Resources, result_ok, failed_to_map, failed_to_allocate, invalid_rid, resource_size, self,
  siblings_loop, resource_recursive_search, resource_get_from_rid,
}
use dek_os.Resource.Lifecycle.{assertion_fails, allocate, insert, resource_create_k}

-- Resource `p`, which has identifier `rid`, belongs to the process that runs and is the first of the pool.
record IsFirst (rid p : ℕ) (t : Resources) : Type 0 where
  pub present : (p ≢ null) × (t.pool ≢ null) × (p ≢ t.pool)
  pub first : (t.node t.pool).first_child ≡ p
  pub same : (t.node p).rid ≡ rid
  pub owned : (t.node p).owner.num ≡ self t

siblings_loop-IsFirst :
    (n : ℕ) (child : ℕ → Run (Bool × ℕ)) (rid p : ℕ) (t : Resources)
    → 0 < n
    → IsFirst rid p t
    → siblings_loop n child t.pool p rid false t ≡ ok (true, p)
unfolding siblings_loop
siblings_loop-IsFirst zero child rid p t pos v = absurd (omega arith)
siblings_loop-IsFirst (suc n) child rid p t pos v =
    let going : ((p == null) || (p == t.pool)) ≡ false = ground (arith, v.present) in
    let hit : ((t.node p).rid == rid) ≡ true = ground (arith, v.same) in
    let mine : ((t.node p).owner.num == self t) ≡ true = ground (arith, v.owned) in
    rw (going, hit, mine) refl

search-IsFirst :
    (levels rid p : ℕ) (t : Resources)
    → IsFirst rid p t
    → resource_recursive_search (suc levels) t.pool rid false t ≡ ok (true, p)
unfolding resource_recursive_search
search-IsFirst levels rid p t v =
    let pooled : (t.pool == null) ≡ false = ground (arith, v.present) in
    rw (pooled, v.first)
      (siblings_loop-IsFirst (2 ^ 32) (λ rp. resource_recursive_search levels rp rid false t) rid p
        t (omega arith) v)

get-IsFirst :
    (rid p : ℕ) (t : Resources)
    → rid ≢ invalid_rid
    → IsFirst rid p t
    → resource_get_from_rid rid false t ≡ ok p
unfolding resource_get_from_rid
get-IsFirst rid p t valid v =
    let asked : (rid == invalid_rid) ≡ false = ground arith in
    let here : (p == null) ≡ false = ground (arith, v.present) in
    let mine : ((t.node p).owner.num == self t) ≡ true = ground (arith, v.owned) in
    rw (asked, search-IsFirst 32 rid p t v, here, mine) refl

module _ (p kind : ℕ) (region : Region) (owner : Pid) (s : Resources) (other : p ≢ s.pool) where
  first-insert : ((insert p s.pool kind region owner s).node s.pool).first_child ≡ p
  unfolding insert
  first-insert = ground arith

  rid-insert : ((insert p s.pool kind region owner s).node p).rid ≡ s.counter
  unfolding insert
  rid-insert = ground arith

  owner-insert : ((insert p s.pool kind region owner s).node p).owner ≡ owner
  unfolding insert
  owner-insert = ground arith

  pool-insert : (insert p s.pool kind region owner s).pool ≡ s.pool
  unfolding insert
  pool-insert = ground arith

  self-insert : self (insert p s.pool kind region owner s) ≡ self s
  unfolding insert
  self-insert = ground arith

allocate_keeps :
    (bytes : ℕ) (s s' : Resources) (region : Region)
    → allocate bytes s ≡ ok (region, s')
    → (h : Heap) × (s' ≡ record s { heap = h })
unfolding allocate
allocate_keeps bytes s s' region e = elim (Bool-cases (bytes == 0)) [
  | inl none_asked ↦
      (s.heap, sym (ap (λ (o : Region × Resources). o.1) (ok-injective (rw none_asked at e))))
  | inr some_asked ↦
      let (r, _, e') = >>=-eq-ok (m_map (bytes % 2 ^ 32) s.heap) _ (rw some_asked at e) in
      (r.1, sym (ap (λ (o : Region × Resources). o.1) (ok-injective e')))
]

-- what `ResourceCreateK` does once it has the region and the body
abbrev finish : ℕ → Region → Pid → Resources → ℕ × Heap → Run (ℕ × Result × Resources)
finish kind region owner s (p, h) =
    let held : Resources = record s { heap = h } in
    let dropped : Resources = record s { heap = u_map region h } in
    if p == null
    then ok (null, failed_to_allocate, dropped)
    else ok (p, result_ok, insert p held.pool kind region owner held)

IsFirst-insert :
    (p kind : ℕ) (region : Region) (owner : Pid) (s : Resources)
    → p ≢ null
    → s.pool ≢ null
    → p ≢ s.pool
    → owner.num ≡ self s
    → IsFirst s.counter p (insert p s.pool kind region owner s)
IsFirst-insert p kind region owner s here pooled other mine = record {
  present = (
    here,
    rw (pool-insert p kind region owner s other) pooled,
    rw (pool-insert p kind region owner s other) other,
  );
  first = rw (pool-insert p kind region owner s other) (first-insert p kind region owner s other);
  same = rid-insert p kind region owner s other;
  owned =
      ap (λ (o : Pid). o.num) (owner-insert p kind region owner s other)
      ∙ mine
      ∙ sym (self-insert p kind region owner s other);
}

module _ (kind : ℕ) (owner : Pid) (s : Resources) (pooled : s.pool ≢ null)
    (mine : owner.num ≡ self s) where
  finished :
      (region : Region) (a : ℕ × Heap) (p : ℕ) (t : Resources)
      → finish kind region owner s a ≡ ok (p, result_ok, t)
      → (p ≢ s.pool → IsFirst s.counter p t)
  finished region (q, h) p t e other = elim (Bool-cases (q == null)) [
    | inl failed ↦
        absurd (clash (ap (λ (o : ℕ × Result × Resources). o.1) (ok-injective (rw failed at e))))
    | inr here ↦
        let out = ok-injective (rw here at e) in
        let same : q ≡ p = ap (λ (o : ℕ × Result × Resources). o.0) out in
        let left : insert q s.pool kind region owner (record s { heap = h }) ≡ t =
          ap (λ (o : ℕ × Result × Resources). o.2) out in
        rw (← left, ← same)
          (IsFirst-insert q kind region owner (record s { heap = h }) (ground arith) pooled
            (rw (← same) at other) mine)
  ]
    where
      clash : ¬ (failed_to_allocate ≡ result_ok)
      clash h = cc

-- When `ResourceCreateK` succeeds without a parent, at a place that is not the root's and for the process
-- that runs, `ResourceGetFromRID` of the identifier that it gave returns the new resource, unless
-- the counter has reached INVALID_RID.
pub create-get :
    (kind bytes p : ℕ) (owner : Pid) (s t : Resources)
    → s.pool ≢ null
    → s.counter ≢ invalid_rid
    → owner.num ≡ self s
    → resource_create_k null kind bytes owner s ≡ ok (p, result_ok, t)
    → p ≢ s.pool
    → resource_get_from_rid s.counter false t ≡ ok p
unfolding resource_create_k
create-get kind bytes p owner s t pooled valid mine e other =
    elim (Bool-cases (assertion_fails owner kind s)) [
      | inl failed ↦ absurd (panicked≢ok (rw failed at e))
      | inr passed ↦
          let ((region, s1), got, e') = >>=-eq-ok (allocate bytes s) _ (rw passed at e) in
          get-IsFirst s.counter p t valid (mapped region s1 got e')
    ]
  where
    clash : ¬ (failed_to_map ≡ result_ok)
    clash h = cc

    mapped :
        (region : Region) (s1 : Resources)
        → allocate bytes s ≡ ok (region, s1)
        → (if not (bytes == 0) && ((region.ptr == null) || (region.size == 0))
            then ok (null, failed_to_map, s1)
            else (kmalloc resource_size s1.heap >>= finish kind region owner s1))
          ≡ ok (p, result_ok, t)
        → IsFirst s.counter p t
    mapped region s1 got e =
        elim (Bool-cases (not (bytes == 0) && ((region.ptr == null) || (region.size == 0)))) [
          | inl empty ↦
              absurd
                (clash (ap (λ (o : ℕ × Result × Resources). o.1) (ok-injective (rw empty at e))))
          | inr full ↦
              let (h, same) = allocate_keeps bytes s s1 region got in
              let (a, _, e') =
                >>=-eq-ok (kmalloc resource_size s1.heap) (finish kind region owner s1)
                  (rw full at e) in
              finished kind owner (record s { heap = h }) pooled mine region a p t (rw same at e')
                other
        ]
