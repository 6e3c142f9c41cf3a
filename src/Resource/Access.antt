-- ===== src/Resource/Access.antt =====
-- Who may use a resource, and what of it, src/resource/main.c.
use dek_os.Base.{
  ℕ, zero, suc, ◌+◌, ◌-◌, ◌%◌, ◌^◌, ◌≤◌, ◌<◌, ◌≡◌, ◌≢◌, refl, sym, ap, inl, inr, arith, Bool, true,
  false, not, ◌&&◌, ◌||◌, ltb, ◌==◌, if◌then◌else◌, Bool-cases, Run, ok, ok-injective, >>=-eq-ok,
  null,
}
use dek_os.Memory.Block.{int_count, in_block, memcpy, memcpy_outside, memcpy_lem}
use dek_os.Sched.{Pid}
use dek_os.Resource.{
  Result, Resources, result_ok, self, siblings_loop, resource_recursive_search,
  resource_get_from_rid, check_blit, checked, resource_blit_k, resource_r_blit_k, resource_unlink_k,
  resource_release_k, resource_handover_k, invalid_rid, max_resource_depth,
}

-- What a search returns is no resource, or one with the identifier sought.
abbrev IsHit : Resources → ℕ → Run (Bool × ℕ) → Type 0
IsHit s target r = (out : Bool × ℕ) → r ≡ ok out → out.1 ≢ null → (s.node out.1).rid ≡ target

module _ (s : Resources) (target : ℕ) (override : Bool) where
  IsHit-none : IsHit s target (ok (false, null))
  IsHit-none out e present = absurd (present (sym (ap (λ (o : Bool × ℕ). o.1) (ok-injective e))))

  siblings_loop-IsHit :
      (n : ℕ) (child : ℕ → Run (Bool × ℕ)) (base rp : ℕ)
      → ((q : ℕ) → IsHit s target (child q))
      → IsHit s target (siblings_loop n child base rp target override s)
  unfolding siblings_loop
  siblings_loop-IsHit zero child base rp sound = λ out e present. cc
  siblings_loop-IsHit (suc n) child base rp sound =
      elim (Bool-cases ((rp == null) || (rp == base))) [
        | inl done ↦ rw done IsHit-none
        | inr more ↦ rw more (elim (Bool-cases ((s.node rp).rid == target)) [
          | inl same ↦ rw same (λ out e present.
              owned out same (ap (λ (o : Bool × ℕ). o.1) (ok-injective e)) present)
          | inr other ↦ rw other (λ out e present.
              let (r, found, e') = >>=-eq-ok (child rp) _ e in
              below out r (siblings_loop-IsHit n child base (s.node rp).next_sibling sound) found e'
                present)
        ])
      ]
    where
      owned :
          (out : Bool × ℕ)
          → ((s.node rp).rid == target) ≡ true
          → (if ((s.node rp).owner.num == self s) || override then rp else null) ≡ out.1
          → out.1 ≢ null
          → (s.node out.1).rid ≡ target
      owned out same e present = ground arith

      below :
          (out r : Bool × ℕ)
          → IsHit s target (siblings_loop n child base (s.node rp).next_sibling target override s)
          → child rp ≡ ok r
          → (if not (r.1 == null) || r.0
              then ok (false, r.1)
              else siblings_loop n child base (s.node rp).next_sibling target override s)
            ≡ ok out
          → out.1 ≢ null
          → (s.node out.1).rid ≡ target
      below out r later found e present = elim (Bool-cases (not (r.1 == null) || r.0)) [
        | inl ended ↦
            let same : r.1 ≡ out.1 = ap (λ (o : Bool × ℕ). o.1) (ok-injective (rw ended at e)) in
            rw same at (sound rp r found (rw (← same) at present))
        | inr on ↦ later out (rw on at e) present
      ]

  search-IsHit :
      (levels base : ℕ) → IsHit s target (resource_recursive_search levels base target override s)
  unfolding resource_recursive_search
  search-IsHit zero base = IsHit-none
  search-IsHit (suc levels) base = elim (Bool-cases (base == null)) [
    | inl missing ↦ rw missing IsHit-none
    | inr present ↦ rw present (
        siblings_loop-IsHit (2 ^ 32) (λ rp. resource_recursive_search levels rp target override s)
          base (s.node base).first_child (search-IsHit levels))
  ]

-- Where `ResourceGetFromRID` returns a resource without override, that resource has the identifier asked
-- for and belongs to the process that runs.
pub get_from_rid-IsOwned :
    (rid p : ℕ) (s : Resources)
    → resource_get_from_rid rid false s ≡ ok p
    → p ≢ null
    → ((s.node p).rid ≡ rid) × ((s.node p).owner.num ≡ self s)
unfolding resource_get_from_rid
get_from_rid-IsOwned rid p s e present = elim (Bool-cases (rid == invalid_rid)) [
  | inl invalid ↦ absurd (present (sym (ok-injective (rw invalid at e))))
  | inr valid ↦
      let (out, found, e') =
        >>=-eq-ok (resource_recursive_search (max_resource_depth + 1) s.pool rid false s) _
          (rw valid at e) in
      passed out (search-IsHit s rid false (max_resource_depth + 1) s.pool out found) e'
]
  where
    owner_of :
        (out : Bool × ℕ)
        → ((out.1 == null) || (not ((s.node out.1).owner.num == self s) && not false)) ≡ false
        → (s.node out.1).owner.num ≡ self s
    owner_of out owned = ground arith

    passed :
        (out : Bool × ℕ)
        → (out.1 ≢ null → (s.node out.1).rid ≡ rid)
        → (if (out.1 == null) || (not ((s.node out.1).owner.num == self s) && not false)
            then ok null
            else ok out.1)
          ≡ ok p
        → ((s.node p).rid ≡ rid) × ((s.node p).owner.num ≡ self s)
    passed out hit e =
        elim (Bool-cases
          ((out.1 == null) || (not ((s.node out.1).owner.num == self s) && not false))) [
            | inl denied ↦ absurd (present (sym (ok-injective (rw denied at e))))
            | inr owned ↦
                let same : out.1 ≡ p = ok-injective (rw owned at e) in
                let both : ((s.node out.1).rid ≡ rid) × ((s.node out.1).owner.num ≡ self s) =
                  (hit (ground arith), owner_of out owned) in
                rw same at both
          ]

-- A process that does not own a resource cannot write or read it, unlink it, release it or hand it over:
-- each of these calls fails and changes nothing.
pub not_owner-unchanged :
    (rp buffer buffer_size copy offset : ℕ) (dest : Pid) (s : Resources)
    → (s.node rp).owner.num ≢ self s
    → let blit = resource_blit_k rp buffer buffer_size copy offset s in
      let r_blit = resource_r_blit_k rp buffer buffer_size copy offset s in
      let unlink = resource_unlink_k rp s in
      let release = resource_release_k rp s in
      let handover = resource_handover_k rp dest s in
      ((blit.0 ≢ result_ok) × (blit.1 ≡ s))
      × ((r_blit.0 ≢ result_ok) × (r_blit.1 ≡ s))
      × ((unlink.0 ≢ result_ok) × (unlink.1 ≡ s))
      × ((release.0 ≢ result_ok) × (release.1 ≡ s))
      × ((handover.0 ≢ result_ok) × (handover.1 ≡ s))
unfolding check_blit resource_blit_k resource_r_blit_k resource_unlink_k resource_release_k
    resource_handover_k
not_owner-unchanged rp buffer buffer_size copy offset dest s other = ground arith

-- The checks of a blit pass: the caller owns the resource, and has a buffer that is long enough.
pub record MayBlit (rp buffer buffer_size copy : ℕ) (s : Resources) : Type 0 where
  pub present : (rp ≢ null) × (buffer ≢ null) × (buffer_size ≢ 0)
  pub owned : (s.node rp).owner.num ≡ self s
  pub placed : (s.node rp).region.ptr ≤ s.heap.heap_end
  pub long_enough : copy ≤ buffer_size

check_blit-MayBlit :
    (rp buffer buffer_size copy offset : ℕ) (s : Resources)
    → MayBlit rp buffer buffer_size copy s
    → copy ≤ ((s.node rp).region.size + 2 ^ 64 - offset) % 2 ^ 64
    → check_blit rp buffer buffer_size copy offset s ≡ result_ok
unfolding check_blit
check_blit-MayBlit rp buffer buffer_size copy offset s v room =
    let here : ((rp == null) || (buffer == null) || (buffer_size == 0)) ≡ false =
      ground (arith, v.present) in
    let owned : ((s.node rp).owner.num == self s) ≡ true = ground (arith, v.owned) in
    let placed : ltb s.heap.heap_end (s.node rp).region.ptr ≡ false = ground (arith, v.placed) in
    let long : ltb buffer_size copy ≡ false = ground (arith, v.long_enough) in
    let fits : ltb (((s.node rp).region.size + 2 ^ 64 - offset) % 2 ^ 64) copy ≡ false =
      ground arith in
    rw (here, owned, placed, long, fits) refl

-- A blit that may be made succeeds if its bytes fit into the region, of less than 2 ^ 31 bytes, behind
-- its offset; then those bytes of the region are the buffer's, if that stands behind the region.
pub blit_lem :
    (rp buffer buffer_size copy offset k : ℕ) (s : Resources)
    → MayBlit rp buffer buffer_size copy s
    → offset ≤ (s.node rp).region.size
    → (s.node rp).region.size < 2 ^ 31
    → (s.node rp).region.ptr + (s.node rp).region.size < 2 ^ 32
    → offset + copy ≤ (s.node rp).region.size
    → (s.node rp).region.ptr + (s.node rp).region.size ≤ buffer
    → k < copy
    → let (result, s') = resource_blit_k rp buffer buffer_size copy offset s in
      (result ≡ result_ok)
      × (s'.heap.bytes ((s.node rp).region.ptr + offset + k) ≡ s.heap.bytes (buffer + k))
unfolding resource_blit_k
blit_lem rp buffer buffer_size copy offset k s v inside small low fits apart h =
    let passes : check_blit rp buffer buffer_size copy offset s ≡ result_ok =
      check_blit-MayBlit rp buffer buffer_size copy offset s v (omega arith) in
    let count : int_count (copy % 2 ^ 32) ≡ copy = ground arith in
    let at : ((s.node rp).region.ptr + offset) % 2 ^ 32 ≡ (s.node rp).region.ptr + offset =
      omega arith in
    rw (passes, count, at)
      (
        refl,
        memcpy_lem copy ((s.node rp).region.ptr + offset) buffer s.heap.bytes k (inl (omega arith))
            h,
      )

check_blit_room :
    (rp buffer buffer_size copy offset : ℕ) (s : Resources)
    → check_blit rp buffer buffer_size copy offset s ≡ result_ok
    → copy ≤ ((s.node rp).region.size + 2 ^ 64 - offset) % 2 ^ 64
unfolding check_blit
check_blit_room rp buffer buffer_size copy offset s e = ground arith

checked_bytes :
    (r : Result) (done s : Resources) (a : ℕ)
    → (r ≡ result_ok → done.heap.bytes a ≡ s.heap.bytes a)
    → (checked r done s).1.heap.bytes a ≡ s.heap.bytes a
checked_bytes result_ok done s a h = h refl
checked_bytes _ done s a h = refl

-- A blit whose offset lies inside the region changes no byte outside the region, whatever its other
-- arguments, if the region lies in the address space.
pub blit_outside :
    (rp buffer buffer_size copy offset a : ℕ) (s : Resources)
    → offset ≤ (s.node rp).region.size
    → (s.node rp).region.ptr + (s.node rp).region.size < 2 ^ 32
    → in_block (s.node rp).region.ptr (s.node rp).region.size a ≡ false
    → (resource_blit_k rp buffer buffer_size copy offset s).1.heap.bytes a ≡ s.heap.bytes a
unfolding resource_blit_k
blit_outside rp buffer buffer_size copy offset a s inside low outside =
    let dest : ((s.node rp).region.ptr + offset) % 2 ^ 32 ≡ (s.node rp).region.ptr + offset =
      omega arith in
    checked_bytes (check_blit rp buffer buffer_size copy offset s) _ s a (λ e.
      let room : copy ≤ ((s.node rp).region.size + 2 ^ 64 - offset) % 2 ^ 64 =
        check_blit_room rp buffer buffer_size copy offset s e in
      rw dest (
        memcpy_outside (int_count (copy % 2 ^ 32)) ((s.node rp).region.ptr + offset) buffer
          s.heap.bytes a (ground arith)))

-- An offset behind the region's end passes the bounds check, since the room left is computed modulo
-- 2 ^ 64: the byte is written there, outside the region.
pub blit_past_end :
    (rp buffer buffer_size offset : ℕ) (s : Resources)
    → MayBlit rp buffer buffer_size 1 s
    → (s.node rp).region.size < offset
    → (s.node rp).region.ptr + offset < 2 ^ 32
    → let (result, s') = resource_blit_k rp buffer buffer_size 1 offset s in
      (result ≡ result_ok) × (s'.heap.bytes ((s.node rp).region.ptr + offset) ≡ s.heap.bytes buffer)
unfolding resource_blit_k memcpy
blit_past_end rp buffer buffer_size offset s v past low =
    let passes : check_blit rp buffer buffer_size 1 offset s ≡ result_ok =
      check_blit-MayBlit rp buffer buffer_size 1 offset s v (omega arith) in
    let at : ((s.node rp).region.ptr + offset) % 2 ^ 32 ≡ (s.node rp).region.ptr + offset =
      omega arith in
    rw (passes, at) (refl, ground arith)
