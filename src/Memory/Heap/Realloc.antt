-- ===== src/Memory/Heap/Realloc.antt =====
-- `calloc` and `realloc` of src/memory/alloc.c.
use native.Mathlib.Nat.{div-add-mod, mul_comm}
use dek_os.Base.{
  ℕ, ◌+◌, ◌-◌, ◌*◌, ◌/◌, ◌%◌, ◌^◌, ◌≤◌, ◌≡◌, ◌≢◌, ap, sym, inl, inr, Bool, true, false, arith, ltb,
  Bool-cases, if◌then◌else◌, Run, ok, ◌>>=◌, panicked, hung, faulted, ok-injective, ◌==◌, ◌&&◌, not,
  null, load32,
}
use dek_os.Memory.Block.{in_block, memset, memset_lem, memcpy}
use dek_os.Memory.Heap.{Heap, Region, kmalloc, kfree, u_map, calloc, realloc}

div-mul-le : (t s : ℕ) → t / s * s ≤ t
div-mul-le t s = omega (arith, div-add-mod t s, mul_comm s (t / s))

-- `calloc` refuses a product that does not fit a `size_t`, with nothing changed.
pub calloc_overflow :
    (num size : ℕ) (h : Heap) → size ≢ 0 → 2 ^ 32 ≤ num * size → calloc num size h ≡ ok (null, h)
unfolding calloc
calloc_overflow num size h pos over = elim (Bool-cases (num * size % 2 ^ 32 / size == num)) [
  | inl fits ↦ absurd (contradiction (ground arith))
  | inr wraps ↦ let nonzero : (size == 0) ≡ false = ground arith in rw (wraps, nonzero)
]
  where
    contradiction : ¬ (num * size % 2 ^ 32 / size ≡ num)
    contradiction e =
        omega (arith, div-mul-le (num * size % 2 ^ 32) size, ap (λ (t : ℕ). t * size) e)

-- The rest of `calloc`, once `kmalloc` has returned.
cleared : ℕ → ℕ × Heap → Run (ℕ × Heap)
cleared total (p, h') =
    if p == null then ok (p, h') else ok (p, record h' { bytes = memset h'.bytes p 0 total })

cleared-zero :
    (total : ℕ) (r : Run (ℕ × Heap)) {p : ℕ} {h' : Heap} (a : ℕ)
    → (r >>= cleared total) ≡ ok (p, h')
    → p ≢ 0
    → in_block p total a ≡ true
    → h'.bytes a ≡ 0
unfolding cleared
cleared-zero total (ok (q, g)) {p} {h'} a e present inside =
    ground (arith, memset_lem total q 0 g.bytes a)
cleared-zero total panicked a e present inside = cc
cleared-zero total faulted a e present inside = cc
cleared-zero total hung a e present inside = cc

abbrev refused : ℕ → ℕ → Bool
refused num size = not (size == 0) && not (num * size % 2 ^ 32 / size == num)

product_fits : (num size : ℕ) → refused num size ≡ false → num * size ≤ num * size % 2 ^ 32
product_fits num size ok_test = elim (Bool-cases (size == 0)) [
  | inl none_each ↦ let e : size ≡ 0 = ground arith in omega (arith, ap (λ (t : ℕ). num * t) e)
  | inr some_each ↦
      let e : num * size % 2 ^ 32 / size ≡ num = ground arith in
      omega (arith, div-mul-le (num * size % 2 ^ 32) size, ap (λ (t : ℕ). t * size) e)
]

-- What `calloc` returns, unless it is NULL, is `num * size` bytes, and all of them are 0.
pub calloc-zero :
    (num size : ℕ) (h h' : Heap) (p a : ℕ)
    → calloc num size h ≡ ok (p, h')
    → p ≢ 0
    → in_block p (num * size) a ≡ true
    → h'.bytes a ≡ 0
unfolding calloc cleared
calloc-zero num size h h' p a e present inside = elim (Bool-cases (refused num size)) [
  | inl no_room ↦
      absurd (present (sym (ap (λ (s : ℕ × Heap). s.0) (ok-injective (rw no_room at e)))))
  | inr room ↦
      cleared-zero (num * size % 2 ^ 32) (kmalloc (num * size % 2 ^ 32) h) a (rw room at e) present
        (wider (product_fits num size room))
]
  where
    wider : num * size ≤ num * size % 2 ^ 32 → in_block p (num * size % 2 ^ 32) a ≡ true
    wider le = ground arith

-- `kfree` writes no byte but those of the map.
bytes-u_map : (r : Region) (h : Heap) → (u_map r h).bytes ≡ h.bytes
unfolding u_map
bytes-u_map r h = ground arith

-- If the word just below a pointer holds 0 when its new block has been taken, `realloc` of the pointer to
-- a size that is not 0, where it returns, copies nothing to the new block: no byte of the memory changes.
pub realloc_copies_nothing :
    (p new_size q r : ℕ) (h h' h'' : Heap)
    → p ≢ 0
    → new_size ≢ 0
    → kmalloc new_size h ≡ ok (q, h')
    → load32 h'.bytes ((p + 2 ^ 32 - 4) % 2 ^ 32) ≡ 0
    → realloc p new_size h ≡ ok (r, h'')
    → (r ≡ q) × (h''.bytes ≡ h'.bytes)
unfolding realloc kfree memcpy
realloc_copies_nothing p new_size q r h h' h'' pos some_size e zero_word out =
    let present : (p == null) ≡ false = ground arith in
    let nonzero : (new_size == 0) ≡ false = ground arith in
    let positive : ltb new_size 0 ≡ false = ground arith in
    after (rw (present, nonzero, e, zero_word, positive) at out)
  where
    header : ℕ
    header = (p + 2 ^ 32 - 16) % 2 ^ 32

    old : Region
    old = record { ptr = header; size = (load32 h'.bytes header + 16) % 2 ^ 32 }

    after :
        if◌then◌else◌ {A = Run (ℕ × Heap)} (q == null) (ok (null, h')) (ok (q, u_map old h'))
          ≡ ok (r, h'')
        → (r ≡ q) × (h''.bytes ≡ h'.bytes)
    after out = ground (arith, bytes-u_map old h')
