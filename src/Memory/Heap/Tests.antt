-- ===== src/Memory/Heap/Tests.antt =====
-- Runs of the kernel heap of src/memory/alloc.c, and its theorems at a heap of four blocks.
use dek_os.Base.{
  ℕ, ◌+◌, ◌-◌, ◌≤◌, ◌≡◌, refl, ◌⊎◌, true, false, arith, Run, ok, panicked, hung, faulted, store32,
  load32, if◌then◌else◌,
}
use dek_os.Base.Bits.{is_set, set_bit}
use dek_os.Base.Bitmap.{bit, mark}
use dek_os.Memory.Heap.{
  Heap, Region, no_region, total_bits, m_map, find_run, run_is_free, mark_run, u_map, kmalloc,
  kfree, calloc, realloc,
}
use dek_os.Memory.Heap.Layout.{IsHeap}
use dek_os.Memory.Heap.Search.{IsFreeRun}
use dek_os.Memory.Heap.Map.{u_map-m_map, m_map_hangs}
use dek_os.Memory.Heap.Malloc.{Fits, is_leaked, kfree-kmalloc, kmalloc-kmalloc}
use dek_os.Memory.Heap.Taken.{Allocates, kmalloc-Allocates}

-- four free blocks from 0x1000 on
abbrev four : Heap
four = record {
  bytes = λ _. 0;
  map = λ _. 0;
  raw = 0x1000;
  heap_size = 64;
  mem_size = 0x2000;
  heap_start = 0x1000;
  heap_end = 0x1040;
  heap_map_start = 0x1040;
  heap_map_end = 0x1041;
}

four-IsHeap : IsHeap four
four-IsHeap = omega arith

-- what a run returned, when it returned
abbrev value_of : Run (ℕ × Heap) → ℕ
value_of (ok (p, h)) = p
value_of panicked = 1
value_of faulted = 2
value_of hung = 2

abbrev heap_of : Run (ℕ × Heap) → Heap
heap_of (ok (p, h)) = h
heap_of _ = four

abbrev region_of : Run (Region × Heap) → Region × Heap
region_of (ok r) = r
region_of _ = (no_region, four)

-- one byte takes two blocks, header included; then there is room for one such block more
first_fit :
    (value_of (kmalloc 1 four) ≡ 0x1010)
    × (value_of (kmalloc 1 (heap_of (kmalloc 1 four))) ≡ 0x1030)
    × (value_of (kmalloc 1 (heap_of (kmalloc 1 (heap_of (kmalloc 1 four))))) ≡ 1)
unfolding kmalloc m_map find_run run_is_free mark_run bit mark is_set set_bit
first_fit = (refl, refl, refl)

mapped : m_map 20 four ≡ ok (region_of (m_map 20 four))
unfolding m_map find_run run_is_free mark_run bit mark is_set set_bit
mapped = refl

u_map-m_map_example :
    bit 8 (u_map (region_of (m_map 20 four)).0 (region_of (m_map 20 four)).1).map 1 ≡ false
unfolding bit is_set
u_map-m_map_example =
    u_map-m_map 20 four (region_of (m_map 20 four)).1 (region_of (m_map 20 four)).0 1 four-IsHeap
      (omega arith) (omega arith) (omega arith) mapped

m_map_hangs_example : m_map 65 four ≡ hung
m_map_hangs_example = m_map_hangs 65 four four-IsHeap (omega arith) (omega arith)

fits : Fits four 1
fits = omega arith

kmalloc-Allocates_example : Allocates four 2 1 (kmalloc 1 four)
kmalloc-Allocates_example = kmalloc-Allocates 1 four four-IsHeap fits

allocated : kmalloc 1 four ≡ ok (0x1010, heap_of (kmalloc 1 four))
unfolding kmalloc m_map find_run run_is_free mark_run bit mark is_set set_bit
allocated = refl

-- the second block is lost
kfree-kmalloc_example :
    (g : Heap) × (kfree 0x1010 (heap_of (kmalloc 1 four)) ≡ ok g)
    × ((k : ℕ) → bit 8 g.map k ≡ (if is_leaked 1 0 k then true else bit 8 four.map k))
kfree-kmalloc_example =
    kfree-kmalloc 1 four (heap_of (kmalloc 1 four)) 0x1010 four-IsHeap fits allocated

one_free : IsFreeRun four.map (total_bits four) 0 1
unfolding bit is_set
one_free = record { exist = omega arith; free = λ k lo hi. let e : k ≡ 0 = omega arith in rw e }

allocated_next :
    kmalloc 1 (heap_of (kmalloc 1 four))
    ≡ ok (0x1030, heap_of (kmalloc 1 (heap_of (kmalloc 1 four))))
unfolding kmalloc m_map find_run run_is_free mark_run bit mark is_set set_bit
allocated_next = refl

kmalloc-kmalloc_example : (0x1010 + 1 ≤ 0x1030 - 16) ⊎ (0x1030 + 1 ≤ 0x1010 - 16)
kmalloc-kmalloc_example =
    kmalloc-kmalloc 1 1 four (heap_of (kmalloc 1 four))
      (heap_of (kmalloc 1 (heap_of (kmalloc 1 four)))) 0x1010 0x1030 four-IsHeap fits fits allocated
      allocated_next

callocated : calloc 2 3 four ≡ ok (0x1010, heap_of (calloc 2 3 four))
unfolding calloc kmalloc m_map find_run run_is_free mark_run bit mark is_set set_bit
callocated = refl

-- a block of 8 bytes at 0x1010, whose contents `realloc` is to move
abbrev filled : Heap
filled = record four { map = λ _. 3; bytes = store32 (λ _. 0) 0x1000 8 }

abbrev moved : Run (ℕ × Heap)
moved = realloc 0x1010 8 filled

reallocated :
    (kmalloc 8 filled ≡ ok (0x1030, heap_of (kmalloc 8 filled)))
    × (moved ≡ ok (0x1030, heap_of moved))
unfolding realloc kmalloc kfree m_map find_run run_is_free mark_run bit mark is_set set_bit load32
    store32
reallocated = (refl, refl)
