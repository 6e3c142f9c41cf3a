-- ===== src/Memory/Heap/Layout.antt =====
-- The layout that `memInit` of src/memory/alloc.c sets up, and the invariant of the heap.
use dek_os.Base.{ℕ, ◌+◌, ◌-◌, ◌*◌, ◌/◌, ◌%◌, ◌^◌, ◌≤◌, ◌<◌, ◌≡◌, false, arith, ltb, if◌then◌else◌}
use dek_os.Base.Bits.{is_set_empty}
use dek_os.Base.Bitmap.{bit}
use dek_os.Memory.Block.{memset_lem}
use dek_os.Memory.Heap.{Heap, total_bits, mem_init}

-- The blocks lie in the lower 2 GB and not at address 0, so that no address of a block wraps.
pub record IsHeap (h : Heap) : Type 0 where
  pub base : 0 < h.raw
  pub top : h.raw + h.heap_size ≤ 2 ^ 31

-- The map has a bit for each block, lies behind the blocks, and ends within the memory.
pub record IsLaidOut (kernel_end memory_size : ℕ) (h : Heap) : Type 0 where
  pub heap : IsHeap h
  pub starts : h.raw ≡ kernel_end
  pub blocks : h.raw + h.heap_size ≡ h.heap_map_start
  pub map_bits : total_bits h ≤ 8 * (h.heap_map_end - h.heap_map_start)
  pub map_end : (h.heap_map_start ≤ h.heap_map_end) × (h.heap_map_end ≤ memory_size)

-- On a machine whose memory reaches past the kernel, and whose kernel ends below 2 ^ 31, `memInit` lays
-- the heap and its map out behind the kernel, without overlap and within the memory.
pub mem_init-IsLaidOut :
    (kernel_end memory_size : ℕ) (h : Heap)
    → 0 < kernel_end
    → kernel_end < memory_size
    → kernel_end < 2 ^ 31
    → memory_size < 2 ^ 32
    → IsLaidOut kernel_end memory_size (mem_init kernel_end memory_size h)
unfolding mem_init
mem_init-IsLaidOut kernel_end memory_size h pos room low fits = ground arith

pub bit-mem_init :
    (kernel_end memory_size : ℕ) (h : Heap) (j : ℕ)
    → kernel_end < memory_size
    → kernel_end < 2 ^ 31
    → memory_size < 2 ^ 32
    → j < total_bits (mem_init kernel_end memory_size h)
    → bit 8 (mem_init kernel_end memory_size h).map j ≡ false
unfolding mem_init bit
bit-mem_init kernel_end memory_size h j room low fits hj =
    ground (arith, memset_lem map_bytes 0 0 h.map (j / 8), is_set_empty (j % 8))
  where
    map_bytes : ℕ
    map_bytes =
        (((if ltb (2 ^ 31) memory_size then 2 ^ 31 else memory_size) + 2 ^ 32 - kernel_end)
            % 2 ^ 32
            / 16
            * 16
            / 16
          + 7)
        / 8
