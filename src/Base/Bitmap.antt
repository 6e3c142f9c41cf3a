-- ===== src/Base/Bitmap.antt =====
-- A bitmap kept in an array of words of `w` bits: item `i` is bit `i % w` of word `i / w`. The
-- kernel heap keeps one in bytes, and the physical page allocator one in 32-bit words.
use Prim.Native.Nat.{ℕ, ◌+◌, ◌*◌, ◌/◌, ◌%◌, ◌<◌}
use mathlib.Core.Path.{◌≡◌, sym, ◌∙◌, ap₂}
use mathlib.Core.Bool.{Bool, true, false}
use native.Mathlib.Nat.{div-add-mod, mod-lt}
use native.Mathlib.Omega.{arith}
use dek_os.Base.Tests.{◌==◌, if◌then◌else◌}
use dek_os.Base.Bytes.{Mem, store}
use dek_os.Base.Bits.{is_set, set_bit, clear_bit, is_set-set_bit, is_set-clear_bit}

-- `map[i / w] & (1 << (i % w))`
unfoldable pub bit : ℕ → Mem → ℕ → Bool
bit w m i = is_set (m (i / w)) (i % w)

-- `map[i / w] |= 1 << (i % w)`
unfoldable pub mark : ℕ → Mem → ℕ → Mem
mark w m i = store m (i / w) (set_bit (m (i / w)) (i % w))

-- `map[i / w] &= ~(1 << (i % w))`
unfoldable pub unmark : ℕ → Mem → ℕ → Mem
unmark w m i = store m (i / w) (clear_bit w (m (i / w)) (i % w))

module _ (w : ℕ) (pos : 0 < w) (m : Mem) (i j : ℕ) where
  -- Two items with one word and one bit number are one item.
  same_item : i / w ≡ j / w → i % w ≡ j % w → i ≡ j
  same_item p q = sym (div-add-mod i w) ∙ ap₂ (λ a b. w * a + b) p q ∙ div-add-mod j w

  -- Marking an item marks it and no other.
  pub bit-mark : bit w (mark w m i) j ≡ (if i == j then true else bit w m j)
  unfolding bit mark
  bit-mark = ground (arith, is_set-set_bit (m (i / w)) (i % w) (j % w), same_item)

  -- Unmarking an item frees it and no other.
  pub bit-unmark : bit w (unmark w m i) j ≡ (if i == j then false else bit w m j)
  unfolding bit unmark
  bit-unmark = ground (
    arith,
    is_set-clear_bit w (m (i / w)) (i % w) (j % w) (mod-lt i pos) (mod-lt j pos),
    same_item,
  )
