-- ===== src/Base/Bytes.antt =====
-- Byte-addressed memory: what each address holds. A pointer is its address, and NULL is 0.
use Prim.Native.Nat.{ℕ, ◌+◌, ◌*◌, ◌/◌, ◌%◌, ◌^◌, ◌≤◌, ◌<◌}
use mathlib.Core.Path.{◌≡◌}
use mathlib.Core.Logic.{◌⊎◌, inl, inr}
use native.Mathlib.Omega.{arith}
use dek_os.Base.Tests.{◌==◌, if◌then◌else◌}

abbrev pub Mem : Type 0
Mem = ℕ → ℕ

abbrev pub null : ℕ
null = 0

-- `*p = v` at one byte
abbrev pub store : Mem → ℕ → ℕ → Mem
store m p v a = if a == p then v else m a

-- `*(uint32_t *)p = v` and its read, little-endian as on x86
unfoldable pub store32 : Mem → ℕ → ℕ → Mem
store32 m p v =
    store (store (store (store m p (v % 256)) (p + 1) (v / 2 ^ 8 % 256)) (p + 2) (v / 2 ^ 16 % 256))
      (p + 3) (v / 2 ^ 24 % 256)

unfoldable pub load32 : Mem → ℕ → ℕ
load32 m p = m p + m (p + 1) * 2 ^ 8 + m (p + 2) * 2 ^ 16 + m (p + 3) * 2 ^ 24

pub load32-store32 : (m : Mem) (p v : ℕ) → v < 2 ^ 32 → load32 (store32 m p v) p ≡ v
unfolding load32 store32
load32-store32 m p v h = ground arith

pub load32-store32_wrap : (m : Mem) (p v : ℕ) → load32 (store32 m p v) p ≡ v % 2 ^ 32
unfolding load32 store32
load32-store32_wrap m p v = ground arith

-- The bytes outside the word stay.
pub store32-outside : (m : Mem) (p v a : ℕ) → (a < p) ⊎ (p + 4 ≤ a) → store32 m p v a ≡ m a
unfolding store32
store32-outside m p v a (inl h) = ground arith
store32-outside m p v a (inr h) = ground arith

-- A word that does not overlap the one written stays.
pub load32-store32_apart :
    (m : Mem) (p q v : ℕ) → (p + 4 ≤ q) ⊎ (q + 4 ≤ p) → load32 (store32 m p v) q ≡ load32 m q
unfolding load32 store32
load32-store32_apart m p q v (inl h) = ground arith
load32-store32_apart m p q v (inr h) = ground arith

-- A word depends on its four bytes only.
pub load32-same :
    (m m' : Mem) (p : ℕ) → ((i : ℕ) → p ≤ i → i < p + 4 → m i ≡ m' i) → load32 m p ≡ load32 m' p
unfolding load32
load32-same m m' p h = omega (
  arith,
  h p (omega arith) (omega arith),
  h (p + 1) (omega arith) (omega arith),
  h (p + 2) (omega arith) (omega arith),
  h (p + 3) (omega arith) (omega arith),
)
