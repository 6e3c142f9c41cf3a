-- ===== src/Memory/Block.antt =====
-- The functions of src/memory/string.c on blocks of bytes. Each loop is a recursion on the rounds
-- left, and its pointers move as the index does. Addresses do not wrap: a block that reaches past
-- the end of the address space is undefined behaviour in the source.
use native.Mathlib.Nat.{add-zero}
use dek_os.Base.{
  ap, ◌∙◌, ℕ, zero, suc, ◌+◌, ◌%◌, ◌^◌, ◌≤◌, ◌<◌, ◌≡◌, refl, ◌⊎◌, inl, inr, Bool, false, ◌&&◌,
  arith, Mem, store, store32, ltb, leb, if◌then◌else◌,
}

-- `void memset(void *d, uint8_t v, size_t len)`
unfoldable pub memset : Mem → ℕ → ℕ → ℕ → Mem
memset m d v zero = m
memset m d v (suc n) = memset (store m d (v % 256)) (d + 1) v n

-- `void memsetdw(void *d, uint32_t v, size_t len)`
unfoldable pub memsetdw : Mem → ℕ → ℕ → ℕ → Mem
memsetdw m d v zero = m
memsetdw m d v (suc n) = memsetdw (store32 m d (v % 2 ^ 32)) (d + 4) v n

-- `int memcpy(void *dest, const void *src, int n)`; the bytes are copied upwards, one by one.
unfoldable pub memcpy : Mem → ℕ → ℕ → ℕ → Mem
memcpy m d s zero = m
memcpy m d s (suc n) = memcpy (store m d (m s)) (d + 1) (s + 1) n

-- A count passed as an `int`, as that of `memcpy`: a negative one is no rounds.
abbrev pub int_count : ℕ → ℕ
int_count n = if ltb n (2 ^ 31) then n else 0

-- an address of the `n` bytes from `p` on
abbrev pub in_block : ℕ → ℕ → ℕ → Bool
in_block p n a = leb p a && ltb a (p + n)

-- `memset` writes its byte at each address of the block, and nothing else.
pub memset_lem :
    (n d v : ℕ) (m : Mem) (a : ℕ) → memset m d v n a ≡ (if in_block d n a then v % 256 else m a)
unfolding memset
memset_lem zero d v m a = ground arith
memset_lem (suc n) d v m a = ground (arith, memset_lem n (d + 1) v (store m d (v % 256)) a)

-- What lies outside the destination stays.
pub memcpy_outside : (n d s : ℕ) (m : Mem) (a : ℕ) → in_block d n a ≡ false → memcpy m d s n a ≡ m a
unfolding memcpy
memcpy_outside zero d s m a h = refl
memcpy_outside (suc n) d s m a h =
    ground (arith, memcpy_outside n (d + 1) (s + 1) (store m d (m s)) a)

-- Between blocks that do not overlap, or towards lower addresses, `memcpy` copies the source.
pub memcpy_lem :
    (n d s : ℕ) (m : Mem) (k : ℕ)
    → (d ≤ s) ⊎ (s + n ≤ d)
    → k < n
    → memcpy m d s n (d + k) ≡ m (s + k)
unfolding memcpy
memcpy_lem zero d s m k apart h = absurd (omega arith)
memcpy_lem (suc n) d s m zero apart h =
    rw (add-zero d, add-zero s, memcpy_outside n (d + 1) (s + 1) (store m d (m s)) d (ground arith))
      (ground arith)
memcpy_lem (suc n) d s m (suc k) apart h =
    ap (memcpy (store m d (m s)) (d + 1) (s + 1) n) (next d k)
    ∙ memcpy_lem n (d + 1) (s + 1) (store m d (m s)) k (shift apart) (omega arith)
    ∙ elsewhere apart
  where
    next : (a b : ℕ) → a + suc b ≡ a + 1 + b
    next a b = omega arith

    shift : (d ≤ s) ⊎ (s + suc n ≤ d) → (d + 1 ≤ s + 1) ⊎ (s + 1 + n ≤ d + 1)
    shift (inl below) = inl (omega arith)
    shift (inr above) = inr (omega arith)

    elsewhere : (d ≤ s) ⊎ (s + suc n ≤ d) → store m d (m s) (s + 1 + k) ≡ m (s + suc k)
    elsewhere (inl below) = ground arith
    elsewhere (inr above) = ground arith
