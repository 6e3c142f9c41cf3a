-- ===== src/Memory/Text/Copy.antt =====
-- `strncpy` of src/memory/string.c.
use dek_os.Base.{
  ℕ, zero, suc, ◌+◌, ◌-◌, ◌<◌, ◌≡◌, refl, List, [], ◌∷◌, arith, ltb, leb, ◌&&◌, Mem, store,
  if◌then◌else◌,
}
use dek_os.Memory.Text.{Str, strncpy_fill, strncpy_loop, strncpy}
use dek_os.Memory.Text.Scan.{IsStrAt, IsStr}

-- byte `k` of a text, padded with NUL bytes
abbrev pub byte_or_nul : List ℕ → ℕ → ℕ
byte_or_nul [] k = 0
byte_or_nul (x ∷ xs) zero = x
byte_or_nul (x ∷ xs) (suc k) = byte_or_nul xs k

strncpy_fill_lem :
    (n : ℕ) (dest : Mem) (i k : ℕ)
    → strncpy_fill n dest i k ≡ (if leb i k && ltb k (i + n) then 0 else dest k)
unfolding strncpy_fill
strncpy_fill_lem zero dest i k = ground arith
strncpy_fill_lem (suc n) dest i k = ground (arith, strncpy_fill_lem n (store dest i 0) (i + 1) k)

byte_or_nul-suc :
    (x : ℕ) (xs : List ℕ) (k : ℕ) → 0 < k → byte_or_nul (x ∷ xs) k ≡ byte_or_nul xs (k - 1)
byte_or_nul-suc x xs zero h = absurd (omega arith)
byte_or_nul-suc x xs (suc k) h = let e : suc k - 1 ≡ k = omega arith in rw e

byte_or_nul-zero : (x : ℕ) (xs : List ℕ) (k : ℕ) → k ≡ 0 → byte_or_nul (x ∷ xs) k ≡ x
byte_or_nul-zero x xs zero h = refl
byte_or_nul-zero x xs (suc k) h = absurd (omega arith)

strncpy_loop_lem :
    (n : ℕ) (xs : List ℕ) (dest : Mem) (s : Str) (i k : ℕ)
    → IsStrAt s i xs
    → strncpy_loop n dest s i k
      ≡ (if leb i k && ltb k (i + n) then byte_or_nul xs (k - i) else dest k)
unfolding strncpy_loop
strncpy_loop_lem zero xs dest s i k v = ground arith
strncpy_loop_lem (suc n) [] dest s i k v = ground (arith, strncpy_fill_lem (suc n) dest i k)
strncpy_loop_lem (suc n) (x ∷ xs) dest s i k v =
    let e : k - i - 1 ≡ k - (i + 1) = omega arith in
    ground (
      arith,
      e,
      strncpy_loop_lem n xs (store dest i (s i)) s (i + 1) k v.2,
      byte_or_nul-suc x xs (k - i),
      byte_or_nul-zero x xs (k - i),
    )

-- `strncpy` writes exactly `n` bytes: those of the text as far as they fit, then NUL bytes.
pub strncpy_lem :
    (n : ℕ) (xs : List ℕ) (dest : Mem) (s : Str) (k : ℕ)
    → IsStr s xs
    → strncpy dest s n k ≡ (if ltb k n then byte_or_nul xs k else dest k)
unfolding strncpy
strncpy_lem n xs dest s k v = ground (arith, strncpy_loop_lem n xs dest s 0 k v)
