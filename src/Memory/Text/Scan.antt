-- ===== src/Memory/Text/Scan.antt =====
-- Text as a list of bytes, and what the functions of src/memory/string.c that look for a byte find.
use dek_os.Base.{
  ℕ, zero, suc, ◌+◌, ◌%◌, ◌^◌, ◌<◌, ◌≡◌, ◌≢◌, List, [], ◌∷◌, arith, ◌==◌, if◌then◌else◌, Option,
  none, some, ok,
}
use Prim.Native.Nat.{min}
use native.Mathlib.Nat.{zero-add}
use dek_os.Memory.Text.{
  Str, strlen_loop, strlen, strnlen_loop, strnlen, strchr_loop, strchr, strrchr_loop, strrchr,
}

abbrev pub length {ℓ} : {A : Type ℓ} → List A → ℕ
length [] = 0
length (_ ∷ xs) = suc (length xs)

-- From index `i` on, `s` holds the bytes of the list, none of them NUL, and then a NUL.
abbrev pub IsStrAt : Str → ℕ → List ℕ → Type 0
IsStrAt s i [] = s i ≡ 0
IsStrAt s i (c ∷ xs) = (s i ≡ c) × (c ≢ 0) × IsStrAt s (i + 1) xs

abbrev pub IsStr : Str → List ℕ → Type 0
IsStr s xs = IsStrAt s 0 xs

-- the index, counted from `i`, of the first and of the last byte `c` of the list
unfoldable pub first_from : ℕ → ℕ → List ℕ → Option ℕ
first_from c i [] = none
first_from c i (x ∷ xs) = if x == c then some i else first_from c (i + 1) xs

unfoldable pub last_from : ℕ → ℕ → List ℕ → Option ℕ → Option ℕ
last_from c i [] last = last
last_from c i (x ∷ xs) last = last_from c (i + 1) xs (if x == c then some i else last)

strlen_loop-IsStrAt :
    (xs : List ℕ) (fuel : ℕ) (s : Str) (i : ℕ)
    → IsStrAt s i xs
    → length xs < fuel
    → strlen_loop fuel s i ≡ ok (i + length xs)
unfolding strlen_loop
strlen_loop-IsStrAt xs zero s i v h = absurd (omega arith)
strlen_loop-IsStrAt [] (suc fuel) s i v h = ground arith
strlen_loop-IsStrAt (c ∷ xs) (suc fuel) s i v h =
    ground (arith, strlen_loop-IsStrAt xs fuel s (i + 1) v.2 (omega arith))

-- `strlen` returns the number of bytes before the NUL.
pub strlen-IsStr :
    (s : Str) (xs : List ℕ) → IsStr s xs → length xs < 2 ^ 32 → strlen s ≡ ok (length xs)
unfolding strlen
strlen-IsStr s xs v h = rw (strlen_loop-IsStrAt xs (2 ^ 32) s 0 v h, zero-add (length xs))

strnlen_loop-IsStrAt :
    (xs : List ℕ) (max : ℕ) (s : Str) (i : ℕ)
    → IsStrAt s i xs
    → strnlen_loop max s i ≡ i + min (length xs) max
unfolding strnlen_loop
strnlen_loop-IsStrAt xs zero s i v = omega arith
strnlen_loop-IsStrAt [] (suc max) s i v = ground arith
strnlen_loop-IsStrAt (c ∷ xs) (suc max) s i v =
    ground (arith, strnlen_loop-IsStrAt xs max s (i + 1) v.2)

-- `strnlen` returns that number too, but at most `max`.
pub strnlen-IsStr :
    (s : Str) (xs : List ℕ) (max : ℕ) → IsStr s xs → strnlen s max ≡ min (length xs) max
unfolding strnlen
strnlen-IsStr s xs max v = omega (arith, strnlen_loop-IsStrAt xs max s 0 v)

module _ (s : Str) (c : ℕ) (nonzero : c ≢ 0) where
  strchr_loop-first :
      (xs : List ℕ) (fuel i : ℕ)
      → IsStrAt s i xs
      → length xs < fuel
      → strchr_loop fuel s c i ≡ ok (first_from c i xs)
  unfolding strchr_loop first_from
  strchr_loop-first xs zero i v h = absurd (omega arith)
  strchr_loop-first [] (suc fuel) i v h = ground arith
  strchr_loop-first (x ∷ xs) (suc fuel) i v h =
      ground (arith, strchr_loop-first xs fuel (i + 1) v.2 (omega arith))

  strrchr_loop-last :
      (xs : List ℕ) (fuel i : ℕ) (last : Option ℕ)
      → IsStrAt s i xs
      → length xs < fuel
      → strrchr_loop fuel s c i last ≡ ok (last_from c i xs last)
  unfolding strrchr_loop last_from
  strrchr_loop-last xs zero i last v h = absurd (omega arith)
  strrchr_loop-last [] (suc fuel) i last v h = ground arith
  strrchr_loop-last (x ∷ xs) (suc fuel) i last v h = ground (
    arith,
    strrchr_loop-last xs fuel (i + 1) (if s i == c then some i else last) v.2 (omega arith),
  )

-- In a text, `strchr` finds the first byte that is the character, which is not NUL, and `strrchr` the
-- last; if there is none they return NULL.
pub strchr-first :
    (s : Str) (c : ℕ) (xs : List ℕ)
    → IsStr s xs
    → length xs < 2 ^ 32
    → c % 256 ≢ 0
    → (strchr s c ≡ ok (first_from (c % 256) 0 xs))
      × (strrchr s c ≡ ok (last_from (c % 256) 0 xs none))
unfolding strchr strrchr
strchr-first s c xs v h nonzero = (
  strchr_loop-first s (c % 256) nonzero xs (2 ^ 32) 0 v h,
  strrchr_loop-last s (c % 256) nonzero xs (2 ^ 32) 0 none v h,
)
