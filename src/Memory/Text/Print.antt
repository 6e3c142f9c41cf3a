-- ===== src/Memory/Text/Print.antt =====
-- `itos` of src/memory/string.c. The base is a positive `int`; the `str` it writes to is the memory
-- from the pointer on. The negation of -2 ^ 31, which overflows, gives 2 ^ 31 here.
pub mod Decimal
use dek_os.Base.{
  ℕ, zero, suc, ◌+◌, ◌-◌, ◌*◌, ◌/◌, ◌%◌, ◌^◌, Bool, true, false, not, Mem, store, ltb, ◌==◌,
  if◌then◌else◌, Run, ok, hung, faulted, ◌>>=◌,
}
use dek_os.Base.Int.{ℤ, pos, negsuc}

-- `digit > 9 ? (digit - 10) + 'a' : digit + '0'`, for the digit `d` or, of a negative value, `-d`
unfoldable pub digit_char : Bool → ℕ → ℕ
digit_char true d = (b'0' + 2 ^ 32 - d) % 256
digit_char false d = (if ltb 9 d then d - 10 + b'a' else d + b'0') % 256

-- The digits of the magnitude `m`, the last one first, from index `i` on.
unfoldable pub digits_loop : ℕ → Bool → ℕ → Mem → ℕ → ℕ → Run (ℕ × Mem)
digits_loop zero negative base str m i = hung
digits_loop (suc fuel) negative base str m i =
    let str' = store str i (digit_char negative (m % base)) in
    let rest = digits_loop fuel negative base str' (m / base) (i + 1) in
    if m / base == 0 then ok (i + 1, str') else rest

-- `while (start < end)`, with at most `n` rounds left
unfoldable pub reverse_loop : ℕ → Mem → ℕ → ℕ → Mem
reverse_loop zero str start end = str
reverse_loop (suc n) str start end =
    let swapped = store (store str start (str end)) end (str start) in
    let rest = reverse_loop n swapped (start + 1) (end - 1) in if ltb start end then rest else str

-- The NUL is written, and what stands before it is reversed.
unfoldable pub finish : ℕ → Mem → Mem
finish i str = reverse_loop i (store str i 0) 0 (i - 1)

unfoldable pub itos : ℤ → Mem → ℕ → Run Mem
itos value str zero = faulted
itos (pos n) str (suc b) = do (i, s) ← digits_loop (2 ^ 32) false (suc b) str n 0; ok (finish i s)
itos (negsuc n) str (suc b) =
    let ten = suc b == 10 in
    do
      (i, s) ← digits_loop (2 ^ 32) (not ten) (suc b) str (n + 1) 0
      if ten then ok (finish (i + 1) (store s i b'-')) else ok (finish i s)
