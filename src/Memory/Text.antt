-- ===== src/Memory/Text.antt =====
-- The functions of src/memory/string.c on text. A `const char *` is what it points at, as a function
-- of the index: `s i` is `s[i]`. A pointer into it that a function returns is an index, and NULL is
-- `none`. Loops that end at a NUL byte only are given 2 ^ 32 rounds, one for each address, and hang
-- if there is no NUL; every other loop is a recursion on its count.
pub mod Scan
pub mod Compare
pub mod Copy
pub mod Parse
pub mod Print
pub mod Token
mod Tests
use dek_os.Base.{
  ℕ, zero, suc, ◌+◌, ◌-◌, ◌*◌, ◌%◌, ◌^◌, Bool, not, ◌&&◌, ◌||◌, bit_or, Mem, store, ltb, leb, ◌==◌,
  if◌then◌else◌, Option, none, some, Run, ok, hung,
}
use dek_os.Base.Int.{ℤ, pos, sub_ℕ}

abbrev pub Str : Type 0
Str = ℕ → ℕ

-- `while (*p) ++p;`
unfoldable pub strlen_loop : ℕ → Str → ℕ → Run ℕ
strlen_loop zero s i = hung
strlen_loop (suc fuel) s i =
    let rest = strlen_loop fuel s (i + 1) in if s i == 0 then ok i else rest

unfoldable pub strlen : Str → Run ℕ
strlen s = strlen_loop (2 ^ 32) s 0

-- `while (*p && max--) ++p;`
unfoldable pub strnlen_loop : ℕ → Str → ℕ → ℕ
strnlen_loop zero s i = i
strnlen_loop (suc max) s i = let rest = strnlen_loop max s (i + 1) in if s i == 0 then i else rest

unfoldable pub strnlen : Str → ℕ → ℕ
strnlen s max = strnlen_loop max s 0

-- `memcmp` from index `i` on, with `n` rounds left.
unfoldable pub memcmp_loop : ℕ → Str → Str → ℕ → ℤ
memcmp_loop zero s t i = pos 0
memcmp_loop (suc n) s t i =
    let rest = memcmp_loop n s t (i + 1) in if not (s i == t i) then sub_ℕ (s i) (t i) else rest

unfoldable pub memcmp : Str → Str → ℕ → ℤ
memcmp s t n = memcmp_loop n s t 0

unfoldable pub strncmp_loop : ℕ → Str → Str → ℕ → ℤ
strncmp_loop zero s t i = pos 0
strncmp_loop (suc n) s t i =
    let rest = strncmp_loop n s t (i + 1) in
    if not (s i == t i) || (s i == 0) then sub_ℕ (s i) (t i) else rest

unfoldable pub strncmp : Str → Str → ℕ → ℤ
strncmp s t n = strncmp_loop n s t 0

-- `while (*s1 && (*s1 == *s2))`
unfoldable pub strcmp_loop : ℕ → Str → Str → ℕ → Run ℤ
strcmp_loop zero s t i = hung
strcmp_loop (suc fuel) s t i =
    let rest = strcmp_loop fuel s t (i + 1) in
    if not (s i == 0) && (s i == t i) then rest else ok (sub_ℕ (s i) (t i))

unfoldable pub strcmp : Str → Str → Run ℤ
strcmp s t = strcmp_loop (2 ^ 32) s t 0

unfoldable pub toupper : ℕ → ℕ
toupper c = if leb b'a' c && leb c b'z' then c - (b'a' - b'A') else c

unfoldable pub tolower : ℕ → ℕ
tolower c = if leb b'A' c && leb c b'Z' then c + (b'a' - b'A') else c

unfoldable pub ncsstrncmp_loop : ℕ → Str → Str → ℕ → ℤ
ncsstrncmp_loop zero s t i = pos 0
ncsstrncmp_loop (suc n) s t i =
    let rest = ncsstrncmp_loop n s t (i + 1) in
    if not (tolower (s i) == tolower (t i)) || (s i == 0) then sub_ℕ (s i) (t i) else rest

unfoldable pub ncsstrncmp : Str → Str → ℕ → ℤ
ncsstrncmp s t n = ncsstrncmp_loop n s t 0

-- `strchr` walks to the first target or to the NUL; the NUL is found if it is the target.
unfoldable pub strchr_loop : ℕ → Str → ℕ → ℕ → Run (Option ℕ)
strchr_loop zero s target i = hung
strchr_loop (suc fuel) s target i =
    let rest = strchr_loop fuel s target (i + 1) in
    if not (s i == 0)
    then (if s i == target then ok (some i) else rest)
    else if target == 0
    then ok (some i)
    else ok none

unfoldable pub strchr : Str → ℕ → Run (Option ℕ)
strchr s c = strchr_loop (2 ^ 32) s (c % 256) 0

unfoldable pub strrchr_loop : ℕ → Str → ℕ → ℕ → Option ℕ → Run (Option ℕ)
strrchr_loop zero s target i last = hung
strrchr_loop (suc fuel) s target i last =
    let rest = strrchr_loop fuel s target (i + 1) (if s i == target then some i else last) in
    if not (s i == 0) then rest else if target == 0 then ok (some i) else ok last

unfoldable pub strrchr : Str → ℕ → Run (Option ℕ)
strrchr s c = strrchr_loop (2 ^ 32) s (c % 256) 0 none

-- The two loops of `strncpy`, on the memory that `dest` points at: the first copies up to the NUL,
-- the second fills up with NUL bytes.
unfoldable pub strncpy_fill : ℕ → Mem → ℕ → Mem
strncpy_fill zero dest i = dest
strncpy_fill (suc n) dest i = strncpy_fill n (store dest i 0) (i + 1)

unfoldable pub strncpy_loop : ℕ → Mem → Str → ℕ → Mem
strncpy_loop zero dest s i = dest
strncpy_loop (suc n) dest s i =
    let rest = strncpy_loop n (store dest i (s i)) s (i + 1) in
    if s i == 0 then strncpy_fill (suc n) dest i else rest

unfoldable pub strncpy : Mem → Str → ℕ → Mem
strncpy dest s n = strncpy_loop n dest s 0

unfoldable pub isdigit : ℕ → Bool
isdigit c = leb b'0' c && leb c b'9'

-- The value so far is an `int`, kept as its bit pattern; the result has the number of digits too.
unfoldable pub atoi_loop : ℕ → Str → ℕ → ℕ → Run (ℕ × ℕ)
atoi_loop zero s k i = hung
atoi_loop (suc fuel) s k i =
    let rest = atoi_loop fuel s ((k * 10 + (s i - b'0')) % 2 ^ 32) (i + 1) in
    if leb b'0' (s i) && leb (s i) b'9' then rest else ok (k, i)

unfoldable pub atoi : Str → Run (ℕ × ℕ)
atoi s = atoi_loop (2 ^ 32) s 0 0

-- The hexadecimal digits `0` to `9` and `A` to `F`; any other byte ends the number, which by then has
-- been shifted for it.
unfoldable pub strthex_loop : ℕ → Str → ℕ → ℕ → Run ℕ
strthex_loop zero s h i = hung
strthex_loop (suc fuel) s h i =
    let shifted = h * 2 ^ 4 % 2 ^ 32 in
    let letter = strthex_loop fuel s (bit_or shifted (s i - (b'A' - 10))) (i + 1) in
    let digit = strthex_loop fuel s (bit_or shifted (s i - b'0')) (i + 1) in
    if s i == 0
    then ok h
    else if leb b'A' (s i) && leb (s i) b'F'
    then letter
    else if leb b'0' (s i) && leb (s i) b'9'
    then digit
    else ok shifted

unfoldable pub strthex : Str → Run ℕ
strthex s = strthex_loop (2 ^ 32) s 0 0
