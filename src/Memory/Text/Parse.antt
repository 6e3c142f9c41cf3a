-- ===== src/Memory/Text/Parse.antt =====
-- The numbers that `atoi` and `strthex` of src/memory/string.c read.
use native.Mathlib.Nat.{zero-add}
use mathlib.Core.Path.{ap₂}
use dek_os.Base.{
  Bool-cases, inl, inr, ℕ, zero, suc, ◌+◌, ◌-◌, ◌*◌, ◌/◌, ◌%◌, ◌^◌, ◌<◌, ◌≡◌, ap, sym, ◌∙◌, Bool,
  ◌||◌, List, [], ◌∷◌, true, false, arith, ltb, leb, ◌&&◌, ◌==◌, if◌then◌else◌, ok, bit_or,
}
use dek_os.Base.Bits.{or_step, or-zero}
use dek_os.Memory.Text.{Str, atoi_loop, atoi, isdigit, strthex_loop, strthex}
use dek_os.Memory.Text.Scan.{length}

-- From index `i` on, `s` holds the decimal digits of the list and then a byte that is no digit.
abbrev pub HasDigits : Str → ℕ → List ℕ → Type 0
HasDigits s i [] = isdigit (s i) ≡ false
HasDigits s i (d ∷ ds) = (d < 10) × (s i ≡ b'0' + d) × HasDigits s (i + 1) ds

-- the number with these digits, most significant first, after those that make up `k`
unfoldable pub number : ℕ → ℕ → List ℕ → ℕ
number base k [] = k
number base k (d ∷ ds) = number base (k * base + d) ds

-- Only the last 32 bits of the number so far count.
number-mod :
    (base : ℕ)
    → ((k d : ℕ) → (k % 2 ^ 32 * base + d) % 2 ^ 32 ≡ (k * base + d) % 2 ^ 32)
    → (k : ℕ) (ds : List ℕ) → number base (k % 2 ^ 32) ds % 2 ^ 32 ≡ number base k ds % 2 ^ 32
unfolding number
number-mod base step k [] = omega arith
number-mod base step k (d ∷ ds) =
    sym (number-mod base step (k % 2 ^ 32 * base + d) ds)
    ∙ ap (λ (t : ℕ). number base t ds % 2 ^ 32) (step k d)
    ∙ number-mod base step (k * base + d) ds

atoi_loop-number :
    (ds : List ℕ) (fuel : ℕ) (s : Str) (k i : ℕ)
    → HasDigits s i ds
    → length ds < fuel
    → k < 2 ^ 32
    → atoi_loop fuel s k i ≡ ok (number 10 k ds % 2 ^ 32, i + length ds)
unfolding atoi_loop number isdigit
atoi_loop-number ds zero s k i v h small = absurd (omega arith)
atoi_loop-number [] (suc fuel) s k i v h small = ground arith
atoi_loop-number (d ∷ ds) (suc fuel) s k i v h small =
    let digit : s i - b'0' ≡ d = omega arith in
    let end : i + 1 + length ds ≡ i + suc (length ds) = omega arith in
    let low : (leb b'0' (s i) && leb (s i) b'9') ≡ true = ground arith in
    rw (
      low,
      digit,
      atoi_loop-number ds fuel s ((k * 10 + d) % 2 ^ 32) (i + 1) v.2 (omega arith) (omega arith),
      end,
      number-mod 10 (λ k d. omega arith) (k * 10 + d) ds,
    )

-- `atoi` reads the decimal digits up to the first byte that is none, and returns their number modulo
-- 2 ^ 32 and how many they are. Without a digit it returns 0.
pub atoi-number :
    (s : Str) (ds : List ℕ)
    → HasDigits s 0 ds
    → length ds < 2 ^ 32
    → atoi s ≡ ok (number 10 0 ds % 2 ^ 32, length ds)
unfolding atoi
atoi-number s ds v h =
    atoi_loop-number ds (2 ^ 32) s 0 0 v h (omega arith)
    ∙ ap (λ (n : ℕ). ok (number 10 0 ds % 2 ^ 32, n)) (zero-add (length ds))

-- `|` of a multiple of 16 and a digit adds them.
or-digit : (q d : ℕ) → d < 16 → bit_or (q * 16) d ≡ q * 16 + d
or-digit q d h =
    let half : q * 16 / 2 ≡ q * 8 = omega arith in
    let quarter : q * 8 / 2 ≡ q * 4 = omega arith in
    let eighth : q * 4 / 2 ≡ q * 2 = omega arith in
    let last : q * 2 / 2 ≡ q = omega arith in
    let none_left : d / 2 / 2 / 2 / 2 ≡ 0 = omega arith in
    omega (
      arith,
      or_step (q * 16) d,
      ap (λ (t : ℕ). bit_or t (d / 2)) half,
      or_step (q * 8) (d / 2),
      ap (λ (t : ℕ). bit_or t (d / 2 / 2)) quarter,
      or_step (q * 4) (d / 2 / 2),
      ap (λ (t : ℕ). bit_or t (d / 2 / 2 / 2)) eighth,
      or_step (q * 2) (d / 2 / 2 / 2),
      ap₂ bit_or last none_left,
      or-zero q q (omega arith),
    )

-- the character of a hexadecimal digit, as `strthex` reads it
abbrev pub hex_char : ℕ → ℕ
hex_char d = if ltb d 10 then b'0' + d else b'A' + d - 10

-- From index `i` on, `s` holds the hexadecimal digits of the list and then the byte `stop`.
abbrev pub HasHexDigits : Str → ℕ → List ℕ → ℕ → Type 0
HasHexDigits s i [] stop = s i ≡ stop
HasHexDigits s i (d ∷ ds) stop = (d < 16) × (s i ≡ hex_char d) × HasHexDigits s (i + 1) ds stop

-- what `strthex` makes of the value when it meets the byte after the digits
abbrev pub at_stop : ℕ → ℕ → ℕ
at_stop stop h = if stop == 0 then h else h * 16 % 2 ^ 32

abbrev pub is_hex : ℕ → Bool
is_hex c = (leb b'A' c && leb c b'F') || (leb b'0' c && leb c b'9')

or_shifted : (h d : ℕ) → d < 16 → bit_or (h * 16 % 2 ^ 32) d ≡ (h * 16 + d) % 2 ^ 32
or_shifted h d small =
    let e : h * 16 % 2 ^ 32 ≡ h % 2 ^ 28 * 16 = omega arith in
    rw e (or-digit (h % 2 ^ 28) d small ∙ omega arith)

-- One round of `strthex` at a hexadecimal digit.
strthex_loop-digit :
    (fuel : ℕ) (s : Str) (h i d : ℕ)
    → d < 16
    → s i ≡ hex_char d
    → strthex_loop (suc fuel) s h i ≡ strthex_loop fuel s ((h * 16 + d) % 2 ^ 32) (i + 1)
unfolding strthex_loop
strthex_loop-digit fuel s h i d small e = elim (Bool-cases (ltb d 10)) [
  | inl decimal ↦
      let digit : s i - b'0' ≡ d = ground arith in
      let nonzero : (s i == 0) ≡ false = ground arith in
      let no_letter : (leb b'A' (s i) && leb (s i) b'F') ≡ false = ground arith in
      let low : (leb b'0' (s i) && leb (s i) b'9') ≡ true = ground arith in
      rw (nonzero, no_letter, low, digit, or_shifted h d small)
  | inr letter ↦
      let digit : s i - (b'A' - 10) ≡ d = ground arith in
      let nonzero : (s i == 0) ≡ false = ground arith in
      let high : (leb b'A' (s i) && leb (s i) b'F') ≡ true = ground arith in
      rw (nonzero, high, digit, or_shifted h d small)
]

strthex_loop-number :
    (ds : List ℕ) (fuel : ℕ) (s : Str) (h i stop : ℕ)
    → HasHexDigits s i ds stop
    → is_hex stop ≡ false
    → length ds < fuel
    → h < 2 ^ 32
    → strthex_loop fuel s h i ≡ ok (at_stop stop (number 16 h ds % 2 ^ 32))
unfolding strthex_loop number
strthex_loop-number ds zero s h i stop v e f small = absurd (omega arith)
strthex_loop-number [] (suc fuel) s h i stop v e f small = ground arith
strthex_loop-number (d ∷ ds) (suc fuel) s h i stop v e f small =
    strthex_loop-digit fuel s h i d v.0 v.1
    ∙ strthex_loop-number ds fuel s ((h * 16 + d) % 2 ^ 32) (i + 1) stop v.2 e (omega arith)
        (omega arith)
    ∙ ap (λ (t : ℕ). ok (at_stop stop t)) (number-mod 16 (λ k d. omega arith) (h * 16 + d) ds)

-- `strthex` reads the digits `0` to `9` and `A` to `F`. Where they end in a NUL it returns their number
-- modulo 2 ^ 32; where they end in any other byte, the number is shifted by one digit more.
pub strthex-number :
    (s : Str) (ds : List ℕ) (stop : ℕ)
    → HasHexDigits s 0 ds stop
    → is_hex stop ≡ false
    → length ds < 2 ^ 32
    → strthex s ≡ ok (at_stop stop (number 16 0 ds % 2 ^ 32))
unfolding strthex
strthex-number s ds stop v e h = strthex_loop-number ds (2 ^ 32) s 0 0 stop v e h (omega arith)
