-- ===== src/Base/Bits.antt =====
-- Single bits of a word, as C code tests, sets and clears them, at every width.
use Prim.Native.Nat.{
  ℕ, zero, suc, ◌+◌, ◌-◌, ◌*◌, ◌/◌, ◌%◌, ◌^◌, ◌≤◌, ◌<◌, min, max, bit_and, bit_or, digits,
  bit_and-bitwise, bit_or-bitwise,
}
use mathlib.Core.Path.{◌≡◌, refl, sym, ap, ◌∙◌}
use mathlib.Core.Bool.{Bool, true, false, not}
use native.Mathlib.Nat.{pow-suc, one-le-pow, mul_assoc}
use native.Mathlib.Omega.{arith}
use dek_os.Base.Tests.{◌==◌, if◌then◌else◌}

-- `x & (1 << k)` read as a condition
unfoldable pub is_set : ℕ → ℕ → Bool
is_set x k = not (bit_and x (2 ^ k) == 0)

-- `x |= 1 << k`
unfoldable pub set_bit : ℕ → ℕ → ℕ
set_bit x k = bit_or x (2 ^ k)

-- `x &= ~(1 << k)`, stored back into a word of `w` bits
unfoldable pub clear_bit : ℕ → ℕ → ℕ → ℕ
clear_bit w x k = bit_and x (2 ^ w - 1 - 2 ^ k)

-- One digit of the native operations. Their recursion runs on fuel, which is enough from `a` on.
module _ (rest : ℕ → ℕ) (f : ℕ → ℕ → ℕ) where
  enough : (a b n m : ℕ) → (a ≤ n) × (a ≤ m) → digits rest f n a b ≡ digits rest f m a b
  enough zero b zero zero h = refl
  enough zero b zero (suc m) h = refl
  enough zero b (suc n) zero h = refl
  enough zero b (suc n) (suc m) h = refl
  enough (suc a) b zero m h = absurd (omega (arith, h.0))
  enough (suc a) b (suc n) zero h = absurd (omega (arith, h.1))
  enough (suc a) b (suc n) (suc m) h =
      omega (arith, enough (suc a / 2) (b / 2) n m (omega (arith, h.0), omega (arith, h.1)))

pub and_step : (a b : ℕ) → bit_and a b ≡ bit_and (a / 2) (b / 2) * 2 + min (a % 2) (b % 2)
and_step zero b = omega (arith, bit_and-bitwise 0 b, bit_and-bitwise 0 (b / 2))
and_step (suc a) b =
    let half = suc a / 2 in
    omega (
      arith,
      bit_and-bitwise (suc a) b,
      bit_and-bitwise half (b / 2),
      enough (λ _. 0) min half (b / 2) a half (omega arith, omega arith),
    )

pub or_step : (a b : ℕ) → bit_or a b ≡ bit_or (a / 2) (b / 2) * 2 + max (a % 2) (b % 2)
or_step zero b = omega (arith, bit_or-bitwise 0 b, bit_or-bitwise 0 (b / 2))
or_step (suc a) b =
    let half = suc a / 2 in
    omega (
      arith,
      bit_or-bitwise (suc a) b,
      bit_or-bitwise half (b / 2),
      enough (λ d. d) max half (b / 2) a half (omega arith, omega arith),
    )

pub and-zero : (n a : ℕ) → a ≤ n → bit_and a 0 ≡ 0
and-zero zero a h = let e : a ≡ 0 = omega arith in rw e
and-zero (suc n) zero h = refl
and-zero (suc n) (suc a) h = omega (arith, and_step (suc a) 0, and-zero n (suc a / 2) (omega arith))

pub or-zero : (n a : ℕ) → a ≤ n → bit_or a 0 ≡ a
or-zero zero a h = let e : a ≡ 0 = omega arith in rw e
or-zero (suc n) zero h = refl
or-zero (suc n) (suc a) h = omega (arith, or_step (suc a) 0, or-zero n (suc a / 2) (omega arith))

-- Bit 0 is the parity, and bit `k + 1` is bit `k` of the half.
is_set-zero : (x : ℕ) → is_set x 0 ≡ (x % 2 == 1)
unfolding is_set
is_set-zero x = ground (arith, and_step x 1, and-zero (x / 2) (x / 2) (omega arith))

-- The masks of bit 0 and of a later bit, in terms of those of the half.
and-double : (x p : ℕ) → bit_and x (p * 2) ≡ bit_and (x / 2) p * 2
and-double x p =
    let e : p * 2 / 2 ≡ p = omega arith in omega (arith, and_step x (p * 2), ap (bit_and (x / 2)) e)

or-double : (x p : ℕ) → bit_or x (p * 2) ≡ bit_or (x / 2) p * 2 + x % 2
or-double x p =
    let e : p * 2 / 2 ≡ p = omega arith in omega (arith, or_step x (p * 2), ap (bit_or (x / 2)) e)

and-odd : (x p : ℕ) → bit_and x (p * 2 + 1) ≡ bit_and (x / 2) p * 2 + x % 2
and-odd x p =
    let e : (p * 2 + 1) / 2 ≡ p = omega arith in
    omega (arith, and_step x (p * 2 + 1), ap (bit_and (x / 2)) e)

is_set-suc : (x k : ℕ) → is_set x (suc k) ≡ is_set (x / 2) k
unfolding is_set
is_set-suc x k = rw (pow-suc 2 k, and-double) (ground arith)

-- A word made of a low bit `b` and the rest `q`.
is_set-cons : (q b k : ℕ) → b < 2 → is_set (q * 2 + b) (suc k) ≡ is_set q k
is_set-cons q b k h = let e : (q * 2 + b) / 2 ≡ q = omega arith in rw (is_set-suc, e)

is_set-low : (q b : ℕ) → b < 2 → is_set (q * 2 + b) 0 ≡ (b == 1)
is_set-low q b h = let e : (q * 2 + b) % 2 ≡ b = omega arith in rw (is_set-zero, e)

pow_lt : (k w : ℕ) → k < w → 2 ^ k * 2 ≤ 2 ^ w
pow_lt k zero h = absurd (omega arith)
pow_lt zero (suc w) h = omega (arith, pow-suc 2 w, one-le-pow w 2 (omega arith))
pow_lt (suc k) (suc w) h = omega (arith, pow-suc 2 w, pow-suc 2 k, pow_lt k w (omega arith))

set_bit-zero : (x : ℕ) → set_bit x 0 ≡ x / 2 * 2 + 1
unfolding set_bit
set_bit-zero x = omega (arith, or_step x 1, or-zero (x / 2) (x / 2) (omega arith))

set_bit-suc : (x k : ℕ) → set_bit x (suc k) ≡ set_bit (x / 2) k * 2 + x % 2
unfolding set_bit
set_bit-suc x k = rw (pow-suc 2 k) (or-double x (2 ^ k))

-- Setting a bit sets that bit and no other.
pub is_set-set_bit : (x k j : ℕ) → is_set (set_bit x k) j ≡ (if k == j then true else is_set x j)
is_set-set_bit x zero zero = rw set_bit-zero (is_set-low (x / 2) 1 (omega arith))
is_set-set_bit x zero (suc j) =
    ground (arith, set_bit-zero x, is_set-cons (x / 2) 1 j (omega arith), is_set-suc x j)
is_set-set_bit x (suc k) zero =
    ground
      (arith, set_bit-suc x k, is_set-low (set_bit (x / 2) k) (x % 2) (omega arith), is_set-zero x)
is_set-set_bit x (suc k) (suc j) = ground (
  arith,
  set_bit-suc x k,
  is_set-cons (set_bit (x / 2) k) (x % 2) j (omega arith),
  is_set-suc x j,
  is_set-set_bit (x / 2) k j,
)

ones-suc : (w x : ℕ) → bit_and x (2 ^ suc w - 1) ≡ bit_and (x / 2) (2 ^ w - 1) * 2 + x % 2
ones-suc w x =
    let e : 2 ^ suc w - 1 ≡ (2 ^ w - 1) * 2 + 1 =
      omega (arith, pow-suc 2 w, one-le-pow w 2 (omega arith)) in
    rw e (and-odd x (2 ^ w - 1))

-- The low `w` bits of a mask of `w` ones let everything through.
is_set-ones : (w x j : ℕ) → j < w → is_set (bit_and x (2 ^ w - 1)) j ≡ is_set x j
is_set-ones zero x j h = absurd (omega arith)
is_set-ones (suc w) x zero h =
    rw (ones-suc w x, is_set-low (bit_and (x / 2) (2 ^ w - 1)) (x % 2) (omega arith), is_set-zero x)
is_set-ones (suc w) x (suc j) h = rw (
  ones-suc w x,
  is_set-cons (bit_and (x / 2) (2 ^ w - 1)) (x % 2) j (omega arith),
  is_set-suc x j,
  is_set-ones w (x / 2) j (omega arith),
)

clear_bit-zero : (w x : ℕ) → clear_bit (suc w) x 0 ≡ bit_and (x / 2) (2 ^ w - 1) * 2 + 0
unfolding clear_bit
clear_bit-zero w x =
    let e : 2 ^ suc w - 1 - 1 ≡ (2 ^ w - 1) * 2 = omega (arith, pow-suc 2 w) in
    rw e (omega (arith, and-double x (2 ^ w - 1)))

clear_bit-suc :
    (w x k : ℕ) → k < w → clear_bit (suc w) x (suc k) ≡ clear_bit w (x / 2) k * 2 + x % 2
unfolding clear_bit
clear_bit-suc w x k h =
    let e : 2 ^ suc w - 1 - 2 ^ suc k ≡ (2 ^ w - 1 - 2 ^ k) * 2 + 1 =
      omega (arith, pow-suc 2 w, pow-suc 2 k, one-le-pow k 2 (omega arith), pow_lt k w h) in
    rw e (and-odd x (2 ^ w - 1 - 2 ^ k))

-- Clearing a bit of a word of `w` bits clears that bit and no other.
pub is_set-clear_bit :
    (w x k j : ℕ)
    → k < w
    → j < w
    → is_set (clear_bit w x k) j ≡ (if k == j then false else is_set x j)
is_set-clear_bit zero x k j hk hj = absurd (omega arith)
is_set-clear_bit (suc w) x zero zero hk hj =
    rw clear_bit-zero (is_set-low (bit_and (x / 2) (2 ^ w - 1)) 0 (omega arith))
is_set-clear_bit (suc w) x zero (suc j) hk hj = ground (
  arith,
  clear_bit-zero w x,
  is_set-cons (bit_and (x / 2) (2 ^ w - 1)) 0 j (omega arith),
  is_set-ones w (x / 2) j (omega arith),
  is_set-suc x j,
)
is_set-clear_bit (suc w) x (suc k) zero hk hj = ground (
  arith,
  clear_bit-suc w x k (omega arith),
  is_set-low (clear_bit w (x / 2) k) (x % 2) (omega arith),
  is_set-zero x,
)
is_set-clear_bit (suc w) x (suc k) (suc j) hk hj = ground (
  arith,
  clear_bit-suc w x k (omega arith),
  is_set-cons (clear_bit w (x / 2) k) (x % 2) j (omega arith),
  is_set-suc x j,
  is_set-clear_bit w (x / 2) k j (omega arith) (omega arith),
)

-- No bit of the word 0 is set.
pub is_set_empty : (k : ℕ) → is_set 0 k ≡ false
unfolding is_set
is_set_empty k = let e : bit_and 0 (2 ^ k) ≡ 0 = bit_and-bitwise 0 (2 ^ k) in rw e

-- A word whose last `k` bits are clear, and one that has no more bits than these.
pub or_low : (k a b : ℕ) → b < 2 ^ k → bit_or (a * 2 ^ k) b ≡ a * 2 ^ k + b
or_low zero a b h =
    let e : b ≡ 0 = omega arith in
    let e' : a * 1 ≡ a = omega arith in rw (e, e') (omega (arith, or-zero a a (omega arith)))
or_low (suc k) a b h =
    let power : a * 2 ^ suc k ≡ a * 2 ^ k * 2 =
      ap (λ (x : ℕ). a * x) (pow-suc 2 k) ∙ sym (mul_assoc a (2 ^ k) 2) in
    let half : a * 2 ^ k * 2 / 2 ≡ a * 2 ^ k = omega arith in
    rw power (
      omega (
        arith,
        or_step (a * 2 ^ k * 2) b,
        ap (λ (x : ℕ). bit_or x (b / 2)) half,
        or_low k a (b / 2) (omega (arith, pow-suc 2 k)),
      ))
