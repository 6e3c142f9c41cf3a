-- ===== src/Memory/Text/Print/Decimal.antt =====
-- The decimal numbers that `itos` of src/memory/string.c writes, as `atoi` reads them.
use dek_os.Base.{
  Bool-cases, inl, inr, ℕ, zero, suc, ◌+◌, ◌-◌, ◌*◌, ◌/◌, ◌%◌, ◌^◌, ◌<◌, ◌≤◌, ◌≡◌, refl, ap, ◌∙◌,
  List, [], ◌∷◌, false, arith, leb, ◌&&◌, ◌==◌, if◌then◌else◌, ok, Mem, store,
}
use dek_os.Base.Int.{pos, negsuc}
use dek_os.Memory.Text.{atoi, isdigit}
use dek_os.Memory.Text.Scan.{length}
use dek_os.Memory.Text.Parse.{HasDigits, number, atoi-number}
use dek_os.Memory.Text.Print.{digit_char, digits_loop, reverse_loop, finish, itos}

-- The reversal takes what stands between `start` and `end` from the other side.
reverse_loop_lem :
    (n : ℕ) (str : Mem) (start end k : ℕ)
    → end ≤ start + n
    → reverse_loop n str start end k
      ≡ (if leb start k && leb k end then str (start + end - k) else str k)
unfolding reverse_loop
reverse_loop_lem zero str start end k h = elim (Bool-cases (leb start k && leb k end)) [
  | inl here ↦ let e : start + end - k ≡ k = ground arith in rw (here, e)
  | inr outside ↦ rw outside
]
reverse_loop_lem (suc n) str start end k h = ground (
  arith,
  reverse_loop_lem n (store (store str start (str end)) end (str start)) (start + 1) (end - 1) k
      (omega arith),
)

-- What `finish` leaves: the bytes in the other order, and the NUL behind them.
finish-byte : (i : ℕ) (str : Mem) (k : ℕ) → k < i → finish i str k ≡ str (i - 1 - k)
unfolding finish
finish-byte i str k h = ground (arith, reverse_loop_lem i (store str i 0) 0 (i - 1) k (omega arith))

finish-nul : (i : ℕ) (str : Mem) → finish i str i ≡ 0
unfolding finish
finish-nul i str = ground (arith, reverse_loop_lem i (store str i 0) 0 (i - 1) i (omega arith))

-- `str` holds the digits from index 0 on, the last one first.
abbrev BackDigits : Mem → List ℕ → Type 0
BackDigits str [] = Unit
BackDigits str (d ∷ ds) = (d < 10) × (str (length ds) ≡ b'0' + d) × BackDigits str ds

-- Writing behind the digits leaves them.
BackDigits-store :
    (str : Mem) (ds : List ℕ) (i c : ℕ)
    → length ds ≤ i
    → BackDigits str ds
    → BackDigits (store str i c) ds
BackDigits-store str [] i c h v = v
BackDigits-store str (d ∷ ds) i c h v =
    (v.0, ground (arith, v.1), BackDigits-store str ds i c (omega arith) v.2)

-- `digits_loop` adds the digits of `m` in front of those that are there.
digits_loop-number :
    (fuel : ℕ) (str : Mem) (m : ℕ) (acc : List ℕ)
    → m < fuel
    → BackDigits str acc
    → (ds : List ℕ) × (str' : Mem) × (digits_loop fuel false 10 str m (length acc)
        ≡ ok (length ds, str'))
      × BackDigits str' ds
      × (number 10 0 ds ≡ number 10 m acc)
      × (length ds ≤ length acc + m + 1)
unfolding digits_loop number digit_char
digits_loop-number zero str m acc h v = absurd (omega arith)
digits_loop-number (suc fuel) str m acc h v =
    let i = length acc in
    let str' = store str i (digit_char false (m % 10)) in
    let acc' : List ℕ = m % 10 ∷ acc in
    let added : BackDigits str' acc' = (
      omega arith,
      ground arith,
      BackDigits-store str acc i (digit_char false (m % 10)) (omega arith) v,
    ) in
    let next : i + 1 ≡ length acc' = omega arith in
    let whole : m / 10 * 10 + m % 10 ≡ m = omega arith in
    elim (Bool-cases (m / 10 == 0)) [
      | inl last ↦
          let small : 0 * 10 + m % 10 ≡ m = ground arith in
          (
            acc',
            str',
            rw (last, next) refl,
            added,
            ap (λ (t : ℕ). number 10 t acc) small,
            omega arith,
          )
      | inr more ↦
          let (ds, str'', runs, holds, sum, short) =
            digits_loop-number fuel str' (m / 10) acc' (ground arith) added in
          (
            ds,
            str'',
            rw (more, next) runs,
            holds,
            sum ∙ ap (λ (t : ℕ). number 10 t acc) whole,
            ground arith,
          )
    ]

-- What was reversed reads as the digits, the first one first.
HasDigits-reversed :
    (ds : List ℕ) (str s : Mem) (j : ℕ)
    → BackDigits str ds
    → ((k : ℕ) → k < j + length ds → s k ≡ str (j + length ds - 1 - k))
    → isdigit (s (j + length ds)) ≡ false
    → HasDigits s j ds
HasDigits-reversed [] str s j v at stop = let e : j + 0 ≡ j = omega arith in rw (← e) stop
HasDigits-reversed (d ∷ ds) str s j v at stop =
    let e : j + suc (length ds) ≡ j + 1 + length ds = omega arith in
    let here : j + suc (length ds) - 1 - j ≡ length ds = omega arith in
    (
      v.0,
      at j (omega arith) ∙ ap str here ∙ v.1,
      HasDigits-reversed ds str s (j + 1) v.2 (rw (← e) at) (rw (← e) stop),
    )

-- `digits_loop` writes the digits of `n`.
abbrev Written : ℕ → Mem → Type 0
Written n str =
    (ds : List ℕ) × (str' : Mem) × (digits_loop (2 ^ 32) false 10 str n 0 ≡ ok (length ds, str'))
    × BackDigits str' ds
    × (number 10 0 ds ≡ n)
    × (length ds ≤ n + 1)

digits-Written : (n : ℕ) (str : Mem) → n < 2 ^ 32 → Written n str
unfolding number
digits-Written n str h =
    let (ds, str', runs, holds, sum, short) = digits_loop-number (2 ^ 32) str n [] h tt in
    (ds, str', runs, holds, sum, omega (arith, short))

-- What was reversed is read as the number of the digits.
atoi-reversed :
    (ds : List ℕ) (m : ℕ) (str s : Mem)
    → BackDigits str ds
    → number 10 0 ds ≡ m
    → m < 2 ^ 32
    → length ds < 2 ^ 32
    → ((k : ℕ) → k < length ds → s k ≡ str (length ds - 1 - k))
    → s (length ds) ≡ 0
    → atoi s ≡ ok (m, length ds)
unfolding isdigit
atoi-reversed ds m str s v sum small short at nul =
    let start : 0 + length ds ≡ length ds = omega arith in
    let stop : isdigit (s (length ds)) ≡ false = rw nul refl in
    let low : m % 2 ^ 32 ≡ m = omega arith in
    atoi-number s ds (HasDigits-reversed ds str s 0 v (rw start at) (rw start stop)) short
    ∙ rw (sum, low) refl

positive :
    (n : ℕ) (ds : List ℕ) (str : Mem)
    → BackDigits str ds
    → number 10 0 ds ≡ n
    → length ds ≤ n + 1
    → n < 2 ^ 31
    → atoi (finish (length ds) str) ≡ ok (n, length ds)
positive n ds str v sum short small =
    atoi-reversed ds n str (finish (length ds) str) v sum (omega arith) (omega arith)
      (finish-byte (length ds) str) (finish-nul (length ds) str)

negative :
    (n : ℕ) (ds : List ℕ) (str : Mem)
    → BackDigits str ds
    → number 10 0 ds ≡ n
    → length ds ≤ n + 1
    → n < 2 ^ 31
    → let s = finish (length ds + 1) (store str (length ds) b'-') in
      (s 0 ≡ b'-') × (atoi (λ k. s (k + 1)) ≡ ok (n, length ds))
negative n ds str v sum short small =
    let minus = store str (length ds) b'-' in
    let i = length ds + 1 in
    (
      finish-byte i minus 0 (omega arith) ∙ ground arith,
      atoi-reversed ds n str (λ k. finish i minus (k + 1)) v sum (omega arith) (omega arith)
          (λ k h. finish-byte i minus (k + 1) (omega arith) ∙ ground arith) (finish-nul i minus),
    )

-- For 0 ≤ n ≤ 2 ^ 31 - 2: `itos` in base 10 writes for n what `atoi` reads as n, and for -(n + 1), which
-- is -(2 ^ 31 - 1) at least, a minus sign, behind which `atoi` reads n + 1.
pub atoi-itos :
    (n : ℕ) (str : Mem)
    → n + 1 < 2 ^ 31
    → ((s : Mem) × (len : ℕ) × (itos (pos n) str 10 ≡ ok s) × (atoi s ≡ ok (n, len)))
      × ((s : Mem) × (len : ℕ) × (itos (negsuc n) str 10 ≡ ok s)
          × (s 0 ≡ b'-')
          × (atoi (λ k. s (k + 1)) ≡ ok (n + 1, len)))
unfolding itos
atoi-itos n str h =
    let (ds, str', runs, holds, sum, short) = digits-Written n str (omega arith) in
    let (es, str'', runs', holds', sum', short') = digits-Written (n + 1) str (omega arith) in
    let (sign, reads) = negative (n + 1) es str'' holds' sum' short' (omega arith) in
    (
      (
        finish (length ds) str',
        length ds,
        rw runs refl,
        positive n ds str' holds sum short (omega arith),
      ),
      (
        finish (length es + 1) (store str'' (length es) b'-'),
        length es,
        rw runs' refl,
        sign,
        reads,
      ),
    )
