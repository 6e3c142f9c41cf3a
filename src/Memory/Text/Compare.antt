-- ===== src/Memory/Text/Compare.antt =====
-- What a zero result of the comparisons of src/memory/string.c means.
use mathlib.Core.Logic.{◌↔◌}
use native.Mathlib.Nat.{add-zero, zero-add}
use dek_os.Base.{
  ok-injective, sym, ap, ◌∙◌, ◌⊎◌, ℕ, zero, suc, ◌+◌, ◌^◌, ◌<◌, ◌≡◌, refl, List, [], ◌∷◌, Bool,
  true, false, arith, ◌==◌, ◌&&◌, if◌then◌else◌, ok, Bool-cases, inl, inr,
}
use dek_os.Base.Int.{ℤ, pos, sub_ℕ, sub_ℕ-zero}
use dek_os.Memory.Text.{
  Str, memcmp_loop, memcmp, strcmp_loop, strcmp, tolower, ncsstrncmp_loop, ncsstrncmp,
}
use dek_os.Memory.Text.Scan.{length, IsStrAt, IsStr}

-- The order of two lists of bytes: the difference at the first place where they differ, where a list
-- that ends counts as 0.
unfoldable pub difference : List ℕ → List ℕ → ℤ
difference [] [] = pos 0
difference [] (d ∷ ys) = sub_ℕ 0 d
difference (c ∷ xs) [] = sub_ℕ c 0
difference (c ∷ xs) (d ∷ ys) = if c == d then difference xs ys else sub_ℕ c d

strcmp_loop-difference :
    (xs ys : List ℕ) (fuel : ℕ) (s t : Str) (i : ℕ)
    → IsStrAt s i xs
    → IsStrAt t i ys
    → length xs < fuel
    → strcmp_loop fuel s t i ≡ ok (difference xs ys)
unfolding strcmp_loop difference
strcmp_loop-difference xs ys zero s t i v w h = absurd (omega arith)
strcmp_loop-difference [] [] (suc fuel) s t i v w h = ground arith
strcmp_loop-difference [] (d ∷ ys) (suc fuel) s t i v w h = ground arith
strcmp_loop-difference (c ∷ xs) [] (suc fuel) s t i v w h = ground arith
strcmp_loop-difference (c ∷ xs) (d ∷ ys) (suc fuel) s t i v w h =
    ground (arith, strcmp_loop-difference xs ys fuel s t (i + 1) v.2 w.2 (omega arith))

-- `strcmp` of two texts returns their difference.
pub strcmp-difference :
    (s t : Str) (xs ys : List ℕ)
    → IsStr s xs
    → IsStr t ys
    → length xs < 2 ^ 32
    → strcmp s t ≡ ok (difference xs ys)
unfolding strcmp
strcmp-difference s t xs ys v w h = strcmp_loop-difference xs ys (2 ^ 32) s t 0 v w h

difference-zero :
    (xs ys : List ℕ) (s t : Str) (i : ℕ)
    → IsStrAt s i xs
    → IsStrAt t i ys
    → difference xs ys ≡ pos 0
    → xs ≡ ys
unfolding difference
difference-zero [] [] s t i v w e = refl
difference-zero [] (d ∷ ys) s t i v w e = ground arith
difference-zero (c ∷ xs) [] s t i v w e = ground arith
difference-zero (c ∷ xs) (d ∷ ys) s t i v w e =
    ground (arith, difference-zero xs ys s t (i + 1) v.2 w.2)

difference_self : (xs : List ℕ) → difference xs xs ≡ pos 0
unfolding difference
difference_self [] = refl
difference_self (c ∷ xs) = ground (arith, difference_self xs)

-- `strcmp` of two texts returns 0 exactly when they are the same text.
pub strcmp-zero :
    (s t : Str) (xs ys : List ℕ)
    → IsStr s xs
    → IsStr t ys
    → length xs < 2 ^ 32
    → (strcmp s t ≡ ok (pos 0)) ↔ (xs ≡ ys)
strcmp-zero s t xs ys v w h = (
  (λ e.
      difference-zero xs ys s t 0 v w (ok-injective (sym (strcmp-difference s t xs ys v w h) ∙ e))),
  λ e. strcmp-difference s t xs ys v w h ∙ ap ok (rw (← e) (difference_self xs)),
)

memcmp_loop-zero :
    (n : ℕ) (s t : Str) (i k : ℕ) → memcmp_loop n s t i ≡ pos 0 → k < n → s (i + k) ≡ t (i + k)
unfolding memcmp_loop
memcmp_loop-zero zero s t i k e h = absurd (omega arith)
memcmp_loop-zero (suc n) s t i zero e h = rw add-zero (ground (arith, sub_ℕ-zero (s i) (t i)))
memcmp_loop-zero (suc n) s t i (suc k) e h =
    let next : i + suc k ≡ i + 1 + k = omega arith in
    rw next
      (memcmp_loop-zero n s t (i + 1) k (ground (arith, sub_ℕ-zero (s i) (t i))) (omega arith))

memcmp_loop_same :
    (n : ℕ) (s t : Str) (i : ℕ)
    → ((k : ℕ) → k < n → s (i + k) ≡ t (i + k))
    → memcmp_loop n s t i ≡ pos 0
unfolding memcmp_loop
memcmp_loop_same zero s t i same = refl
memcmp_loop_same (suc n) s t i same =
    let here : s i ≡ t i = rw add-zero at (same 0 (omega arith)) in
    ground (arith, memcmp_loop_same n s t (i + 1) (λ k h. later k (same (suc k) (omega arith))))
  where
    later : (k : ℕ) → s (i + suc k) ≡ t (i + suc k) → s (i + 1 + k) ≡ t (i + 1 + k)
    later k e = let next : i + 1 + k ≡ i + suc k = omega arith in rw next e

-- `memcmp` returns 0 exactly when the first `n` bytes are the same.
pub memcmp-zero : (n : ℕ) (s t : Str) → (memcmp s t n ≡ pos 0) ↔ ((k : ℕ) → k < n → s k ≡ t k)
unfolding memcmp
memcmp-zero n s t = (
  (λ e k h. rw zero-add at (memcmp_loop-zero n s t 0 k e h)),
  λ same. memcmp_loop_same n s t 0 (λ k h. rw (zero-add k) (same k h)),
)

-- The lists agree up to case in their first `n` bytes, or up to the end of both.
unfoldable pub same_up_to_case : ℕ → List ℕ → List ℕ → Bool
same_up_to_case zero xs ys = true
same_up_to_case (suc n) [] [] = true
same_up_to_case (suc n) [] (d ∷ ys) = false
same_up_to_case (suc n) (c ∷ xs) [] = false
same_up_to_case (suc n) (c ∷ xs) (d ∷ ys) = (tolower c == tolower d) && same_up_to_case n xs ys

tolower-zero : (c : ℕ) → tolower c ≡ 0 → c ≡ 0
unfolding tolower
tolower-zero c h = ground arith

tolower_nul : tolower 0 ≡ 0
unfolding tolower
tolower_nul = refl

ncsstrncmp_loop-suc :
    (n : ℕ) (s t : Str) (i : ℕ)
    → (ncsstrncmp_loop (suc n) s t i ≡ pos 0)
      ↔ ((tolower (s i) ≡ tolower (t i)) × ((s i ≡ 0) ⊎ (ncsstrncmp_loop n s t (i + 1) ≡ pos 0)))
unfolding ncsstrncmp_loop
ncsstrncmp_loop-suc n s t i = (to, from)
  where
    differ : {a b : ℕ} → (a == b) ≡ false → ¬ (a ≡ b)
    differ h e = ground arith

    to :
        ncsstrncmp_loop (suc n) s t i ≡ pos 0
        → (tolower (s i) ≡ tolower (t i)) × ((s i ≡ 0) ⊎ (ncsstrncmp_loop n s t (i + 1) ≡ pos 0))
    to e = elim (Bool-cases (tolower (s i) == tolower (t i))) [
      | inl same ↦ ground arith
      | inr other ↦
          let equal : s i ≡ t i = sub_ℕ-zero (s i) (t i) (rw other at e) in
          absurd (differ other (ap tolower equal))
    ]

    from :
        (tolower (s i) ≡ tolower (t i)) × ((s i ≡ 0) ⊎ (ncsstrncmp_loop n s t (i + 1) ≡ pos 0))
        → ncsstrncmp_loop (suc n) s t i ≡ pos 0
    from (e, rest) = elim (Bool-cases (s i == 0)) [
      | inl last ↦
          let z : s i ≡ 0 = ground arith in
          let z' : t i ≡ 0 = tolower-zero (t i) (sym e ∙ ap tolower z ∙ tolower_nul) in ground arith
      | inr more ↦ ground arith
    ]

same-cons :
    (n c d : ℕ) (xs ys : List ℕ) (s t : Str) (i : ℕ)
    → IsStrAt s i (c ∷ xs)
    → IsStrAt t i (d ∷ ys)
    → ((ncsstrncmp_loop n s t (i + 1) ≡ pos 0) ↔ (same_up_to_case n xs ys ≡ true))
    → (ncsstrncmp_loop (suc n) s t i ≡ pos 0) ↔ (same_up_to_case (suc n) (c ∷ xs) (d ∷ ys) ≡ true)
unfolding same_up_to_case
same-cons n c d xs ys s t i v w ih = (to, from)
  where
    left : tolower (s i) ≡ tolower c
    left = ap tolower v.0

    right : tolower (t i) ≡ tolower d
    right = ap tolower w.0

    to :
        ncsstrncmp_loop (suc n) s t i ≡ pos 0
        → ((tolower c == tolower d) && same_up_to_case n xs ys) ≡ true
    to e = after ((ncsstrncmp_loop-suc n s t i).0 e)
      where
        after :
            (tolower (s i) ≡ tolower (t i)) × ((s i ≡ 0) ⊎ (ncsstrncmp_loop n s t (i + 1) ≡ pos 0))
            → ((tolower c == tolower d) && same_up_to_case n xs ys) ≡ true
        after (p, inl z) = absurd (v.1 (sym v.0 ∙ z))
        after (p, inr rest) = ground (arith, left, right, ih.0 rest)

    from :
        ((tolower c == tolower d) && same_up_to_case n xs ys) ≡ true
        → ncsstrncmp_loop (suc n) s t i ≡ pos 0
    from e =
        (ncsstrncmp_loop-suc n s t i).1 (ground (arith, left, right), inr (ih.1 (ground arith)))

ncsstrncmp_loop-same :
    (n : ℕ) (xs ys : List ℕ) (s t : Str) (i : ℕ)
    → IsStrAt s i xs
    → IsStrAt t i ys
    → (ncsstrncmp_loop n s t i ≡ pos 0) ↔ (same_up_to_case n xs ys ≡ true)
ncsstrncmp_loop-same zero xs ys s t i v w = none_left
  where
    none_left : (ncsstrncmp_loop 0 s t i ≡ pos 0) ↔ (same_up_to_case 0 xs ys ≡ true)
    none_left = unfold ncsstrncmp_loop same_up_to_case in (λ _. refl, λ _. refl)
ncsstrncmp_loop-same (suc n) [] [] s t i v w = (
  (λ _. unfold same_up_to_case in refl),
  λ _. (ncsstrncmp_loop-suc n s t i).1 (ap tolower (v ∙ sym w), inl v),
)
ncsstrncmp_loop-same (suc n) [] (d ∷ ys) s t i v w =
    ((λ e. absurd (clash ((ncsstrncmp_loop-suc n s t i).0 e).0)), λ e. unfold same_up_to_case in cc)
  where
    clash : ¬ (tolower (s i) ≡ tolower (t i))
    clash e = absurd (w.1 (sym w.0 ∙ tolower-zero (t i) (sym e ∙ ap tolower v ∙ tolower_nul)))
ncsstrncmp_loop-same (suc n) (c ∷ xs) [] s t i v w =
    ((λ e. absurd (clash ((ncsstrncmp_loop-suc n s t i).0 e).0)), λ e. unfold same_up_to_case in cc)
  where
    clash : ¬ (tolower (s i) ≡ tolower (t i))
    clash e = absurd (v.1 (sym v.0 ∙ tolower-zero (s i) (e ∙ ap tolower w ∙ tolower_nul)))
ncsstrncmp_loop-same (suc n) (c ∷ xs) (d ∷ ys) s t i v w =
    same-cons n c d xs ys s t i v w (ncsstrncmp_loop-same n xs ys s t (i + 1) v.2 w.2)

-- `ncsstrncmp` of two texts returns 0 exactly when they agree up to case in their first `n` bytes, or
-- are the same text up to case.
pub ncsstrncmp-same :
    (n : ℕ) (s t : Str) (xs ys : List ℕ)
    → IsStr s xs
    → IsStr t ys
    → (ncsstrncmp s t n ≡ pos 0) ↔ (same_up_to_case n xs ys ≡ true)
unfolding ncsstrncmp
ncsstrncmp-same n s t xs ys v w = ncsstrncmp_loop-same n xs ys s t 0 v w
