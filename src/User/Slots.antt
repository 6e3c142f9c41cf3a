-- ===== src/User/Slots.antt =====
-- Adding, removing, finding and testing users, src/user/main.c.
use dek_os.Base.{
  ℕ, zero, suc, ◌+◌, ◌/◌, ◌%◌, ◌^◌, ◌≤◌, ◌<◌, ◌≡◌, ◌≢◌, refl, true, false, arith, ◌==◌, ◌&&◌,
  Bool-cases, inl, inr, ◌⊎◌, Option, none, some, bit_and,
}
use dek_os.Base.Bits.{and_step, and-zero}
use dek_os.Memory.Text.{Str, ncsstrncmp}
use dek_os.User.{
  User, Users, max_users, user_name_length, flag_valid, flag_can_launch, put, is_valid, is_zero,
  find_invalid_loop, user_add, user_rem, user_test, find_loop, user_find,
}

-- The first slot from `i` on, below `stop`, that is not valid.
abbrev FirstInvalid : Users → ℕ → ℕ → Option ℕ → Type 0
FirstInvalid us i stop none = (j : ℕ) → i ≤ j → j < stop → is_valid us j ≡ true
FirstInvalid us i stop (some f) =
    (i ≤ f)
    × (f < stop)
    × (is_valid us f ≡ false)
    × ((j : ℕ) → i ≤ j → j < f → is_valid us j ≡ true)

FirstInvalid-skip :
    (us : Users) (i stop : ℕ) (r : Option ℕ)
    → is_valid us i ≡ true
    → FirstInvalid us (i + 1) stop r
    → FirstInvalid us i stop r
FirstInvalid-skip us i stop none busy all = λ j lo hi. grind (arith, all)
FirstInvalid-skip us i stop (some f) busy (lo, hi, free, all) =
    (omega arith, hi, free, λ j a b. grind (arith, all))

find_invalid_loop-First :
    (n i stop : ℕ) (us : Users) → i + n ≡ stop → FirstInvalid us i stop (find_invalid_loop n i us)
unfolding find_invalid_loop
find_invalid_loop-First zero i stop us e = λ j lo hi. absurd (omega arith)
find_invalid_loop-First (suc n) i stop us e = elim (Bool-cases (is_valid us i)) [
  | inl busy ↦
      rw busy (
        FirstInvalid-skip us i stop _ busy
          (find_invalid_loop-First n (i + 1) stop us (omega arith)))
  | inr free ↦ rw free (omega arith, omega arith, free, λ j a b. absurd (omega arith))
]

-- the outcomes of `UserAdd`
abbrev pub Added : User → Users → Option ℕ × Users → Type 0
Added new us r =
    (r ≡ (none, us)) × ((j : ℕ) → j < max_users → is_valid us j ≡ true)
    ⊎ ((f : ℕ) × (f < max_users)
        × (is_valid us f ≡ false)
        × ((j : ℕ) → j < f → is_valid us j ≡ true)
        × (r ≡ (
          some f,
          record us { slot = put us.slot f new; user_count = (us.user_count + 1) % 2 ^ 32 },
        )))

-- With every slot valid `UserAdd` returns -1 and changes nothing; otherwise it stores the user in the
-- first slot that is not valid, counts it, and returns that slot.
pub user_add-Added : (new : User) (us : Users) → Added new us (user_add new us)
unfolding user_add
user_add-Added new us =
    after (find_invalid_loop max_users 0 us) refl
      (find_invalid_loop-First max_users 0 max_users us (omega arith))
  where
    after :
        (o : Option ℕ)
        → find_invalid_loop max_users 0 us ≡ o
        → FirstInvalid us 0 max_users o
        → Added new us (user_add new us)
    after none e all = inl (rw (e, user_add), λ j h. all j (omega arith) h)
    after (some f) e (_, hi, free, first) =
        inr (f, hi, free, (λ j h. first j (omega arith) h), rw (e, user_add))

-- `UserRem` never touches user 0, clears any other user of the table, and leaves the rest alone.
pub user_rem_lem :
    (idx j : ℕ) (us : Users)
    → ((user_rem idx us).slot 0 ≡ us.slot 0)
      × (j ≢ idx → (user_rem idx us).slot j ≡ us.slot j)
      × (0 < idx → idx < max_users → is_valid (user_rem idx us) idx ≡ false)
unfolding user_rem
user_rem_lem idx j us = (ground arith, ground arith, ground arith)

either_flag : (f : ℕ) → bit_and f 24 ≡ 0 → bit_and f 8 ≡ 0
either_flag f h = omega (
  arith,
  and_step f 24,
  and_step (f / 2) 12,
  and_step (f / 2 / 2) 6,
  and_step (f / 2 / 2 / 2) 3,
  and_step f 8,
  and_step (f / 2) 4,
  and_step (f / 2 / 2) 2,
  and_step (f / 2 / 2 / 2) 1,
  and-zero (f / 2 / 2 / 2 / 2) (f / 2 / 2 / 2 / 2) (omega arith),
)

-- `UserTest` for the flags VALID and CAN_LAUNCH, which guards the creation of a process, passes for
-- every valid user of the table but user 0, whether or not that user may launch programs.
pub user_test_either :
    (idx : ℕ) (us : Users)
    → 0 < idx
    → idx < max_users
    → is_valid us idx ≡ true
    → user_test idx (flag_valid + flag_can_launch) us ≢ 0
unfolding user_test
user_test_either idx us pos_idx inside valid zero_test =
    ground (arith, either_flag (us.slot idx).flags)

-- Slot `i` is valid, and `ncsstrncmp` finds its name to be the one asked for.
abbrev pub Matching : Str → Users → ℕ → Type 0
Matching name us i =
    (is_valid us i ≡ true) × (is_zero (ncsstrncmp name (us.slot i).name user_name_length) ≡ true)

abbrev pub FirstMatch : Str → Users → ℕ → Option ℕ → Type 0
FirstMatch name us i none = (j : ℕ) → i ≤ j → j < max_users → ¬ Matching name us j
FirstMatch name us i (some f) =
    (i ≤ f)
    × (f < max_users)
    × Matching name us f
    × ((j : ℕ) → i ≤ j → j < f → ¬ Matching name us j)

FirstMatch-skip :
    (name : Str) (us : Users) (i : ℕ) (r : Option ℕ)
    → ¬ Matching name us i
    → FirstMatch name us (i + 1) r
    → FirstMatch name us i r
FirstMatch-skip name us i none other all = λ j lo hi. elim (Bool-cases (j == i)) [
  | inl same ↦ let e : j ≡ i = ground arith in rw e other
  | inr later ↦ all j (ground arith) hi
]
FirstMatch-skip name us i (some f) other (lo, hi, m, all) = (
  omega arith,
  hi,
  m,
  λ j a b. elim (Bool-cases (j == i)) [
    | inl same ↦ let e : j ≡ i = ground arith in rw e other
    | inr later ↦ all j (ground arith) b
  ],
)

find_loop-First :
    (n i : ℕ) (name : Str) (us : Users)
    → i + n ≡ max_users
    → FirstMatch name us i (find_loop n i name us)
unfolding find_loop
find_loop-First zero i name us e = λ j lo hi. absurd (omega arith)
find_loop-First (suc n) i name us e =
    elim (Bool-cases
      (is_valid us i && is_zero (ncsstrncmp name (us.slot i).name user_name_length))) [
        | inl hit ↦
            rw hit (
              omega arith,
              omega arith,
              (ground arith, ground arith),
              λ j a b. absurd (omega arith),
            )
        | inr miss ↦ rw miss (
            FirstMatch-skip name us i _ (λ m. cc (miss, both m))
              (find_loop-First n (i + 1) name us (omega arith)))
      ]
  where
    both :
        Matching name us i
        → (is_valid us i && is_zero (ncsstrncmp name (us.slot i).name user_name_length)) ≡ true
    both (v, m) = ground arith

-- `UserFind` returns the first slot of the table that is valid and whose name `ncsstrncmp` finds to be
-- the one asked for, and -1 exactly when there is none.
pub user_find-First : (name : Str) (us : Users) → FirstMatch name us 0 (user_find name us)
unfolding user_find
user_find-First name us = find_loop-First max_users 0 name us (omega arith)
