-- ===== src/User.antt =====
-- The user table of src/user/main.c: eight slots, a password hash, and the login loop.
-- `users` and `user_count` are one record. A slot past the last one is memory behind the array; no
-- operation reaches it. What `gets` reads from the keyboard is an argument of the login.
pub mod Hash
pub mod Password
pub mod Slots
pub mod Login
pub mod Load
mod Tests
use dek_os.Base.{
  ℕ, zero, suc, ◌+◌, ◌*◌, ◌%◌, ◌^◌, Bool, true, false, not, ◌&&◌, bit_and, bit_xor, ltb, leb, ◌==◌,
  if◌then◌else◌, Option, none, some, Run, ok, hung, ◌>>=◌, Mem,
}
use dek_os.Base.Int.{ℤ, pos}
use dek_os.Memory.Text.{Str, ncsstrncmp, strncpy}

-- `USER`; `name` is what the field's twelve bytes hold
pub record User : Type 0 where
  pub name : Str
  pub flags : ℕ
  pub user_id : ℕ
  pub pass_hash : ℕ

pub record Users : Type 0 where
  pub slot : ℕ → User
  pub user_count : ℕ

abbrev pub max_users : ℕ
max_users = 8

abbrev pub user_name_length : ℕ
user_name_length = 12

abbrev pub flag_valid : ℕ
flag_valid = 8

abbrev pub flag_can_launch : ℕ
flag_can_launch = 16

abbrev pub no_user : User
no_user = record { name = λ _. 0; flags = 0; user_id = 0; pass_hash = 0 }

-- `users[i] = u`
abbrev pub put : (ℕ → User) → ℕ → User → ℕ → User
put slot i u j = if j == i then u else slot j

-- `users[i].Flags & USER_FLAG_VALID`
abbrev pub is_valid : Users → ℕ → Bool
is_valid us i = not (bit_and (us.slot i).flags flag_valid == 0)

abbrev pub seed : ℕ
seed = bit_xor 2166136261 0x8095634

unfoldable pub hash_loop : ℕ → Str → ℕ → ℕ → Run ℕ
hash_loop zero s h i = hung
hash_loop (suc fuel) s h i =
    let rest = hash_loop fuel s (bit_xor h (s i % 256) * 16777619 % 2 ^ 32) (i + 1) in
    if s i == 0 then ok h else rest

unfoldable pub fnv1a_hash : Str → Run ℕ
fnv1a_hash s = hash_loop (2 ^ 32) s seed 0

-- the scan of `FindInvalidUser` from slot `i` on, with `n` slots left
unfoldable pub find_invalid_loop : ℕ → ℕ → Users → Option ℕ
find_invalid_loop zero i us = none
find_invalid_loop (suc n) i us =
    let rest = find_invalid_loop n (i + 1) us in if is_valid us i then rest else some i

unfoldable pub find_invalid_user : Users → Option ℕ
unfolding find_invalid_loop
find_invalid_user us = find_invalid_loop max_users 0 us

unfoldable pub user_set_password : ℕ → Str → Str → Users → Run Users
user_set_password id to current us = if leb max_users id then ok us else do
  current_hash ← fnv1a_hash current
  if not ((us.slot id).pass_hash == current_hash) then ok us else do
    h ← fnv1a_hash to
    ok (record us { slot = put us.slot id (record (us.slot id) { pass_hash = h }) })

unfoldable pub user_match : ℕ → Str → Users → Run Bool
user_match id with_pass us =
    if leb max_users id
    then ok false
    else do h ← fnv1a_hash with_pass; ok ((us.slot id).pass_hash == h)

-- `none` is the result -1.
unfoldable pub user_add : User → Users → Option ℕ × Users
unfolding find_invalid_user
user_add new us = elim (find_invalid_user us) [
  | none ↦ (none, us)
  | some i ↦
      (some i, record us { slot = put us.slot i new; user_count = (us.user_count + 1) % 2 ^ 32 })
]

unfoldable pub user_rem : ℕ → Users → Users
user_rem idx us =
    if ltb 0 idx && ltb idx max_users then record us { slot = put us.slot idx no_user } else us

unfoldable pub user_test : ℕ → ℕ → Users → ℕ
user_test idx mask us =
    if ltb 0 idx && ltb idx max_users
    then bit_and (us.slot idx).flags mask
    else if idx == 0
    then 0xff
    else 0

abbrev pub is_zero : ℤ → Bool
is_zero (pos zero) = true
is_zero _ = false

unfoldable pub find_loop : ℕ → ℕ → Str → Users → Option ℕ
find_loop zero i name us = none
find_loop (suc n) i name us =
    let rest = find_loop n (i + 1) name us in
    if is_valid us i && is_zero (ncsstrncmp name (us.slot i).name user_name_length)
    then some i
    else rest

unfoldable pub user_find : Str → Users → Option ℕ
unfolding find_loop
user_find name us = find_loop max_users 0 name us

-- The login loop, with `n` attempts left: `typed k` is the name and the password of attempt `k`.
unfoldable pub login_loop : ℕ → ℕ → (ℕ → Str × Str) → Users → Run (Option ℕ)
login_loop zero k typed us = ok none
login_loop (suc n) k typed us =
    let (name, pass) = typed k in
    let again = login_loop n (k + 1) typed us in
    elim (user_find name us) [
      | none ↦ again
      | some id ↦ user_match id pass us >>= λ matches. if matches then ok (some id) else again
    ]

unfoldable pub user_login : (ℕ → Str × Str) → Users → Run (Option ℕ)
user_login typed us = login_loop 4 0 typed us

unfoldable pub user_name : Mem → ℕ → ℕ → Users → Mem
user_name buf len id us = if ltb id max_users then strncpy buf (us.slot id).name len else buf
