-- ===== src/User/Password.antt =====
-- Changing and checking a password, src/user/main.c.
use dek_os.Base.{
  ℕ, ◌<◌, ◌≡◌, ◌≢◌, refl, ◌∙◌, true, false, arith, leb, ◌==◌, Bool-cases, inl, inr, ok,
}
use dek_os.Memory.Text.{Str}
use dek_os.User.{Users, max_users, put, fnv1a_hash, user_set_password, user_match}

module _ (id : ℕ) (us : Users) (inside : id < max_users) where
  in_range : leb max_users id ≡ false
  in_range = ground arith

  user_match-hash :
      (pass : Str) (h : ℕ)
      → fnv1a_hash pass ≡ ok h
      → user_match id pass us ≡ ok ((us.slot id).pass_hash == h)
  unfolding user_match
  user_match-hash pass h e = rw (in_range, e)

  -- With the current password, `UserSetPassword` stores the hash of the new one, and touches nothing
  -- else.
  set_password-right :
      (to current : Str) (h : ℕ)
      → fnv1a_hash current ≡ ok (us.slot id).pass_hash
      → fnv1a_hash to ≡ ok h
      → user_set_password id to current us
        ≡ ok (record us { slot = put us.slot id (record (us.slot id) { pass_hash = h }) })
  unfolding user_set_password
  set_password-right to current h right new =
      let same : ((us.slot id).pass_hash == (us.slot id).pass_hash) ≡ true = ground arith in
      rw (in_range, right, same, new)

  -- With any other password it changes nothing.
  set_password-wrong :
      (to current : Str) (h : ℕ)
      → fnv1a_hash current ≡ ok h
      → h ≢ (us.slot id).pass_hash
      → user_set_password id to current us ≡ ok us
  unfolding user_set_password
  set_password-wrong to current h e wrong =
      let differ : ((us.slot id).pass_hash == h) ≡ false = ground arith in rw (in_range, e, differ)

-- For a user of the table, `UserSetPassword` with the right current password makes the new password match, for that user, and
-- keeps every other user's entry; with a wrong one it changes nothing
-- at all.
pub set_password-match :
    (id : ℕ) (us : Users) (to current : Str) (h new : ℕ)
    → id < max_users
    → fnv1a_hash current ≡ ok h
    → fnv1a_hash to ≡ ok new
    → (us' : Users) × (user_set_password id to current us ≡ ok us')
      × (h ≡ (us.slot id).pass_hash → user_match id to us' ≡ ok true)
      × (h ≢ (us.slot id).pass_hash → us' ≡ us)
      × ((j : ℕ) → j ≢ id → us'.slot j ≡ us.slot j)
set_password-match id us to current h new inside e e' =
    elim (Bool-cases (h == (us.slot id).pass_hash)) [
      | inl right ↦ (
        changed,
        set_password-right id us inside to current new (ground (arith, e)) e',
        (λ _. user_match-hash id changed inside to new e' ∙ ground arith),
        (λ wrong. absurd (wrong (ground arith))),
        λ j ne. ground arith,
      )
      | inr wrong ↦ (
        us,
        set_password-wrong id us inside to current h e (ground arith),
        (λ same. absurd (ground arith)),
        (λ _. refl),
        λ j ne. refl,
      )
    ]
  where
    changed : Users
    changed = record us { slot = put us.slot id (record (us.slot id) { pass_hash = new }) }
