-- ===== src/User/Login.antt =====
-- The login loop of src/user/main.c.
use dek_os.Base.{
  ℕ, zero, suc, ◌+◌, ◌≤◌, ◌<◌, ◌≡◌, ◌≢◌, ap, ◌∙◌, >>=-eq-ok, refl, true, false, Bool, arith, ◌==◌,
  Bool-cases, inl, inr, ◌⊎◌, leb, Option, none, some, Run, ok, ok-injective, panicked, hung,
  faulted,
}
use dek_os.Memory.Text.{Str}
use mathlib.Core.Path.{subst}
use dek_os.User.Slots.{FirstMatch, user_find-First}
use dek_os.User.{Users, max_users, user_find, user_match, login_loop, user_login, fnv1a_hash}

-- Slot `id` is the first of the table that is valid and has the name of attempt `k`, and the hash of
-- the password is the one stored there.
abbrev pub Succeeds : (ℕ → Str × Str) → Users → ℕ → ℕ → Type 0
Succeeds typed us k id =
    FirstMatch (typed k).0 us 0 (some id) × (fnv1a_hash (typed k).1 ≡ ok (us.slot id).pass_hash)

-- No valid slot has the name of attempt `k`, or the first that has it stores another hash.
abbrev pub Fails : (ℕ → Str × Str) → Users → ℕ → Type 0
Fails typed us k =
    FirstMatch (typed k).0 us 0 none
    ⊎ ((id : ℕ) × FirstMatch (typed k).0 us 0 (some id)
        × ((h : ℕ) × (fnv1a_hash (typed k).1 ≡ ok h) × (h ≢ (us.slot id).pass_hash)))

-- The user found is the first with the name.
find-FirstMatch :
    (name : Str) (us : Users) (o : Option ℕ) → user_find name us ≡ o → FirstMatch name us 0 o
find-FirstMatch name us o e =
    subst (λ (x : Option ℕ). FirstMatch name us 0 x) e (user_find-First name us)

-- For a slot of the table, `UserMatch` compares the hashes.
match_hash :
    (id : ℕ) (pass : Str) (us : Users) (b : Bool)
    → id < max_users
    → user_match id pass us ≡ ok b
    → (h : ℕ) × (fnv1a_hash pass ≡ ok h) × (((us.slot id).pass_hash == h) ≡ b)
unfolding user_match
match_hash id pass us b inside e =
    let low : leb max_users id ≡ false = ground arith in
    let compared = rw low at e in
    let (h, hashed, done) =
      >>=-eq-ok (fnv1a_hash pass) (λ h. ok ((us.slot id).pass_hash == h)) compared in
    (h, hashed, ok-injective done)

Succeeds-match :
    (typed : ℕ → Str × Str) (us : Users) (k id : ℕ)
    → user_find (typed k).0 us ≡ some id
    → user_match id (typed k).1 us ≡ ok true
    → Succeeds typed us k id
Succeeds-match typed us k id f m =
    let first = find-FirstMatch (typed k).0 us (some id) f in
    let (h, hashed, same) = match_hash id (typed k).1 us true first.1 m in
    let e : h ≡ (us.slot id).pass_hash = ground arith in (first, hashed ∙ ap (λ (x : ℕ). ok x) e)

Fails-match :
    (typed : ℕ → Str × Str) (us : Users) (k id : ℕ)
    → user_find (typed k).0 us ≡ some id
    → user_match id (typed k).1 us ≡ ok false
    → Fails typed us k
Fails-match typed us k id f m =
    let first = find-FirstMatch (typed k).0 us (some id) f in
    let (h, hashed, other) = match_hash id (typed k).1 us false first.1 m in
    inr (id, first, (h, hashed, ground arith))

-- The outcome of the attempts from `k` up to `stop`.
abbrev pub LoggedIn : (ℕ → Str × Str) → Users → ℕ → ℕ → Option ℕ → Type 0
LoggedIn typed us k stop none = (j : ℕ) → k ≤ j → j < stop → Fails typed us j
LoggedIn typed us k stop (some id) =
    (a : ℕ) × (k ≤ a)
    × (a < stop)
    × Succeeds typed us a id
    × ((j : ℕ) → k ≤ j → j < a → Fails typed us j)

module _ (typed : ℕ → Str × Str) (us : Users) where
  at_least :
      (k j : ℕ) → Fails typed us k → (k + 1 ≤ j → Fails typed us j) → k ≤ j → Fails typed us j
  at_least k j now later lo = elim (Bool-cases (j == k)) [
    | inl same ↦ let e : j ≡ k = ground arith in rw e now
    | inr after ↦ later (ground arith)
  ]

  LoggedIn-again :
      (k stop : ℕ) (r : Option ℕ)
      → Fails typed us k
      → LoggedIn typed us (k + 1) stop r
      → LoggedIn typed us k stop r
  LoggedIn-again k stop none now all = λ j lo hi. at_least k j now (λ lt. all j lt hi) lo
  LoggedIn-again k stop (some id) now (a, lo, hi, s, all) =
      (a, omega arith, hi, s, λ j x y. at_least k j now (λ lt. all j lt y) x)

  login_loop-LoggedIn :
      (n k stop : ℕ) (r : Option ℕ)
      → k + n ≡ stop
      → login_loop n k typed us ≡ ok r
      → LoggedIn typed us k stop r
  unfolding login_loop
  login_loop-LoggedIn zero k stop r e out =
      rw (← ok-injective out) (λ j lo hi. absurd (omega arith))
  login_loop-LoggedIn (suc n) k stop r e out =
      found (user_find (typed k).0 us) refl (login_loop-LoggedIn n (k + 1) stop r (omega arith))
    where
      checked :
          (id : ℕ) (m : Run Bool)
          → user_find (typed k).0 us ≡ some id
          → user_match id (typed k).1 us ≡ m
          → (login_loop n (k + 1) typed us ≡ ok r → LoggedIn typed us (k + 1) stop r)
          → LoggedIn typed us k stop r
      checked id (ok true) f m later = rw (← ok-injective (rw (f, m, login_loop) at out)) (
        k,
        omega arith,
        omega arith,
        Succeeds-match typed us k id f m,
        λ j a b. absurd (omega arith),
      )
      checked id (ok false) f m later =
          LoggedIn-again k stop r (Fails-match typed us k id f m)
            (later (rw (f, m, login_loop) at out))
      checked id panicked f m later = cc (rw (f, m, login_loop) at out)
      checked id faulted f m later = cc (rw (f, m, login_loop) at out)
      checked id hung f m later = cc (rw (f, m, login_loop) at out)

      found :
          (o : Option ℕ)
          → user_find (typed k).0 us ≡ o
          → (login_loop n (k + 1) typed us ≡ ok r → LoggedIn typed us (k + 1) stop r)
          → LoggedIn typed us k stop r
      found none f later =
          LoggedIn-again k stop r (inl (find-FirstMatch (typed k).0 us none f))
            (later (rw (f, login_loop) at out))
      found (some id) f later = checked id (user_match id (typed k).1 us) f refl later

user_match_returns :
    (id : ℕ) (pass : Str) (us : Users) (h : ℕ)
    → fnv1a_hash pass ≡ ok h
    → (b : Bool) × (user_match id pass us ≡ ok b)
unfolding user_match
user_match_returns id pass us h e = elim (Bool-cases (leb max_users id)) [
  | inl outside ↦ (false, rw outside)
  | inr inside ↦ ((us.slot id).pass_hash == h, rw (inside, e))
]

login_loop_returns :
    (n k : ℕ) (typed : ℕ → Str × Str) (us : Users)
    → ((j : ℕ) → (h : ℕ) × (fnv1a_hash (typed j).1 ≡ ok h))
    → (r : Option ℕ) × (login_loop n k typed us ≡ ok r)
unfolding login_loop
login_loop_returns zero k typed us hashed = (none, refl)
login_loop_returns (suc n) k typed us hashed =
    found (user_find (typed k).0 us) refl (login_loop_returns n (k + 1) typed us hashed)
  where
    checked :
        (id : ℕ) (m : Bool)
        → user_find (typed k).0 us ≡ some id
        → user_match id (typed k).1 us ≡ ok m
        → (r : Option ℕ) × (login_loop n (k + 1) typed us ≡ ok r)
        → (r : Option ℕ) × (login_loop (suc n) k typed us ≡ ok r)
    checked id true f m (r, e) = (some id, rw (f, m, login_loop))
    checked id false f m (r, e) = (r, rw (f, m, login_loop) e)

    found :
        (o : Option ℕ)
        → user_find (typed k).0 us ≡ o
        → (r : Option ℕ) × (login_loop n (k + 1) typed us ≡ ok r)
        → (r : Option ℕ) × (login_loop (suc n) k typed us ≡ ok r)
    found none f (r, e) = (r, rw (f, login_loop) e)
    found (some id) f rest =
        let (h, e) = hashed k in
        let (m, e') = user_match_returns id (typed k).1 us h e in checked id m f e' rest

-- If every password typed is a text, so that its hash is computed, `UserLogin` returns. It gives a slot
-- only for one of the first four attempts, before which every attempt failed: the first valid slot with
-- the name typed, which stores the 32-bit hash of the password typed; and it denies access only when all
-- four attempts have failed, each by a name that no valid slot has or by another hash.
pub user_login-LoggedIn :
    (typed : ℕ → Str × Str) (us : Users)
    → ((j : ℕ) → (h : ℕ) × (fnv1a_hash (typed j).1 ≡ ok h))
    → (r : Option ℕ) × (user_login typed us ≡ ok r) × LoggedIn typed us 0 4 r
unfolding user_login
user_login-LoggedIn typed us hashed =
    let (r, e) = login_loop_returns 4 0 typed us hashed in
    (r, e, login_loop-LoggedIn typed us 4 0 4 r (omega arith) e)
