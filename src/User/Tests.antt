-- ===== src/User/Tests.antt =====
-- Runs of the user table of src/user/main.c, and its theorems at a table of two users.
use dek_os.Base.{
  Run, leb, ◌-◌, ℕ, ◌≡◌, ◌≢◌, List, [], ◌∷◌, true, arith, Option, ok, if◌then◌else◌, ◌==◌,
}
use dek_os.Memory.Text.Copy.{byte_or_nul}
use dek_os.User.{User, Users, seed, fnv1a_hash, user_set_password, user_match, user_login}
use dek_os.User.Hash.{fnv1a, fnv1a_hash-fnv1a}
use dek_os.User.Password.{set_password-match}
use dek_os.Memory.Text.{Str}
use dek_os.Memory.Heap.{Heap}
use dek_os.User.Login.{LoggedIn, user_login-LoggedIn}

abbrev pass : List ℕ
pass = b'1' ∷ []

abbrev other : List ℕ
other = b'x' ∷ b'y' ∷ []

abbrev root : User
root = record {
  name = byte_or_nul (b'r' ∷ b'o' ∷ b'o' ∷ b't' ∷ []);
  flags = 0x19;
  user_id = 0;
  pass_hash = fnv1a seed pass;
}

-- a guest: valid, but not allowed to launch programs
abbrev guest : User
guest = record root { flags = 8; user_id = 1 }

abbrev two_users : Users
two_users = record {
  slot = λ i. if i == 0 then root else if i == 1 then guest else record root { flags = 0 };
  user_count = 2;
}

pass-hash : fnv1a_hash (byte_or_nul pass) ≡ ok (fnv1a seed pass)
pass-hash = fnv1a_hash-fnv1a (byte_or_nul pass) pass (omega arith) (omega arith)

other-hash : fnv1a_hash (byte_or_nul other) ≡ ok (fnv1a seed other)
other-hash = fnv1a_hash-fnv1a (byte_or_nul other) other (omega arith) (omega arith)

set_password-match_example :
    (us' : Users) × (user_set_password 0 (byte_or_nul other) (byte_or_nul pass) two_users ≡ ok us')
    × (fnv1a seed pass ≡ fnv1a seed pass → user_match 0 (byte_or_nul other) us' ≡ ok true)
    × (fnv1a seed pass ≢ fnv1a seed pass → us' ≡ two_users)
    × ((j : ℕ) → j ≢ 0 → us'.slot j ≡ two_users.slot j)
set_password-match_example =
    set_password-match 0 two_users (byte_or_nul other) (byte_or_nul pass) (fnv1a seed pass)
      (fnv1a seed other) (omega arith) pass-hash other-hash

user_login-LoggedIn_example :
    (r : Option ℕ) × (user_login (λ _. (root.name, byte_or_nul pass)) two_users ≡ ok r)
    × LoggedIn (λ _. (root.name, byte_or_nul pass)) two_users 0 4 r
user_login-LoggedIn_example =
    user_login-LoggedIn (λ _. (root.name, byte_or_nul pass)) two_users
      (λ _. (fnv1a seed pass, pass-hash))

abbrev no_heap : Heap
no_heap = record {
  bytes = λ _. 0;
  map = λ _. 0;
  raw = 0x1000;
  heap_size = 64;
  mem_size = 0x2000;
  heap_start = 0x1000;
  heap_end = 0x1040;
  heap_map_start = 0x1040;
  heap_map_end = 0x1041;
}

-- The text "a=guest", whatever the path.
abbrev guest_file : Str → Heap → Run (ℕ × Heap)
guest_file path h = ok (
  0x1010,
  record h {
    bytes = λ a.
        if leb 0x1010 a
        then byte_or_nul (b'a' ∷ b'=' ∷ b'g' ∷ b'u' ∷ b'e' ∷ b's' ∷ b't' ∷ []) (a - 0x1010)
        else 0;
    map = λ a. if a == 0 then 3 else 0;
  },
)
