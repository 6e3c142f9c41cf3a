-- ===== src/User/Load.antt =====
-- `UsersLoad` of src/user/main.c: the users of a configuration file. What `snprintf` makes of a name,
-- the path of the user's own file, is a parameter, as is the reading of files.
use dek_os.Base.{
  ℕ, zero, suc, ◌+◌, ◌-◌, ◌∷◌, [], ◌≤◌, ◌<◌, ◌≡◌, store, if◌then◌else◌, none, some, Run, ok, ◌>>=◌,
}
use dek_os.Memory.Text.{Str, strncmp, strncpy, atoi}
use dek_os.Memory.Text.Copy.{byte_or_nul}
use dek_os.Memory.Heap.{Heap}
use dek_os.Ini.{Ini, ini_read, ini_get}
use dek_os.Ini.Config.{IsConfig}
use dek_os.User.{User, Users, no_user, max_users, user_name_length, is_zero, fnv1a_hash, user_add}

-- "administrator", "service", "system", "guest", "pswrdhash" and "1"
abbrev administrator : Str
administrator =
    byte_or_nul (
      b'a' ∷ b'd' ∷ b'm' ∷ b'i' ∷ b'n' ∷ b'i' ∷ b's' ∷ b't' ∷ b'r' ∷ b'a' ∷ b't' ∷ b'o' ∷ b'r' ∷ [])

abbrev service : Str
service = byte_or_nul (b's' ∷ b'e' ∷ b'r' ∷ b'v' ∷ b'i' ∷ b'c' ∷ b'e' ∷ [])

abbrev system : Str
system = byte_or_nul (b's' ∷ b'y' ∷ b's' ∷ b't' ∷ b'e' ∷ b'm' ∷ [])

abbrev guest : Str
guest = byte_or_nul (b'g' ∷ b'u' ∷ b'e' ∷ b's' ∷ b't' ∷ [])

abbrev pswrdhash : Str
pswrdhash = byte_or_nul (b'p' ∷ b's' ∷ b'w' ∷ b'r' ∷ b'd' ∷ b'h' ∷ b'a' ∷ b's' ∷ b'h' ∷ [])

abbrev one : Str
one = byte_or_nul (b'1' ∷ [])

-- "users/users.ini"
abbrev pub users_file : Str
users_file = byte_or_nul (
    b'u' ∷ b's' ∷ b'e' ∷ b'r' ∷ b's' ∷ b'/' ∷ b'u' ∷ b's' ∷ b'e' ∷ b'r' ∷ b's' ∷ b'.' ∷ b'i' ∷ b'n'
    ∷ b'i' ∷ [])

-- The flags of a user by the value of its variable: valid (8) and, but for a guest, allowed to launch
-- programs (16); an administrator has 1, a service 4 and the system 2 as well.
unfoldable pub flags_of : Str → ℕ
flags_of value =
    if is_zero (strncmp value administrator 14)
    then 8 + 16 + 1
    else if is_zero (strncmp value service 8)
    then 8 + 16 + 4
    else if is_zero (strncmp value system 7)
    then 8 + 16 + 2
    else if is_zero (strncmp value guest 6)
    then 8
    else 8 + 16

-- `User.Name`
unfoldable pub name_of : Str → Str
name_of name = store (strncpy (λ _. 0) name (user_name_length - 1)) (user_name_length - 1) 0

-- `PassHash`, by the user's own file
unfoldable pub hash_of : Ini → Run ℕ
hash_of user_data = do
  pswrd ← ini_get user_data pswrdhash
  elim pswrd [ some value ↦ do (hash, _) ← atoi value; ok hash | none ↦ fnv1a_hash one ]

-- `memset(users, 0, sizeof(users))`, and `user_count = 0`
abbrev clear_table : Users
clear_table = record { slot = λ _. no_user; user_count = 0 }

module _ (read_file : Str → Heap → Run (ℕ × Heap)) (path_of : Str → Str) where
  -- The loop of `UsersLoad` from variable `i` on, with `n` variables left.
  unfoldable pub load_loop : ℕ → ℕ → Ini → Users → Heap → Run (Users × Heap)
  load_loop zero i new_users us h = ok (us, h)
  load_loop (suc n) i new_users us h =
      let var = new_users.vars i in
      do
        (user_data, h') ← ini_read read_file (path_of (name_of var.name)) h
        hash ← hash_of user_data
        let user : User = record {
          name = name_of var.name;
          flags = flags_of var.value;
          user_id = i;
          pass_hash = hash;
        }
        load_loop n (i + 1) new_users (user_add user us).1 h'

  unfoldable pub users_load : Heap → Run (Users × Heap)
  users_load h = do
    (new_users, h') ← ini_read read_file users_file h
    load_loop new_users.count 0 new_users clear_table h'

-- The user of variable `i`: its name, its number, and the flags that its value grants.
pub record IsUserOf (new_users : Ini) (i : ℕ) (u : User) : Type 0 where
  pub named : u.name ≡ name_of (new_users.vars i).name
  pub numbered : u.user_id ≡ i
  pub granted : u.flags ≡ flags_of (new_users.vars i).value

-- The first `i` slots of the table hold the users of the first `i` variables, and from there on the
-- slots are clear.
pub record Loaded (new_users : Ini) (i : ℕ) (us : Users) : Type 0 where
  pub holds : (j : ℕ) → j < i → j < max_users → IsUserOf new_users j (us.slot j)
  pub clear : (j : ℕ) → i ≤ j → us.slot j ≡ no_user

-- The table loaded from the configuration that `IniRead` gives for the file of the users.
pub record FromConfig (read_file : Str → Heap → Run (ℕ × Heap)) (h : Heap) {A : Type 0}
    (r : Users × A) : Type 0 where
  pub new_users : Ini
  pub heap : Heap
  pub read : ini_read read_file users_file h ≡ ok (new_users, heap)
  pub config : IsConfig new_users
  pub loaded : Loaded new_users new_users.count r.0

record Finished (new_users : Ini) {A : Type 0} (r : Users × A) : Type 0 where
  all : Loaded new_users new_users.count r.0
