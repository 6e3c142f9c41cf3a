-- ===== src/User/Hash.antt =====
-- The password hash of src/user/main.c is 32-bit FNV-1a with a salted start.
use dek_os.Base.{
  ℕ, zero, suc, ◌+◌, ◌*◌, ◌%◌, ◌^◌, ◌<◌, ◌≡◌, false, List, [], ◌∷◌, arith, ◌==◌, bit_xor, ok,
}
use dek_os.Memory.Text.{Str}
use dek_os.Memory.Text.Scan.{length, IsStrAt, IsStr}
use dek_os.User.{hash_loop, fnv1a_hash, seed}

-- FNV-1a over a list of bytes
unfoldable pub fnv1a : ℕ → List ℕ → ℕ
fnv1a h [] = h
fnv1a h (c ∷ cs) = fnv1a (bit_xor h (c % 256) * 16777619 % 2 ^ 32) cs

hash_loop-fnv1a :
    (cs : List ℕ) (fuel : ℕ) (s : Str) (h i : ℕ)
    → IsStrAt s i cs
    → length cs < fuel
    → hash_loop fuel s h i ≡ ok (fnv1a h cs)
unfolding hash_loop fnv1a
hash_loop-fnv1a cs zero s h i v f = absurd (omega arith)
hash_loop-fnv1a [] (suc fuel) s h i v f = ground arith
hash_loop-fnv1a (c ∷ cs) (suc fuel) s h i v f =
    let here : (s i == 0) ≡ false = ground arith in
    rw (here, v.0)
      (hash_loop-fnv1a cs fuel s (bit_xor h (c % 256) * 16777619 % 2 ^ 32) (i + 1) v.2
        (omega arith))

-- `fnv1a_hash` of a text returns FNV-1a of its bytes from the salted start.
pub fnv1a_hash-fnv1a :
    (s : Str) (cs : List ℕ) → IsStr s cs → length cs < 2 ^ 32 → fnv1a_hash s ≡ ok (fnv1a seed cs)
unfolding fnv1a_hash
fnv1a_hash-fnv1a s cs v h = hash_loop-fnv1a cs (2 ^ 32) s seed 0 v h
