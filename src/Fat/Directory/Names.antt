-- ===== src/Fat/Directory/Names.antt =====
-- `FatConvert83`, src/drivers/fs/fat.c: what it makes of a file name.
use dek_os.Base.{
  ℕ, zero, suc, ◌+◌, ◌≤◌, ◌<◌, ◌≡◌, ◌≢◌, ◌⊎◌, inl, inr, arith, true, Bool-cases, ltb, leb, ◌&&◌,
  ◌==◌, if◌then◌else◌, Mem,
}
use dek_os.Memory.Text.{Str}
use dek_os.Fat.Directory.{convert_name, convert_ext, fat_convert_83}

-- A name of `n` bytes, a dot, and an extension of `m` bytes, which NUL or a slash ends.
pub record IsName (path : Str) (n m : ℕ) : Type 0 where
  pub short : n ≤ 8
  pub name : (k : ℕ) → k < n → (path k ≢ 0) × (path k ≢ b'.')
  pub dot : path n ≡ b'.'
  pub short_ext : m ≤ 3
  pub ext : (k : ℕ) → k < m → (path (n + 1 + k) ≢ 0) × (path (n + 1 + k) ≢ b'/')
  pub ends : m < 3 → (path (n + 1 + m) ≡ 0) ⊎ (path (n + 1 + m) ≡ b'/')

convert_name_lem :
    (rounds : ℕ) (path : Str) (i n k : ℕ) (name : Mem)
    → i ≤ n
    → n ≤ i + rounds
    → ((j : ℕ) → i ≤ j → j < n → (path j ≢ 0) × (path j ≢ b'.'))
    → path n ≡ b'.'
    → let (name', stop) = convert_name rounds path i name in
      (name' k ≡ (if leb i k && ltb k n then path k else name k)) × (stop ≡ n)
unfolding convert_name
convert_name_lem zero path i n k name low high good dot = ground arith
convert_name_lem (suc rounds) path i n k name low high good dot = elim (Bool-cases (i == n)) [
  | inl here ↦
      let e : i ≡ n = ground arith in let d : path i ≡ b'.' = rw e dot in ground (arith, d, e)
  | inr later ↦ ground (
    arith,
    good i (omega arith) (ground arith),
    convert_name_lem rounds path (i + 1) n k (λ j. if j == i then path i else name j) (ground arith)
        (omega arith) (λ j a b. good j (omega arith) b) dot,
  )
]

convert_ext_lem :
    (rounds : ℕ) (path : Str) (start i m k : ℕ) (ext : Mem)
    → i ≤ m
    → m ≤ i + rounds
    → ((j : ℕ) → i ≤ j → j < m → (path (start + j) ≢ 0) × (path (start + j) ≢ b'/'))
    → (m < i + rounds → (path (start + m) ≡ 0) ⊎ (path (start + m) ≡ b'/'))
    → convert_ext rounds path start i ext k
      ≡ (if leb i k && ltb k m then path (start + k) else ext k)
unfolding convert_ext
convert_ext_lem zero path start i m k ext low high good ends = ground arith
convert_ext_lem (suc rounds) path start i m k ext low high good ends = elim (Bool-cases (i == m)) [
  | inl here ↦ let e : i ≡ m = ground arith in ended (rw (← e) at (ends (omega arith))) e
  | inr later ↦ ground (
    arith,
    good i (omega arith) (ground arith),
    convert_ext_lem rounds path start (i + 1) m k (λ j. if j == i then path (start + i) else ext j)
        (ground arith) (omega arith) (λ j a b. good j (omega arith) b) (λ h. ends (omega arith)),
  )
]
  where
    ended :
        (path (start + i) ≡ 0) ⊎ (path (start + i) ≡ b'/')
        → i ≡ m
        → convert_ext (suc rounds) path start i ext k
          ≡ (if leb i k && ltb k m then path (start + k) else ext k)
    ended (inl z) e = ground (arith, z, e)
    ended (inr z) e = ground (arith, z, e)

-- `FatConvert83` of a name of at most eight bytes without a dot, a dot, and an extension of at most three
-- bytes, which ends at a NUL, at a slash or after the third byte, gives the name and the extension, each
-- filled up with spaces.
pub convert_83-IsName :
    (path : Str) (n m k : ℕ)
    → IsName path n m
    → let (name, ext) = fat_convert_83 path in
      (name k ≡ (if ltb k n then path k else b' '))
      × (ext k ≡ (if ltb k m then path (n + 1 + k) else b' '))
unfolding fat_convert_83
convert_83-IsName path n m k v =
    let (at, stop) =
      convert_name_lem 8 path 0 n k (λ _. b' ') (omega arith) (omega (arith, v.short))
        (λ j low h. v.name j h) v.dot in
    let dot : (path n == b'.') ≡ true = ground (arith, v.dot) in
    rw (stop, dot)
      (
        ground (arith, at),
        ground (
          arith,
          convert_ext_lem 3 path (n + 1) 0 m k (λ _. b' ') (omega arith)
              (omega (arith, v.short_ext)) (λ j low h. v.ext j h) v.ends,
        ),
      )
