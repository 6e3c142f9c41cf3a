-- ===== src/Iso/Search.antt =====
-- The search of a directory for a name, `iso9660FindInDirectory` of src/drivers/fs/iso9660.c: when it
-- returns and what it finds, and when it does not.
use dek_os.Base.{
  ℕ, zero, suc, ◌+◌, ◌-◌, ◌%◌, ◌^◌, ◌≤◌, ◌<◌, ◌≡◌, ◌≢◌, refl, ◌∙◌, inl, inr, arith, true, false,
  not, ◌||◌, Mem, store, leb, ◌==◌, Bool-cases, Option, none, some, ok, hung, ◌>>=◌,
}
use dek_os.Base.Int.{ℤ}
use dek_os.Memory.Text.{Str, toupper, strchr_loop, strchr, strcmp_loop, strcmp}
use dek_os.Ini.Config.{strcmp_loop_ends}
use dek_os.Fat.Directory.{matches}
use dek_os.Iso.{extend_char, upper_loop, raw_name, clean_name, record_order, find_record_loop}

strchr_loop_ends :
    (fuel : ℕ) (s : Str) (target i k : ℕ)
    → i ≤ k
    → k < i + fuel
    → s k ≡ 0
    → (o : Option ℕ) × (strchr_loop fuel s target i ≡ ok o)
unfolding strchr_loop
strchr_loop_ends zero s target i k low high e = absurd (omega arith)
strchr_loop_ends (suc fuel) s target i k low high e = elim (Bool-cases (not (s i == 0))) [
  | inl more ↦ elim (Bool-cases (s i == target)) [
    | inl hit ↦ rw (more, hit) (some i, refl)
    | inr miss ↦
        rw (more, miss)
          (strchr_loop_ends fuel s target (i + 1) k (ground (arith, e)) (omega arith) e)
  ]
  | inr ends ↦ elim (Bool-cases (target == 0)) [
    | inl hit ↦ rw (ends, hit) (some i, refl)
    | inr miss ↦ rw (ends, miss) (none, refl)
  ]
]

-- Making a text upper case leaves its NUL where it is.
upper_loop_ends :
    (fuel : ℕ) (m : Mem) (i k : ℕ)
    → i ≤ k
    → k < i + fuel
    → m k ≡ 0
    → (m' : Mem) × (upper_loop fuel m i ≡ ok m') × (m' k ≡ 0)
unfolding upper_loop
upper_loop_ends zero m i k low high e = absurd (omega arith)
upper_loop_ends (suc fuel) m i k low high e = elim (Bool-cases (m i == 0)) [
  | inl ends ↦ rw ends (m, refl, e)
  | inr more ↦ rw more (
      upper_loop_ends fuel (store m i (toupper (m i))) (i + 1) k (ground (arith, e)) (omega arith)
        (ground (arith, e)))
]

-- The name of a record always has a NUL, so that it can be compared.
record_order_ends :
    (dir : Mem) (search : Str) (offset : ℕ)
    → dir (offset + 32) < 2 ^ 8
    → (z : ℤ) × (record_order dir search offset ≡ ok z)
unfolding record_order clean_name strchr strcmp
record_order_ends dir search offset byte =
    let raw = raw_name dir offset in
    let k = dir (offset + 32) in
    let ends : raw k ≡ 0 = ground arith in
    let (o, found) = strchr_loop_ends (2 ^ 32) raw b';' 0 k (omega arith) (omega arith) ends in
    rw found (cut o ends)
  where
    cut :
        (o : Option ℕ)
        → raw_name dir offset (dir (offset + 32)) ≡ 0
        → (z : ℤ) × ((upper_loop
                (2 ^ 32)
                (elim o as (λ _. Mem) [
                  | none ↦ raw_name dir offset
                  | some i ↦ store (raw_name dir offset) i 0
                ])
                0
              >>= λ name. strcmp_loop (2 ^ 32) name search 0)
            ≡ ok z)
    cut none ends =
        let (m, runs, e) =
          upper_loop_ends (2 ^ 32) (raw_name dir offset) 0 (dir (offset + 32)) (omega arith)
            (omega arith) ends in
        let (z, r) =
          strcmp_loop_ends (2 ^ 32) m search 0 (dir (offset + 32)) (omega arith) (omega arith) e in
        (z, rw runs r)
    cut (some i) ends =
        let (m, runs, e) =
          upper_loop_ends (2 ^ 32) (store (raw_name dir offset) i 0) 0 (dir (offset + 32))
            (omega arith) (omega arith) (ground (arith, ends)) in
        let (z, r) =
          strcmp_loop_ends (2 ^ 32) m search 0 (dir (offset + 32)) (omega arith) (omega arith) e in
        (z, rw runs r)

-- The records that follow one another from `s` on.
pub data From (dir : Mem) : ℕ → ℕ → Type 0 where
  here : (s o : ℕ) → s ≡ o → From dir s o
  later : (s o : ℕ) → dir s ≢ 0 → From dir (s + dir s) o → From dir s o

From-below : (dir : Mem) (s o : ℕ) → From dir s o → s ≤ o
From-below dir s o (here _ _ e) = omega arith
From-below dir s o (later _ _ more f) = omega (arith, From-below dir (s + dir s) o f)

-- The name of the record is the one looked for.
abbrev pub IsNamed : Mem → Str → ℕ → Type 0
IsNamed dir search o = (z : ℤ) × (record_order dir search o ≡ ok z) × (matches z ≡ true)

pub not-IsNamed :
    (dir : Mem) (search : Str) (o : ℕ) (z : ℤ)
    → record_order dir search o ≡ ok z
    → matches z ≡ false
    → ¬ IsNamed dir search o
not-IsNamed dir search o z compared miss (z', compared', hit) = cc

-- What the search from `s` on gives.
pub data Searched (dir : Mem) (search : Str) (s : ℕ) (r : Option ℕ) : Type 0 where
  found :
      (o : ℕ)
      → r ≡ some o
      → From dir s o
      → o < 2048
      → dir o ≢ 0
      → IsNamed dir search o
      → Searched dir search s r
  missing :
      r ≡ none
      → ((o : ℕ) → From dir s o → o < 2048 → dir o ≢ 0 → ¬ IsNamed dir search o)
      → Searched dir search s r

later-Searched :
    (dir : Mem) (search : Str) (s : ℕ) (r : Option ℕ)
    → dir s ≢ 0
    → ¬ IsNamed dir search s
    → Searched dir search (s + dir s) r
    → Searched dir search s r
later-Searched dir search s r more other (found o e f low full named) =
    found o e (later s o more f) low full named
later-Searched dir search s r more other (missing e none_named) = missing e all
  where
    all : (o : ℕ) → From dir s o → o < 2048 → dir o ≢ 0 → ¬ IsNamed dir search o
    all o (here _ _ same) low more = rw (← same) other
    all o (later _ _ _ f) low more = none_named o f low more

ended-Searched :
    (dir : Mem) (search : Str) (s : ℕ)
    → (leb 2048 s || (dir s == 0)) ≡ true
    → Searched dir search s none
ended-Searched dir search s done = missing refl all
  where
    all : (o : ℕ) → From dir s o → o < 2048 → dir o ≢ 0 → ¬ IsNamed dir search o
    all o (here _ _ same) low more named = ground arith
    all o (later _ _ full f) low more named = ground (arith, From-below dir (s + dir s) o f)

module _ (dir : Mem) (search : Str) (bytes : (a : ℕ) → dir a < 2 ^ 8)
    (short : (o : ℕ) → From dir 0 o → o < 2048 → dir o < 128) where
  find_record_loop-Searched :
      (fuel s : ℕ)
      → 2048 - s < fuel
      → ((o : ℕ) → From dir s o → From dir 0 o)
      → (r : Option ℕ) × (find_record_loop fuel dir search s ≡ ok r) × Searched dir search s r
  unfolding find_record_loop
  find_record_loop-Searched zero s enough up = absurd (omega arith)
  find_record_loop-Searched (suc fuel) s enough up =
      elim (Bool-cases (leb 2048 s || (dir s == 0))) [
        | inl done ↦ rw done (none, refl, ended-Searched dir search s done)
        | inr more ↦
            let (z, compared) = record_order_ends dir search s (bytes (s + 32)) in
            let low : s < 2048 = ground arith in
            let some_length : dir s ≢ 0 = ground arith in
            elim (Bool-cases (matches z)) [
              | inl hit ↦
                  rw (more, compared, hit)
                    (some s, refl, found s refl (here s s refl) low some_length (z, compared, hit))
              | inr miss ↦
                  let small = short s (up s (here s s refl)) low in
                  let next : (s + extend_char (dir s)) % 2 ^ 32 ≡ s + dir s = ground arith in
                  let (r, runs, v) =
                    find_record_loop-Searched fuel (s + dir s) (omega arith)
                      (λ o f. up o (later s o some_length f)) in
                  rw (more, compared, miss, next)
                    (
                      r,
                      runs,
                      later-Searched dir search s r some_length
                          (not-IsNamed dir search s z compared miss) v,
                    )
            ]
      ]

-- Whatever the bytes of a directory, if none of the records from the first on, as each gives the length
-- to the next, is longer than 127, the loop of `iso9660FindInDirectory` returns: it finds a record with
-- the name, before the end of the sector, or none of the records there has the name.
pub find_record-Searched :
    (dir : Mem) (search : Str)
    → ((a : ℕ) → dir a < 2 ^ 8)
    → ((o : ℕ) → From dir 0 o → o < 2048 → dir o < 128)
    → (r : Option ℕ) × (find_record_loop (2 ^ 32) dir search 0 ≡ ok r) × Searched dir search 0 r
find_record-Searched dir search bytes short =
    find_record_loop-Searched dir search bytes short (2 ^ 32) 0 (omega arith) (λ o f. f)

step_past :
    (fuel : ℕ) (dir : Mem) (search : Str) (s : ℕ) (z : ℤ) {next : ℕ}
    → (leb 2048 s || (dir s == 0)) ≡ false
    → record_order dir search s ≡ ok z
    → matches z ≡ false
    → (s + extend_char (dir s)) % 2 ^ 32 ≡ next
    → find_record_loop (suc fuel) dir search s ≡ find_record_loop fuel dir search next
unfolding find_record_loop
step_past fuel dir search s z more compared miss e =
    rw (find_record_loop, more, compared, miss, e) refl

-- The length of a record is a signed char: if the first record has the length `l` below 128, the one
-- behind it has the length 256 - l, and neither has the name, then the search goes back to the first
-- record and never ends, whatever the number of rounds.
pub find_record_hangs :
    (fuel l : ℕ) (dir : Mem) (search : Str)
    → 0 < l
    → l < 128
    → dir 0 ≡ l
    → dir l ≡ 256 - l
    → (dir 32 < 2 ^ 8)
    → (dir (l + 32) < 2 ^ 8)
    → ¬ IsNamed dir search 0
    → ¬ IsNamed dir search l
    → (find_record_loop fuel dir search 0 ≡ hung) × (find_record_loop fuel dir search l ≡ hung)
unfolding find_record_loop
find_record_hangs zero l dir search positive low first second b b' other other' = (refl, refl)
find_record_hangs (suc fuel) l dir search positive low first second b b' other other' =
    let (back, on) =
      find_record_hangs fuel l dir search positive low first second b b' other other' in
    let (z, compared) = record_order_ends dir search 0 b in
    let (z', compared') = record_order_ends dir search l b' in
    (
      step_past fuel dir search 0 z (ground arith) compared (unnamed 0 z compared other)
            (ground arith)
          ∙ on,
      step_past fuel dir search l z' (ground arith) compared' (unnamed l z' compared' other')
            (ground arith)
          ∙ back,
    )
  where
    unnamed :
        (o : ℕ) (z : ℤ)
        → record_order dir search o ≡ ok z
        → ¬ IsNamed dir search o
        → matches z ≡ false
    unnamed o z compared other = elim (Bool-cases (matches z)) [
      | inl hit ↦ absurd (other (z, compared, hit))
      | inr miss ↦ miss
    ]
