-- ===== src/Iso/Tests.antt =====
-- Runs of the directory search of src/drivers/fs/iso9660.c, and its theorems at small directories.
use dek_os.Base.{
  ℕ, ◌^◌, ◌≡◌, refl, arith, Mem, ◌==◌, if◌then◌else◌, Option, some, [], ◌∷◌, ok, hung,
}
use dek_os.Base.Int.{negsuc}
use dek_os.Memory.Text.{Str, strcmp, strcmp_loop, strchr, strchr_loop, toupper}
use dek_os.Memory.Text.Copy.{byte_or_nul}
use dek_os.Iso.{upper_loop, clean_name, record_order, find_record_loop}
use dek_os.Iso.Search.{Searched, not-IsNamed, find_record-Searched, find_record_hangs}

-- One record, of 34 bytes, with the name "a".
abbrev one_file : Mem
one_file a = if a == 0 then 34 else if a == 32 then 1 else if a == 33 then b'a' else 0

-- "A"
abbrev name_a : Str
name_a = byte_or_nul (b'A' ∷ [])

finds-a : find_record_loop (2 ^ 32) one_file name_a 0 ≡ ok (some 0)
unfolding find_record_loop record_order clean_name upper_loop strchr strchr_loop strcmp strcmp_loop
    toupper
finds-a = refl

find_record-Searched_example :
    (r : Option ℕ) × (find_record_loop (2 ^ 32) one_file name_a 0 ≡ ok r)
    × Searched one_file name_a 0 r
find_record-Searched_example =
    find_record-Searched one_file name_a (λ a. ground arith) (λ o f low. ground arith)

-- Two records without names: the second has the length 216, which as a signed char is -40.
abbrev in_a_circle : Mem
in_a_circle a = if a == 0 then 40 else if a == 40 then 216 else 0

first-order : record_order in_a_circle name_a 0 ≡ ok (negsuc 64)
unfolding record_order clean_name upper_loop strchr strchr_loop strcmp strcmp_loop toupper
first-order = refl

second-order : record_order in_a_circle name_a 40 ≡ ok (negsuc 64)
unfolding record_order clean_name upper_loop strchr strchr_loop strcmp strcmp_loop toupper
second-order = refl

find_record_hangs_example :
    (find_record_loop 1000 in_a_circle name_a 0 ≡ hung)
    × (find_record_loop 1000 in_a_circle name_a 40 ≡ hung)
find_record_hangs_example =
    find_record_hangs 1000 40 in_a_circle name_a (omega arith) (omega arith) refl refl (omega arith)
      (omega arith) (not-IsNamed in_a_circle name_a 0 (negsuc 64) first-order refl)
      (not-IsNamed in_a_circle name_a 40 (negsuc 64) second-order refl)
