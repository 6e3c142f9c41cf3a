-- ===== src/Memory/Text/Tests.antt =====
-- Runs of the text functions of src/memory/string.c, and their theorems at short texts.
use mathlib.Core.Logic.{◌↔◌}
use dek_os.Base.{ℕ, ◌+◌, ◌≡◌, true, List, [], ◌∷◌, arith, Option, none, some, ok, Mem}
use dek_os.Base.Int.{pos, negsuc}
use dek_os.Memory.Text.{Str, strcmp, atoi}
use dek_os.Memory.Text.Print.{itos}
use dek_os.Memory.Text.Print.Decimal.{atoi-itos}
use dek_os.Memory.Text.Scan.{IsStr}
use dek_os.Memory.Text.Compare.{strcmp-zero}
use dek_os.Memory.Text.Token.{strtok}
use dek_os.Memory.Text.Token.Words.{Found, after, strtok-Found}
use dek_os.Memory.Text.Copy.{byte_or_nul}

-- a text in memory, as what a pointer to it points at
abbrev text : List ℕ → Str
text = byte_or_nul

abbrev abca : List ℕ
abca = b'a' ∷ b'b' ∷ b'c' ∷ b'a' ∷ []

abbrev upper : List ℕ
upper = b'A' ∷ b'B' ∷ b'C' ∷ b'A' ∷ []

abca-IsStr : IsStr (text abca) abca
abca-IsStr = omega arith

upper-IsStr : IsStr (text upper) upper
upper-IsStr = omega arith

strcmp-zero_example : (strcmp (text abca) (text upper) ≡ ok (pos 0)) ↔ (abca ≡ upper)
strcmp-zero_example =
    strcmp-zero (text abca) (text upper) abca upper abca-IsStr upper-IsStr (omega arith)

atoi-itos_example :
    ((s : Mem) × (len : ℕ) × (itos (pos 306) (λ _. 0) 10 ≡ ok s) × (atoi s ≡ ok (306, len)))
    × ((s : Mem) × (len : ℕ) × (itos (negsuc 306) (λ _. 0) 10 ≡ ok s)
        × (s 0 ≡ b'-')
        × (atoi (λ k. s (k + 1)) ≡ ok (307, len)))
atoi-itos_example = atoi-itos 306 (λ _. 0) (omega arith)

-- "/a/b"
abbrev path : List ℕ
path = b'/' ∷ b'a' ∷ b'/' ∷ b'b' ∷ []

abbrev slash : List ℕ
slash = b'/' ∷ []

strtok-Found_example :
    (r : Option ℕ × Option ℕ × Mem) × (strtok (some 0) (text slash) none (text path) ≡ ok r)
    × (strtok none (text slash) (some 0) (text path) ≡ ok r)
    × Found slash (after true slash path) (text path) r
strtok-Found_example =
    strtok-Found (text slash) slash none (text path) 0 path (omega arith) (omega arith)
      (omega arith) (omega arith, (omega arith, (omega arith, (omega arith, tt)))) (omega arith)
