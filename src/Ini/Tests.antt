-- ===== src/Ini/Tests.antt =====
-- Runs of src/ini.c at the file "a=1", a comment, and "b=22".
use dek_os.Base.{
  ℕ, ◌-◌, ◌≡◌, refl, arith, Mem, leb, ◌==◌, if◌then◌else◌, Option, some, [], ◌∷◌, Run, ok, ◌>>=◌,
  Ensures,
}
use dek_os.Memory.Text.{Str, strcmp, strcmp_loop, strchr}
use dek_os.Memory.Text.Copy.{byte_or_nul}
use dek_os.Memory.Heap.{Heap}
use dek_os.Ini.{IniVar, Ini, empty, add_var, read_line, ini_loop, ini_read, ini_get}
use dek_os.Ini.Config.{Configured, IsConfig, Got, ini_read-IsConfig, ini_get-Got}

abbrev text : Str
text = byte_or_nul (b'a' ∷ b'=' ∷ b'1' ∷ b'\n' ∷ b'#' ∷ b'\n' ∷ b'b' ∷ b'=' ∷ b'2' ∷ b'2' ∷ [])

abbrev heap : Heap
heap = record {
  bytes = λ a. if leb 0x1010 a then text (a - 0x1010) else 0;
  map = λ a. if a == 0 then 3 else 0;
  raw = 0x1000;
  heap_size = 64;
  mem_size = 0x2000;
  heap_start = 0x1000;
  heap_end = 0x1040;
  heap_map_start = 0x1040;
  heap_map_end = 0x1041;
}

abbrev file : Str → Heap → Run (ℕ × Heap)
file path h = ok (0x1010, h)

ini_read-IsConfig_example : Ensures Configured (ini_read file (byte_or_nul []) heap)
ini_read-IsConfig_example = ini_read-IsConfig file (byte_or_nul []) heap

abbrev two_vars : Ini
two_vars = record {
  vars = λ i.
      if i == 0
      then record { name = byte_or_nul (b'a' ∷ []); value = byte_or_nul (b'1' ∷ []) }
      else if i == 1
      then record { name = byte_or_nul (b'b' ∷ []); value = byte_or_nul (b'2' ∷ b'2' ∷ []) }
      else record { name = λ _. 0; value = λ _. 0 };
  count = 2;
}

two_vars-IsConfig : IsConfig two_vars
two_vars-IsConfig = record {
  fits = omega arith;
  names = λ i. (1, omega arith, ground arith);
  values = λ i. (2, omega arith, ground arith);
}

ini_get-Got_example :
    (r : Option Mem) × (ini_get two_vars (byte_or_nul (b'b' ∷ [])) ≡ ok r)
    × Got two_vars (byte_or_nul (b'b' ∷ [])) 0 2 r
ini_get-Got_example = ini_get-Got two_vars (byte_or_nul (b'b' ∷ [])) two_vars-IsConfig

abbrev first_byte : Run (Option Mem) → ℕ
first_byte (ok (some v)) = v 1
first_byte _ = 0

reads-second :
    first_byte
      (do (c, _) ← ini_read file (byte_or_nul []) heap; ini_get c (byte_or_nul (b'b' ∷ [])))
    ≡ b'2'
unfolding ini_read dek_os.Memory.Text.Token.strtok dek_os.Memory.Text.Token.next_token
    dek_os.Memory.Text.Token.span_loop strchr dek_os.Memory.Text.strchr_loop ini_loop read_line
    add_var dek_os.Memory.Heap.kfree ini_get dek_os.Ini.get_loop strcmp strcmp_loop
    dek_os.Memory.Text.strncpy dek_os.Memory.Text.strncpy_loop dek_os.Memory.Text.strncpy_fill
reads-second = refl
