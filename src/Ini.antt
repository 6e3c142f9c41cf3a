-- ===== src/Ini.antt =====
-- Configuration files, src/ini.h and src/ini.c. The function of the current drive that reads a file
-- into a new block of the heap is a parameter: it gives the block, or NULL. The static variable of
-- `strtok` is passed from call to call.
pub mod Config
mod Tests
use dek_os.Base.{
  ℕ, zero, suc, ◌+◌, ◌-◌, ◌^◌, Bool, ◌||◌, Mem, store, null, leb, ◌==◌, if◌then◌else◌, Option, none,
  some, List, [], ◌∷◌, Run, ok, hung, ◌>>=◌,
}
use dek_os.Base.Int.{pos, negsuc}
use dek_os.Memory.Text.{Str, strcmp, strchr, strncpy}
use dek_os.Memory.Text.Copy.{byte_or_nul}
use dek_os.Memory.Text.Token.{strtok}
use dek_os.Memory.Heap.{Heap, kfree}

-- `IniVar`, two texts of 32 bytes each
pub record IniVar : Type 0 where
  pub name : Mem
  pub value : Mem

pub record Ini : Type 0 where
  pub vars : ℕ → IniVar
  pub count : ℕ

abbrev pub max_var_name : ℕ
max_var_name = 32

abbrev pub max_var_value : ℕ
max_var_value = 32

abbrev pub max_config_vars : ℕ
max_config_vars = 32

-- `memset(&config, 0, sizeof(config))`
abbrev pub empty : Ini
empty = record { vars = λ _. record { name = λ _. 0; value = λ _. 0 }; count = 0 }

abbrev pub newline : Str
newline = byte_or_nul (b'\n' ∷ [])

-- The variable of the line at `line`, with `equals` the index of its `=`.
unfoldable pub add_var : Mem → ℕ → ℕ → Ini → Ini
add_var m line equals config =
    let name_len = if leb max_var_name equals then max_var_name - 1 else equals in
    let old = config.vars config.count in
    let var : IniVar = record {
      name = store (strncpy old.name (λ k. m (line + k)) name_len) name_len 0;
      value =
          store (strncpy old.value (λ k. m (line + equals + 1 + k)) (max_var_value - 1))
            (max_var_value - 1) 0;
    } in
    record {
      vars = λ i. if i == config.count then var else config.vars i;
      count = config.count + 1;
    }

-- A comment and a line without `=` are passed over.
unfoldable pub read_line : Mem → ℕ → Ini → Run Ini
read_line m line config = if (m line == b'#') || (m line == 0) then ok config else (do
  equals ← strchr (λ k. m (line + k)) b'='
  ok (elim equals as (λ _. Ini) [ none ↦ config | some e ↦ add_var m line e config ]))

-- The lines from `line` on.
unfoldable pub ini_loop : ℕ → Mem → Option ℕ → Option ℕ → Ini → Run (Ini × Mem)
ini_loop zero m line save_ptr config = hung
ini_loop (suc fuel) m none save_ptr config = ok (config, m)
ini_loop (suc fuel) m (some line) save_ptr config =
    if leb max_config_vars config.count then ok (config, m) else (do
      config' ← read_line m line config
      (next, save_ptr', m') ← strtok none newline save_ptr m
      ini_loop fuel m' next save_ptr' config')

unfoldable pub ini_read : (Str → Heap → Run (ℕ × Heap)) → Str → Heap → Run (Ini × Heap)
ini_read read_file path h = do
  (text, h') ← read_file path h
  if text == null then ok (empty, h') else (do
    (line, save_ptr, m) ← strtok (some text) newline none h'.bytes
    (config, m') ← ini_loop (2 ^ 32) m line save_ptr empty
    h'' ← kfree text (record h' { bytes = m' })
    ok (config, h''))

-- `IniGet`, with `n` variables left from variable `i` on
unfoldable pub get_loop : ℕ → ℕ → Ini → Str → Run (Option Mem)
get_loop zero i config name = ok none
get_loop (suc n) i config name =
    let rest = get_loop n (i + 1) config name in
    do
      order ← strcmp (config.vars i).name name
      elim order [
        | pos zero ↦ ok (some (config.vars i).value)
        | pos (suc _) ↦ rest
        | negsuc _ ↦ rest
      ]

unfoldable pub ini_get : Ini → Str → Run (Option Mem)
ini_get config name = get_loop config.count 0 config name
