-- ===== src/Memory/Text/Token.antt =====
-- `strtok` of src/memory/string.c. Its `str` and its `save_ptr` are addresses of the memory it works
-- on, NULL is `none`, and `save_ptr`, a static variable, is passed in and returned.
pub mod Words
use dek_os.Base.{
  ℕ, zero, suc, ◌+◌, ◌^◌, Bool, true, false, not, Mem, store, ◌==◌, if◌then◌else◌, Option, none,
  some, Run, ok, hung, ◌>>=◌,
}
use dek_os.Memory.Text.{Str, strchr}

abbrev pub is_found : Option ℕ → Bool
is_found none = false
is_found (some _) = true

-- The two loops that move `str`: while it is on a delimiter (`inside` is true), or while it is not.
unfoldable pub span_loop : ℕ → Bool → Str → Mem → ℕ → Run ℕ
span_loop zero inside delim m str = hung
span_loop (suc fuel) inside delim m str =
    let rest = span_loop fuel inside delim m (str + 1) in
    if m str == 0 then ok str else (do
      found ← strchr delim (m str)
      if is_found found then (if inside then rest else ok str) else if inside then ok str else rest)

-- `strtok` from an address on: the token, the next `save_ptr`, and the memory
unfoldable pub next_token : ℕ → Str → Mem → Run (Option ℕ × Option ℕ × Mem)
next_token str delim m = do
  token_start ← span_loop (2 ^ 32) true delim m str
  if m token_start == 0 then ok (none, none, m) else (do
    end ← span_loop (2 ^ 32) false delim m token_start
    ok (
        if not (m end == 0)
        then (some token_start, some (end + 1), store m end 0)
        else (some token_start, none, m)))

unfoldable pub strtok : Option ℕ → Str → Option ℕ → Mem → Run (Option ℕ × Option ℕ × Mem)
strtok (some str) delim save_ptr m = next_token str delim m
strtok none delim none m = ok (none, none, m)
strtok none delim (some save_ptr) m = next_token save_ptr delim m
