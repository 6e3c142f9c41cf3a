-- ===== src/Ini/Config.antt =====
-- What src/ini.c makes of any file, and the search for a variable.
use native.Mathlib.Nat.{zero-add}
use mathlib.Core.Path.{subst}
use dek_os.Base.{
  ℕ, zero, suc, ◌+◌, ◌^◌, ◌≤◌, ◌<◌, ◌≡◌, refl, sym, ◌∙◌, inl, inr, arith, not, ◌&&◌, ◌||◌, Mem,
  store, null, leb, ◌==◌, Bool-cases, Option, none, some, Run, ok, Ensures, Ensures-ok, Ensures->>=,
  Ensures-then, Ensures-if, Ensures-hung,
}
use dek_os.Base.Int.{ℤ, pos, negsuc, sub_ℕ}
use dek_os.Memory.Text.{Str, strcmp_loop, strcmp, strchr}
use dek_os.Memory.Text.Token.{strtok}
use dek_os.Memory.Heap.{Heap, kfree}
use dek_os.Ini.{
  Ini, max_config_vars, empty, newline, add_var, read_line, ini_loop, ini_read, get_loop, ini_get,
}

-- There is a NUL among the first 32 bytes.
abbrev pub Ends : Mem → Type 0
Ends m = (k : ℕ) × (k < 32) × (m k ≡ 0)

-- At most 32 variables, all of whose texts end within their fields.
pub record IsConfig (config : Ini) : Type 0 where
  pub fits : config.count ≤ max_config_vars
  pub names : (i : ℕ) → Ends (config.vars i).name
  pub values : (i : ℕ) → Ends (config.vars i).value

empty-IsConfig : IsConfig empty
empty-IsConfig = record {
  fits = omega arith;
  names = λ i. (0, omega arith, refl);
  values = λ i. (0, omega arith, refl);
}

store-Ends : (m : Mem) (k : ℕ) → k < 32 → Ends (store m k 0)
store-Ends m k h = (k, h, ground arith)

add_var-IsConfig :
    (m : Mem) (line equals : ℕ) (config : Ini)
    → config.count < max_config_vars
    → IsConfig config
    → IsConfig (add_var m line equals config)
unfolding add_var
add_var-IsConfig m line equals config room v = record {
  fits = omega arith;
  names = λ i. elim (Bool-cases (i == config.count)) [
    | inl new ↦ rw new (store-Ends _ _ (ground arith))
    | inr old ↦ rw old (v.names i)
  ];
  values = λ i. elim (Bool-cases (i == config.count)) [
    | inl new ↦ rw new (store-Ends _ _ (omega arith))
    | inr old ↦ rw old (v.values i)
  ];
}

read_line-IsConfig :
    (m : Mem) (line : ℕ) (config : Ini)
    → config.count < max_config_vars
    → IsConfig config
    → Ensures IsConfig (read_line m line config)
unfolding read_line
read_line-IsConfig m line config room v =
    Ensures-if ((m line == b'#') || (m line == 0)) (Ensures-ok v)
      (Ensures-then (strchr (λ k. m (line + k)) b'=') (λ o. Ensures-ok (added o)))
  where
    added :
        (o : Option ℕ)
        → IsConfig (elim o as (λ _. Ini) [ none ↦ config | some e ↦ add_var m line e config ])
    added none = v
    added (some e) = add_var-IsConfig m line e config room v

-- The configuration of a result is well formed.
pub record Configured {A : Type 0} (r : Ini × A) : Type 0 where
  pub config : IsConfig r.0

ini_loop-Configured :
    (fuel : ℕ) (m : Mem) (line save_ptr : Option ℕ) (config : Ini)
    → IsConfig config
    → Ensures Configured (ini_loop fuel m line save_ptr config)
unfolding ini_loop
ini_loop-Configured zero m line save_ptr config v = Ensures-hung
ini_loop-Configured (suc fuel) m none save_ptr config v = Ensures-ok (record { config = v })
ini_loop-Configured (suc fuel) m (some line) save_ptr config v =
    elim (Bool-cases (leb max_config_vars config.count)) [
      | inl full ↦ rw full (Ensures-ok (record { config = v }))
      | inr room ↦ rw room (
          Ensures->>= (read_line m line config)
            (read_line-IsConfig m line config (ground (arith, room)) v)
            (λ config' v'.
              Ensures-then (strtok none newline save_ptr m)
                (λ t. ini_loop-Configured fuel t.2 t.0 t.1 config' v')))
    ]

-- Whatever the file holds, when `IniRead` returns, the configuration has at most 32 variables, and each
-- of their names and values ends within its field.
pub ini_read-IsConfig :
    (read_file : Str → Heap → Run (ℕ × Heap)) (path : Str) (h : Heap)
    → Ensures Configured (ini_read read_file path h)
unfolding ini_read
ini_read-IsConfig read_file path h = Ensures-then (read_file path h) (λ f.
    Ensures-if (f.0 == null) (Ensures-ok (record { config = empty-IsConfig })) (
      Ensures-then (strtok (some f.0) newline none f.1.bytes) (λ t.
        Ensures->>= (ini_loop (2 ^ 32) t.2 t.0 t.1 empty)
          (ini_loop-Configured (2 ^ 32) t.2 t.0 t.1 empty empty-IsConfig)
          (λ r v.
            Ensures-then (kfree f.0 (record (f.1) { bytes = r.1 }))
              (λ h''. Ensures-ok (record { config = v.config }))))))

-- A comparison with a text that ends returns, whatever the other one is.
pub strcmp_loop_ends :
    (fuel : ℕ) (s t : Str) (i k : ℕ)
    → i ≤ k
    → k < i + fuel
    → s k ≡ 0
    → (z : ℤ) × (strcmp_loop fuel s t i ≡ ok z)
unfolding strcmp_loop
strcmp_loop_ends zero s t i k low high e = absurd (omega arith)
strcmp_loop_ends (suc fuel) s t i k low high e =
    elim (Bool-cases (not (s i == 0) && (s i == t i))) [
      | inl same ↦ rw same (strcmp_loop_ends fuel s t (i + 1) k (ground (arith, e)) (omega arith) e)
      | inr other ↦ rw other (sub_ℕ (s i) (t i), refl)
    ]

strcmp_ends : (s t : Str) → Ends s → (z : ℤ) × (strcmp s t ≡ ok z)
unfolding strcmp
strcmp_ends s t (k, low, e) = strcmp_loop_ends (2 ^ 32) s t 0 k (omega arith) (omega arith) e

-- Variable `i` has the name.
abbrev pub IsNamed : Ini → Str → ℕ → Type 0
IsNamed config name i = strcmp (config.vars i).name name ≡ ok (pos 0)

-- The value of the first of the variables from `i` to `stop` that has the name, if one has.
pub data Got (config : Ini) (name : Str) (i stop : ℕ) (r : Option Mem) : Type 0 where
  found :
      (k : ℕ)
      → i ≤ k
      → k < stop
      → IsNamed config name k
      → ((j : ℕ) → i ≤ j → j < k → ¬ IsNamed config name j)
      → r ≡ some (config.vars k).value
      → Got config name i stop r
  absent :
      ((j : ℕ) → i ≤ j → j < stop → ¬ IsNamed config name j) → r ≡ none → Got config name i stop r

not_before :
    (config : Ini) (name : Str) (i stop : ℕ)
    → ¬ IsNamed config name i
    → ((j : ℕ) → i + 1 ≤ j → j < stop → ¬ IsNamed config name j)
    → (j : ℕ) → i ≤ j
    → j < stop
    → ¬ IsNamed config name j
not_before config name i stop here later j low high = elim (Bool-cases (j == i)) [
  | inl same ↦ let e : j ≡ i = ground arith in rw e here
  | inr other ↦ later j (ground arith) high
]

later-Got :
    (config : Ini) (name : Str) (i stop : ℕ) (r : Option Mem)
    → ¬ IsNamed config name i
    → Got config name (i + 1) stop r
    → Got config name i stop r
later-Got config name i stop r here (found k low high named before e) =
    found k (omega arith) high named (not_before config name i k here before) e
later-Got config name i stop r here (absent all e) =
    absent (not_before config name i stop here all) e

get_loop-Got :
    (n i : ℕ) (config : Ini) (name : Str)
    → IsConfig config
    → (r : Option Mem) × (get_loop n i config name ≡ ok r) × Got config name i (i + n) r
unfolding get_loop
get_loop-Got zero i config name v = (none, refl, absent (λ j low high. absurd (omega arith)) refl)
get_loop-Got (suc n) i config name v =
    let (z, compared) = strcmp_ends (config.vars i).name name (v.names i) in
    let (r, runs, got) = get_loop-Got n (i + 1) config name v in
    let e : i + 1 + n ≡ i + suc n = omega arith in
    rw compared (branch z compared r (get_loop n (i + 1) config name) runs (rw (← e) got))
  where
    branch :
        (z : ℤ)
        → strcmp (config.vars i).name name ≡ ok z
        → (r : Option Mem) (rest : Run (Option Mem)) → rest ≡ ok r
        → Got config name (i + 1) (i + suc n) r
        → (r' : Option Mem) × (◌≡◌ {A = Run (Option Mem)}
            (elim z as (λ _. Run (Option Mem)) [
              | pos zero ↦ ok (some (config.vars i).value)
              | pos (suc _) ↦ rest
              | negsuc _ ↦ rest
            ])
            (ok r'))
          × Got config name i (i + suc n) r'
    branch (pos zero) c r rest runs got = (
      some (config.vars i).value,
      refl,
      found i (omega arith) (omega arith) c (λ j a b. absurd (omega arith)) refl,
    )
    branch (pos (suc k)) c r rest runs got = (
      r,
      runs,
      later-Got config name i (i + suc n) r
          (λ e. let both : ok (pos (suc k)) ≡ ok (pos zero) = sym c ∙ e in cc) got,
    )
    branch (negsuc k) c r rest runs got = (
      r,
      runs,
      later-Got config name i (i + suc n) r
          (λ e. let both : ok (negsuc k) ≡ ok (pos zero) = sym c ∙ e in cc) got,
    )

-- `IniGet` always returns on such a configuration: the value of the first variable with the name, or
-- NULL if none has it.
pub ini_get-Got :
    (config : Ini) (name : Str)
    → IsConfig config
    → (r : Option Mem) × (ini_get config name ≡ ok r) × Got config name 0 config.count r
unfolding ini_get
ini_get-Got config name v =
    let (r, runs, got) = get_loop-Got config.count 0 config name v in
    (r, runs, subst (λ (stop : ℕ). Got config name 0 stop r) (zero-add config.count) got)
