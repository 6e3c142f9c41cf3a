-- ===== src/Elf/Symbols.antt =====
-- The symbols that the kernel gives to programs, src/programs/elf/elf.c, as a list of names and
-- addresses.
use native.Mathlib.Nat.{zero-add}
use dek_os.Base.{
  ℕ, zero, suc, ◌+◌, ◌*◌, ◌^◌, ◌≤◌, ◌<◌, ◌≡◌, ◌≢◌, refl, ap, ◌∙◌, ◌⊎◌, inl, inr, Bool, true, false,
  List, [], ◌∷◌, ◌++◌, arith, Mem, null, load32, load32-same, if◌then◌else◌, Run, ok,
}
use dek_os.Base.Int.{ℤ, pos, negsuc}
use dek_os.Memory.Text.Scan.{length, IsStrAt, IsStr}
use dek_os.Memory.Text.Compare.{difference, strcmp-difference}
use dek_os.Elf.{Externs, lookup_loop, elf_lookup_symbol}

abbrev pub Table : Type 0
Table = List (List ℕ × ℕ)

abbrev is_zero : ℤ → Bool
is_zero (pos zero) = true
is_zero (pos (suc _)) = false
is_zero (negsuc _) = false

-- the address of the first symbol with the name, or NULL
unfoldable pub find : List ℕ → Table → ℕ
find name [] = null
find name ((text, addr) ∷ ts) = if is_zero (difference text name) then addr else find name ts

-- The `n` bytes from `a` on are none of those from `lo` to `hi`.
abbrev pub Outside : ℕ → ℕ → ℕ → ℕ → Type 0
Outside lo hi a n = (a + n ≤ lo) ⊎ (hi ≤ a)

-- A name that stands outside an area.
pub record IsName (m : Mem) (lo hi name : ℕ) (text : List ℕ) : Type 0 where
  pub is_text : IsStr (λ k. m (name + k)) text
  pub short : length text < 2 ^ 32
  pub outside : Outside lo hi name (length text + 1)

-- From entry `i` on, the table at `base` has the entries of the list, with names outside an area.
abbrev pub HasEntries : Mem → ℕ → ℕ → ℕ → ℕ → Table → Type 0
HasEntries m lo hi base i [] = Unit {0}
HasEntries m lo hi base i ((text, addr) ∷ ts) =
    IsName m lo hi (load32 m (base + i * 8)) text
    × (load32 m (base + i * 8 + 4) ≡ addr)
    × HasEntries m lo hi base (i + 1) ts

-- The end of the table's memory.
abbrev pub table_end : Externs → ℕ
table_end x = x.extern_symbols + x.extern_symbol_capacity * 8

pub record IsTable (m : Mem) (x : Externs) (ts : Table) : Type 0 where
  pub not_null : x.extern_symbols ≢ null
  pub counts : length ts ≡ x.extern_symbol_count
  pub fits : x.extern_symbol_count ≤ x.extern_symbol_capacity
  pub entries : HasEntries m x.extern_symbols (table_end x) x.extern_symbols 0 ts

lookup_loop-find :
    (m : Mem) (x : Externs) (lo hi name : ℕ) (q : List ℕ)
    → IsStr (λ k. m (name + k)) q
    → (ts : Table) (n i : ℕ) → length ts ≡ n
    → HasEntries m lo hi x.extern_symbols i ts
    → lookup_loop n i m x name ≡ ok (find q ts)
unfolding lookup_loop find
lookup_loop-find m x lo hi name q v [] zero i e w = refl
lookup_loop-find m x lo hi name q v [] (suc n) i e w = absurd (omega arith)
lookup_loop-find m x lo hi name q v (t ∷ ts) zero i e w = absurd (omega arith)
lookup_loop-find m x lo hi name q v ((text, addr) ∷ ts) (suc n) i e (here, at, later) =
    let compared =
      strcmp-difference (λ k. m (load32 m (x.extern_symbols + i * 8) + k)) (λ k. m (name + k)) text
        q here.is_text v here.short in
    let rest = lookup_loop-find m x lo hi name q v ts n (i + 1) (omega arith) later in
    rw compared (
      branch (difference text q) (lookup_loop n (i + 1) m x name) rest
        (load32 m (x.extern_symbols + i * 8 + 4)) at)
  where
    branch :
        (z : ℤ) (r : Run ℕ)
        → r ≡ ok (find q ts)
        → (a : ℕ) → a ≡ addr
        → ◌≡◌ {A = Run ℕ}
            (elim z as (λ _. Run ℕ) [ pos zero ↦ ok a | pos (suc _) ↦ r | negsuc _ ↦ r ])
            (ok (if is_zero z then addr else find q ts))
    branch (pos zero) r f a g = ap ok g
    branch (pos (suc k)) r f a g = f
    branch (negsuc k) r f a g = f

-- `elfLookupSymbol` returns the address of the first symbol with the name.
pub lookup_symbol-find :
    (m : Mem) (x : Externs) (ts : Table) (name : ℕ) (q : List ℕ)
    → IsTable m x ts
    → IsStr (λ k. m (name + k)) q
    → elf_lookup_symbol m x name ≡ ok (find q ts)
unfolding elf_lookup_symbol
lookup_symbol-find m x ts name q t v =
    lookup_loop-find m x x.extern_symbols (table_end x) name q v ts x.extern_symbol_count 0 t.counts
      t.entries

-- Two memories agree outside an area.
abbrev pub Agree : Mem → Mem → ℕ → ℕ → Type 0
Agree m m' lo hi = (a : ℕ) → (a < lo) ⊎ (hi ≤ a) → m' a ≡ m a

IsStrAt-Agree :
    (m m' : Mem) (lo hi name : ℕ) (xs : List ℕ) (i : ℕ)
    → Agree m m' lo hi
    → Outside lo hi name (i + length xs + 1)
    → IsStrAt (λ k. m (name + k)) i xs
    → IsStrAt (λ k. m' (name + k)) i xs
IsStrAt-Agree m m' lo hi name [] i g o v = g (name + i) (byte o) ∙ v
  where
    byte : Outside lo hi name (i + 0 + 1) → (name + i < lo) ⊎ (hi ≤ name + i)
    byte (inl h) = inl (omega arith)
    byte (inr h) = inr (omega arith)
IsStrAt-Agree m m' lo hi name (x ∷ xs) i g o v =
    (g (name + i) (byte o) ∙ v.0, v.1, IsStrAt-Agree m m' lo hi name xs (i + 1) g (next o) v.2)
  where
    byte : Outside lo hi name (i + suc (length xs) + 1) → (name + i < lo) ⊎ (hi ≤ name + i)
    byte (inl h) = inl (omega arith)
    byte (inr h) = inr (omega arith)

    next : Outside lo hi name (i + suc (length xs) + 1) → Outside lo hi name (i + 1 + length xs + 1)
    next (inl h) = inl (omega arith)
    next (inr h) = inr h

pub IsName-Agree :
    (m m' : Mem) (lo hi lo' hi' name : ℕ) (text : List ℕ)
    → Agree m m' lo hi
    → Outside lo hi name (length text + 1)
    → Outside lo' hi' name (length text + 1)
    → IsName m lo' hi' name text
    → IsName m' lo' hi' name text
IsName-Agree m m' lo hi lo' hi' name text g o o' v = record {
  is_text = IsStrAt-Agree m m' lo hi name text 0 g (rw (zero-add (length text)) o) v.is_text;
  short = v.short;
  outside = o';
}

pub load32-Agree :
    (m m' : Mem) (lo hi p : ℕ) → Agree m m' lo hi → Outside lo hi p 4 → load32 m' p ≡ load32 m p
load32-Agree m m' lo hi p g (inl h) = load32-same m' m p (λ a l r. g a (inl (omega arith)))
load32-Agree m m' lo hi p g (inr h) = load32-same m' m p (λ a l r. g a (inr (omega arith)))

-- Writing an entry behind the others leaves them.
pub HasEntries-Agree :
    (m m' : Mem) (base end at : ℕ) (ts : Table) (i : ℕ)
    → Agree m m' at (at + 8)
    → base ≤ at
    → at + 8 ≤ end
    → base + (i + length ts) * 8 ≤ at
    → HasEntries m base end base i ts
    → HasEntries m' base end base i ts
HasEntries-Agree m m' base end at [] i g low high h v = tt
HasEntries-Agree m m' base end at ((text, addr) ∷ ts) i g low high h (here, there, later) =
    let name = load32-Agree m m' at (at + 8) (base + i * 8) g (inl (omega arith)) in
    let value = load32-Agree m m' at (at + 8) (base + i * 8 + 4) g (inl (omega arith)) in
    (
      rw name (
          IsName-Agree m m' at (at + 8) base end (load32 m (base + i * 8)) text g
            (within here.outside) here.outside here),
      value ∙ there,
      HasEntries-Agree m m' base end at ts (i + 1) g low high (omega arith) later,
    )
  where
    within :
        Outside base end (load32 m (base + i * 8)) (length text + 1)
        → Outside at (at + 8) (load32 m (base + i * 8)) (length text + 1)
    within (inl b) = inl (omega arith)
    within (inr b) = inr (omega arith)

pub HasEntries-snoc :
    (m : Mem) (lo hi base : ℕ) (ts : Table) (i : ℕ) (text : List ℕ) (addr : ℕ)
    → HasEntries m lo hi base i ts
    → IsName m lo hi (load32 m (base + (i + length ts) * 8)) text
    → load32 m (base + (i + length ts) * 8 + 4) ≡ addr
    → HasEntries m lo hi base i (ts ++ (text, addr) ∷ [])
HasEntries-snoc m lo hi base [] i text addr v n a =
    let e : i + 0 ≡ i = omega arith in (rw (← e) n, rw (← e) a, tt)
HasEntries-snoc m lo hi base (t ∷ ts) i text addr v n a =
    let e : i + suc (length ts) ≡ i + 1 + length ts = omega arith in
    (v.0, v.1, HasEntries-snoc m lo hi base ts (i + 1) text addr v.2 (rw (← e) n) (rw (← e) a))
