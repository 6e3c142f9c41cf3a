-- ===== src/Arch/Paging/Table.antt =====
-- Areas of the memory in src/arch/x86/pde.c.
use dek_os.Base.{ℕ, ◌+◌, ◌*◌, ◌^◌, ◌≤◌, ◌≡◌, ◌⊎◌, inl, inr, false, arith, Bool-cases, ltb, ◌==◌}
use dek_os.Arch.Paging.{Paging}

-- Two areas of memory have no byte in common.
abbrev pub Apart : ℕ → ℕ → ℕ → ℕ → Type 0
Apart p n q k = (p + n ≤ q) ⊎ (q + k ≤ p)

-- The directory and the 1024 tables do not overlap.
abbrev pub IsLaid : Paging → Type 0
IsLaid s = Apart s.page_directory 4096 s.page_tables (2 ^ 22)

pub narrow :
    (p n q k p' n' q' k' : ℕ)
    → Apart p n q k
    → (p ≤ p') × (p' + n' ≤ p + n) × (q ≤ q') × (q' + k' ≤ q + k)
    → Apart p' n' q' k'
narrow p n q k p' n' q' k' (inl h) v = inl (omega arith)
narrow p n q k p' n' q' k' (inr h) v = inr (omega arith)

pub swap-Apart : (p n q k : ℕ) → Apart p n q k → Apart q k p n
swap-Apart p n q k (inl h) = inr h
swap-Apart p n q k (inr h) = inl h

pub separate_entries : (p i k : ℕ) → (k == i) ≡ false → Apart (p + i * 4) 4 (p + k * 4) 4
separate_entries p i k ne = elim (Bool-cases (ltb i k)) [
  | inl below ↦ inl (ground arith)
  | inr above ↦ inr (ground arith)
]
