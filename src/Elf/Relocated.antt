-- ===== src/Elf/Relocated.antt =====
-- What one relocation of src/programs/elf/elf.c does.
use dek_os.Base.{
  ℕ, ◌+◌, ◌%◌, ◌^◌, ◌≤◌, ◌<◌, ◌≡◌, ◌≢◌, refl, ◌⊎◌, inl, inr, true, false, arith, Mem, null, load32,
  load32-store32_wrap, store32-outside, ◌==◌, Bool-cases, ok,
}
use dek_os.Elf.{Externs, elf_error, elf_section, elf_get_symbol_value, sh_info, sh_link}
use dek_os.Elf.Relocate.{
  r_sym, r_type, ref_of, do_386_32, do_386_pc32, relocate_word, elf_do_relocation,
}

-- What the relocation of a type does to the word at `ref`, for a symbol of value `s`: the sum of the
-- two, or the distance of that sum from the word; nothing else changes. Any other type is an error.
pub record Relocated (type ref s : ℕ) (m : Mem) (r : ℕ × Mem) : Type 0 where
  pub elsewhere : (a : ℕ) → (a < ref) ⊎ (ref + 4 ≤ a) → r.1 a ≡ m a
  pub none_at_all : type ≡ 0 → r ≡ (s, m)
  pub absolute : type ≡ 1 → (r.0 ≡ s) × (load32 r.1 ref ≡ (s + load32 m ref) % 2 ^ 32)
  pub relative :
      type ≡ 2 → (r.0 ≡ s) × ((load32 r.1 ref + ref) % 2 ^ 32 ≡ (s + load32 m ref) % 2 ^ 32)
  pub unknown : 2 < type → r ≡ (elf_error, m)

relocate_word-elsewhere :
    (type ref s : ℕ) (m : Mem) (a : ℕ)
    → (a < ref) ⊎ (ref + 4 ≤ a)
    → (relocate_word type ref s m).1 a ≡ m a
unfolding relocate_word
relocate_word-elsewhere type ref s m a out = elim (Bool-cases (type == 0)) [
  | inl none ↦ rw none refl
  | inr some ↦ elim (Bool-cases (type == 1)) [
    | inl absolute ↦ rw (some, absolute) (store32-outside m ref (do_386_32 s (load32 m ref)) a out)
    | inr other ↦ elim (Bool-cases (type == 2)) [
      | inl relative ↦
          rw (some, other, relative)
            (store32-outside m ref (do_386_pc32 s (load32 m ref) ref) a out)
      | inr unknown ↦ rw (some, other, unknown) refl
    ]
  ]
]

relocate_word-Relocated :
    (type ref s : ℕ) (m : Mem) → ref < 2 ^ 32 → Relocated type ref s m (relocate_word type ref s m)
unfolding relocate_word
relocate_word-Relocated type ref s m low = record {
  elsewhere = relocate_word-elsewhere type ref s m;
  none_at_all = λ e. rw e refl;
  absolute = λ e.
      let done = load32-store32_wrap m ref (do_386_32 s (load32 m ref)) in
      rw e (refl, omega (arith, done));
  relative = λ e.
      let done = load32-store32_wrap m ref (do_386_pc32 s (load32 m ref) ref) in
      rw e (refl, omega (arith, done));
  unknown = λ h.
      let zero_not : (type == 0) ≡ false = ground arith in
      let one_not : (type == 1) ≡ false = ground arith in
      let two_not : (type == 2) ≡ false = ground arith in rw (zero_not, one_not, two_not) refl;
}

-- The value of the symbol that a relocation names: 0 for none.
pub data HasValue (x : Externs) (hdr rel reltab : ℕ) (m : Mem) (s : ℕ) : Type 0 where
  no_symbol : r_sym m rel ≡ 0 → s ≡ 0 → HasValue x hdr rel reltab m s
  symbol :
      r_sym m rel ≢ 0
      → elf_get_symbol_value x hdr (sh_link m reltab) (r_sym m rel) m ≡ ok s
      → HasValue x hdr rel reltab m s

-- A relocation whose section is there and whose symbol has a value makes the one word that it names the
-- sum of that value and the word, or for `R_386_PC32` the distance of this sum from the word, modulo
-- 2 ^ 32, and changes nothing else; an unknown type is an error. A symbol of no value is an error that
-- changes nothing.
pub do_relocation-Relocated :
    (x : Externs) (hdr rel reltab : ℕ) (m : Mem) (s : ℕ)
    → elf_section m hdr (sh_info m reltab) ≢ null
    → HasValue x hdr rel reltab m s
    → (r : ℕ × Mem) × (elf_do_relocation x hdr rel reltab m ≡ ok r)
      × (s ≢ elf_error → Relocated (r_type m rel) (ref_of hdr rel reltab m) s m r)
      × (s ≡ elf_error → r ≡ (elf_error, m))
unfolding elf_do_relocation
do_relocation-Relocated x hdr rel reltab m s found (no_symbol none e) =
    let target : (elf_section m hdr (sh_info m reltab) == null) ≡ false = ground (arith, found) in
    let zero_sym : (r_sym m rel == 0) ≡ true = ground (arith, none) in
    (
      relocate_word (r_type m rel) (ref_of hdr rel reltab m) s m,
      rw (target, zero_sym, e) refl,
      (λ ne. relocate_word-Relocated (r_type m rel) (ref_of hdr rel reltab m) s m (omega arith)),
      λ bad. absurd (omega (arith, bad, e)),
    )
do_relocation-Relocated x hdr rel reltab m s found (symbol some value) =
    let target : (elf_section m hdr (sh_info m reltab) == null) ≡ false = ground (arith, found) in
    let some_sym : (r_sym m rel == 0) ≡ false = ground (arith, some) in
    elim (Bool-cases (s == elf_error)) [
      | inl bad ↦ (
        (elf_error, m),
        rw (target, some_sym, value, bad) refl,
        (λ ne. absurd (ne (ground arith))),
        λ e. refl,
      )
      | inr good ↦ (
        relocate_word (r_type m rel) (ref_of hdr rel reltab m) s m,
        rw (target, some_sym, value, good) refl,
        (λ ne. relocate_word-Relocated (r_type m rel) (ref_of hdr rel reltab m) s m (omega arith)),
        λ e. absurd (ground (arith, good, e)),
      )
    ]
