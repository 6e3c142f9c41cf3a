-- ===== src/Memory/Text/Token/Words.antt =====
-- The words that `strtok` of src/memory/string.c finds in a text.
use dek_os.Base.{
  Bool-cases, inl, inr, ℕ, zero, suc, ◌+◌, ◌%◌, ◌^◌, ◌<◌, ◌≤◌, ◌≡◌, ◌≢◌, refl, sym, ◌∙◌, Bool, true,
  false, not, List, [], ◌∷◌, arith, ◌==◌, if◌then◌else◌, Option, none, some, ok, Mem, store,
}
use dek_os.Memory.Text.{Str, strchr}
use dek_os.Memory.Text.Scan.{length, IsStrAt, IsStr, first_from, strchr-first}
use dek_os.Memory.Text.Token.{is_found, span_loop, next_token, strtok}

abbrev member : ℕ → List ℕ → Bool
member c [] = false
member c (d ∷ ds) = if d == c then true else member c ds

-- Every byte of the list is one.
abbrev pub AllBytes : List ℕ → Type 0
AllBytes [] = Unit
AllBytes (x ∷ xs) = (x < 256) × AllBytes xs

-- Does a byte belong to a run of delimiters, or to one of other bytes?
abbrev belongs : Bool → List ℕ → ℕ → Bool
belongs true ds x = member x ds
belongs false ds x = not (member x ds)

-- the longest run at the front of a text, and what follows it
unfoldable pub run_of : Bool → List ℕ → List ℕ → List ℕ
run_of inside ds [] = []
run_of inside ds (x ∷ xs) = if belongs inside ds x then x ∷ run_of inside ds xs else []

unfoldable pub after : Bool → List ℕ → List ℕ → List ℕ
after inside ds [] = []
after inside ds (x ∷ xs) = if belongs inside ds x then after inside ds xs else x ∷ xs

first_from-member : (c i : ℕ) (ds : List ℕ) → is_found (first_from c i ds) ≡ member c ds
unfolding first_from
first_from-member c i [] = refl
first_from-member c i (d ∷ ds) = elim (Bool-cases (d == c)) [
  | inl here ↦ rw here refl
  | inr other ↦ rw other (first_from-member c (i + 1) ds)
]

module _ (delim : Str) (ds : List ℕ) (v : IsStr delim ds) (fits : length ds < 2 ^ 32) where
  strchr-member :
      (x : ℕ)
      → x ≢ 0
      → x < 256
      → (o : Option ℕ) × (strchr delim x ≡ ok o) × (is_found o ≡ member x ds)
  strchr-member x nonzero byte =
      let low : x % 256 ≡ x = omega arith in
      let (found, _) = strchr-first delim x ds v fits (omega arith) in
      (first_from x 0 ds, found ∙ rw low refl, first_from-member x 0 ds)

  -- One round of the loops.
  span_loop-suc :
      (fuel : ℕ) (inside : Bool) (m : Mem) (str x : ℕ)
      → m str ≡ x
      → x ≢ 0
      → x < 256
      → span_loop (suc fuel) inside delim m str
        ≡ (if belongs inside ds x then span_loop fuel inside delim m (str + 1) else ok str)
  unfolding span_loop
  span_loop-suc fuel true m str x e nonzero byte =
      let (o, found, there) = strchr-member x nonzero byte in
      let on : (x == 0) ≡ false = ground arith in rw (e, on, found, there) refl
  span_loop-suc fuel false m str x e nonzero byte =
      let (o, found, there) = strchr-member x nonzero byte in
      let on : (x == 0) ≡ false = ground arith in
      elim (Bool-cases (member x ds)) [
        | inl is ↦ rw (e, on, found, there, is) refl
        | inr other ↦ rw (e, on, found, there, other) refl
      ]

  span_loop-run_of :
      (inside : Bool) (xs : List ℕ) (fuel : ℕ) (m : Mem) (str : ℕ)
      → IsStrAt m str xs
      → AllBytes xs
      → length xs < fuel
      → (span_loop fuel inside delim m str ≡ ok (str + length (run_of inside ds xs)))
        × IsStrAt m (str + length (run_of inside ds xs)) (after inside ds xs)
  unfolding span_loop run_of after
  span_loop-run_of inside xs zero m str t b h = absurd (omega arith)
  span_loop-run_of inside [] (suc fuel) m str t b h =
      let e : str + 0 ≡ str = omega arith in
      let stop : (m str == 0) ≡ true = ground arith in (rw (stop, e) refl, rw e t)
  span_loop-run_of inside (x ∷ xs) (suc fuel) m str t b h =
      let round = span_loop-suc fuel inside m str x t.0 t.1 b.0 in
      elim (Bool-cases (belongs inside ds x)) [
        | inl on ↦
            let (runs, rest) = span_loop-run_of inside xs fuel m (str + 1) t.2 b.1 (omega arith) in
            let e : str + suc (length (run_of inside ds xs))
                ≡ str + 1 + length (run_of inside ds xs) =
              omega arith in
            rw (on, e) (round ∙ rw on runs, rest)
        | inr off ↦ let e : str + 0 ≡ str = omega arith in rw (off, e) (round ∙ rw off refl, t)
      ]

after-AllBytes :
    (inside : Bool) (ds xs : List ℕ)
    → AllBytes xs
    → AllBytes (after inside ds xs) × (length (after inside ds xs) ≤ length xs)
unfolding after
after-AllBytes inside ds [] b = (tt, omega arith)
after-AllBytes inside ds (x ∷ xs) b = elim (Bool-cases (belongs inside ds x)) [
  | inl on ↦
      let (bytes, short) = after-AllBytes inside ds xs b.1 in rw on (bytes, omega (arith, short))
  | inr off ↦ rw off (b, omega arith)
]

-- With nothing behind it, the run is the whole text.
run_of-all : (inside : Bool) (ds xs : List ℕ) → after inside ds xs ≡ [] → run_of inside ds xs ≡ xs
unfolding run_of after
run_of-all inside ds [] e = refl
run_of-all inside ds (x ∷ xs) e = elim (Bool-cases (belongs inside ds x)) [
  | inl on ↦
      let e' : after inside ds xs ≡ [] = sym (rw on refl) ∙ e in
      rw (on, run_of-all inside ds xs e') refl
  | inr off ↦ let e' : x ∷ xs ≡ [] = sym (rw off refl) ∙ e in cc
]

-- A NUL behind the run ends it.
run_of-ended :
    (inside : Bool) (ds xs : List ℕ) (m : Mem) (str at : ℕ)
    → IsStrAt m str xs
    → at ≡ str + length (run_of inside ds xs)
    → IsStrAt (store m at 0) str (run_of inside ds xs)
unfolding run_of
run_of-ended inside ds [] m str at t e = ground (arith, t)
run_of-ended inside ds (x ∷ xs) m str at t e = elim (Bool-cases (belongs inside ds x)) [
  | inl on ↦
      let e' : at ≡ str + suc (length (run_of inside ds xs)) = e ∙ rw on refl in
      rw on (
        ground (arith, t.0, e'),
        t.1,
        run_of-ended inside ds xs m (str + 1) at t.2 (omega (arith, e')),
      )
  | inr off ↦ let e' : at ≡ str + 0 = e ∙ rw off refl in rw off (ground (arith, e'))
]

-- A text behind the NUL is as it was.
IsStrAt-store :
    (xs : List ℕ) (m : Mem) (str at : ℕ)
    → at < str
    → IsStrAt m str xs
    → IsStrAt (store m at 0) str xs
IsStrAt-store [] m str at h t = ground (arith, t)
IsStrAt-store (x ∷ xs) m str at h t =
    (ground (arith, t.0), t.1, IsStrAt-store xs m (str + 1) at (omega arith) t.2)

-- `save_ptr` is NULL at the end of the text, and else stands behind one delimiter.
abbrev pub Follows : Mem → Option ℕ → List ℕ → Type 0
Follows m none rest = rest ≡ []
Follows m (some save_ptr) rest =
    (d : ℕ) × (left : List ℕ) × (rest ≡ d ∷ left) × IsStrAt m save_ptr left

-- What `strtok` returns, when the text that is left begins, after its delimiters, with `word`: NULL if
-- there is none, and else the word, ended by a NUL, with what follows it left for the next call.
abbrev pub Found : List ℕ → List ℕ → Mem → Option ℕ × Option ℕ × Mem → Type 0
Found ds [] m (token, save_ptr, m') = (token ≡ none) × (save_ptr ≡ none) × (m' ≡ m)
Found ds (c ∷ cs) m (none, save_ptr, m') = ⊥
Found ds (c ∷ cs) m (some token, save_ptr, m') =
    IsStrAt m' token (run_of false ds (c ∷ cs)) × Follows m' save_ptr (after false ds (c ∷ cs))

module _ (delim : Str) (ds : List ℕ) (v : IsStr delim ds) (fits : length ds < 2 ^ 32) (m : Mem)
    (str q c : ℕ) (cs : List ℕ) (starts : span_loop (2 ^ 32) true delim m str ≡ ok q)
    (t : IsStrAt m q (c ∷ cs))
    (ends : span_loop (2 ^ 32) false delim m q ≡ ok (q + length (run_of false ds (c ∷ cs)))) where
  -- The token stands at `q`, and the text goes on with `rest` behind it.
  token-Found :
      (rest : List ℕ)
      → after false ds (c ∷ cs) ≡ rest
      → IsStrAt m (q + length (run_of false ds (c ∷ cs))) rest
      → (r : Option ℕ × Option ℕ × Mem) × (next_token str delim m ≡ ok r) × Found ds (c ∷ cs) m r
  unfolding next_token
  token-Found [] e u =
      let end = q + length (run_of false ds (c ∷ cs)) in
      let on : (m q == 0) ≡ false = ground (arith, t.0, t.1) in
      let stop : (m end == 0) ≡ true = ground (arith, u) in
      (
        (some q, none, m),
        rw (starts, on, ends, stop) refl,
        (rw (run_of-all false ds (c ∷ cs) e) t, e),
      )
  token-Found (d ∷ left) e u =
      let end = q + length (run_of false ds (c ∷ cs)) in
      let on : (m q == 0) ≡ false = ground (arith, t.0, t.1) in
      let on' : (m end == 0) ≡ false = ground (arith, u.0, u.1) in
      (
        (some q, some (end + 1), store m end 0),
        rw (starts, on, ends, on') refl,
        (
          run_of-ended false ds (c ∷ cs) m q end t refl,
          (d, left, e, IsStrAt-store left m (end + 1) end (omega arith) u.2),
        ),
      )

next_token-Found :
    (delim : Str) (ds : List ℕ)
    → IsStr delim ds
    → length ds < 2 ^ 32
    → (m : Mem) (str q : ℕ) (ys : List ℕ) → span_loop (2 ^ 32) true delim m str ≡ ok q
    → IsStrAt m q ys
    → AllBytes ys
    → length ys < 2 ^ 32
    → (r : Option ℕ × Option ℕ × Mem) × (next_token str delim m ≡ ok r) × Found ds ys m r
unfolding next_token
next_token-Found delim ds v fits m str q [] starts t b h =
    let stop : (m q == 0) ≡ true = ground (arith, t) in
    ((none, none, m), rw (starts, stop) refl, (refl, refl, refl))
next_token-Found delim ds v fits m str q (c ∷ cs) starts t b h =
    let (ends, u) = span_loop-run_of delim ds v fits false (c ∷ cs) (2 ^ 32) m q t b h in
    token-Found delim ds v fits m str q c cs starts t ends (after false ds (c ∷ cs)) refl u

-- `strtok` skips delimiters and returns the longest run of other bytes, ended by a NUL that takes the
-- place of the delimiter behind it; what follows that delimiter is left for the next call, which with
-- NULL for the text goes on there. At the end of the text it returns NULL and changes nothing. The text
-- and the delimiters are bytes, fewer than 2 ^ 32 of them.
pub strtok-Found :
    (delim : Str) (ds : List ℕ) (save_ptr : Option ℕ) (m : Mem) (str : ℕ) (xs : List ℕ)
    → IsStr delim ds
    → length ds < 2 ^ 32
    → IsStrAt m str xs
    → AllBytes xs
    → length xs < 2 ^ 32
    → (r : Option ℕ × Option ℕ × Mem) × (strtok (some str) delim save_ptr m ≡ ok r)
      × (strtok none delim (some str) m ≡ ok r)
      × Found ds (after true ds xs) m r
unfolding strtok
strtok-Found delim ds save_ptr m str xs v fits t b h =
    let (starts, u) = span_loop-run_of delim ds v fits true xs (2 ^ 32) m str t b h in
    let (bytes, short) = after-AllBytes true ds xs b in
    let (r, runs, found) =
      next_token-Found delim ds v fits m str (str + length (run_of true ds xs)) (after true ds xs)
        starts u bytes (omega (arith, short)) in
    (r, runs, runs, found)
