-- ===== src/Arch/Paging/Search.antt =====
-- `PDEPToV` of src/arch/x86/pde.c, the search for the page of a physical address.
use dek_os.Base.{
  ℕ, zero, suc, ◌+◌, ◌*◌, ◌%◌, ◌^◌, ◌≤◌, ◌<◌, ◌≡◌, ◌≢◌, refl, inl, inr, arith, ltb, ◌==◌,
  Bool-cases, Run, ok,
}
use dek_os.Arch.Paging.{Paging, unmapped, pde_v_to_p, p_to_v_loop, pde_p_to_v}

-- No page below number `n`, counted from `virt`, is translated to the address.
abbrev pub NoneBelow : ℕ → ℕ → ℕ → Paging → Type 0
NoneBelow n phys virt s = (j : ℕ) → j < n → pde_v_to_p (virt + j * 4096) s ≢ phys

-- The search from `virt` to `stop`: the first page that is translated to the address, or none.
pub data Searched (phys virt stop : ℕ) (s : Paging) (r : Run ℕ) : Type 0 where
  found :
      (k : ℕ)
      → virt + k * 4096 < stop
      → pde_v_to_p (virt + k * 4096) s ≡ phys
      → NoneBelow k phys virt s
      → r ≡ ok (virt + k * 4096)
      → Searched phys virt stop s r
  absent :
      (n : ℕ)
      → stop ≤ virt + n * 4096
      → NoneBelow n phys virt s
      → r ≡ ok unmapped
      → Searched phys virt stop s r

NoneBelow-suc :
    (n phys virt : ℕ) (s : Paging)
    → pde_v_to_p virt s ≢ phys
    → NoneBelow n phys (virt + 4096) s
    → NoneBelow (suc n) phys virt s
NoneBelow-suc n phys virt s here later zero h =
    let e : virt + 0 * 4096 ≡ virt = omega arith in rw e here
NoneBelow-suc n phys virt s here later (suc j) h =
    let e : virt + suc j * 4096 ≡ virt + 4096 + j * 4096 = omega arith in
    rw e (later j (omega arith))

later-Searched :
    (phys virt stop : ℕ) (s : Paging) (r : Run ℕ)
    → pde_v_to_p virt s ≢ phys
    → Searched phys (virt + 4096) stop s r
    → Searched phys virt stop s r
later-Searched phys virt stop s r here (found k inside hit before e) =
    let shift : virt + 4096 + k * 4096 ≡ virt + suc k * 4096 = omega arith in
    found (suc k) (omega arith) (rw (← shift) hit) (NoneBelow-suc k phys virt s here before)
      (rw (← shift) e)
later-Searched phys virt stop s r here (absent n past before e) =
    absent (suc n) (omega arith) (NoneBelow-suc n phys virt s here before) e

p_to_v_loop-Searched :
    (fuel phys virt stop : ℕ) (s : Paging)
    → 0 < fuel
    → stop + 4096 ≤ virt + fuel * 4096
    → stop + 4096 ≤ 2 ^ 32
    → Searched phys virt stop s (p_to_v_loop fuel phys virt stop s)
unfolding p_to_v_loop
p_to_v_loop-Searched zero phys virt stop s positive enough fits = absurd (omega arith)
p_to_v_loop-Searched (suc fuel) phys virt stop s positive enough fits =
    elim (Bool-cases (ltb virt stop)) [
      | inl inside ↦
          let next : (virt + 4096) % 2 ^ 32 ≡ virt + 4096 = ground arith in
          elim (Bool-cases (pde_v_to_p virt s == phys)) [
            | inl hit ↦
                let e : virt + 0 * 4096 ≡ virt = omega arith in
                rw (inside, hit)
                  (found 0 (ground arith) (ground arith) (λ j h. absurd (omega arith)) (rw e refl))
            | inr miss ↦
                rw (inside, miss, next)
                  (later-Searched phys virt stop s (p_to_v_loop fuel phys (virt + 4096) stop s)
                    (ground arith)
                    (p_to_v_loop-Searched fuel phys (virt + 4096) stop s (ground arith)
                      (omega arith) fits))
          ]
      | inr past ↦ rw past (absent 0 (ground arith) (λ j h. absurd (omega arith)) refl)
    ]

-- `PDEPToV` ends, and gives the first page of the range that is translated to the address, or
-- `0xFFFFFFFF` if there is none, when the range ends a page below the end of the address space.
pub p_to_v-Searched :
    (phys start_virt size : ℕ) (s : Paging)
    → start_virt + size + 4096 ≤ 2 ^ 32
    → Searched phys start_virt (start_virt + size) s (pde_p_to_v phys start_virt size s)
unfolding pde_p_to_v
p_to_v-Searched phys start_virt size s fits =
    let stop : (start_virt + size) % 2 ^ 32 ≡ start_virt + size = omega arith in
    rw stop (
      p_to_v_loop-Searched (2 ^ 20) phys start_virt (start_virt + size) s (omega arith)
        (omega arith) fits)
