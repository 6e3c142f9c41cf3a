-- ===== src/Memory/Heap/Search.antt =====
-- The loops of `m_map` of src/memory/alloc.c: first fit, and what marking a run does.
use native.Mathlib.Nat.{add-zero}
use dek_os.Base.{
  ℕ, zero, suc, ◌+◌, ◌-◌, ◌*◌, ◌%◌, ◌^◌, ◌≤◌, ◌<◌, ◌≡◌, refl, ◌⊎◌, inl, inr, true, false, ◌&&◌, not,
  arith, Mem, ltb, ◌==◌, Bool-cases, if◌then◌else◌, Run, ok,
}
use dek_os.Base.Bitmap.{bit, mark, unmark, bit-mark, bit-unmark}
use dek_os.Memory.Block.{in_block}
use dek_os.Memory.Heap.{
  Heap, Region, no_region, total_bits, run_is_free, mark_run, unmark_run, find_run,
}
use dek_os.Memory.Heap.Layout.{IsHeap}

-- The `n` blocks from `i` on exist and are free.
pub record IsFreeRun (map : Mem) (total i n : ℕ) : Type 0 where
  pub exist : i + n ≤ total
  pub free : (k : ℕ) → i ≤ k → k < i + n → bit 8 map k ≡ false

IsFreeRun-cons :
    (map : Mem) (total i n : ℕ)
    → i < total
    → bit 8 map i ≡ false
    → IsFreeRun map total (i + 1) n
    → IsFreeRun map total i (suc n)
IsFreeRun-cons map total i n h e v = record { exist = omega (arith, v.exist); free = all }
  where
    all : (k : ℕ) → i ≤ k → k < i + suc n → bit 8 map k ≡ false
    all k lo hi = elim (Bool-cases (k == i)) [
      | inl same ↦ let same' : k ≡ i = ground arith in rw same' e
      | inr other ↦ v.free k (ground arith) (omega arith)
    ]

IsFreeRun-tail :
    (map : Mem) (total i n : ℕ) → IsFreeRun map total i (suc n) → IsFreeRun map total (i + 1) n
IsFreeRun-tail map total i n v = record {
  exist = omega (arith, v.exist);
  free = λ k lo hi. v.free k (omega arith) (omega arith);
}

module _ (map : Mem) (total : ℕ) (small : total < 2 ^ 32) where
  run_is_free-suc :
      (n i j : ℕ)
      → i + j ≤ total
      → run_is_free map total (suc n) i j
        ≡ (ltb (i + j) total && not (bit 8 map (i + j)) && run_is_free map total n i (j + 1))
  unfolding run_is_free
  run_is_free-suc n i j h =
      let e : (i + j) % 2 ^ 32 ≡ i + j = omega arith in rw (e, run_is_free) (ground arith)

  run_is_free_sound :
      (n i j : ℕ)
      → i + j ≤ total
      → run_is_free map total n i j ≡ true
      → IsFreeRun map total (i + j) n
  run_is_free_sound zero i j h e = record {
    exist = omega arith;
    free = λ k lo hi. absurd (omega arith);
  }
  run_is_free_sound (suc n) i j h e =
      let here : (i + j < total)
          × (bit 8 map (i + j) ≡ false)
          × (run_is_free map total n i (j + 1) ≡ true) =
        ground (arith, run_is_free-suc n i j h) in
      let step : i + (j + 1) ≡ i + j + 1 = omega arith in
      IsFreeRun-cons map total (i + j) n here.0 here.1
        (rw step at (run_is_free_sound n i (j + 1) (omega (arith, here.0)) here.2))

  run_is_free_complete :
      (n i j : ℕ) → IsFreeRun map total (i + j) n → run_is_free map total n i j ≡ true
  unfolding run_is_free
  run_is_free_complete zero i j v = refl
  run_is_free_complete (suc n) i j v =
      let step : i + j + 1 ≡ i + (j + 1) = omega arith in
      let rest : IsFreeRun map total (i + (j + 1)) n =
        rw step at (IsFreeRun-tail map total (i + j) n v) in
      ground (
        arith,
        v.free (i + j),
        run_is_free-suc n i j (omega (arith, v.exist)),
        run_is_free_complete n i (j + 1) rest,
      )

-- Marking a run marks its blocks and no other; so for unmarking.
pub bit-mark_run :
    (n i j : ℕ) (map : Mem) (k : ℕ)
    → i + j + n ≤ 2 ^ 32
    → bit 8 (mark_run n i j map) k ≡ (if in_block (i + j) n k then true else bit 8 map k)
unfolding mark_run
bit-mark_run zero i j map k h = ground arith
bit-mark_run (suc n) i j map k h = ground (
  arith,
  bit-mark_run n i (j + 1) (mark 8 map ((i + j) % 2 ^ 32)) k (omega arith),
  bit-mark 8 (omega arith) map ((i + j) % 2 ^ 32) k,
)

pub bit-unmark_run :
    (n i j : ℕ) (map : Mem) (k : ℕ)
    → i + j + n ≤ 2 ^ 32
    → bit 8 (unmark_run n i j map) k ≡ (if in_block (i + j) n k then false else bit 8 map k)
unfolding unmark_run
bit-unmark_run zero i j map k h = ground arith
bit-unmark_run (suc n) i j map k h = ground (
  arith,
  bit-unmark_run n i (j + 1) (unmark 8 map ((i + j) % 2 ^ 32)) k (omega arith),
  bit-unmark 8 (omega arith) map ((i + j) % 2 ^ 32) k,
)

-- What the search from block `i` on finds: the first run of `n` free blocks, or that there is none.
abbrev pub Searched : Heap → ℕ → ℕ → Run (Region × Heap) → Type 0
Searched h n i r =
    (r ≡ ok (no_region, h)) × ((k : ℕ) → i ≤ k → ¬ IsFreeRun h.map (total_bits h) k n)
    ⊎ ((f : ℕ) × (i ≤ f)
        × IsFreeRun h.map (total_bits h) f n
        × ((k : ℕ) → i ≤ k → k < f → ¬ IsFreeRun h.map (total_bits h) k n)
        × (r
            ≡ ok (
              record { ptr = h.raw + f * 16; size = n * 16 },
              record h { map = mark_run n f 0 h.map },
            )))

-- What does not hold at `i`, nor behind it, does not hold from `i` on.
not_here :
    (h : Heap) (n i k : ℕ)
    → ¬ IsFreeRun h.map (total_bits h) i n
    → (i + 1 ≤ k → ¬ IsFreeRun h.map (total_bits h) k n)
    → i ≤ k
    → ¬ IsFreeRun h.map (total_bits h) k n
not_here h n i k busy later lo run = elim (Bool-cases (i == k)) [
  | inl same ↦ let same' : k ≡ i = ground arith in busy (rw same' at run)
  | inr other ↦ later (ground arith) run
]

ltb-absurd : (t i k n : ℕ) → ltb t i ≡ true → i ≤ k → ¬ (k + n ≤ t + n)
ltb-absurd t i k n past lo h = ground arith

Searched-skip :
    (h : Heap) (n i : ℕ) (r : Run (Region × Heap))
    → ¬ IsFreeRun h.map (total_bits h) i n
    → Searched h n (i + 1) r
    → Searched h n i r
Searched-skip h n i r busy (inl (e, none_later)) =
    inl (e, λ k lo. not_here h n i k busy (λ lt. none_later k lt) lo)
Searched-skip h n i r busy (inr (f, lo, run, none_before, e)) =
    inr (f, omega arith, run, (λ k a b. not_here h n i k busy (λ lt. none_before k lt b) a), e)

module _ (h : Heap) (n i : ℕ) (v : IsHeap h) (pos : 0 < n) (fits : n ≤ total_bits h) where
  -- The tests of one round, when nothing wraps.
  find_run-suc :
      (fuel : ℕ)
      → i ≤ total_bits h - n + 1
      → find_run (suc fuel) n i h ≡ (
          if ltb (total_bits h - n) i
          then ok (no_region, h)
          else if bit 8 h.map i
          then find_run fuel n (i + 1) h
          else if run_is_free h.map (total_bits h) n i 0
          then ok (
            record { ptr = h.raw + i * 16; size = n * 16 },
            record h { map = mark_run n i 0 h.map },
          )
          else find_run fuel n (i + 1) h)
  unfolding find_run
  find_run-suc fuel lo =
      let limit : (total_bits h + 2 ^ 32 - n) % 2 ^ 32 ≡ total_bits h - n = omega arith in
      let next : (i + 1) % 2 ^ 32 ≡ i + 1 = omega arith in rw (limit, next) (ground arith)

  taken_here : bit 8 h.map i ≡ true → ¬ IsFreeRun h.map (total_bits h) i n
  taken_here busy run = cc (busy, run.free i (omega arith) (omega arith))

  free_here :
      run_is_free h.map (total_bits h) n i 0 ≡ true
      → i ≤ total_bits h
      → IsFreeRun h.map (total_bits h) i n
  free_here e lo =
      rw (add-zero i) at
        (run_is_free_sound h.map (total_bits h) (omega arith) n i 0 (omega arith) e)

  short_here : run_is_free h.map (total_bits h) n i 0 ≡ false → ¬ IsFreeRun h.map (total_bits h) i n
  short_here e run =
      let from_zero : IsFreeRun h.map (total_bits h) (i + 0) n = rw (add-zero i) run in
      cc (e, run_is_free_complete h.map (total_bits h) (omega arith) n i 0 from_zero)

pub find_run-Searched :
    (fuel n i : ℕ) (h : Heap)
    → IsHeap h
    → 0 < n
    → n ≤ total_bits h
    → i ≤ total_bits h - n + 1
    → total_bits h - n + 1 < fuel + i
    → Searched h n i (find_run fuel n i h)
find_run-Searched zero n i h v pos fits lo enough = absurd (omega arith)
find_run-Searched (suc fuel) n i h v pos fits lo enough =
    rw (find_run-suc h n i v pos fits fuel lo) (elim (Bool-cases (ltb (total_bits h - n) i)) [
      | inl past ↦ rw past (
          inl (
            refl,
            λ k a run. ltb-absurd (total_bits h - n) i k n past a (omega (arith, run.exist)),
          ))
      | inr inside ↦ rw inside (elim (Bool-cases (bit 8 h.map i)) [
        | inl busy ↦ rw busy (
            Searched-skip h n i _ (taken_here h n i v pos fits busy)
              (find_run-Searched fuel n (i + 1) h v pos fits (ground arith) (omega arith)))
        | inr free ↦ rw free (elim (Bool-cases (run_is_free h.map (total_bits h) n i 0)) [
          | inl long ↦ rw long (
              inr (
                i,
                omega arith,
                free_here h n i v pos fits long (omega arith),
                (λ k a b. absurd (omega arith)),
                refl,
              ))
          | inr short ↦ rw short (
              Searched-skip h n i _ (short_here h n i v pos fits short)
                (find_run-Searched fuel n (i + 1) h v pos fits (ground arith) (omega arith)))
        ])
      ])
    ])
