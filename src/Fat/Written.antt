-- ===== src/Fat/Written.antt =====
-- What `FatWriteData` makes of a FAT32 volume, src/drivers/fs/fat.c: a chain of clusters.
use Prim.Native.Nat.{min}
use dek_os.Base.{
  ℕ, suc, ◌+◌, ◌-◌, ◌*◌, ◌<◌, ◌≡◌, ◌≢◌, refl, ◌∙◌, ◌⊎◌, inl, inr, arith, true, false, ◌==◌, Mem,
  List, [], ◌∷◌, if◌then◌else◌, ok,
}
use dek_os.Storage.{Ide, Drive}
use dek_os.Storage.Sectors.{IsReady}
use dek_os.Fat.{
  BootSector, fat_set_cluster, fat_allocate_cluster, fat_first_sector_for_cluster,
  bytes_per_cluster, write_cluster_loop, write_data_loop,
}
use dek_os.Fat.Table.{entry}
use dek_os.Fat.Data.{IsCluster}
use dek_os.Fat.Chain.{end_mark, ClusterHolds, SameCluster, Round}

module _ {D : Type 0} (ide : Ide D) (bt : BootSector) where
  -- The table leads from cluster `c` through those of the list to an end of a chain.
  abbrev pub IsChain : Drive D → ℕ → List ℕ → Type 0
  IsChain d c [] = entry ide bt d c ≡ end_mark
  IsChain d c (c' ∷ cs) = (entry ide bt d c ≡ c') × IsChain d c' cs

  -- The same from the head of the list on.
  abbrev pub IsChained : Drive D → List ℕ → Type 0
  IsChained d [] = bt ≡ bt
  IsChained d (c ∷ cs) = IsChain d c cs

  -- The clusters of the list hold `size` bytes, those from `at` on, and none of them is superfluous.
  abbrev pub Holds : Drive D → Mem → List ℕ → ℕ → ℕ → Type 0
  Holds d bytes [] at size = size ≡ 0
  Holds d bytes (c ∷ cs) at size =
      let here = min size (bt.sectors_per_cluster * 512) in
      (0 < size)
      × ClusterHolds ide bt d bytes c at here
      × Holds d bytes cs (at + here) (size - here)

  -- clusters that were free
  abbrev pub AllFree : Drive D → List ℕ → Type 0
  AllFree d [] = bt ≡ bt
  AllFree d (c ∷ cs) = (IsCluster bt c × (entry ide bt d c ≡ 0)) × AllFree d cs

  -- no cluster is free
  abbrev pub IsFull : Drive D → Type 0
  IsFull d = (c : ℕ) → IsCluster bt c → entry ide bt d c ≢ 0

  abbrev pub head_or : ℕ → List ℕ → ℕ
  head_or other [] = other
  head_or other (c ∷ cs) = c

  -- What writing `size` bytes behind the cluster `prev` (0 for none) does, with the clusters `cs`.
  pub record Written (bytes : Mem) (prev at size : ℕ) (d d' : Drive D) (cs : List ℕ) : Type 0 where
    pub ready : IsReady d'
    pub chained : IsChained d' cs
    pub linked : prev ≢ 0 → IsChain d' prev cs
    pub holds : Holds d' bytes cs at size
    pub fresh : AllFree d cs
    pub entries :
        (c : ℕ)
        → IsCluster bt c
        → entry ide bt d c ≢ 0
        → c ≢ prev
        → entry ide bt d' c ≡ entry ide bt d c
    pub clusters : (c : ℕ) → IsCluster bt c → entry ide bt d c ≢ 0 → SameCluster ide bt d d' c

  -- One round of the loop, from what its calls give.
  pub write_data_step :
      (fuel : ℕ) (bytes : Mem) (first prev at remaining c : ℕ) (d d₁ d₂ : Drive D)
      {rest : ℕ × ℕ × Drive D}
      → (remaining == 0) ≡ false
      → fat_allocate_cluster ide bt d ≡ ok (c, d₁)
      → (c == 0) ≡ false
      → (if prev == 0 then ok d₁ else fat_set_cluster ide bt prev c d₁) ≡ ok d₂
      → write_cluster_loop ide bt bt.sectors_per_cluster bytes
          (fat_first_sector_for_cluster bt c)
          0
          at
          (min remaining (bytes_per_cluster bt))
          remaining
          d₂
        ≡ rest
      → write_data_loop ide bt (suc fuel) bytes first prev at remaining d
        ≡ write_data_loop ide bt fuel bytes (if first == 0 then c else first) c rest.0 rest.1 rest.2
  unfolding write_data_loop
  write_data_step fuel bytes first prev at remaining c d d₁ d₂ more took some linked wrote =
      rw (write_data_loop, more, took, some, linked, wrote) refl

  pub write_data_done :
      (fuel : ℕ) (bytes : Mem) (first prev at remaining : ℕ) (d : Drive D)
      → (remaining == 0) ≡ true
      → write_data_loop ide bt (suc fuel) bytes first prev at remaining d ≡ ok (first, d)
  unfolding write_data_loop
  write_data_done fuel bytes first prev at remaining d done = rw (write_data_loop, done) refl

  pub write_data_full :
      (fuel : ℕ) (bytes : Mem) (first prev at remaining : ℕ) (d d₁ : Drive D)
      → (remaining == 0) ≡ false
      → fat_allocate_cluster ide bt d ≡ ok (0, d₁)
      → write_data_loop ide bt (suc fuel) bytes first prev at remaining d ≡ ok (0, d₁)
  unfolding write_data_loop
  write_data_full fuel bytes first prev at remaining d d₁ more full =
      rw (write_data_loop, more, full) refl

  -- A round followed by the writing of the rest.
  module _ {bytes : Mem} {prev c at here rest : ℕ} {d d₃ d' : Drive D} {cs : List ℕ}
      (round : Round ide bt bytes prev c at here d d₃)
      (w : Written bytes c (at + here) rest d₃ d' cs) (is : IsCluster bt c)
      (free : entry ide bt d c ≡ 0) where
    taken : entry ide bt d₃ c ≢ 0
    taken = ground (arith, is, round.entries c is)

    still_free : (c' : ℕ) → IsCluster bt c' → entry ide bt d₃ c' ≡ 0 → entry ide bt d c' ≡ 0
    still_free c' is' z = ground (arith, is, round.entries c' is')

    all_free : (xs : List ℕ) → AllFree d₃ xs → AllFree d xs
    all_free [] f = refl
    all_free (x ∷ xs) ((is', z), f) = ((is', still_free x is' z), all_free xs f)

    still_taken : (c' : ℕ) → IsCluster bt c' → entry ide bt d c' ≢ 0 → entry ide bt d₃ c' ≢ 0
    still_taken c' is' used = ground (arith, is, round.entries c' is')

    another : (c' : ℕ) → entry ide bt d c' ≢ 0 → c' ≢ c
    another c' used e = used (rw e free)

    pub round-Written :
        (remaining : ℕ)
        → 0 < remaining
        → here ≡ min remaining (bt.sectors_per_cluster * 512)
        → rest ≡ remaining - here
        → (prev ≡ 0) ⊎ (IsCluster bt prev × (entry ide bt d prev ≡ end_mark))
        → Written bytes prev at remaining d d' (c ∷ cs)
    round-Written remaining some e e' old = record {
      ready = w.ready;
      chained = w.linked (ground (arith, is));
      linked = λ p. (link old p, w.linked (ground (arith, is)));
      holds =
          rw (← e, ← e')
            (
              some,
              (λ l i hl hi h. w.clusters c is taken l i hl hi ∙ round.holds l i hl hi h),
              w.holds,
            );
      fresh = ((is, free), all_free cs w.fresh);
      entries = λ c' is' used other.
          w.entries c' is' (still_taken c' is' used) (another c' used)
          ∙ ground (arith, round.entries c' is', another c' used);
      clusters = λ c' is' used l i hl hi.
          w.clusters c' is' (still_taken c' is' used) l i hl hi
          ∙ round.others c' is' (another c' used) l i hl hi;
    }
      where
        link :
            (prev ≡ 0) ⊎ (IsCluster bt prev × (entry ide bt d prev ≡ end_mark))
            → prev ≢ 0
            → entry ide bt d' prev ≡ c
        link (inl none) p = absurd (p none)
        link (inr (old, ended)) p =
            let used : entry ide bt d prev ≢ 0 = omega (arith, ended) in
            w.entries prev old (still_taken prev old used) (another prev used)
            ∙ ground (arith, round.entries prev old)
