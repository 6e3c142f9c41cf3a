-- ===== src/Fat/Write.antt =====
-- `FatWriteData` on a FAT32 volume, src/drivers/fs/fat.c: the chain of clusters that it makes.
use Prim.Native.Nat.{min}
use dek_os.Base.{
  ℕ, zero, suc, ◌+◌, ◌-◌, ◌*◌, ◌^◌, ◌≤◌, ◌<◌, ◌≡◌, ◌≢◌, refl, ◌∙◌, ◌⊎◌, inl, inr, arith, false,
  ◌==◌, Mem, List, [], ◌∷◌, Bool-cases, if◌then◌else◌, ok,
}
use dek_os.Storage.{Ide, IsDisk, Drive}
use dek_os.Storage.Sectors.{IsReady}
use dek_os.Fat.{
  BootSector, fat_cluster_count, fat_set_cluster, fat_allocate_cluster, bytes_per_cluster,
  write_cluster_loop, write_data_loop, fat_write_data,
}
use dek_os.Fat.Table.{entry}
use dek_os.Fat.Change.{IsChanged}
use dek_os.Fat.Search.{IsFirstFree, SameDisk, entry-SameDisk, allocate_cluster-Allocated}
use dek_os.Fat.Data.{
  HasData, IsCluster, first_sector, first_sector-IsCluster, cluster_end, cluster_loop-IsWritten,
}
use dek_os.Fat.Chain.{end_mark, Round, linking, Round-IsWritten}
use dek_os.Fat.Written.{
  IsFull, head_or, Written, write_data_step, write_data_done, write_data_full, round-Written,
}

module _ {D : Type 0} (ide : Ide D) (bt : BootSector) where
  module _ (sectors : ℕ) (v : HasData bt sectors) where
    none_left :
        (d d₁ : Drive D) (c : ℕ)
        → IsFirstFree ide bt d (fat_cluster_count bt) 2 c
        → c ≡ 0
        → SameDisk d d₁
        → IsFull ide bt d₁
    none_left d d₁ c (inl (_, all)) z same =
        λ c' is. rw (entry-SameDisk ide bt d d₁ same c') (all c' is.0 (omega arith))
    none_left d d₁ c (inr (low, _, _, _)) z same = absurd (omega arith)

    found-IsCluster :
        (d : Drive D) (c : ℕ)
        → IsFirstFree ide bt d (fat_cluster_count bt) 2 c
        → c ≢ 0
        → IsCluster bt c × (entry ide bt d c ≡ 0)
    found-IsCluster d c (inl (none, _)) some = absurd (some none)
    found-IsCluster d c (inr (low, high, free, _)) some = ((low, omega arith), free)

    cluster_size : bytes_per_cluster bt ≡ bt.sectors_per_cluster * 512
    cluster_size = rw v.volume.bytes_per_sector (omega (arith, v.few_sectors))

    -- The loop returns: with 0, or with the first of the clusters written.
    abbrev pub Returns : ℕ → Mem → ℕ → ℕ → ℕ → ℕ → Drive D → Type 0
    Returns fuel bytes first prev at remaining d =
        (r : ℕ) × (d' : Drive D) × (write_data_loop ide bt fuel bytes first prev at remaining d
          ≡ ok (r, d'))
        × (((r ≡ 0) × IsFull ide bt d')
            ⊎ ((cs : List ℕ) × (r ≡ (if first == 0 then head_or ide bt first cs else first))
                × Written ide bt bytes prev at remaining d d' cs))

    module _ (fuel : ℕ) (bytes : Mem) (first prev at remaining : ℕ) (d : Drive D) (r : IsReady d)
        (disk : IsDisk ide d.drive_num sectors)
        (old : (prev ≡ 0) ⊎ (IsCluster bt prev × (entry ide bt d prev ≡ end_mark)))
        (more : (remaining == 0) ≡ false) where
      here : ℕ
      here = min remaining (bt.sectors_per_cluster * 512)

      known :
          (prev ≡ 0) ⊎ (IsCluster bt prev × (entry ide bt d prev ≡ end_mark))
          → (prev ≡ 0) ⊎ (IsCluster bt prev)
      known (inl none) = inl none
      known (inr (is, _)) = inr is

      joined :
          (c : ℕ) (d₁ d₂ d₃ : Drive D)
          → IsCluster bt c
          → entry ide bt d c ≡ 0
          → fat_allocate_cluster ide bt d ≡ ok (c, d₁)
          → (if prev == 0 then ok d₁ else fat_set_cluster ide bt prev c d₁) ≡ ok d₂
          → write_cluster_loop ide bt bt.sectors_per_cluster bytes
              (first_sector bt c)
              0
              at
              here
              remaining
              d₂
            ≡ (at + here, remaining - here, d₃)
          → Round ide bt bytes prev c at here d d₃
          → Returns fuel bytes (if first == 0 then c else first) c (at + here) (remaining - here) d₃
          → Returns (suc fuel) bytes first prev at remaining d
      unfolding here
      joined c d₁ d₂ d₃ is free took linked wrote round (x, d', e, out) =
          (x, d', step ∙ e, result out)
        where
          step :
              write_data_loop ide bt (suc fuel) bytes first prev at remaining d
              ≡ write_data_loop ide bt fuel bytes
                  (if first == 0 then c else first)
                  c
                  (at + here)
                  (remaining - here)
                  d₃
          step =
              write_data_step ide bt fuel bytes first prev at remaining c d d₁ d₂ more took
                (ground (arith, is)) linked
                (rw (first_sector-IsCluster bt sectors v c is, cluster_size) wrote)

          result :
              (((x ≡ 0) × IsFull ide bt d')
                ⊎ ((cs : List ℕ) × (x ≡ (
                      if (if first == 0 then c else first) == 0
                      then head_or ide bt (if first == 0 then c else first) cs
                      else (if first == 0 then c else first)))
                    × Written ide bt bytes c (at + here) (remaining - here) d₃ d' cs))
              → (((x ≡ 0) × IsFull ide bt d')
                  ⊎ ((cs : List ℕ) × (x ≡ (if first == 0 then head_or ide bt first cs else first))
                      × Written ide bt bytes prev at remaining d d' cs))
          result (inl none) = inl none
          result (inr (cs, head, w)) = inr (
            c ∷ cs,
            ground (arith, is, head),
            round-Written ide bt round w is free remaining (ground arith) refl refl old,
          )

      round-Returns :
          (c : ℕ) (d₁ : Drive D)
          → IsCluster bt c
          → entry ide bt d c ≡ 0
          → fat_allocate_cluster ide bt d ≡ ok (c, d₁)
          → IsChanged ide bt c end_mark d d₁
          → ((d₃ : Drive D)
              → IsReady d₃
              → d₃.drive_num ≡ d.drive_num
              → entry ide bt d₃ c ≡ end_mark
              → Returns fuel bytes
                  (if first == 0 then c else first)
                  c
                  (at + here)
                  (remaining - here)
                  d₃)
          → Returns (suc fuel) bytes first prev at remaining d
      unfolding here
      round-Returns c d₁ is free took s rest =
          let (d₂, linked, ready, same, entries, clusters) =
            linking ide bt sectors v prev c d d₁ disk is (known old) s in
          let room : first_sector bt c + 0 + bt.sectors_per_cluster ≤ sectors =
            omega (arith, cluster_end bt sectors v c is) in
          let (d₃, wrote, w) =
            cluster_loop-IsWritten ide bt sectors v.volume bt.sectors_per_cluster bytes
              (first_sector bt c) 0 at here remaining d₂ ready (rw same disk) room (omega arith)
              (omega arith) in
          let at_first : first_sector bt c + 0 ≡ first_sector bt c = omega arith in
          let round =
            Round-IsWritten ide bt sectors v bytes prev c at here d d₂ d₃ (omega arith) is same
              entries clusters (rw at_first at w) in
          joined c d₁ d₂ d₃ is free took linked wrote round
            (rest d₃ round.ready round.same_drive (last old round))
        where
          last :
              {d₃ : Drive D}
              → (prev ≡ 0) ⊎ (IsCluster bt prev × (entry ide bt d prev ≡ end_mark))
              → Round ide bt bytes prev c at here d d₃
              → entry ide bt d₃ c ≡ end_mark
          last (inl none) round = ground (arith, is, round.entries c is)
          last (inr (_, e)) round = elim (Bool-cases (c == prev)) [
            | inl same ↦
                let eq : c ≡ prev = ground arith in absurd (omega (arith, e, rw eq at free))
            | inr other ↦ ground (arith, round.entries c is)
          ]

    loop-Written :
        (fuel : ℕ) (bytes : Mem) (first prev at remaining : ℕ) (d : Drive D)
        → remaining < fuel
        → IsReady d
        → IsDisk ide d.drive_num sectors
        → (prev ≡ 0) ⊎ (IsCluster bt prev × (entry ide bt d prev ≡ end_mark))
        → Returns fuel bytes first prev at remaining d
    unfolding here
    loop-Written zero bytes first prev at remaining d enough r disk old = absurd (omega arith)
    loop-Written (suc fuel) bytes first prev at remaining d enough r disk old =
        elim (Bool-cases (remaining == 0)) [
          | inl done ↦ (
            first,
            d,
            write_data_done ide bt fuel bytes first prev at remaining d done,
            inr (
              [],
              ground arith,
              record {
                ready = r;
                chained = refl;
                linked = λ some. ended old some;
                holds = ground arith;
                fresh = refl;
                entries = λ c is used other. refl;
                clusters = λ c is used l i hl hi. refl;
              },
            ),
          )
          | inr more ↦
              let (c, d₁, took, found, outcome) =
                allocate_cluster-Allocated ide bt sectors v.volume d r disk in
              elim outcome [
                | inl (full, same) ↦ (
                  0,
                  d₁,
                  write_data_full ide bt fuel bytes first prev at remaining d d₁ more
                      (rw full at took),
                  inl (refl, none_left d d₁ c found full same),
                )
                | inr (some, s) ↦
                    let (is, free) = found-IsCluster d c found some in
                    round-Returns fuel bytes first prev at remaining d r disk old more c d₁ is free
                      took s
                      (λ d₃ ready same last.
                        loop-Written fuel bytes (if first == 0 then c else first) c
                          (at + min remaining (bt.sectors_per_cluster * 512))
                          (remaining - min remaining (bt.sectors_per_cluster * 512)) d₃
                          (ground (arith, v.some_sectors)) ready (rw same disk) (inr (is, last)))
              ]
        ]
      where
        ended :
            (prev ≡ 0) ⊎ (IsCluster bt prev × (entry ide bt d prev ≡ end_mark))
            → prev ≢ 0
            → entry ide bt d prev ≡ end_mark
        ended (inl none) some = absurd (some none)
        ended (inr (_, e)) some = e

    -- On a FAT32 volume of sectors of 512 bytes, whose tables and clusters do not overlap and lie inside a
    -- drive that works, and for data of 1 to 2^32 - 1 bytes: `FatWriteData` returns with 0, no cluster
    -- being free any more, or with the first cluster of a chain of clusters that were all free before. The
    -- chain holds the data, with no cluster too many; the entries and the sectors of all clusters that
    -- were in use stay as they were.
    pub write_data-Written :
        (bytes : Mem) (size : ℕ) (d : Drive D)
        → IsReady d
        → IsDisk ide d.drive_num sectors
        → 0 < size
        → size < 2 ^ 32
        → (r : ℕ) × (d' : Drive D) × (fat_write_data ide bt bytes size d ≡ ok (r, d'))
          × (((r ≡ 0) × IsFull ide bt d')
              ⊎ ((c : ℕ) × (cs : List ℕ) × (r ≡ c) × Written ide bt bytes 0 0 size d d' (c ∷ cs)))
    unfolding fat_write_data
    write_data-Written bytes size d r disk some small =
        let (x, d', e, out) = loop-Written (2 ^ 32) bytes 0 0 0 size d small r disk (inl refl) in
        (x, d', e, result x d' out)
      where
        result :
            (x : ℕ) (d' : Drive D)
            → (((x ≡ 0) × IsFull ide bt d')
                ⊎ ((cs : List ℕ) × (x ≡ head_or ide bt 0 cs)
                    × Written ide bt bytes 0 0 size d d' cs))
            → (((x ≡ 0) × IsFull ide bt d')
                ⊎ ((c : ℕ) × (cs : List ℕ) × (x ≡ c) × Written ide bt bytes 0 0 size d d' (c ∷ cs)))
        result x d' (inl none) = inl none
        result x d' (inr ([], head, w)) = absurd (omega (arith, w.holds))
        result x d' (inr (c ∷ cs, head, w)) = inr (c, cs, head, w)
