-- ===== src/Fat/Search.antt =====
-- Finding and taking a free cluster of a FAT32 volume, src/drivers/fs/fat.c.
use dek_os.Base.{
  ℕ, zero, suc, ◌+◌, ◌-◌, ◌%◌, ◌^◌, ◌≤◌, ◌<◌, ◌≡◌, ◌≢◌, refl, ◌∙◌, ◌⊎◌, inl, inr, arith, true,
  false, ◌==◌, Bool-cases, ok,
}
use dek_os.Storage.{Ide, IsDisk, Drive, ide_read_data}
use dek_os.Storage.Sectors.{IsReady, reading, read_from-IsReady}
use dek_os.Fat.{
  BootSector, fat_cluster_count, find_free_cluster_loop, fat_find_free_cluster,
  fat_allocate_cluster,
}
use dek_os.Fat.Table.{
  IsVolume, IsEntry, cluster-IsEntry, fat_sector-IsEntry, ent_offset-IsEntry, place, entry,
  reading-IsReady,
}
use dek_os.Fat.Change.{IsChanged, set_cluster-IsChanged}

-- Two states of a drive with the same sectors.
pub record SameDisk {D : Type 0} (d d' : Drive D) : Type 0 where
  pub ready : IsReady d'
  pub same_device : d'.device ≡ d.device
  pub same_drive : d'.drive_num ≡ d.drive_num

module _ {D : Type 0} (ide : Ide D) (bt : BootSector) where
  pub entry-SameDisk :
      (d d' : Drive D) → SameDisk d d' → (c : ℕ) → entry ide bt d' c ≡ entry ide bt d c
  unfolding entry
  entry-SameDisk d d' v c = rw (v.same_device, v.same_drive) refl

  -- `r` is the first of the `n` clusters from `i` on with the entry 0, or 0 if there is none.
  abbrev pub IsFirstFree : Drive D → ℕ → ℕ → ℕ → Type 0
  IsFirstFree d n i r =
      ((r ≡ 0) × ((j : ℕ) → i ≤ j → j < i + n → entry ide bt d j ≢ 0))
      ⊎ ((i ≤ r)
          × (r < i + n)
          × (entry ide bt d r ≡ 0)
          × ((j : ℕ) → i ≤ j → j < r → entry ide bt d j ≢ 0))

  IsFirstFree-suc :
      (d : Drive D) (n i r : ℕ)
      → entry ide bt d i ≢ 0
      → IsFirstFree d n (i + 1) r
      → IsFirstFree d (suc n) i r
  IsFirstFree-suc d n i r used (inl (none, all)) = inl (
    none,
    λ j low high. elim (Bool-cases (j == i)) [
      | inl here ↦ let e : j ≡ i = ground arith in rw e used
      | inr later ↦ all j (ground arith) (omega arith)
    ],
  )
  IsFirstFree-suc d n i r used (inr (low, high, free, before)) = inr (
    omega arith,
    omega arith,
    free,
    λ j from to. elim (Bool-cases (j == i)) [
      | inl here ↦ let e : j ≡ i = ground arith in rw e used
      | inr later ↦ before j (ground arith) to
    ],
  )

  -- A change of an entry after reads only is a change of the drive before them.
  pub carried :
      (d d₁ d₂ : Drive D) (c : ℕ) {value : ℕ}
      → SameDisk d d₁
      → IsChanged ide bt c value d₁ d₂
      → IsChanged ide bt c value d d₂
  carried d d₁ d₂ c same done = record {
    ready = done.ready;
    same_drive = done.same_drive ∙ same.same_drive;
    entries = λ c' v. rw (← entry-SameDisk d d₁ same c') (done.entries c' v);
    outside = λ l i away h. done.outside l i away h ∙ rw (same.same_device, same.same_drive) refl;
  }

  module _ (sectors : ℕ) (volume : IsVolume bt sectors) where
    loop_step :
        (n i : ℕ) (d : Drive D)
        → IsReady d
        → IsEntry bt i
        → find_free_cluster_loop ide bt (suc n) i d ≡ elim (entry ide bt d i == 0) [
          | true ↦ ok (i, reading ide (place bt i) d)
          | false ↦ find_free_cluster_loop ide bt n (i + 1) (reading ide (place bt i) d)
        ]
    unfolding find_free_cluster_loop entry ide_read_data
    loop_step n i d r v =
        rw
          (
            find_free_cluster_loop,
            fat_sector-IsEntry bt sectors i volume v,
            ent_offset-IsEntry bt sectors i volume v,
            read_from-IsReady ide (place bt i) d r,
          )
          refl

    loop-IsFirstFree :
        (n i : ℕ) (d : Drive D)
        → IsReady d
        → i + n ≤ fat_cluster_count bt + 2
        → (r : ℕ) × (d' : Drive D) × (find_free_cluster_loop ide bt n i d ≡ ok (r, d'))
          × SameDisk d d'
          × IsFirstFree d n i r
    unfolding ide_read_data entry find_free_cluster_loop
    loop-IsFirstFree zero i d r h = (
      0,
      d,
      refl,
      record { ready = r; same_device = refl; same_drive = refl },
      inl (refl, λ j low high. absurd (omega arith)),
    )
    loop-IsFirstFree (suc n) i d r h =
        let v : IsEntry bt i = cluster-IsEntry bt sectors i volume (omega arith) in
        let next = reading ide (place bt i) d in
        let ready : IsReady next = reading-IsReady ide bt (place bt i) d r in
        elim (Bool-cases (entry ide bt d i == 0)) [
          | inl free ↦ (
            i,
            next,
            rw (loop_step n i d r v, free) refl,
            record { ready = ready; same_device = refl; same_drive = refl },
            inr (omega arith, omega arith, ground arith, λ j low high. absurd (omega arith)),
          )
          | inr used ↦
              let (found, d', e, same, first) =
                loop-IsFirstFree n (i + 1) next ready (omega arith) in
              (
                found,
                d',
                rw (loop_step n i d r v, used) e,
                record {
                  ready = same.ready;
                  same_device = same.same_device;
                  same_drive = same.same_drive;
                },
                IsFirstFree-suc d n i found (ground arith) first,
              )
        ]

    -- On a FAT32 volume of sectors of 512 bytes, whose tables have an entry for every cluster and lie
    -- inside a drive that works: `FatFindFreeCluster` returns and changes no sector; it gives the first
    -- cluster from 2 on whose entry is 0, or 0 if no cluster is free.
    pub find_free_cluster-IsFirstFree :
        (d : Drive D)
        → IsReady d
        → (r : ℕ) × (d' : Drive D) × (fat_find_free_cluster ide bt d ≡ ok (r, d'))
          × SameDisk d d'
          × IsFirstFree d (fat_cluster_count bt) 2 r
    unfolding fat_find_free_cluster
    find_free_cluster-IsFirstFree d r =
        let e : (fat_cluster_count bt + 2) % 2 ^ 32 - 2 ≡ fat_cluster_count bt =
          omega (arith, volume.few) in
        rw e (loop-IsFirstFree (fat_cluster_count bt) 2 d r (omega arith))

    -- `FatAllocateCluster` on a volume of a working drive: if no cluster is free it gives 0 and changes
    -- no sector; otherwise it gives the first free cluster, whose entry it makes the end of a chain,
    -- with every other entry and every sector outside the tables as it was.
    pub allocate_cluster-Allocated :
        (d : Drive D)
        → IsReady d
        → IsDisk ide d.drive_num sectors
        → (r : ℕ) × (d' : Drive D) × (fat_allocate_cluster ide bt d ≡ ok (r, d'))
          × IsFirstFree d (fat_cluster_count bt) 2 r
          × (((r ≡ 0) × SameDisk d d') ⊎ ((r ≢ 0) × IsChanged ide bt r 0x0ffffff8 d d'))
    unfolding fat_allocate_cluster
    allocate_cluster-Allocated d r disk =
        let (found, d₁, e, same, first) = find_free_cluster-IsFirstFree d r in
        elim (Bool-cases (found == 0)) [
          | inl none ↦ (
            found,
            d₁,
            rw (e, none) (let z : found ≡ 0 = ground arith in rw z refl),
            first,
            inl (ground arith, same),
          )
          | inr some ↦
              let (d₂, e', done) =
                set_cluster-IsChanged ide bt sectors volume found 0x0ffffff8 d₁ same.ready
                  (rw same.same_drive disk) (found_entry found first (ground arith)) in
              (
                found,
                d₂,
                rw (e, some, e') refl,
                first,
                inr (ground arith, carried d d₁ d₂ found same done),
              )
        ]
      where
        found_entry : (f : ℕ) → IsFirstFree d (fat_cluster_count bt) 2 f → f ≢ 0 → IsEntry bt f
        found_entry f (inl (none, _)) some = absurd (some none)
        found_entry f (inr (low, high, _, _)) some =
            cluster-IsEntry bt sectors f volume (omega arith)
