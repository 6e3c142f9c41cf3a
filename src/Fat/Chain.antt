-- ===== src/Fat/Chain.antt =====
-- One round of `FatWriteData` on a FAT32 volume, src/drivers/fs/fat.c: a cluster is taken, linked to
-- the one before it, and written.
use dek_os.Base.{
  ℕ, ◌+◌, ◌-◌, ◌*◌, ◌≤◌, ◌<◌, ◌≡◌, ◌≢◌, refl, ◌∙◌, ◌⊎◌, inl, inr, arith, true, false, ltb, leb,
  ◌&&◌, ◌==◌, Mem, Bool-cases, if◌then◌else◌, ok, load32-same,
}
use dek_os.Storage.{Ide, IsDisk, Drive}
use dek_os.Storage.Sectors.{IsReady, sector}
use dek_os.Fat.{BootSector, fat_set_cluster}
use dek_os.Fat.Table.{cluster-IsEntry, place, offset_in, entry}
use dek_os.Fat.Change.{IsChanged, set_cluster-IsChanged}
use dek_os.Fat.Data.{HasData, IsCluster, first_sector, clusters_apart, IsWritten}

-- the entry of the last cluster of a chain
abbrev pub end_mark : ℕ
end_mark = 0x0ffffff8

module _ {D : Type 0} (ide : Ide D) (bt : BootSector) where
  -- the first `size` bytes, from `at` on, stand in a cluster
  abbrev pub ClusterHolds : Drive D → Mem → ℕ → ℕ → ℕ → Type 0
  ClusterHolds d bytes c at size =
      (l i : ℕ)
      → l < bt.sectors_per_cluster
      → i < 512
      → l * 512 + i < size
      → sector ide d (first_sector bt c + l) i ≡ bytes (at + l * 512 + i)

  -- the sectors of a cluster are the same
  abbrev pub SameCluster : Drive D → Drive D → ℕ → Type 0
  SameCluster d d' c =
      (l i : ℕ)
      → l < bt.sectors_per_cluster
      → i < 512
      → sector ide d' (first_sector bt c + l) i ≡ sector ide d (first_sector bt c + l) i

  pub record Round (bytes : Mem) (prev c at size : ℕ) (d d' : Drive D) : Type 0 where
    pub ready : IsReady d'
    pub same_drive : d'.drive_num ≡ d.drive_num
    pub entries :
        (c' : ℕ)
        → IsCluster bt c'
        → entry ide bt d' c'
          ≡ (if c' == prev then c else if c' == c then end_mark else entry ide bt d c')
    pub others : (c' : ℕ) → IsCluster bt c' → c' ≢ c → SameCluster d d' c'
    pub holds : ClusterHolds d' bytes c at size

  module _ (sectors : ℕ) (v : HasData bt sectors) where
    -- Writing a cluster leaves the tables alone.
    entry-IsWritten :
        (bytes : Mem) (c at size : ℕ) (d d' : Drive D)
        → IsWritten ide bt bytes (first_sector bt c) at size d d'
        → (c' : ℕ) → IsCluster bt c'
        → entry ide bt d' c' ≡ entry ide bt d c'
    unfolding entry
    entry-IsWritten bytes c at size d d' w c' is =
        let e = cluster-IsEntry bt sectors c' v.volume is.1 in
        rw
          (load32-same (sector ide d' (place bt c')) (sector ide d (place bt c')) (offset_in c')
            (λ i low high.
              ground (arith, v.behind, e.inside, w.contents (place bt c') i (omega arith))))
          refl

    -- It changes the sectors of that cluster only.
    others-IsWritten :
        (bytes : Mem) (c at size : ℕ) (d d' : Drive D)
        → size ≤ bt.sectors_per_cluster * 512
        → IsCluster bt c
        → IsWritten ide bt bytes (first_sector bt c) at size d d'
        → (c' : ℕ) → IsCluster bt c'
        → c' ≢ c
        → SameCluster d d' c'
    others-IsWritten bytes c at size d d' fits is w c' is' other l i hl hi =
        elim (Bool-cases (
          leb (first_sector bt c) (first_sector bt c' + l)
          && ltb ((first_sector bt c' + l - first_sector bt c) * 512) size)) [
            | inl inside ↦ absurd (
                clusters_apart bt sectors v c' c l (first_sector bt c' + l - first_sector bt c) is'
                  is other hl (ground arith) (ground arith))
            | inr outside ↦ rw outside at (w.contents (first_sector bt c' + l) i hi)
          ]

    -- A change of the tables leaves the clusters alone.
    clusters-IsChanged :
        (c value : ℕ) (d d' : Drive D)
        → IsChanged ide bt c value d d'
        → (c' : ℕ) → SameCluster d d' c'
    clusters-IsChanged c value d d' s c' l i hl hi =
        s.outside (first_sector bt c' + l) i (inr (omega (arith, v.behind))) hi

    holds-IsWritten :
        (bytes : Mem) (c at size : ℕ) (d d' : Drive D)
        → IsWritten ide bt bytes (first_sector bt c) at size d d'
        → ClusterHolds d' bytes c at size
    holds-IsWritten bytes c at size d d' w l i hl hi h =
        let e : first_sector bt c + l - first_sector bt c ≡ l = omega arith in
        let inside : (leb (first_sector bt c) (first_sector bt c + l) && ltb (l * 512) size)
            ≡ true =
          ground arith in
        rw (e, inside) at (w.contents (first_sector bt c + l) i hi)

    -- The cluster before is linked to the new one, if there is one.
    pub linking :
        (prev c : ℕ) (d d₁ : Drive D)
        → IsDisk ide d.drive_num sectors
        → IsCluster bt c
        → (prev ≡ 0) ⊎ (IsCluster bt prev)
        → IsChanged ide bt c end_mark d d₁
        → (d₂ : Drive D) × ((if prev == 0 then ok d₁ else fat_set_cluster ide bt prev c d₁) ≡ ok d₂)
          × IsReady d₂
          × (d₂.drive_num ≡ d.drive_num)
          × ((c' : ℕ)
              → IsCluster bt c'
              → entry ide bt d₂ c'
                ≡ (if c' == prev then c else if c' == c then end_mark else entry ide bt d c'))
          × ((c' : ℕ) → SameCluster d d₂ c')
    linking prev c d d₁ disk is (inl none) s = rw none (
      d₁,
      refl,
      s.ready,
      s.same_drive,
      (λ c' is'. ground (arith, is', s.entries c' (cluster-IsEntry bt sectors c' v.volume is'.1))),
      clusters-IsChanged c end_mark d d₁ s,
    )
    linking prev c d d₁ disk is (inr old) s =
        let (d₂, e, s') =
          set_cluster-IsChanged ide bt sectors v.volume prev c d₁ s.ready (rw s.same_drive disk)
            (cluster-IsEntry bt sectors prev v.volume old.1) in
        let some : (prev == 0) ≡ false = ground (arith, old) in
        rw some (
          d₂,
          e,
          s'.ready,
          s'.same_drive ∙ s.same_drive,
          (λ c' is'.
              let w = cluster-IsEntry bt sectors c' v.volume is'.1 in
              ground (arith, is, v.volume.few, s'.entries c' w, s.entries c' w)),
          λ c' l i hl hi.
              clusters-IsChanged prev c d₁ d₂ s' c' l i hl hi
              ∙ clusters-IsChanged c end_mark d d₁ s c' l i hl hi,
        )

    pub Round-IsWritten :
        (bytes : Mem) (prev c at size : ℕ) (d d₂ d₃ : Drive D)
        → size ≤ bt.sectors_per_cluster * 512
        → IsCluster bt c
        → d₂.drive_num ≡ d.drive_num
        → ((c' : ℕ)
            → IsCluster bt c'
            → entry ide bt d₂ c'
              ≡ (if c' == prev then c else if c' == c then end_mark else entry ide bt d c'))
        → ((c' : ℕ) → SameCluster d d₂ c')
        → IsWritten ide bt bytes (first_sector bt c) at size d₂ d₃
        → Round bytes prev c at size d d₃
    Round-IsWritten bytes prev c at size d d₂ d₃ fits is same entries clusters w = record {
      ready = w.ready;
      same_drive = w.same_drive ∙ same;
      entries = λ c' is'. entry-IsWritten bytes c at size d₂ d₃ w c' is' ∙ entries c' is';
      others = λ c' is' other l i hl hi.
          others-IsWritten bytes c at size d₂ d₃ fits is w c' is' other l i hl hi
          ∙ clusters c' l i hl hi;
      holds = holds-IsWritten bytes c at size d₂ d₃ w;
    }
