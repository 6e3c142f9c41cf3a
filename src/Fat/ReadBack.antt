-- ===== src/Fat/ReadBack.antt =====
-- The loop of `FatRead` on a chain of clusters of a FAT32 volume, and after `FatWriteData`,
-- src/drivers/fs/fat.c.
use Prim.Native.Nat.{min}
use native.Mathlib.Nat.{add-zero}
use mathlib.Core.Path.{subst}
use dek_os.Base.{
  ℕ, zero, suc, ◌+◌, ◌-◌, ◌*◌, ◌/◌, ◌%◌, ◌^◌, ◌≤◌, ◌<◌, ◌≡◌, refl, ap, ◌∙◌, ◌⊎◌, inl, inr, arith,
  false, ltb, leb, Bool-cases, ok, Mem, List, [], ◌∷◌,
}
use dek_os.Storage.{Ide, IsDisk, Drive}
use dek_os.Storage.Sectors.{IsReady, reading}
use dek_os.Fat.{
  BootSector, fat_cluster_count, fat_first_sector_for_cluster, fat_next_cluster, fat_write_data,
}
use dek_os.Fat.Directory.{last_cluster}
use dek_os.Fat.Table.{entry, place, next_cluster-entry, cluster-IsEntry}
use dek_os.Fat.Search.{SameDisk, entry-SameDisk}
use dek_os.Fat.Data.{HasData, IsCluster, first_sector, first_sector-IsCluster, cluster_end}
use dek_os.Fat.Chain.{end_mark, ClusterHolds}
use dek_os.Fat.Written.{IsChain, Holds, AllFree, IsFull, Written}
use dek_os.Fat.Write.{write_data-Written}
use dek_os.Fat.Read.{read_cluster_loop, read_loop}
use dek_os.Fat.ReadIn.{
  IsLeft, ReadIn, reading-SameDisk, SameDisk-trans, sector-SameDisk, read_cluster-ReadIn,
}

module _ {D : Type 0} (ide : Ide D) (bt : BootSector) where
  -- From the cluster `x` the table leads through those of the list.
  abbrev pub Follows : Drive D → ℕ → List ℕ → Type 0
  Follows d x [] = x ≡ end_mark
  Follows d x (c ∷ cs) = (x ≡ c) × IsCluster bt c × Follows d (entry ide bt d c) cs

  Follows-SameDisk :
      (cs : List ℕ) (x : ℕ) (d d' : Drive D) → SameDisk d d' → Follows d x cs → Follows d' x cs
  Follows-SameDisk [] x d d' v f = f
  Follows-SameDisk (c ∷ cs) x d d' v (e, is, f) =
      (e, is, rw (entry-SameDisk ide bt d d' v c) (Follows-SameDisk cs (entry ide bt d c) d d' v f))

  Holds-SameDisk :
      (cs : List ℕ) (bytes : Mem) (at size : ℕ) (d d' : Drive D)
      → SameDisk d d'
      → Holds ide bt d bytes cs at size
      → Holds ide bt d' bytes cs at size
  Holds-SameDisk [] bytes at size d d' v h = h
  Holds-SameDisk (c ∷ cs) bytes at size d d' v (some, here, rest) = (
    some,
    (λ l i hl hi h. sector-SameDisk ide bt d d' v (first_sector bt c + l) i ∙ here l i hl hi h),
    Holds-SameDisk cs bytes (at + min size (bt.sectors_per_cluster * 512))
        (size - min size (bt.sectors_per_cluster * 512)) d d' v rest,
  )

  read_loop_step :
      (fuel c p remaining : ℕ) (m : Mem) (d : Drive D) {first y : ℕ} {r : ℕ × ℕ × Mem × Drive D}
      {d' : Drive D}
      → leb last_cluster c ≡ false
      → fat_first_sector_for_cluster bt c ≡ first
      → read_cluster_loop ide bt bt.sectors_per_cluster first 0 p remaining m d ≡ ok r
      → fat_next_cluster ide bt c r.3 ≡ ok (y, d')
      → read_loop ide bt (suc fuel) c p remaining m d ≡ read_loop ide bt fuel y r.0 r.1 r.2 d'
  unfolding read_loop
  read_loop_step fuel c p remaining m d some e runs next = rw (read_loop, some, e, runs, next) refl

  read_loop_end :
      (fuel p remaining : ℕ) (m : Mem) (d : Drive D)
      → read_loop ide bt (suc fuel) end_mark p remaining m d ≡ ok (m, d)
  unfolding read_loop
  read_loop_end fuel p remaining m d = refl

  -- `size` bytes from `at` on stand at `p`, and the memory before them is as it was.
  pub record ReadBack (bytes : Mem) (at size p : ℕ) (m m' : Mem) : Type 0 where
    pub before : (a : ℕ) → a < p → m' a ≡ m a
    pub read : (k : ℕ) → k < size → m' (p + k) ≡ bytes (at + k)

  module _ (sectors : ℕ) (v : HasData bt sectors) where
    -- One cluster, and what follows it.
    cluster-ReadBack :
        (c at size p stop : ℕ) (bytes m m' : Mem) (d : Drive D) (r : ℕ × ℕ × Mem × Drive D)
        → stop ≡ p + size
        → ClusterHolds ide bt d bytes c at (min size (bt.sectors_per_cluster * 512))
        → ReadIn ide bt bt.sectors_per_cluster (first_sector bt c) p stop m d r
        → ReadBack bytes
            (at + min size (bt.sectors_per_cluster * 512))
            (size - min size (bt.sectors_per_cluster * 512))
            r.0
            r.2
            m'
        → ReadBack bytes at size p m m'
    cluster-ReadBack c at size p stop bytes m m' d r e holds w rest = record {
      before = λ a h. rest.before a (omega (arith, w.moved)) ∙ w.kept a h;
      read = λ k h. elim (Bool-cases (ltb k (bt.sectors_per_cluster * 512))) [
        | inl inside ↦
            let there : p + k ≡ p + k / 512 * 512 + k % 512 = omega arith in
            let low : k < bt.sectors_per_cluster * 512 = ground arith in
            rest.before (p + k) (omega (arith, w.moved))
            ∙ ap r.2 there
            ∙ w.copied (k / 512) (k % 512) (omega arith) (omega arith) (omega arith)
            ∙ holds (k / 512) (k % 512) (omega arith) (omega arith) (omega arith)
            ∙ ap bytes (omega arith)
        | inr behind ↦
            let high : bt.sectors_per_cluster * 512 ≤ k = ground arith in
            let here = min size (bt.sectors_per_cluster * 512) in
            let there : p + k ≡ r.0 + (k - here) = omega (arith, w.moved) in
            ap m' there ∙ rest.read (k - here) (omega arith) ∙ ap bytes (omega arith)
      ];
    }

    whole_cluster :
        (c p remaining stop : ℕ) (m : Mem) (d : Drive D)
        → IsReady d
        → IsCluster bt c
        → stop < p + 2 ^ 32
        → IsLeft ide bt p remaining stop
        → (r : ℕ × ℕ × Mem × Drive D) × (read_cluster_loop ide bt bt.sectors_per_cluster
              (first_sector bt c)
              0
              p
              remaining
              m
              d
            ≡ ok r)
          × ReadIn ide bt bt.sectors_per_cluster (first_sector bt c) p stop m d r
    whole_cluster c p remaining stop m d r is bound l =
        let (x, runs, w) =
          read_cluster-ReadIn ide bt bt.sectors_per_cluster (first_sector bt c) 0 p remaining stop m
            d v.volume.bytes_per_sector r
            (omega (arith, cluster_end bt sectors v c is, v.volume.addressable)) bound l in
        (
          x,
          runs,
          subst (λ (f : ℕ). ReadIn ide bt bt.sectors_per_cluster f p stop m d x)
              (add-zero (first_sector bt c)) w,
        )

    read_loop-ReadBack :
        (cs : List ℕ) (fuel x p remaining at size stop : ℕ) (bytes m : Mem) (d : Drive D)
        → fat_cluster_count bt + 2 ≤ last_cluster
        → IsReady d
        → size < fuel
        → stop < p + 2 ^ 32
        → (0 < size → stop ≡ p + size)
        → IsLeft ide bt p remaining stop
        → Follows d x cs
        → Holds ide bt d bytes cs at size
        → (m' : Mem) × (d' : Drive D) × (read_loop ide bt fuel x p remaining m d ≡ ok (m', d'))
          × ReadBack bytes at size p m m'
    read_loop-ReadBack cs zero x p remaining at size stop bytes m d few r enough bound e l f h =
        absurd (omega arith)
    read_loop-ReadBack [] (suc fuel) x p remaining at size stop bytes m d few r enough bound e l f
          h =
        (
          m,
          d,
          rw f (read_loop_end fuel p remaining m d),
          record { before = λ a b. refl; read = λ k b. absurd (omega (arith, h)) },
        )
    read_loop-ReadBack (c ∷ cs) (suc fuel) x p remaining at size stop bytes m d few r enough bound e
          l (here, is, f) (some, holds, rest) =
        let (y, runs, w) = whole_cluster c p remaining stop m d r is bound l in
        let cut = min size (bt.sectors_per_cluster * 512) in
        let after = reading-SameDisk ide bt (place bt c) y.3 w.disk.ready in
        let same = SameDisk-trans w.disk after in
        let d₂ = reading ide (place bt c) y.3 in
        let next = entry ide bt y.3 c in
        let follows : Follows d₂ next cs =
          rw (entry-SameDisk ide bt d y.3 w.disk c)
            (Follows-SameDisk cs (entry ide bt d c) d d₂ same f) in
        let (m', d', rest_runs, back) =
          read_loop-ReadBack cs fuel next y.0 y.1 (at + cut) (size - cut) stop bytes y.2 d₂ few
            same.ready (omega (arith, v.some_sectors)) (omega (arith, w.moved))
            (λ more. omega (arith, w.moved, e some)) w.left follows
            (Holds-SameDisk cs bytes (at + cut) (size - cut) d d₂ same rest) in
        (
          m',
          d',
          rw here (
              read_loop_step fuel c p remaining m d (ground (arith, is.1))
                (first_sector-IsCluster bt sectors v c is) runs
                (next_cluster-entry ide bt sectors v.volume c y.3 w.disk.ready
                  (cluster-IsEntry bt sectors c v.volume is.1))
              ∙ rest_runs),
          cluster-ReadBack c at size p stop bytes m m' d y (e some) holds w back,
        )

    chain-Follows :
        (cs : List ℕ) (c : ℕ) (d d' : Drive D)
        → IsChain ide bt d' c cs
        → AllFree ide bt d (c ∷ cs)
        → Follows d' c (c ∷ cs)
    chain-Follows [] c d d' chain ((is, z), free) = (refl, is, chain)
    chain-Follows (c' ∷ cs) c d d' (e, chain) ((is, z), free) =
        (refl, is, rw e (chain-Follows cs c' d d' chain free))

    -- On a FAT32 volume of sectors of 512 bytes whose cluster numbers stay below the mark of an end,
    -- over a drive that works, and for data of 1 to 2^32 - 1 bytes: `FatWriteData` gives 0 and the
    -- volume is full, or the loop of `FatRead`, from the cluster that it gives, returns with the data
    -- at the address read to, and the memory before that address is as it was.
    pub read-write_data :
        (bytes m : Mem) (size p : ℕ) (d : Drive D)
        → IsReady d
        → IsDisk ide d.drive_num sectors
        → fat_cluster_count bt + 2 ≤ last_cluster
        → 0 < size
        → size < 2 ^ 32
        → (c : ℕ) × (d' : Drive D) × (fat_write_data ide bt bytes size d ≡ ok (c, d'))
          × (((c ≡ 0) × IsFull ide bt d')
              ⊎ ((m' : Mem) × (d'' : Drive D) × (read_loop ide bt (2 ^ 32) c p size m d'
                    ≡ ok (m', d''))
                  × ReadBack bytes 0 size p m m'))
    read-write_data bytes m size p d r disk few some small =
        let (c, d', e, out) = write_data-Written ide bt sectors v bytes size d r disk some small in
        (c, d', e, result c d' out)
      where
        result :
            (c : ℕ) (d' : Drive D)
            → (((c ≡ 0) × IsFull ide bt d')
                ⊎ ((c' : ℕ) × (cs : List ℕ) × (c ≡ c')
                    × Written ide bt bytes 0 0 size d d' (c' ∷ cs)))
            → (((c ≡ 0) × IsFull ide bt d')
                ⊎ ((m' : Mem) × (d'' : Drive D) × (read_loop ide bt (2 ^ 32) c p size m d'
                      ≡ ok (m', d''))
                    × ReadBack bytes 0 size p m m'))
        result c d' (inl full) = inl full
        result c d' (inr (c', cs, e, w)) = inr (
            read_loop-ReadBack (c' ∷ cs) (2 ^ 32) c p size 0 size (p + size) bytes m d' few w.ready
              small (omega arith) (λ h. refl) (λ h. omega arith)
              (rw e (chain-Follows cs c' d d' w.chained w.fresh)) w.holds)
