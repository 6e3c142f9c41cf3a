-- ===== src/Fat/Data.antt =====
-- The sectors of the clusters of a FAT32 volume, and writing one cluster, src/drivers/fs/fat.c.
use Prim.Native.Nat.{min}
use native.Mathlib.Nat.{mul-le-mul_right, suc-mul}
use dek_os.Base.{
  ℕ, zero, suc, ◌+◌, ◌-◌, ◌*◌, ◌%◌, ◌^◌, ◌≤◌, ◌<◌, ◌≡◌, ◌≢◌, refl, sym, ◌∙◌, arith, false, ltb, leb,
  ◌&&◌, ◌==◌, Mem, Bool-cases, inl, inr, if◌then◌else◌,
}
use dek_os.Storage.{Ide, IsDisk, Drive, ide_write_data}
use dek_os.Storage.Sectors.{IsReady, sector, writing}
use dek_os.Fat.{
  BootSector, fat_size, fat_cluster_count, fat_first_data, fat_first_sector_for_cluster, write_out,
  write_cluster_loop,
}
use dek_os.Fat.Table.{IsVolume, write_out-IsReady}

-- The clusters of a volume lie behind its tables and inside the drive.
pub record HasData (bt : BootSector) (sectors : ℕ) : Type 0 where
  pub volume : IsVolume bt sectors
  pub some_sectors : 0 < bt.sectors_per_cluster
  pub few_sectors : bt.sectors_per_cluster < 2 ^ 8
  pub behind : bt.reserved_sectors + 2 * fat_size bt ≤ fat_first_data bt
  pub ends : fat_first_data bt + fat_cluster_count bt * bt.sectors_per_cluster ≤ sectors

-- the number of the first sector of a cluster
abbrev pub first_sector : BootSector → ℕ → ℕ
first_sector bt c = (c - 2) * bt.sectors_per_cluster + fat_first_data bt

-- A cluster of the volume: 0 and 1 are none.
abbrev pub IsCluster : BootSector → ℕ → Type 0
IsCluster bt c = (2 ≤ c) × (c < fat_cluster_count bt + 2)

module _ (bt : BootSector) (sectors : ℕ) (v : HasData bt sectors) where
  pub cluster_end : (c : ℕ) → IsCluster bt c → first_sector bt c + bt.sectors_per_cluster ≤ sectors
  cluster_end c (low, high) = omega (
    arith,
    v.ends,
    suc-mul (c - 2) bt.sectors_per_cluster,
    mul-le-mul_right {m = suc (c - 2)} {n = fat_cluster_count bt} bt.sectors_per_cluster
        (omega arith),
  )

  -- The sector that the code computes for a cluster does not wrap.
  pub first_sector-IsCluster :
      (c : ℕ) → IsCluster bt c → fat_first_sector_for_cluster bt c ≡ first_sector bt c
  unfolding fat_first_sector_for_cluster
  first_sector-IsCluster c (low, high) =
      let e : (c + 2 ^ 32 - 2) % 2 ^ 32 ≡ c - 2 = omega (arith, v.volume.few) in
      rw e (omega (arith, cluster_end c (low, high), v.some_sectors, v.volume.addressable))

  clusters_below :
      (c c' k k' : ℕ)
      → c < c'
      → 2 ≤ c
      → k < bt.sectors_per_cluster
      → first_sector bt c + k < first_sector bt c' + k'
  clusters_below c c' k k' less low h = omega (
    arith,
    suc-mul (c - 2) bt.sectors_per_cluster,
    mul-le-mul_right {m = suc (c - 2)} {n = c' - 2} bt.sectors_per_cluster (omega arith),
  )

  -- Different clusters of a volume share no sector.
  pub clusters_apart :
      (c c' k k' : ℕ)
      → IsCluster bt c
      → IsCluster bt c'
      → c ≢ c'
      → k < bt.sectors_per_cluster
      → k' < bt.sectors_per_cluster
      → first_sector bt c + k ≢ first_sector bt c' + k'
  clusters_apart c c' k k' is is' other h h' = elim (Bool-cases (ltb c c')) [
    | inl less ↦ λ e. omega (arith, clusters_below c c' k k' (ground arith) is.0 h)
    | inr more ↦ λ e. omega (arith, other, clusters_below c' c k' k (ground arith) is'.0 h')
  ]

module _ {D : Type 0} (ide : Ide D) (bt : BootSector) where
  -- What a write of sectors from `first` on does: as many as `size` bytes need are written whole.
  pub record IsWritten (bytes : Mem) (first at size : ℕ) (d d' : Drive D) : Type 0 where
    pub ready : IsReady d'
    pub same_drive : d'.drive_num ≡ d.drive_num
    pub contents :
        (l i : ℕ)
        → i < 512
        → sector ide d' l i ≡ (
            if leb first l && ltb ((l - first) * 512) size
            then bytes (at + (l - first) * 512 + i)
            else sector ide d l i)

  module _ (bytes : Mem) (first i at size remaining : ℕ) (d : Drive D) where
    cluster_loop_done :
        write_cluster_loop ide bt 0 bytes first i at size remaining d ≡ (at, remaining, d)
    unfolding write_cluster_loop
    cluster_loop_done = refl

    cluster_loop_step :
        (n b : ℕ)
        → b ≡ bt.bytes_per_sector
        → write_cluster_loop ide bt (suc n) bytes first i at size remaining d ≡ (
            if size == 0
            then (at, remaining, d)
            else write_cluster_loop ide bt n bytes first
                (i + 1)
                (at + min size b)
                (size - min size b)
                (remaining - min size b)
                (write_out ide ((first + i) % 2 ^ 32) (λ k. bytes (at + k)) b d))
    unfolding write_cluster_loop
    cluster_loop_step n b e = rw e refl

  module _ (sectors : ℕ) (volume : IsVolume bt sectors) where
    -- One round, on a sector of the drive.
    cluster_loop_next :
        (n : ℕ) (bytes : Mem) (first i at size remaining : ℕ) (d : Drive D)
        → IsReady d
        → first + i < sectors
        → (size == 0) ≡ false
        → write_cluster_loop ide bt (suc n) bytes first i at size remaining d
          ≡ write_cluster_loop ide bt n bytes first
              (i + 1)
              (at + min size 512)
              (size - min size 512)
              (remaining - min size 512)
              (writing ide (first + i) (λ k. bytes (at + k)) 512 d)
    cluster_loop_next n bytes first i at size remaining d r room some =
        let at_sector : (first + i) % 2 ^ 32 ≡ first + i = omega (arith, volume.addressable) in
        rw
          (
            cluster_loop_step bytes first i at size remaining d n 512 (sym volume.bytes_per_sector),
            some,
            at_sector,
            write_out-IsReady ide bt (first + i) (λ k. bytes (at + k)) 512 d r (omega arith),
          )
          refl

    pub cluster_loop-IsWritten :
        (n : ℕ) (bytes : Mem) (first i at size remaining : ℕ) (d : Drive D)
        → IsReady d
        → IsDisk ide d.drive_num sectors
        → first + i + n ≤ sectors
        → size ≤ n * 512
        → size ≤ remaining
        → (d' : Drive D) × (write_cluster_loop ide bt n bytes first i at size remaining d
            ≡ (at + size, remaining - size, d'))
          × IsWritten bytes (first + i) at size d d'
    unfolding ide_write_data
    cluster_loop-IsWritten zero bytes first i at size remaining d r disk room fits less =
        let e : size ≡ 0 = omega arith in
        rw (e, cluster_loop_done bytes first i at 0 remaining d)
          (
            d,
            ground arith,
            record { ready = r; same_drive = refl; contents = λ l j h. ground arith },
          )
    cluster_loop-IsWritten (suc n) bytes first i at size remaining d r disk room fits less =
        let sector_size = sym volume.bytes_per_sector in
        let step = min size 512 in
        let next = writing ide (first + i) (λ k. bytes (at + k)) 512 d in
        let ready : IsReady next = record {
          reads = r.reads;
          writes = r.writes;
          valid = r.valid;
          present = r.present;
        } in
        let (d', e, w) =
          cluster_loop-IsWritten n bytes first (i + 1) (at + step) (size - step) (remaining - step)
            next ready disk (omega arith) (omega arith) (omega arith) in
        let moved : at + step + (size - step) ≡ at + size = omega arith in
        let left : remaining - step - (size - step) ≡ remaining - size = omega arith in
        elim (Bool-cases (size == 0)) [
          | inl none ↦
              let z : size ≡ 0 = ground arith in
              rw (z, cluster_loop_step bytes first i at 0 remaining d n 512 sector_size)
                (
                  d,
                  ground arith,
                  record { ready = r; same_drive = refl; contents = λ l j h. ground arith },
                )
          | inr some ↦ (
            d',
            cluster_loop_next n bytes first i at size remaining d r (omega arith) some
                ∙ rw (moved, left) at e,
            record {
              ready = w.ready;
              same_drive = w.same_drive;
              contents = λ l j h.
                  joined l j (ground arith) (w.contents l j h)
                    (disk.read_written d.device (first + i) l next.buffer_a (λ _. 0) j (omega arith)
                      h)
                    h;
            },
          )
        ]
      where
        joined :
            {rest : ℕ} {mine : ℕ} (l j : ℕ)
            → 0 < size
            → rest ≡ (
                if leb (first + (i + 1)) l
                  && ltb ((l - (first + (i + 1))) * 512) (size - min size 512)
                then bytes (at + min size 512 + (l - (first + (i + 1))) * 512 + j)
                else mine)
            → mine ≡ (
                if l == first + i
                then (if ltb j 512 then bytes (at + j) else d.buffer_a j)
                else sector ide d l j)
            → j < 512
            → rest ≡ (
                if leb (first + i) l && ltb ((l - (first + i)) * 512) size
                then bytes (at + (l - (first + i)) * 512 + j)
                else sector ide d l j)
        joined l j some e e' h = ground arith
