-- ===== src/Fat/ReadIn.antt =====
-- The sectors of one cluster as the loop of `FatRead` reads them, src/drivers/fs/fat.c.
use dek_os.Base.{
  ℕ, zero, suc, ◌+◌, ◌-◌, ◌*◌, ◌%◌, ◌^◌, ◌<◌, ◌≡◌, refl, ◌∙◌, arith, true, ltb, leb, ◌&&◌,
  if◌then◌else◌, ok, Mem,
}
use dek_os.Storage.{Ide, Drive, ide_read_data}
use dek_os.Storage.Sectors.{IsReady, sector, reading, read_from-IsReady}
use dek_os.Fat.{BootSector}
use dek_os.Fat.Table.{reading-IsReady}
use dek_os.Fat.Search.{SameDisk}
use dek_os.Fat.Read.{copy_in, read_cluster_loop}

pub reading-SameDisk :
    {D : Type 0} (ide : Ide D) (bt : BootSector) (l : ℕ) (d : Drive D)
    → IsReady d
    → SameDisk d (reading ide l d)
unfolding ide_read_data
reading-SameDisk ide bt l d r = record {
  ready = reading-IsReady ide bt l d r;
  same_device = refl;
  same_drive = refl;
}

pub SameDisk-trans :
    {D : Type 0} {d d' d'' : Drive D} → SameDisk d d' → SameDisk d' d'' → SameDisk d d''
SameDisk-trans v w = record {
  ready = w.ready;
  same_device = w.same_device ∙ v.same_device;
  same_drive = w.same_drive ∙ v.same_drive;
}

module _ {D : Type 0} (ide : Ide D) (bt : BootSector) where
  pub sector-SameDisk :
      (d d' : Drive D) → SameDisk d d' → (l i : ℕ) → sector ide d' l i ≡ sector ide d l i
  sector-SameDisk d d' v l i = rw (v.same_device, v.same_drive) refl

  -- What is still to be read, up to address `stop`: behind it, the value of `remaining` is not known.
  abbrev pub IsLeft : ℕ → ℕ → ℕ → Type 0
  IsLeft p remaining stop = p < stop → remaining ≡ stop - p

  -- `n` sectors from `first` on have been read to `p`, as far as the file goes.
  pub record ReadIn (n first p stop : ℕ) (m : Mem) (d : Drive D) (r : ℕ × ℕ × Mem × Drive D)
      : Type 0 where
    pub moved : r.0 ≡ p + n * 512
    pub left : IsLeft r.0 r.1 stop
    pub kept : (a : ℕ) → a < p → r.2 a ≡ m a
    pub copied :
        (l i : ℕ)
        → l < n
        → i < 512
        → p + l * 512 + i < stop
        → r.2 (p + l * 512 + i) ≡ sector ide d (first + l) i
    pub disk : SameDisk d r.3

  -- the bytes of one sector that are copied
  abbrev chunk : ℕ → ℕ
  chunk remaining = if ltb 512 remaining then 512 else remaining

  read_cluster_step :
      (n first off p remaining : ℕ) (m : Mem) (d : Drive D)
      → bt.bytes_per_sector ≡ 512
      → IsReady d
      → first + off < 2 ^ 32
      → read_cluster_loop ide bt (suc n) first off p remaining m d
        ≡ read_cluster_loop ide bt n first
            (off + 1)
            (p + 512)
            ((remaining + 2 ^ 32 - 512) % 2 ^ 32)
            (copy_in m p (sector ide d (first + off)) (chunk remaining))
            (reading ide (first + off) d)
  unfolding read_cluster_loop ide_read_data
  read_cluster_step n first off p remaining m d e r low =
      let at : (first + off) % 2 ^ 32 ≡ first + off = omega arith in
      rw (read_cluster_loop, e, at, read_from-IsReady ide (first + off) d r) refl

  next-IsLeft :
      (p remaining stop : ℕ)
      → stop < p + 2 ^ 32
      → IsLeft p remaining stop
      → IsLeft (p + 512) ((remaining + 2 ^ 32 - 512) % 2 ^ 32) stop
  next-IsLeft p remaining stop bound l more = omega (arith, l (omega arith))

  chunk_copied :
      (p remaining stop i : ℕ) (m b : Mem)
      → IsLeft p remaining stop
      → i < 512
      → p + i < stop
      → copy_in m p b (chunk remaining) (p + i) ≡ b i
  chunk_copied p remaining stop i m b l hi h =
      let e : p + i - p ≡ i = omega arith in
      let inside : (leb p (p + i) && ltb (p + i) (p + chunk remaining)) ≡ true =
        ground (arith, l (omega arith)) in
      rw (inside, e) refl

  pub read_cluster-ReadIn :
      (n first off p remaining stop : ℕ) (m : Mem) (d : Drive D)
      → bt.bytes_per_sector ≡ 512
      → IsReady d
      → first + off + n < 2 ^ 32
      → stop < p + 2 ^ 32
      → IsLeft p remaining stop
      → (r : ℕ × ℕ × Mem × Drive D) × (read_cluster_loop ide bt n first off p remaining m d ≡ ok r)
        × ReadIn n (first + off) p stop m d r
  unfolding read_cluster_loop
  read_cluster-ReadIn zero first off p remaining stop m d e r low bound l = (
    (p, remaining, m, d),
    refl,
    record {
      moved = omega arith;
      left = l;
      kept = λ a h. refl;
      copied = λ x i h. absurd (omega arith);
      disk = record { ready = r; same_device = refl; same_drive = refl };
    },
  )
  read_cluster-ReadIn (suc n) first off p remaining stop m d e r low bound l =
      let same = reading-SameDisk ide bt (first + off) d r in
      let (x, runs, v) =
        read_cluster-ReadIn n first (off + 1) (p + 512) ((remaining + 2 ^ 32 - 512) % 2 ^ 32) stop
          (copy_in m p (sector ide d (first + off)) (chunk remaining)) (reading ide (first + off) d)
          e same.ready (omega arith) (omega arith) (next-IsLeft p remaining stop bound l) in
      (
        x,
        read_cluster_step n first off p remaining m d e r (omega arith) ∙ runs,
        record {
          moved = v.moved ∙ omega arith;
          left = v.left;
          kept = λ a h. v.kept a (omega arith) ∙ ground arith;
          copied = copied x v;
          disk = SameDisk-trans same v.disk;
        },
      )
    where
      copied :
          (x : ℕ × ℕ × Mem × Drive D)
          → ReadIn n
              (first + (off + 1))
              (p + 512)
              stop
              (copy_in m p (sector ide d (first + off)) (chunk remaining))
              (reading ide (first + off) d)
              x
          → (k i : ℕ) → k < suc n
          → i < 512
          → p + k * 512 + i < stop
          → x.2 (p + k * 512 + i) ≡ sector ide d (first + off + k) i
      copied x v zero i hk hi h =
          let here : p + 0 * 512 + i ≡ p + i = omega arith in
          let same : first + off + 0 ≡ first + off = omega arith in
          rw (here, same)
            (v.kept (p + i) (omega arith)
              ∙ chunk_copied p remaining stop i m (sector ide d (first + off)) l hi (omega arith))
      copied x v (suc k) i hk hi h =
          let there : p + suc k * 512 + i ≡ p + 512 + k * 512 + i = omega arith in
          let same : first + off + suc k ≡ first + (off + 1) + k = omega arith in
          rw (there, same)
            (v.copied k i (omega arith) hi (omega arith)
              ∙ sector-SameDisk d (reading ide (first + off) d)
                  (reading-SameDisk ide bt (first + off) d r) (first + (off + 1) + k) i)
