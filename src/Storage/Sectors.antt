-- ===== src/Storage/Sectors.antt =====
-- What the sectors of a drive hold after reads and writes.
use dek_os.Base.{ℕ, ◌≤◌, ◌≡◌, refl, arith, true, ltb, if◌then◌else◌, some, Mem}
use dek_os.Storage.{
  Ide, Drive, buffer_size, ide_read_data, ide_write_data, sm_read_from, sm_write_to,
}

-- A drive as `SMInit` sets it up.
pub record IsReady {D : Type 0} (d : Drive D) : Type 0 where
  pub reads : d.reads ≡ true
  pub writes : d.writes ≡ true
  pub valid : d.valid ≡ true
  pub present : d.present ≡ true

module _ {D : Type 0} (ide : Ide D) where
  -- byte `i` of sector `l`
  abbrev pub sector : Drive D → ℕ → ℕ → ℕ
  sector d l i = ide.read_sectors d.device d.drive_num l (λ _. 0) i

  -- the drive after a read of sector `l`, and after a write of `size` bytes to it
  abbrev pub reading : ℕ → Drive D → Drive D
  reading l d = ide_read_data ide (record d { lba = l })

  abbrev pub writing : ℕ → Mem → ℕ → Drive D → Drive D
  writing l buf size d = ide_write_data ide (record d {
    lba = l;
    buffer_a = λ i. if ltb i size then buf i else d.buffer_a i;
    size_of_op = size;
  })

  pub read_from-IsReady :
      (l : ℕ) (d : Drive D) → IsReady d → sm_read_from ide l d ≡ some (reading l d)
  unfolding sm_read_from
  read_from-IsReady l d v = rw (v.reads, v.valid, v.present) refl

  pub write_to-IsReady :
      (l : ℕ) (buf : Mem) (size : ℕ) (d : Drive D)
      → IsReady d
      → size ≤ buffer_size
      → sm_write_to ide l buf size d ≡ some (writing l buf size d)
  unfolding sm_write_to
  write_to-IsReady l buf size d v h = rw (v.writes, v.valid, v.present) (ground arith)
