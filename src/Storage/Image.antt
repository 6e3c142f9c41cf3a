-- ===== src/Storage/Image.antt =====
-- A concrete disk.
use dek_os.Base.{ℕ, ltb, ◌==◌, if◌then◌else◌, Mem, arith}
use dek_os.Storage.{Ide, IsDisk}

abbrev pub Image : Type 0
Image = ℕ → Mem

abbrev pub image_ide : Ide Image
image_ide = record {
  read_sectors = λ dev n l b i. if ltb i 512 then dev l i else b i;
  write_sectors = λ dev n l b. λ k i. if k == l then b i else dev k i;
}

pub image-IsDisk : (n sectors : ℕ) → IsDisk image_ide n sectors
image-IsDisk n sectors = record {
  read_written = λ dev l l' b b' i h hi. ground arith;
  read_past = λ dev l b i h. ground arith;
}
