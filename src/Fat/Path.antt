-- ===== src/Fat/Path.antt =====
-- The size of a file by its path, `IDEFileSize` of src/drivers/fs/storage.c.
use dek_os.Base.{ℕ, zero, suc, ◌+◌, ◌∷◌, [], Option, none, some, Run, ok, hung, ◌>>=◌, Mem, store}
use dek_os.Memory.Text.{Str, strncpy}
use dek_os.Memory.Text.Copy.{byte_or_nul}
use dek_os.Memory.Text.Token.{strtok}
use dek_os.Storage.{Ide, Drive}
use dek_os.Fat.{BootSector, fat_read_boot_sector}
use dek_os.Fat.Directory.{Directory, fat_convert_83, fat_locate_in_dir}

abbrev pub slash : Str
slash = byte_or_nul (b'/' ∷ [])

-- `strncpy(PathCopy, Path, 256)`, and the NUL at its end
abbrev pub path_copy : Str → Mem
path_copy path = store (strncpy (λ _. 0) path 256) 255 0

module _ {D : Type 0} (ide : Ide D) where
  -- The segments from `segment` on, with `save_ptr` the static variable of `strtok`, in the directory
  -- of the segment before.
  unfoldable pub file_size_loop :
      ℕ → BootSector → Mem → Option ℕ → Option ℕ → Option Directory → Drive D → Run (ℕ × Drive D)
  file_size_loop zero bt m segment save_ptr current d = hung
  file_size_loop (suc fuel) bt m none save_ptr none d = ok (0, d)
  file_size_loop (suc fuel) bt m none save_ptr (some current) d = ok (current.size, d)
  file_size_loop (suc fuel) bt m (some segment) save_ptr current d =
      let (name, ext) = fat_convert_83 (λ k. m (segment + k)) in
      do
        (loc, d') ← fat_locate_in_dir ide bt name ext current d
        elim loc [
          | none ↦ ok (0, d')
          | some found ↦ do
            (next, save_ptr', m') ← strtok none slash save_ptr m
            file_size_loop fuel bt m' next save_ptr' (some found.dir) d'
        ]

  -- A path of 255 bytes has at most 128 segments.
  unfoldable pub ide_file_size : Str → Drive D → Run (ℕ × Drive D)
  ide_file_size path d = do
    (bt, d') ← fat_read_boot_sector ide d
    (segment, save_ptr, m) ← strtok (some 0) slash none (path_copy path)
    file_size_loop 256 bt m segment save_ptr none d'
