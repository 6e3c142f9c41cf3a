-- ===== src/Storage/Files.antt =====
-- File handles, src/drivers/fs/file.h and src/drivers/fs/file.c. A `SYSFILE *` is an index into
-- `_iofiles`, and NULL is `none`; other pointers are addresses of the heap's bytes.
--
-- The functions of the current drive, behind the pointers `FileSize`, `ReadFile` and `WriteFile`, are
-- parameters.
pub mod Reading
use Prim.Native.Nat.{min}
use dek_os.Base.{
  ℕ, zero, suc, ◌+◌, ◌-◌, ◌*◌, ◌/◌, ◌%◌, ◌^◌, Bool, true, false, not, ◌&&◌, ◌||◌, ltb, leb, ◌==◌,
  if◌then◌else◌, Option, none, some, Run, ok, ◌>>=◌, null,
}
use dek_os.Memory.Block.{int_count, memcpy}
use dek_os.Memory.Text.{strnlen}
use dek_os.Memory.Heap.{Heap, kmalloc, kfree}

-- `SYSFILE`
pub record SysFile : Type 0 where
  pub ptr : ℕ
  pub remaining : ℕ
  pub size : ℕ
  pub base : ℕ
  pub flags : ℕ
  pub path : ℕ

-- `_iofiles`, and the heap
pub record Files : Type 0 where
  pub file : ℕ → SysFile
  pub heap : Heap

-- the result -1 of a `size_t`
abbrev pub failed : ℕ
failed = 2 ^ 32 - 1

abbrev pub max_files : ℕ
max_files = 1024

abbrev pub max_path : ℕ
max_path = 512

-- `FILE_PRESENT`, `FILE_READABLE` and `FILE_WRITABLE` are bits 0, 1 and 2 of the flags.
abbrev pub is_present : ℕ → Bool
is_present flags = flags % 2 == 1

abbrev pub is_readable : ℕ → Bool
is_readable flags = flags / 2 % 2 == 1

abbrev pub is_writable : ℕ → Bool
is_writable flags = flags / 4 % 2 == 1

abbrev pub no_file : SysFile
no_file = record { ptr = null; remaining = 0; size = 0; base = null; flags = 0; path = null }

-- `_iofiles[i] = f`
abbrev pub put_file : ℕ → SysFile → Files → Files
put_file i f s = record s { file = λ j. if j == i then f else s.file j }

abbrev pub with_heap : Heap → Files → Files
with_heap h s = record s { heap = h }

-- The search of `FAllocate`, with `n` handles left, from handle `i` on.
unfoldable pub f_allocate_loop : ℕ → ℕ → Files → Option ℕ
f_allocate_loop zero i s = none
f_allocate_loop (suc n) i s =
    let rest = f_allocate_loop n (i + 1) s in if is_present (s.file i).flags then rest else some i

unfoldable pub f_allocate : Files → Option ℕ × Files
f_allocate s = elim (f_allocate_loop max_files 0 s) [
  | none ↦ (none, s)
  | some i ↦ (some i, put_file i no_file s)
]

-- `minu(N * Size, File->remaining)`
abbrev pub bytes_to_read : ℕ → ℕ → SysFile → ℕ
bytes_to_read n size f = min (n * size % 2 ^ 32) f.remaining

unfoldable pub f_read : ℕ → ℕ → ℕ → Option ℕ → Files → ℕ × Files
f_read buf n size none s = (failed, s)
f_read buf n size (some i) s =
    let f = s.file i in
    let count = bytes_to_read n size f in
    if (f.base == null)
      || (f.remaining == 0)
      || (n == 0)
      || (size == 0)
      || (buf == null)
      || not (is_readable f.flags)
    then (failed, s)
    else (
      count,
      put_file i (record f { ptr = (f.ptr + count) % 2 ^ 32 })
          (with_heap (record (s.heap) { bytes = memcpy s.heap.bytes buf f.ptr (int_count count) })
            s),
    )

-- the new place of `ptr`, from the offset of the old one in the new memory
abbrev pub offset_in : ℕ → SysFile → ℕ
offset_in dat f = min ((f.ptr + 2 ^ 32 - dat) % 2 ^ 32) f.size

unfoldable pub f_write : ℕ → ℕ → ℕ → Option ℕ → Files → Run (ℕ × Files)
f_write buf n size none s = ok (failed, s)
f_write buf n size (some i) s =
    let f = s.file i in
    let count = n * size % 2 ^ 32 in
    let new_size = (count + f.size) % 2 ^ 32 in
    if (n == 0) || (size == 0) || (buf == null) || not (is_writable f.flags)
    then ok (failed, s)
    else (do
      (dat, h) ← kmalloc new_size s.heap
      if dat == null then ok (failed, with_heap h s) else (do
        let kept = memcpy h.bytes dat f.base (int_count f.size)
        let both = memcpy kept ((dat + f.size) % 2 ^ 32) buf (int_count count)
        h' ← kfree f.base (record h { bytes = both })
        let offset = offset_in dat f
        let f' : SysFile = record f {
          base = dat;
          ptr = (dat + offset) % 2 ^ 32;
          remaining = (new_size + 2 ^ 32 - offset) % 2 ^ 32;
          size = new_size;
        }
        ok (count, put_file i f' (with_heap h' s))))

module _ (has_drive : Bool) (file_size : ℕ → Heap → ℕ) (read_file : ℕ → Heap → Run (ℕ × Heap))
    (write_file : ℕ → ℕ → ℕ → Heap → Run Heap) where
  unfoldable pub f_open : ℕ → ℕ → ℕ → Files → Run (Option ℕ × Files)
  f_open path length flags s =
      if (path == null) || (length == 0) || leb max_path length || not (is_present flags)
      then ok (none, s)
      else if not (strnlen (λ k. s.heap.bytes (path + k)) (length + 1) == length) || not has_drive
      then ok (none, s)
      else (do
        let size = file_size path s.heap
        (dat, h) ← read_file path s.heap
        if (dat == null) || (size == 0)
            then ok (none, with_heap h s)
            else elim (f_allocate (with_heap h s)).0 [
              | none ↦ ok (none, with_heap h s)
              | some i ↦ do
                (p, h') ← kmalloc length h
                let f : SysFile = record {
                  ptr = dat;
                  remaining = size;
                  size = size;
                  base = dat;
                  flags = flags;
                  path = p;
                }
                ok (
                  some i,
                  put_file i f (with_heap (record h' { bytes = memcpy h'.bytes p path length }) s),
                )
            ])

  unfoldable pub f_close : ℕ → Files → Run Files
  f_close i s =
      let f = s.file i in
      if not has_drive || (f.ptr == null) || (f.base == null) || not (is_present f.flags)
      then ok s
      else (do
        h ←
            if is_writable f.flags
            then (do h' ← write_file f.path f.base f.size s.heap; kfree f.path h')
            else ok s.heap
        h'' ← kfree f.base h
        ok (put_file i no_file (with_heap h'' s)))
