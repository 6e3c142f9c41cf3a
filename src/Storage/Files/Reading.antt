-- ===== src/Storage/Files/Reading.antt =====
-- Finding a free handle, and reading a file, src/drivers/fs/file.c.
use Prim.Native.Nat.{min}
use dek_os.Base.{
  ℕ, zero, suc, ◌+◌, ◌*◌, ◌%◌, ◌^◌, ◌≤◌, ◌<◌, ◌≡◌, ◌≢◌, refl, ap, ◌∙◌, ◌⊎◌, inl, inr, arith, true,
  false, not, ◌||◌, ◌==◌, Bool-cases, Option, none, some, null,
}
use dek_os.Memory.Block.{int_count, memcpy_lem}
use dek_os.Storage.Files.{
  Files, max_files, is_present, is_readable, f_allocate_loop, f_allocate, bytes_to_read, f_read,
  no_file, put_file,
}

-- The first of the `n` handles from `i` on that is free, if there is one.
abbrev pub IsFree : Files → ℕ → ℕ → Option ℕ → Type 0
IsFree s n i none = (j : ℕ) → i ≤ j → j < i + n → is_present (s.file j).flags ≡ true
IsFree s n i (some k) =
    (i ≤ k)
    × (k < i + n)
    × (is_present (s.file k).flags ≡ false)
    × ((j : ℕ) → i ≤ j → j < k → is_present (s.file j).flags ≡ true)

taken-IsFree :
    (s : Files) (n i : ℕ) (o : Option ℕ)
    → is_present (s.file i).flags ≡ true
    → IsFree s n (i + 1) o
    → IsFree s (suc n) i o
taken-IsFree s n i none here later = λ j low high. elim (Bool-cases (j == i)) [
  | inl same ↦ let e : j ≡ i = ground arith in rw e here
  | inr other ↦ later j (ground arith) (omega arith)
]
taken-IsFree s n i (some k) here (low, high, free, before) = (
  omega arith,
  omega arith,
  free,
  λ j from to. elim (Bool-cases (j == i)) [
    | inl same ↦ let e : j ≡ i = ground arith in rw e here
    | inr other ↦ before j (ground arith) to
  ],
)

loop-IsFree : (n i : ℕ) (s : Files) → IsFree s n i (f_allocate_loop n i s)
unfolding f_allocate_loop
loop-IsFree zero i s = λ j low high. absurd (omega arith)
loop-IsFree (suc n) i s = elim (Bool-cases (is_present (s.file i).flags)) [
  | inl here ↦
      rw here (taken-IsFree s n i (f_allocate_loop n (i + 1) s) here (loop-IsFree n (i + 1) s))
  | inr free ↦ rw free (omega arith, omega arith, free, λ j low high. absurd (omega arith))
]

-- `FAllocate` gives the first of the 1024 handles that is not in use, or NULL if all are.
pub f_allocate-IsFree : (s : Files) → IsFree s max_files 0 (f_allocate s).0
unfolding f_allocate
f_allocate-IsFree s = found (f_allocate_loop max_files 0 s) (loop-IsFree max_files 0 s)
  where
    found :
        (o : Option ℕ)
        → IsFree s max_files 0 o
        → IsFree s max_files 0
            (elim o as (λ _. Option ℕ × Files) [
              | none ↦ (none, s)
              | some i ↦ (some i, put_file i no_file s)
            ]).0
    found none f = f
    found (some i) f = f

-- What `FRead` needs of its handle and its arguments.
pub record MayRead (buf n size i : ℕ) (s : Files) : Type 0 where
  pub contents : ((s.file i).base ≢ null) × ((s.file i).remaining ≢ 0)
  pub readable : is_readable (s.file i).flags ≡ true
  pub buffer : buf ≢ null
  pub asked : (n ≢ 0) × (size ≢ 0)
  pub small : (s.file i).remaining < 2 ^ 31

-- `FRead` of a readable file gives the number of bytes asked for, but at most those that remain; it
-- copies as many from the file's pointer on into a buffer below or behind them, and moves the pointer.
pub f_read_lem :
    (buf n size i k : ℕ) (s : Files)
    → MayRead buf n size i s
    → (buf ≤ (s.file i).ptr) ⊎ ((s.file i).ptr + bytes_to_read n size (s.file i) ≤ buf)
    → k < bytes_to_read n size (s.file i)
    → let (count, s') = f_read buf n size (some i) s in
      (count ≡ min (n * size % 2 ^ 32) (s.file i).remaining)
      × (s'.heap.bytes (buf + k) ≡ s.heap.bytes ((s.file i).ptr + k))
      × ((s'.file i).ptr ≡ ((s.file i).ptr + count) % 2 ^ 32)
      × ((s'.file i).remaining ≡ (s.file i).remaining)
unfolding f_read
f_read_lem buf n size i k s v apart h =
    let f = s.file i in
    let passes : ((f.base == null)
          || (f.remaining == 0)
          || (n == 0)
          || (size == 0)
          || (buf == null)
          || not (is_readable f.flags))
        ≡ false =
      ground (arith, v.contents, v.readable, v.buffer, v.asked) in
    let count : int_count (bytes_to_read n size f) ≡ bytes_to_read n size f =
      ground (arith, v.small) in
    let same : (i == i) ≡ true = ground arith in
    rw (passes, count, same)
      (refl, memcpy_lem (bytes_to_read n size f) buf f.ptr s.heap.bytes k apart h, refl, refl)

-- Reading changes nothing that a further read needs.
again-MayRead :
    (buf buf' n size i : ℕ) (s : Files)
    → MayRead buf n size i s
    → buf' ≢ null
    → MayRead buf' n size i (f_read buf n size (some i) s).1
unfolding f_read
again-MayRead buf buf' n size i s v there =
    let f = s.file i in
    let passes : ((f.base == null)
          || (f.remaining == 0)
          || (n == 0)
          || (size == 0)
          || (buf == null)
          || not (is_readable f.flags))
        ≡ false =
      ground (arith, v.contents, v.readable, v.buffer, v.asked) in
    let same : (i == i) ≡ true = ground arith in
    record {
      contents = rw (passes, same) v.contents;
      readable = rw (passes, same) v.readable;
      buffer = there;
      asked = v.asked;
      small = rw (passes, same) v.small;
    }

-- `FRead` does not count what it has read: when the whole file has been read from its beginning, the
-- same call succeeds again, and copies the bytes that stand behind the file in memory.
pub f_read_past_end :
    (buf buf' n size i k : ℕ) (s : Files)
    → MayRead buf n size i s
    → let f = s.file i in
      let s' = (f_read buf n size (some i) s).1 in
      buf' ≢ null
      → f.remaining ≤ n * size % 2 ^ 32
      → f.ptr + 2 * f.remaining < 2 ^ 32
      → f.ptr + 2 * f.remaining ≤ buf'
      → f.ptr + f.remaining ≤ buf
      → k < f.remaining
      → let (count, s'') = f_read buf' n size (some i) s' in
        (count ≡ f.remaining)
        × (s''.heap.bytes (buf' + k) ≡ s'.heap.bytes (f.ptr + f.remaining + k))
f_read_past_end buf buf' n size i k s v there whole low apart' apart h =
    let f = s.file i in
    let all : bytes_to_read n size f ≡ f.remaining = omega arith in
    let (count, _, moved, left) = f_read_lem buf n size i 0 s v (inr (omega arith)) (omega arith) in
    let s' = (f_read buf n size (some i) s).1 in
    let v' = again-MayRead buf buf' n size i s v there in
    let at_end : (s'.file i).ptr ≡ f.ptr + f.remaining = omega (arith, moved, count) in
    let (count', copied, _, _) =
      f_read_lem buf' n size i k s' v' (inr (omega (arith, at_end, left))) (omega (arith, left)) in
    (omega (arith, count', left), copied ∙ ap s'.heap.bytes (ap (λ (x : ℕ). x + k) at_end))
