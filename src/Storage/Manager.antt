-- ===== src/Storage/Manager.antt =====
-- The table of drives and the stack of drives, src/drivers/fs/storage.c. A `DRIVE *` is an index into
-- the table, and NULL is `none`. The stack has 32 entries; `SMPushDrive` goes on to write behind them,
-- which is not modelled.
use dek_os.Base.{
  ℕ, ◌+◌, ◌-◌, ◌<◌, ◌≡◌, refl, arith, true, not, ◌&&◌, ◌||◌, ltb, leb, ◌==◌, if◌then◌else◌, Option,
  none, some, Mem, inl, inr, Bool-cases,
}
use dek_os.Storage.{Ide, Drive, buffer_size, ide_read_data, ide_write_data}

pub record Manager (D : Type 0) : Type 0 where
  pub drives : ℕ → Drive D
  pub current_drive : Option ℕ
  pub drive_count : ℕ
  pub drive_stack : ℕ → Option ℕ
  pub drive_stack_sp : ℕ

some-injective : {a b : ℕ} → some a ≡ some b → a ≡ b
some-injective e = cc

module _ {D : Type 0} where
  unfoldable pub sm_change : ℕ → Manager D → Manager D
  sm_change new s =
      if leb s.drive_count new
      then s
      else if not (s.drives new).valid || not (s.drives new).present
      then s
      else record s { current_drive = some new }

  unfoldable pub sm_get_drive : Manager D → Option ℕ
  sm_get_drive s = s.current_drive

  unfoldable pub sm_pop_drive : Manager D → Option ℕ × Manager D
  sm_pop_drive s =
      if ltb 0 s.drive_stack_sp
      then (
        s.drive_stack (s.drive_stack_sp - 1),
        record s { drive_stack_sp = s.drive_stack_sp - 1 },
      )
      else (none, s)

  unfoldable pub sm_push_drive : Option ℕ → Manager D → Option ℕ × Manager D
  sm_push_drive drive s =
      if ltb s.drive_stack_sp 63
      then (
        drive,
        record s {
          drive_stack = λ i. if i == s.drive_stack_sp then drive else s.drive_stack i;
          drive_stack_sp = s.drive_stack_sp + 1;
        },
      )
      else (none, s)

  -- `*drive = d`
  abbrev pub put_drive : ℕ → Drive D → Manager D → Manager D
  put_drive n d s = record s { drives = λ i. if i == n then d else s.drives i }

  module _ (ide : Ide D) where
    -- The bytes that the pointer returned points at, or `none` for NULL.
    unfoldable pub sm_read : ℕ → Manager D → Option Mem × Manager D
    unfolding ide_read_data
    sm_read lba s = elim s.current_drive [
      | none ↦ (none, s)
      | some n ↦
          let d = s.drives n in
          let read = ide_read_data ide (record d { lba = lba }) in
          if d.reads && d.valid && d.present
          then (some read.buffer_a, put_drive n read s)
          else (none, s)
    ]

    unfoldable pub sm_write : ℕ → Mem → ℕ → Manager D → Option Mem × Manager D
    unfolding ide_write_data
    sm_write lba buf size s = elim s.current_drive [
      | none ↦ (none, s)
      | some n ↦
          let d = s.drives n in
          let written = ide_write_data ide (record d {
            lba = lba;
            buffer_a = λ i. if ltb i size then buf i else d.buffer_a i;
            size_of_op = size;
          }) in
          if d.writes && d.valid && d.present && leb size buffer_size
          then (some written.buffer_a, put_drive n written s)
          else (none, s)
    ]

  -- The current drive is one of the table, valid and present.
  pub record IsSelected (s : Manager D) : Type 0 where
    pub selected :
        (n : ℕ)
        → s.current_drive ≡ some n
        → (n < s.drive_count) × ((s.drives n).valid ≡ true) × ((s.drives n).present ≡ true)

  -- `SMChange` never selects a drive that is not there, whatever number it is given.
  pub sm_change-IsSelected : (new : ℕ) (s : Manager D) → IsSelected s → IsSelected (sm_change new s)
  unfolding sm_change
  sm_change-IsSelected new s v = elim (Bool-cases (leb s.drive_count new)) [
    | inl past ↦ rw past v
    | inr inside ↦
        rw inside (elim (Bool-cases (not (s.drives new).valid || not (s.drives new).present)) [
          | inl unfit ↦ rw unfit v
          | inr fit ↦ rw fit (record {
            selected = λ n e.
                let same : new ≡ n = some-injective e in
                rw (← same) (ground arith, ground arith, ground arith);
          })
        ])
  ]

  -- What was pushed is popped, and the drives below it on the stack are as they were, while there are
  -- fewer than the 32 that the stack has room for.
  pub pop-push :
      (drive : Option ℕ) (s : Manager D) (i : ℕ)
      → s.drive_stack_sp < 32
      → let (popped, s') = sm_pop_drive (sm_push_drive drive s).1 in
        (popped ≡ drive)
        × (s'.drive_stack_sp ≡ s.drive_stack_sp)
        × (i < s.drive_stack_sp → s'.drive_stack i ≡ s.drive_stack i)
  unfolding sm_pop_drive sm_push_drive
  pop-push drive s i room =
      let free : ltb s.drive_stack_sp 63 ≡ true = ground arith in
      let some_on : ltb 0 (s.drive_stack_sp + 1) ≡ true = ground arith in
      let top : s.drive_stack_sp + 1 - 1 ≡ s.drive_stack_sp = omega arith in
      rw (free, some_on, top) (ground arith, refl, λ h. ground arith)
