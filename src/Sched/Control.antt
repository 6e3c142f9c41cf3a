-- ===== src/Sched/Control.antt =====
-- Suspending, resuming, switching to, checking and ending a process, src/programs/scheduler.c.
use dek_os.Base.{
  refl, load32, zero, suc, ◌+◌, ◌*◌, ℕ, ◌≤◌, ◌<◌, ◌≡◌, true, false, Bool, ◌||◌, arith, ltb, ◌==◌,
  if◌then◌else◌, Run, ok, ◌⊎◌, ◌>>=◌, null, Bool-cases, inl, inr,
}
use mathlib.Core.Logic.{◌↔◌}
use dek_os.Memory.Heap.{Heap, kfree}
use dek_os.Sched.{
  Sched, Pid, Process, put, max_procs, sched_suspend_process, sched_resume_process,
  sched_is_running, sched_switch, sched_validate_pid,
}
use dek_os.Sched.Lifecycle.{Kernel, sched_kill_process, free_args}

-- A process of the table other than the kernel's that is valid and active can be suspended, is then not running, can
-- be resumed, and every slot is then as it was.
pub resume-suspend :
    (pid : Pid) (s : Sched)
    → pid.valid ≡ true
    → 0 < pid.num
    → pid.num < max_procs
    → (s.processes pid.num).active ≡ true
    → (s.processes pid.num).valid ≡ true
    → (t u : Sched) × (sched_suspend_process pid s ≡ ok (false, t))
      × (sched_is_running pid t ≡ false)
      × (sched_resume_process pid t ≡ ok (false, u))
      × ((j : ℕ) → u.processes j ≡ s.processes j)
unfolding sched_suspend_process sched_resume_process sched_is_running
resume-suspend pid s valid pos inside active alive =
    (t, u, ground arith, ground arith, ground arith, λ j. ground arith)
  where
    t : Sched
    t = put s pid.num (record (s.processes pid.num) { active = false })

    u : Sched
    u = put t pid.num (record (t.processes pid.num) { active = true })

-- `schedValidatePid` accepts exactly the valid identifiers of slots of the table that hold a valid and
-- active process.
pub validate_pid_iff :
    (pid : Pid) (s : Sched)
    → (sched_validate_pid pid s ≡ true) ↔ (
        (pid.valid ≡ true)
        × (pid.num < max_procs)
        × ((s.processes pid.num).valid ≡ true)
        × ((s.processes pid.num).active ≡ true))
unfolding sched_validate_pid
validate_pid_iff pid s = (λ h. ground arith, λ h. ground arith)

-- `schedSwitch` makes a process current only if it is valid, active and not to be deleted, and
-- otherwise changes nothing. Its bound lets slot 16 pass, which is no slot of the table: if the memory
-- behind the table looks like such a process, it becomes current.
pub switch_lem :
    (n : ℕ) (s : Sched)
    → ((sched_switch n s).0 ≡ true → (sched_switch n s).1 ≡ s)
      × ((sched_switch n s).0 ≡ false ↔ (
          (n ≤ max_procs)
          × ((s.processes n).valid ≡ true)
          × ((s.processes n).active ≡ true)
          × ((s.processes n).delete ≡ false)))
      × ((sched_switch n s).0 ≡ false
          → (sched_switch n s).1 ≡ record s { current_pid = record { valid = true; num = n } })
unfolding sched_switch
switch_lem n s = (λ h. ground arith, (λ h. ground arith, λ h. ground arith), λ h. ground arith)

-- what `schedKillProcess` leaves of a process
abbrev pub killed : Process → Process
killed p = record p { argv = null; active = false; valid = false; delete = true }

-- the heap when the arguments of a process have been freed
abbrev freed : ℕ → ℕ → Heap → Run Heap
freed argc argv h = if argv == null then ok h else (free_args argc 0 argv h >>= λ h'. kfree argv h')

-- What `schedKillProcess` returns and leaves.
abbrev pub Killed : Pid → Kernel → Bool × Kernel → Type 0
Killed pid k (failed, k') =
    (((failed ≡ true) × (k' ≡ k)) × ((pid.num ≡ 0) ⊎ (max_procs < pid.num)))
    ⊎ ((failed ≡ false)
        × (0 < pid.num)
        × (pid.num ≤ max_procs)
        × (k'.sched ≡ put k.sched pid.num (killed (k.sched.processes pid.num))))

-- `kfree` panics for NULL only, and the loop passes over that.
kfree_returns : (p : ℕ) (h : Heap) → (p == null) ≡ false → (h' : Heap) × (kfree p h ≡ ok h')
unfolding kfree
kfree_returns p h present = rw present (_, refl)

free_args_returns : (n i argv : ℕ) (h : Heap) → (h' : Heap) × (free_args n i argv h ≡ ok h')
unfolding free_args
free_args_returns zero i argv h = (h, refl)
free_args_returns (suc n) i argv h = elim (Bool-cases (load32 h.bytes (argv + 4 * i) == null)) [
  | inl missing ↦ rw missing (free_args_returns n (i + 1) argv h)
  | inr present ↦
      let (h', e) = kfree_returns (load32 h.bytes (argv + 4 * i)) h present in
      rw (present, e) (free_args_returns n (i + 1) argv h')
]

freed_returns : (argc argv : ℕ) (h : Heap) → (h' : Heap) × (freed argc argv h ≡ ok h')
freed_returns argc argv h = elim (Bool-cases (argv == null)) [
  | inl missing ↦ rw missing (h, refl)
  | inr present ↦
      let (h', e) = free_args_returns argc 0 argv h in
      let (h'', e') = kfree_returns argv h' present in (h'', rw (present, e) e')
]

-- `schedKillProcess` always returns. It refuses the kernel and the identifiers past 16, and then
-- changes nothing. Any other process is afterwards neither valid nor active, is marked as deleted and
-- has no arguments, and every other slot is as it was. Slot 16, which is no slot of the table, is not
-- refused: it is written to.
pub kill_lem :
    (pid : Pid) (k : Kernel)
    → (out : Bool × Kernel) × (sched_kill_process pid k ≡ ok out) × Killed pid k out
unfolding sched_kill_process
kill_lem pid k = elim (Bool-cases ((pid.num == 0) || ltb max_procs pid.num)) [
  | inl refused ↦ rw refused ((true, k), refl, inl ((refl, refl), ground arith))
  | inr allowed ↦
      let p = k.sched.processes pid.num in
      let (h, e) = freed_returns p.argc p.argv k.heap in
      rw (allowed, e) (_, refl, inr (refl, ground arith, ground arith, refl))
]
