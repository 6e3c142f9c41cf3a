-- ===== src/Syscall/Alive.antt =====
-- No system call of src/isr/system.c ends the kernel's process.
use dek_os.Base.{
  ℕ, ◌≡◌, Bool, true, false, ltb, ◌==◌, arith, Run, ok, Ensures, Ensures-ok, Ensures-if,
  Ensures-then, Ensures->>=, ◌>>=◌, null,
}
use dek_os.Memory.Heap.{kmalloc, kfree}
use dek_os.Sched.{
  Sched, Pid, max_procs, sched_save_context, sched_next_context, sched_load_context, sched_switch,
  sched_suspend_process, sched_resume_process,
}
use dek_os.Sched.Lifecycle.{Kernel, sched_kill_process}
use dek_os.Sched.Reach.{
  IsAlive, suspend-KeepsAlive, resume-KeepsAlive, switch-IsAlive, next-IsAlive, save-IsAlive,
  load-IsAlive, kill-IsAlive,
}
use dek_os.Resource.{Resource, resource_get_from_rid}
use dek_os.Resource.Lifecycle.{resource_create_k}
use dek_os.Resource.Scheduler.{
  blit-sched, r_blit-sched, release-sched, handover-sched, create-sched,
}
use dek_os.Syscall.{Machine, Call, Reply, jumped, sched_of, heap_of, with_sched, kernel_of}
use dek_os.Syscall.Handlers.{
  pid_of, on_resource, receiver, sys_exit, sys_yield, sys_kill_process, sys_resume_process,
  sys_suspend_process, sys_send, sys_fetch, sys_malloc, sys_free, sys_username, sys_rreq, sys_blit,
  sys_r_blit, sys_rnew, sys_rdel, sys_rgive, sys_field, sys_rprot, sys_dunload,
}

-- A run that returns leaves the kernel's process able to run.
abbrev pub Keeps : Run (Reply × Machine) → Type 0
Keeps run = Ensures (λ (out : Reply × Machine). IsAlive (sched_of out.1)) run

module _ (m : Machine) (v : IsAlive (sched_of m)) where
  -- The scheduler is the same.
  pub same-Keeps : {r : Reply} {m' : Machine} → sched_of m' ≡ sched_of m → Keeps (ok (r, m'))
  same-Keeps e = Ensures-ok (rw e v)

  kill-Ensures :
      (pid : Pid)
      → Ensures
          (λ (out : Bool × Kernel). IsAlive out.1.sched)
          (sched_kill_process pid (kernel_of m))
  kill-Ensures pid = record {
    returns = λ (failed, k) e. kill-IsAlive pid (kernel_of m) k failed v e;
  }

  pub exit-Keeps : Keeps (sys_exit m)
  unfolding sys_exit
  exit-Keeps =
      Ensures->>= (sched_kill_process (sched_of m).current_pid (kernel_of m))
        (kill-Ensures (sched_of m).current_pid) (λ (_, k) w. Ensures-ok w)

  pub kill-Keeps : (c : Call) → Keeps (sys_kill_process c m)
  unfolding sys_kill_process
  kill-Keeps c =
      Ensures-if (ltb c.arg1 max_procs)
        (Ensures->>= (sched_kill_process (pid_of c.arg1) (kernel_of m))
          (kill-Ensures (pid_of c.arg1)) (λ (_, k) w. Ensures-ok w))
        (Ensures-ok v)

  -- loading a context
  load-Keeps :
      (s : Sched) → IsAlive s → Keeps (do s' ← sched_load_context s; ok (jumped, with_sched s' m))
  load-Keeps s w =
      Ensures->>= (sched_load_context s) (record { returns = λ s' e. load-IsAlive s s' w e })
        (λ s' w'. Ensures-ok w')

  pub yield-Keeps : (c : Call) → Keeps (sys_yield c m)
  unfolding sys_yield
  yield-Keeps c =
      Ensures->>= (sched_save_context (sched_of m))
        (record { returns = λ s e. save-IsAlive (sched_of m) s v e })
        (λ s w.
          Ensures-if (c.arg1 == 0)
            (Ensures->>= (sched_next_context s) (record { returns = λ s' e. next-IsAlive s s' w e })
              (λ s' w'. load-Keeps s' w'))
            (Ensures-if (sched_switch c.arg1 s).0
              (load-Keeps (sched_switch c.arg1 s).1 (switch-IsAlive c.arg1 s w))
              (Ensures-ok (switch-IsAlive c.arg1 s w))))

  pub resume-Keeps : (c : Call) → Keeps (sys_resume_process c m)
  unfolding sys_resume_process
  resume-Keeps c =
      Ensures-if (ltb c.arg1 max_procs)
        (Ensures->>= (sched_resume_process (pid_of c.arg1) (sched_of m))
          (resume-KeepsAlive (pid_of c.arg1) (sched_of m) v) (λ (_, s) w. Ensures-ok w))
        (Ensures-ok v)

  pub suspend-Keeps : (c : Call) → Keeps (sys_suspend_process c m)
  unfolding sys_suspend_process
  suspend-Keeps c =
      Ensures-if (ltb c.arg1 max_procs)
        (Ensures->>= (sched_suspend_process (pid_of c.arg1) (sched_of m))
          (suspend-KeepsAlive (pid_of c.arg1) (sched_of m) v) (λ (_, s) w. Ensures-ok w))
        (Ensures-ok v)

  pub send-Keeps : (c : Call) → sched_of (sys_send c m).1 ≡ sched_of m
  unfolding sys_send
  send-Keeps c = ground arith

  pub fetch-Keeps : (c : Call) → sched_of (sys_fetch c m).1 ≡ sched_of m
  unfolding sys_fetch
  fetch-Keeps c = ground arith

  pub malloc-Keeps : (c : Call) → Keeps (sys_malloc c m)
  unfolding sys_malloc
  malloc-Keeps c =
      Ensures-if (ltb 0 c.arg1) (Ensures-then (kmalloc c.arg1 (heap_of m)) (λ (p, h). Ensures-ok v))
        (Ensures-ok v)

  pub free-Keeps : (c : Call) → Keeps (sys_free c m)
  unfolding sys_free
  free-Keeps c = Ensures-then (kfree c.arg1 (heap_of m)) (λ h. Ensures-ok v)

  pub username-Keeps : (c : Call) → IsAlive (sched_of (sys_username c m).1)
  unfolding sys_username
  username-Keeps c = v

  on_resource-Keeps :
      (override : Bool) (c : Call) (next : ℕ → Run (Reply × Machine))
      → ((rp : ℕ) → Keeps (next rp))
      → Keeps (on_resource override c m next)
  on_resource-Keeps override c next k =
      Ensures-then (resource_get_from_rid c.arg1 override m.resources)
        (λ rp. Ensures-if (rp == null) (Ensures-ok v) (k rp))

  pub rreq-Keeps : (c : Call) → Keeps (sys_rreq c m)
  unfolding sys_rreq
  rreq-Keeps c =
      on_resource-Keeps true c _
        (λ rp. Ensures-if (m.resources.node rp).protected (Ensures-ok v) (Ensures-ok v))

  pub blit-Keeps : (c : Call) → Keeps (sys_blit c m)
  unfolding sys_blit
  blit-Keeps c =
      Ensures-then (resource_get_from_rid c.arg1 false m.resources)
        (λ rp. same-Keeps (blit-sched rp c.arg2 c.arg3 c.arg4 c.arg5 m.resources))

  pub r_blit-Keeps : (c : Call) → Keeps (sys_r_blit c m)
  unfolding sys_r_blit
  r_blit-Keeps c =
      Ensures-then (resource_get_from_rid c.arg1 false m.resources)
        (λ rp. same-Keeps (r_blit-sched rp c.arg2 c.arg3 c.arg4 c.arg5 m.resources))

  pub rnew-Keeps : (c : Call) → Keeps (sys_rnew c m)
  unfolding sys_rnew
  rnew-Keeps c =
      Ensures->>= (resource_create_k null c.arg1 c.arg2 (sched_of m).current_pid m.resources)
        (create-sched null c.arg1 c.arg2 (sched_of m).current_pid m.resources)
        (λ (p, _, s) e. same-Keeps e)

  pub rdel-Keeps : (c : Call) → Keeps (sys_rdel c m)
  unfolding sys_rdel
  rdel-Keeps c = on_resource-Keeps false c _ (λ rp. same-Keeps (release-sched rp m.resources))

  pub rgive-Keeps : (c : Call) → Keeps (sys_rgive c m)
  unfolding sys_rgive
  rgive-Keeps c = on_resource-Keeps false c _ (λ rp.
      Ensures-if (m.resources.node rp).protected (Ensures-ok v)
        (same-Keeps (handover-sched rp (receiver c m) m.resources)))

  pub field-Keeps : (field : Resource → ℕ) (c : Call) → Keeps (sys_field field c m)
  unfolding sys_field
  field-Keeps field c = on_resource-Keeps true c _ (λ rp. Ensures-ok v)

  pub rprot-Keeps : (c : Call) → Keeps (sys_rprot c m)
  unfolding sys_rprot
  rprot-Keeps c = on_resource-Keeps false c _ (λ rp. Ensures-ok v)

  pub dunload-Keeps : (c : Call) → Keeps (sys_dunload c m)
  unfolding sys_dunload
  dunload-Keeps c = on_resource-Keeps false c _ (λ rp. Ensures-if _ (Ensures-ok v) (
      Ensures-then (kfree (m.resources.node rp).region.ptr (heap_of m))
        (λ h. same-Keeps (release-sched rp (record (m.resources) { heap = h })))))
