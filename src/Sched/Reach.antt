-- ===== src/Sched/Reach.antt =====
-- What no sequence of calls of src/programs/scheduler.c can do to the kernel's process.
use dek_os.Base.{
  >>=-eq-ok, ℕ, ◌<◌, ◌≡◌, ◌≢◌, not, ◌||◌, ◌==◌, leb, Bool-cases, Run, Ensures, Ensures-ok,
  Ensures-if, Ensures-faulted, false, refl, sym, ◌∙◌, ap, true, Bool, arith, Option, bit_or, ok,
  ok-injective, inl, inr,
}
use dek_os.User.{Users}
use dek_os.Memory.Heap.{Heap}
use dek_os.Sched.{
  Sched, Pid, Process, put, max_procs, sched_init, sched_suspend_process, sched_resume_process,
  sched_switch, sched_next_context, sched_save_context, sched_load_context, sched_timer_handler,
}
use dek_os.Sched.Lifecycle.{take_args, Kernel, Request, sched_create_process, sched_kill_process}
use dek_os.Sched.Next.{runnable, behind, start_of, sched_next_context-Found}
use dek_os.Sched.Control.{Killed, kill_lem}
use dek_os.Sched.Create.{start, create_lem}

-- One call of the scheduler that returns, with the users that there are at that time. The slot behind
-- the table is not switched to and not ended.
pub data Step : Kernel → Kernel → Type 0 where
  suspend :
      {k : Kernel} {s : Sched} (pid : Pid) {failed : Bool}
      → sched_suspend_process pid k.sched ≡ ok (failed, s)
      → Step k (record k { sched = s })
  resume :
      {k : Kernel} {s : Sched} (pid : Pid) {failed : Bool}
      → sched_resume_process pid k.sched ≡ ok (failed, s)
      → Step k (record k { sched = s })
  switch :
      {k : Kernel} (n : ℕ)
      → n ≢ max_procs
      → Step k (record k { sched = (sched_switch n k.sched).1 })
  next :
      {k : Kernel} {s : Sched} → sched_next_context k.sched ≡ ok s → Step k (record k { sched = s })
  save :
      {k : Kernel} {s : Sched} → sched_save_context k.sched ≡ ok s → Step k (record k { sched = s })
  load :
      {k : Kernel} {s : Sched} → sched_load_context k.sched ≡ ok s → Step k (record k { sched = s })
  tick : {k : Kernel} → Step k (record k { sched = sched_timer_handler k.sched })
  create :
      {k k' : Kernel} (r : Request) (us : Users) {p : Option Pid}
      → sched_create_process r us k ≡ ok (p, k')
      → Step k k'
  kill :
      {k k' : Kernel} (pid : Pid) {failed : Bool}
      → pid.num ≢ max_procs
      → sched_kill_process pid k ≡ ok (failed, k')
      → Step k k'

pub data Reach (k : Kernel) : Kernel → Type 0 where
  here : Reach k k
  then_step : {l m : Kernel} → Reach k l → Step l m → Reach k m

-- The kernel's process, in slot 0, can run, and there is a current process.
pub record IsAlive (s : Sched) : Type 0 where
  pub kernel : runnable s 0 ≡ true
  pub current : s.current_pid.valid ≡ true

-- The run of a call that gives an error or not leaves the kernel's process able to run.
abbrev pub KeepsAlive : Run (Bool × Sched) → Type 0
KeepsAlive run = Ensures (λ (out : Bool × Sched). IsAlive out.1) run

put_active-IsAlive : (n : ℕ) (p : Process) (s : Sched) → n ≢ 0 → IsAlive s → IsAlive (put s n p)
put_active-IsAlive n p s other v = record { kernel = ground (arith, v.kernel); current = v.current }

pub suspend-KeepsAlive :
    (pid : Pid) (s : Sched) → IsAlive s → KeepsAlive (sched_suspend_process pid s)
unfolding sched_suspend_process
suspend-KeepsAlive pid s v = elim (Bool-cases ((pid.num == 0) || not pid.valid)) [
  | inl refused ↦ rw refused (Ensures-ok v)
  | inr other ↦
      let p = s.processes pid.num in
      rw other (
        Ensures-if (leb max_procs pid.num) Ensures-faulted (
          Ensures-if (not p.active || not p.valid) (Ensures-ok v) (
            Ensures-ok (
              put_active-IsAlive pid.num (record p { active = false }) s (ground (arith, other))
                v))))
]

pub resume-KeepsAlive :
    (pid : Pid) (s : Sched) → IsAlive s → KeepsAlive (sched_resume_process pid s)
unfolding sched_resume_process
resume-KeepsAlive pid s v = elim (Bool-cases ((pid.num == 0) || not pid.valid)) [
  | inl refused ↦ rw refused (Ensures-ok v)
  | inr other ↦
      let p = s.processes pid.num in
      rw other (
        Ensures-if (leb max_procs pid.num) Ensures-faulted (
          Ensures-if (p.active || not p.valid) (Ensures-ok v) (
            Ensures-ok (
              put_active-IsAlive pid.num (record p { active = true }) s (ground (arith, other))
                v))))
]

pub switch-IsAlive : (n : ℕ) (s : Sched) → IsAlive s → IsAlive (sched_switch n s).1
unfolding sched_switch
switch-IsAlive n s v = ground (arith, v.kernel, v.current)

pub next-IsAlive : (s t : Sched) → IsAlive s → sched_next_context s ≡ ok t → IsAlive t
next-IsAlive s t v e =
    let (d, _, _, e') = sched_next_context-Found s 0 (omega arith) v.kernel in
    rw (ok-injective (sym e ∙ e')) (record { kernel = v.kernel; current = refl })

pub save-IsAlive : (s t : Sched) → IsAlive s → sched_save_context s ≡ ok t → IsAlive t
unfolding sched_save_context
save-IsAlive s t v e =
    let out = ok-injective (rw v.current at e) in
    let alive : runnable
          (put s s.current_pid.num (record (s.processes s.current_pid.num) {
            regs = record (s.buffer) { flags = bit_or s.buffer.flags 0x200 };
          }))
          0
        ≡ true =
      ground (arith, v.kernel) in
    rw (← out) (record { kernel = alive; current = refl })

pub load-IsAlive : (s t : Sched) → IsAlive s → sched_load_context s ≡ ok t → IsAlive t
unfolding sched_load_context
load-IsAlive s t v e =
    let out = ok-injective (rw v.current at e) in
    rw (← out) (record { kernel = v.kernel; current = refl })

tick-IsAlive : (s : Sched) → IsAlive s → IsAlive (sched_timer_handler s)
unfolding sched_timer_handler
tick-IsAlive s v = record { kernel = v.kernel; current = v.current }

-- filling, or ending, a process other than the kernel's
put-IsAlive : (s t : Sched) (i : ℕ) (p : Process) → 0 < i → t ≡ put s i p → IsAlive s → IsAlive t
put-IsAlive s t i p pos e v =
    let alive : runnable (put s i p) 0 ≡ true = ground (arith, v.kernel) in
    rw e (record { kernel = alive; current = v.current })

create-IsAlive :
    (r : Request) (us : Users) (k k' : Kernel) (p : Option Pid)
    → IsAlive k.sched
    → sched_create_process r us k ≡ ok (p, k')
    → IsAlive k'.sched
create-IsAlive r us k k' p v e = elim (create_lem r us k) [
  | inl (e', _) ↦
      let same : k ≡ k' = ap (λ (o : Option Pid × Kernel). o.1) (ok-injective (sym e' ∙ e)) in
      rw same at v
  | inr (id, (_, _, _, pos, _), e') ↦
      let (a, _, e'') = >>=-eq-ok (take_args r.args r.argc k.heap) (start r k id) (sym e' ∙ e) in
      filled id pos a e''
]
  where
    filled : (id : ℕ) → 0 < id → (a : ℕ × ℕ × Heap) → start r k id a ≡ ok (p, k') → IsAlive k'.sched
    filled id pos (argv, argc, h) e =
        put-IsAlive k.sched k'.sched id _ pos
          (sym (ap (λ (o : Option Pid × Kernel). o.1.sched) (ok-injective e))) v

pub kill-IsAlive :
    (pid : Pid) (k k' : Kernel) (failed : Bool)
    → IsAlive k.sched
    → sched_kill_process pid k ≡ ok (failed, k')
    → IsAlive k'.sched
kill-IsAlive pid k k' failed v e =
    let (out, e', d) = kill_lem pid k in
    let same : out ≡ (failed, k') = ok-injective (sym e' ∙ e) in after (rw same at d)
  where
    after : Killed pid k (failed, k') → IsAlive k'.sched
    after (inl ((_, same), _)) = rw same v
    after (inr (_, pos, _, e)) = put-IsAlive k.sched k'.sched pid.num _ pos e v

Step-IsAlive : {k k' : Kernel} → Step k k' → IsAlive k.sched → IsAlive k'.sched
Step-IsAlive {k} (suspend pid e) v = (suspend-KeepsAlive pid k.sched v).returns _ e
Step-IsAlive {k} (resume pid e) v = (resume-KeepsAlive pid k.sched v).returns _ e
Step-IsAlive {k} (switch n _) v = switch-IsAlive n k.sched v
Step-IsAlive {k} (next e) v = next-IsAlive k.sched _ v e
Step-IsAlive {k} (save e) v = save-IsAlive k.sched _ v e
Step-IsAlive {k} (load e) v = load-IsAlive k.sched _ v e
Step-IsAlive {k} tick v = tick-IsAlive k.sched v
Step-IsAlive {k} {k'} (create r us e) v = create-IsAlive r us k k' _ v e
Step-IsAlive {k} {k'} (kill pid _ e) v = kill-IsAlive pid k k' _ v e

Reach-IsAlive : {k k' : Kernel} → Reach k k' → IsAlive k.sched → IsAlive k'.sched
Reach-IsAlive here v = v
Reach-IsAlive (then_step r st) v = Step-IsAlive st (Reach-IsAlive r v)

-- `schedInit` returns, and leaves the kernel's process able to run and current.
sched_init-IsAlive :
    (k_stack : ℕ) (s : Sched) → (t : Sched) × (sched_init k_stack s ≡ ok t) × IsAlive t
unfolding sched_init sched_load_context
sched_init-IsAlive k_stack s = (_, refl, record { kernel = refl; current = refl })

-- From such a scheduler on a process that can run is found.
pub IsAlive-next_context :
    (s : Sched)
    → IsAlive s
    → (runnable s 0 ≡ true)
      × (s.current_pid.valid ≡ true)
      × ((n : ℕ) × (n < max_procs)
          × (runnable s n ≡ true)
          × (sched_next_context s
              ≡ ok (record s { current_pid = record { valid = true; num = n } })))
IsAlive-next_context s v =
    let (d, _, f, out) = sched_next_context-Found s 0 (omega arith) v.kernel in
    (v.kernel, v.current, (behind (start_of s) d, omega arith, f.passes, out))

pub init-IsAlive : (k_stack : ℕ) (s t u : Sched) → sched_init k_stack s ≡ ok t → u ≡ t → IsAlive u
init-IsAlive k_stack s t u e same =
    let (t', e', v) = sched_init-IsAlive k_stack s in rw (same ∙ ok-injective (sym e ∙ e')) v

-- After `schedInit`, whatever calls of the scheduler return, in whatever order, the slots that they
-- suspend, resume, switch to or end being slots of the table or refused by the call, and the heap lying
-- apart from the scheduler's variables, the kernel's process, in slot 0, stays valid and active, there
-- is a current process, and `schedNextContext`, which has no other way out of its loop than a process
-- that can run, returns with a valid and active process of the table made current.
pub Reach-next_context :
    (k_stack : ℕ) (s t : Sched) (k k' : Kernel)
    → sched_init k_stack s ≡ ok t
    → k.sched ≡ t
    → Reach k k'
    → (runnable k'.sched 0 ≡ true)
      × (k'.sched.current_pid.valid ≡ true)
      × ((n : ℕ) × (n < max_procs)
          × (runnable k'.sched n ≡ true)
          × (sched_next_context k'.sched
              ≡ ok (record (k'.sched) { current_pid = record { valid = true; num = n } })))
Reach-next_context k_stack s t k k' e same r =
    IsAlive-next_context k'.sched (Reach-IsAlive r (init-IsAlive k_stack s t k.sched e same))
