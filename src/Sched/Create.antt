-- ===== src/Sched/Create.antt =====
-- Creating a process, src/programs/scheduler.c.
use mathlib.Core.Path.{subst}
use dek_os.Base.{
  Bool, Ensures, Ensures-ok, Ensures-then, if◌then◌else◌, load32, load32-store32_wrap, ◌*◌, ◌/◌,
  ◌%◌, ◌^◌, >>=-eq-ok, ok-injective, sym, ◌∙◌, ap, ◌>>=◌, ℕ, zero, suc, ◌+◌, ◌≤◌, ◌<◌, ◌≡◌, ◌≢◌,
  refl, true, false, not, ◌&&◌, arith, ltb, ◌==◌, Option, none, some, Run, ok, null, Bool-cases,
  inl, inr, ◌⊎◌, List,
}
use dek_os.Memory.Heap.{Heap, kmalloc}
use dek_os.Memory.Text.Scan.{IsStr, length, strnlen-IsStr}
use dek_os.User.{Users, user_test, flag_valid, flag_can_launch}
use dek_os.Sched.{
  Sched, Pid, Process, put, max_procs, find_invalid_loop, sched_find_invalid_process,
}
use dek_os.Sched.Lifecycle.{
  Kernel, Request, copy_args, take_args, new_process, sched_create_process,
}

-- The first slot from `i` on, below `stop`, that holds no valid process.
abbrev pub FirstFree : Sched → ℕ → ℕ → Option ℕ → Type 0
FirstFree s i stop none = (j : ℕ) → i ≤ j → j < stop → (s.processes j).valid ≡ true
FirstFree s i stop (some f) =
    (i ≤ f)
    × (f < stop)
    × ((s.processes f).valid ≡ false)
    × ((j : ℕ) → i ≤ j → j < f → (s.processes j).valid ≡ true)

FirstFree-skip :
    (s : Sched) (i stop : ℕ) (r : Option ℕ)
    → (s.processes i).valid ≡ true
    → FirstFree s (i + 1) stop r
    → FirstFree s i stop r
FirstFree-skip s i stop none busy all = λ j lo hi. elim (Bool-cases (j == i)) [
  | inl same ↦ let e : j ≡ i = ground arith in rw e busy
  | inr later ↦ all j (ground arith) hi
]
FirstFree-skip s i stop (some f) busy (lo, hi, free, all) = (
  omega arith,
  hi,
  free,
  λ j a b. elim (Bool-cases (j == i)) [
    | inl same ↦ let e : j ≡ i = ground arith in rw e busy
    | inr later ↦ all j (ground arith) b
  ],
)

find_invalid_loop-FirstFree :
    (n i stop : ℕ) (s : Sched) → i + n ≡ stop → FirstFree s i stop (find_invalid_loop n i s)
unfolding find_invalid_loop
find_invalid_loop-FirstFree zero i stop s e = λ j lo hi. absurd (omega arith)
find_invalid_loop-FirstFree (suc n) i stop s e = elim (Bool-cases ((s.processes i).valid)) [
  | inl busy ↦
      rw busy (
        FirstFree-skip s i stop _ busy (find_invalid_loop-FirstFree n (i + 1) stop s (omega arith)))
  | inr free ↦ rw free (omega arith, omega arith, free, λ j a b. absurd (omega arith))
]

pub find_invalid_process-FirstFree :
    (s : Sched) → FirstFree s 0 max_procs (sched_find_invalid_process s)
unfolding sched_find_invalid_process
find_invalid_process-FirstFree s = find_invalid_loop-FirstFree max_procs 0 max_procs s (omega arith)

-- The user passes the test for launching, and slot `id`, not the kernel's, is the first that holds no
-- valid process, and there are a name and a program.
abbrev pub IsAllowed : Request → Users → Kernel → ℕ → Type 0
IsAllowed r us k id =
    (user_test r.user (flag_can_launch + flag_valid) us ≢ 0)
    × (r.name ≢ null)
    × (r.program ≢ null)
    × (0 < id)
    × FirstFree k.sched 0 max_procs (some id)

-- what becomes of a creation in slot `id` once its arguments have been copied
abbrev pub start : Request → Kernel → ℕ → ℕ × ℕ × Heap → Run (Option Pid × Kernel)
start r k id (argv, argc, h) = ok (
  some (record { valid = true; num = id }),
  record { sched = put k.sched id (new_process r k.heap.bytes argv argc); heap = h },
)

-- What `schedCreateProcess` comes to.
abbrev pub Created : Request → Users → Kernel → Run (Option Pid × Kernel) → Type 0
Created r us k out =
    ((out ≡ ok (none, k)) × ((id : ℕ) → ¬ IsAllowed r us k id))
    ⊎ ((id : ℕ) × IsAllowed r us k id × (out ≡ (take_args r.args r.argc k.heap >>= start r k id)))

-- Two slots cannot both be the first free one.
FirstFree-unique :
    (s : Sched) (i j : ℕ)
    → FirstFree s 0 max_procs (some i)
    → FirstFree s 0 max_procs (some j)
    → i ≡ j
FirstFree-unique s i j (_, hi, free, busy) (_, hj, free', busy') = elim (Bool-cases (ltb i j)) [
  | inl less ↦ absurd (clash i (busy' i (omega arith) (ground arith)) free)
  | inr not_less ↦ elim (Bool-cases (ltb j i)) [
    | inl more ↦ absurd (clash j (busy j (omega arith) (ground arith)) free')
    | inr not_more ↦ ground arith
  ]
]
  where
    clash : (k : ℕ) → (s.processes k).valid ≡ true → ¬ ((s.processes k).valid ≡ false)
    clash k a b = cc

-- The creation of a process by whether it is allowed.
pub create_lem :
    (r : Request) (us : Users) (k : Kernel) → Created r us k (sched_create_process r us k)
unfolding sched_create_process
create_lem r us k = elim (Bool-cases (user_test r.user (flag_can_launch + flag_valid) us == 0)) [
  | inl denied ↦ rw denied (inl (refl, λ id a. absurd (a.0 (ground arith))))
  | inr allowed ↦
      found allowed (sched_find_invalid_process k.sched) refl
        (find_invalid_process-FirstFree k.sched)
]
  where
    found :
        (user_test r.user (flag_can_launch + flag_valid) us == 0) ≡ false
        → (o : Option ℕ) → sched_find_invalid_process k.sched ≡ o
        → FirstFree k.sched 0 max_procs o
        → Created r us k (sched_create_process r us k)
    found allowed none f v =
        rw (sched_create_process, allowed, f)
          (inl (refl, λ id (_, _, _, _, (_, hi, free, _)). full id free (v id (omega arith) hi)))
      where
        full :
            (id : ℕ)
            → (k.sched.processes id).valid ≡ false
            → ¬ ((k.sched.processes id).valid ≡ true)
        full id a b = cc
    found allowed (some id) f v =
        elim (Bool-cases (not (r.name == null) && not (r.program == null) && ltb 0 id)) [
          | inl usable ↦
              rw (sched_create_process, allowed, f, usable)
                (inr (id, (ground arith, ground arith, ground arith, ground arith, v), refl))
          | inr unusable ↦
              rw (sched_create_process, allowed, f, unusable)
                (inl (
                  refl,
                  λ j (_, name, program, pos, first).
                      let same : id ≡ j = FirstFree-unique k.sched id j v first in
                      absurd (missing j unusable same name program pos),
                ))
        ]
      where
        missing :
            (j : ℕ)
            → (not (r.name == null) && not (r.program == null) && ltb 0 id) ≡ false
            → id ≡ j
            → r.name ≢ null
            → r.program ≢ null
            → ¬ (0 < j)
        missing j unusable same name program pos = ground arith

-- Arguments are given.
abbrev pub has_args : Request → Bool
has_args r = ltb 0 r.argc && not (r.args == null)

-- The process `p` is the one asked for, its arguments standing in the heap `h`.
pub record IsNew (r : Request) (k : Kernel) (p : Process) (h : Heap) : Type 0 where
  pub runs : (p.valid ≡ true) × (p.active ≡ true) × (p.delete ≡ false)
  pub named :
      (q : List ℕ) (i : ℕ)
      → IsStr (λ j. k.heap.bytes (r.name + j)) q
      → p.name i ≡ (if ltb i (length q) && ltb i 32 then k.heap.bytes (r.name + i) else 0)
  pub entry : p.regs.eip ≡ (r.program + r.entry_offset) % 2 ^ 32
  pub stack_top : p.regs.esp ≡ (r.stack + r.stack_length) % 2 ^ 32 / 16 * 16
  pub frame : p.regs.ebp ≡ p.regs.esp
  pub interrupts : p.regs.flags ≡ 0x202
  pub segments : (p.regs.cs ≡ 0x08) × (p.regs.ds ≡ 0x10) × (p.regs.ss ≡ 0x10)
  pub registers : (p.regs.eax ≡ r.user) × (p.regs.ebx ≡ r.parent.num) × (p.regs.ecx ≡ r.argc)
  pub areas : (p.program ≡ r.program) × (p.stack ≡ r.stack) × (p.stack_size ≡ r.stack_length)
  pub owner : (p.parent ≡ r.parent) × (p.enactor ≡ r.user)
  pub count : p.argc ≡ (if has_args r then r.argc else 0)
  pub vector : p.regs.edx ≡ p.argv
  pub ended : has_args r ≡ true → load32 h.bytes (p.argv + 4 * r.argc) ≡ null
  pub none_given : has_args r ≡ false → (p.argv ≡ null) × (h ≡ k.heap)

-- `k'` is `k` with that process in slot `id`.
pub record IsStarted (r : Request) (k k' : Kernel) (id : ℕ) : Type 0 where
  pub stored : IsNew r k (k'.sched.processes id) k'.heap
  pub others : (j : ℕ) → j ≢ id → k'.sched.processes j ≡ k.sched.processes j
  pub current : k'.sched.current_pid ≡ k.sched.current_pid

-- What `take_args` gives, if it returns.
record Taken (r : Request) (h : Heap) (a : ℕ × ℕ × Heap) : Type 0 where
  count : a.1 ≡ (if has_args r then r.argc else 0)
  ended : has_args r ≡ true → load32 a.2.bytes (a.0 + 4 * r.argc) ≡ null
  none_given : has_args r ≡ false → (a.0 ≡ null) × (a.2 ≡ h)

take_args-Taken : (r : Request) (h : Heap) → Ensures (Taken r h) (take_args r.args r.argc h)
unfolding take_args
take_args-Taken r h = elim (Bool-cases (has_args r)) [
  | inl given ↦ rw given (
      Ensures-then (kmalloc (4 * (r.argc + 1) % 2 ^ 32) h) (λ (argv, h').
        Ensures-then (copy_args r.argc 0 r.args argv h') (λ h''. Ensures-ok (record {
          count = rw given refl;
          ended = λ _. load32-store32_wrap h''.bytes (argv + 4 * r.argc) null;
          none_given = λ n. cc;
        }))))
  | inr none_there ↦ rw none_there (
      Ensures-ok
        (record { count = rw none_there refl; ended = λ g. cc; none_given = λ _. (refl, refl) }))
]

start-IsStarted :
    (r : Request) (k : Kernel) (id : ℕ) (a : ℕ × ℕ × Heap)
    → Taken r k.heap a
    → IsStarted r k
        (record { sched = put k.sched id (new_process r k.heap.bytes a.0 a.1); heap = a.2 })
        id
unfolding new_process
start-IsStarted r k id a t =
    let p = new_process r k.heap.bytes a.0 a.1 in
    let here : (put k.sched id p).processes id ≡ p = ground arith in
    let fresh : IsNew r k p a.2 = record {
      runs = (refl, refl, refl);
      named =
          λ q i text. rw (strnlen-IsStr (λ j. k.heap.bytes (r.name + j)) q 32 text) (ground arith);
      entry = refl;
      stack_top = refl;
      frame = refl;
      interrupts = refl;
      segments = (refl, refl, refl);
      registers = (refl, refl, refl);
      areas = (refl, refl, refl);
      owner = (refl, refl);
      count = t.count;
      vector = refl;
      ended = t.ended;
      none_given = t.none_given;
    } in
    record {
      stored = subst (λ (q : Process). IsNew r k q a.2) (sym here) fresh;
      others = λ j other. ground arith;
      current = refl;
    }

-- What a creation is to do: without permission nothing, and with it a process in the slot `id`.
pub record Creates (r : Request) (us : Users) (k : Kernel) (run : Run (Option Pid × Kernel))
    : Type 0 where
  pub refused : ((id : ℕ) → ¬ IsAllowed r us k id) → run ≡ ok (none, k)
  pub started :
      (id : ℕ) (p : Option Pid) (k' : Kernel)
      → IsAllowed r us k id
      → run ≡ ok (p, k')
      → (p ≡ some (record { valid = true; num = id })) × IsStarted r k k' id
  pub without_args :
      (id : ℕ)
      → IsAllowed r us k id
      → has_args r ≡ false
      → (k' : Kernel) × (run ≡ ok (some (record { valid = true; num = id }), k'))

bare_start :
    (r : Request) (k : Kernel) (id : ℕ)
    → has_args r ≡ false
    → (take_args r.args r.argc k.heap >>= start r k id)
      ≡ ok (
        some (record { valid = true; num = id }),
        record { sched = put k.sched id (new_process r k.heap.bytes null 0); heap = k.heap },
      )
unfolding take_args
bare_start r k id bare = rw bare refl

Created-Creates :
    (r : Request) (us : Users) (k : Kernel) (run : Run (Option Pid × Kernel))
    → Created r us k run
    → Creates r us k run
Created-Creates r us k run (inl (e, refused)) = record {
  refused = λ _. e;
  started = λ id p k' allowed _. absurd (refused id allowed);
  without_args = λ id allowed _. absurd (refused id allowed);
}
Created-Creates r us k run (inr (id, allowed, e)) = record {
  refused = λ refused. absurd (refused id allowed);
  started = λ j p k' allowed' e'.
      let same : id ≡ j = slot_of id j allowed allowed' in
      subst (λ (i : ℕ). (p ≡ some (record { valid = true; num = i })) × IsStarted r k k' i) same
        (began p k' (sym e ∙ e'));
  without_args = λ j allowed' bare.
      let same : id ≡ j = slot_of id j allowed allowed' in
      subst (λ (i : ℕ). (k' : Kernel) × (run ≡ ok (some (record { valid = true; num = i }), k')))
        same
        (
          record { sched = put k.sched id (new_process r k.heap.bytes null 0); heap = k.heap },
          e ∙ bare_start r k id bare,
        );
}
  where
    slot_of : (i j : ℕ) → IsAllowed r us k i → IsAllowed r us k j → i ≡ j
    slot_of i j (_, _, _, _, f) (_, _, _, _, f') = FirstFree-unique k.sched i j f f'

    began :
        (p : Option Pid) (k' : Kernel)
        → (take_args r.args r.argc k.heap >>= start r k id) ≡ ok (p, k')
        → (p ≡ some (record { valid = true; num = id })) × IsStarted r k k' id
    began p k' run_ok =
        let (a, taken, done) = >>=-eq-ok (take_args r.args r.argc k.heap) (start r k id) run_ok in
        let t = (take_args-Taken r k.heap).returns a taken in
        let out = ok-injective done in
        (
          sym (ap (λ (o : Option Pid × Kernel). o.0) out),
          subst (λ (q : Kernel). IsStarted r k q id) (ap (λ (o : Option Pid × Kernel). o.1) out)
              (start-IsStarted r k id a t),
        )

-- If the user passes the test for launching, there are a name and a program, and the first slot `id`
-- that holds no valid process is not the kernel's, then whenever `schedCreateProcess` returns, it gives
-- the identifier of that slot, which holds a valid and active process: it starts at the entry of the
-- program, with its stack pointer at the end of its stack rounded down to 16 bytes, with interrupts on,
-- in the kernel's segments, and with the user, the parent, the number of arguments and the vector in
-- eax, ebx, ecx and edx; it has the first 32 bytes of the name, the areas, the parent and the user asked
-- for, and a vector whose entry `argc` is NULL (its other entries are not stated); the other slots and
-- the current process are as they were. Without arguments it does return, and the heap is as it was. In
-- every other case it returns at once and nothing has changed.
pub create-Creates :
    (r : Request) (us : Users) (k : Kernel) → Creates r us k (sched_create_process r us k)
create-Creates r us k = Created-Creates r us k (sched_create_process r us k) (create_lem r us k)
