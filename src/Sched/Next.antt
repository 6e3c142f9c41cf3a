-- ===== src/Sched/Next.antt =====
-- The searches of src/programs/scheduler.c for the next process, round robin.
use dek_os.Base.{
  ℕ, zero, suc, ◌+◌, ◌-◌, ◌%◌, ◌≤◌, ◌<◌, ◌≡◌, refl, true, false, Bool, arith, ◌==◌, ◌&&◌, not,
  if◌then◌else◌, Bool-cases, inl, inr, ◌⊎◌, Option, none, some, Run, ok, hung,
}
use dek_os.Sched.{
  Sched, max_procs, no_pid, next_context_loop, sched_next_context, find_next_loop,
  sched_find_next_task,
}

abbrev pub runnable : Sched → ℕ → Bool
runnable s i = (s.processes i).valid && (s.processes i).active

-- the slot `d` rounds behind `start`
abbrev pub behind : ℕ → ℕ → ℕ
behind start d = (start + d) % max_procs

abbrev running : Sched → ℕ → Sched
running s i = record s { current_pid = record { valid = true; num = i } }

-- What a search of `n` slots behind `next` for one that passes the test comes to: none passes, or the
-- first one that does is `d` rounds behind.
pub record Found (test : ℕ → Bool) (next d : ℕ) : Type 0 where
  pub later : 0 < d
  pub passes : test (behind next d) ≡ true
  pub first : (e : ℕ) → 0 < e → e < d → test (behind next e) ≡ false

abbrev pub NoneFound : (ℕ → Bool) → ℕ → ℕ → Type 0
NoneFound test next n = (e : ℕ) → 0 < e → e ≤ n → test (behind next e) ≡ false

behind-suc : (next e : ℕ) → behind (behind next 1) e ≡ behind next (e + 1)
behind-suc next e = omega arith

module _ (test : ℕ → Bool) (next : ℕ) (miss : test (behind next 1) ≡ false) where
  -- the round after one that failed
  step_over :
      (e : ℕ)
      → 0 < e
      → (1 < e → test (behind (behind next 1) (e - 1)) ≡ false)
      → test (behind next e) ≡ false
  step_over e pos later = elim (Bool-cases (e == 1)) [
    | inl now ↦ let same : e ≡ 1 = ground arith in rw same miss
    | inr more ↦
        let same : behind next e ≡ behind (behind next 1) (e - 1) = ground arith in
        rw same (later (ground arith))
  ]

  pub Found-suc : (d : ℕ) → Found test (behind next 1) d → Found test next (d + 1)
  Found-suc d f = record {
    later = omega arith;
    passes = rw (behind-suc next d) at f.passes;
    first = λ e pos lt. step_over e pos (λ more. f.first (e - 1) (omega arith) (omega arith));
  }

  pub NoneFound-suc : (n : ℕ) → NoneFound test (behind next 1) n → NoneFound test next (suc n)
  NoneFound-suc n all =
      λ e pos le. step_over e pos (λ more. all (e - 1) (omega arith) (omega arith))

pub Found-one : (test : ℕ → Bool) (next : ℕ) → test (behind next 1) ≡ true → Found test next 1
Found-one test next hit = record {
  later = omega arith;
  passes = hit;
  first = λ e pos lt. absurd (omega arith);
}

abbrev pub Searched : Sched → ℕ → ℕ → Run Sched → Type 0
Searched s next n r =
    (r ≡ hung) × NoneFound (runnable s) next n
    ⊎ ((d : ℕ) × (d ≤ n) × Found (runnable s) next d × (r ≡ ok (running s (behind next d))))

Searched-suc :
    (s : Sched) (next n : ℕ) (r : Run Sched)
    → runnable s (behind next 1) ≡ false
    → Searched s (behind next 1) n r
    → Searched s next (suc n) r
Searched-suc s next n r miss (inl (e, all)) = inl (e, NoneFound-suc (runnable s) next miss n all)
Searched-suc s next n r miss (inr (d, le, f, e)) =
    inr (d + 1, omega arith, Found-suc (runnable s) next miss d f, rw (← behind-suc next d) e)

next_context_loop-Searched :
    (n next : ℕ) (s : Sched) → Searched s next n (next_context_loop n next s)
unfolding next_context_loop
next_context_loop-Searched zero next s = inl (refl, λ e pos le. absurd (omega arith))
next_context_loop-Searched (suc n) next s = elim (Bool-cases (runnable s (behind next 1))) [
  | inl hit ↦ rw hit (inr (1, omega arith, Found-one (runnable s) next hit, refl))
  | inr miss ↦
      rw miss (Searched-suc s next n _ miss (next_context_loop-Searched n (behind next 1) s))
]

-- A slot of the table is at most sixteen rounds behind any other.
rounds : (start k : ℕ) → k < max_procs → (e : ℕ) × (0 < e) × (e ≤ max_procs) × (behind start e ≡ k)
rounds start k h = ((k + 31 - start % 16) % 16 + 1, omega arith, omega arith, omega arith)

-- where `schedNextContext` starts: at the current process, or at 0 if there is none
abbrev pub start_of : Sched → ℕ
start_of s = if s.current_pid.valid then s.current_pid.num else 0

-- If any process of the table is valid and active, `schedNextContext` returns, and makes current the
-- first such process behind the current one, round the table; nothing else changes.
pub sched_next_context-Found :
    (s : Sched) (k : ℕ)
    → k < max_procs
    → runnable s k ≡ true
    → (d : ℕ) × (d ≤ max_procs)
      × Found (runnable s) (start_of s) d
      × (sched_next_context s
          ≡ ok (record s { current_pid = record { valid = true; num = behind (start_of s) d } }))
unfolding sched_next_context
sched_next_context-Found s k h can =
    let num : (if s.current_pid.valid then s.current_pid else no_pid).num ≡ start_of s =
      ground arith in
    rw num (after (next_context_loop-Searched max_procs (start_of s) from_start))
  where
    from_start : Sched
    from_start = record s { current_pid = if s.current_pid.valid then s.current_pid else no_pid }

    after :
        {r : Run Sched}
        → Searched from_start (start_of s) max_procs r
        → (d : ℕ) × (d ≤ max_procs)
          × Found (runnable s) (start_of s) d
          × (r ≡ ok (running s (behind (start_of s) d)))
    after (inl (_, all)) =
        let (e, pos, le, same) = rounds (start_of s) k h in cc (can, rw same at (all e pos le))
    after (inr found) = found

-- If no process of the table is valid and active, the loop of `schedNextContext` finds none, however
-- many rounds it is given.
pub next_context_loop_hangs :
    (n next : ℕ) (s : Sched)
    → ((k : ℕ) → k < max_procs → runnable s k ≡ false)
    → next_context_loop n next s ≡ hung
unfolding next_context_loop
next_context_loop_hangs zero next s stuck = refl
next_context_loop_hangs (suc n) next s stuck =
    rw (stuck (behind next 1) (omega arith)) (next_context_loop_hangs n (behind next 1) s stuck)

-- The test of `schedFindNextTask` also asks that the process is not to be deleted.
abbrev pub schedulable : Sched → ℕ → Bool
schedulable s i = (s.processes i).valid && (s.processes i).active && not (s.processes i).delete

-- The result of the search from `next`, `n` rounds before it is back at `start`.
abbrev pub TaskFound : Sched → ℕ → ℕ → Run (Option ℕ) → Type 0
TaskFound s next n r =
    (r ≡ ok none) × NoneFound (schedulable s) next n
    ⊎ ((d : ℕ) × (d ≤ n) × Found (schedulable s) next d × (r ≡ ok (some (behind next d))))

TaskFound-suc :
    (s : Sched) (next n : ℕ) (r : Run (Option ℕ))
    → schedulable s (behind next 1) ≡ false
    → TaskFound s (behind next 1) n r
    → TaskFound s next (suc n) r
TaskFound-suc s next n r miss (inl (e, all)) =
    inl (e, NoneFound-suc (schedulable s) next miss n all)
TaskFound-suc s next n r miss (inr (d, le, f, e)) =
    inr (d + 1, omega arith, Found-suc (schedulable s) next miss d f, rw (← behind-suc next d) e)

find_next_loop-TaskFound :
    (n start next : ℕ) (s : Sched)
    → start < max_procs
    → 0 < n
    → n ≤ max_procs
    → behind next n ≡ start
    → TaskFound s next n (find_next_loop n start next s)
unfolding find_next_loop
find_next_loop-TaskFound zero start next s inside pos le e = absurd (omega arith)
find_next_loop-TaskFound (suc n) start next s inside pos le e =
    elim (Bool-cases (schedulable s (behind next 1))) [
      | inl hit ↦ rw hit (inr (1, omega arith, Found-one (schedulable s) next hit, refl))
      | inr miss ↦ rw miss (elim (Bool-cases (behind next 1 == start)) [
        | inl back ↦
            let last : n ≡ 0 = ground arith in
            rw back (
              inl (
                refl,
                rw last (NoneFound-suc (schedulable s) next miss 0 (λ k a b. absurd (omega arith))),
              ))
        | inr on ↦ rw on (
            TaskFound-suc s next n _ miss (
              find_next_loop-TaskFound n start (behind next 1) s inside (more on) (omega arith)
                (omega arith)))
      ])
    ]
  where
    more : (behind next 1 == start) ≡ false → 0 < n
    more on = ground arith

-- Called from a slot of the table, `schedFindNextTask` always returns: the first process behind the
-- current one, round the table and the current one last, that is valid, active and not to be deleted,
-- or -1 if there is no such process.
pub sched_find_next_task-TaskFound :
    (s : Sched)
    → s.current_pid.num < max_procs
    → TaskFound s s.current_pid.num max_procs (sched_find_next_task s)
unfolding sched_find_next_task
sched_find_next_task-TaskFound s inside =
    find_next_loop-TaskFound max_procs s.current_pid.num s.current_pid.num s inside (omega arith)
      (omega arith) (omega arith)
