-- ===== src/Sched/Context.antt =====
-- Saving and restoring the registers of a process, src/programs/scheduler.c.
use dek_os.Base.{ℕ, ◌≡◌, ◌≢◌, refl, true, arith, bit_or, ok, ok-injective, sym, ◌∙◌}
use dek_os.Sched.{Sched, put, sched_save_context, sched_load_context}

-- `schedSaveContext` stores the buffer, with interrupts on, in the slot of the current process, and
-- changes nothing else; without a current process it hangs.
pub save_lem :
    (s : Sched) (j : ℕ)
    → s.current_pid.valid ≡ true
    → (t : Sched) × (sched_save_context s ≡ ok t)
      × (t.current_pid ≡ s.current_pid)
      × (t.buffer ≡ s.buffer)
      × ((t.processes s.current_pid.num).regs
          ≡ record (s.buffer) { flags = bit_or s.buffer.flags 0x200 })
      × (j ≢ s.current_pid.num → t.processes j ≡ s.processes j)
unfolding sched_save_context
save_lem s j here = (
  put s s.current_pid.num (record (s.processes s.current_pid.num) {
    regs = record (s.buffer) { flags = bit_or s.buffer.flags 0x200 };
  }),
  rw here,
  refl,
  refl,
  ground arith,
  ground arith,
)

-- If `schedSaveContext` saved a current process, and that process is later current again with its slot's
-- registers unchanged, `schedLoadContext` puts back the registers that it had, with bit 9 of the flags set,
-- whatever else changed in between.
pub load-save :
    (s t u : Sched)
    → s.current_pid.valid ≡ true
    → sched_save_context s ≡ ok t
    → u.current_pid ≡ s.current_pid
    → (u.processes s.current_pid.num).regs ≡ (t.processes s.current_pid.num).regs
    → (v : Sched) × (sched_load_context u ≡ ok v)
      × (v.buffer ≡ record (s.buffer) { flags = bit_or s.buffer.flags 0x200 })
unfolding sched_load_context
load-save s t u here saved back kept =
    let (t', e, _, _, r, _) = save_lem s 0 here in
    let same : t ≡ t' = ok-injective (sym saved ∙ e) in
    (
      record u { buffer = (u.processes u.current_pid.num).regs },
      rw (back, here),
      rw (back, kept, same) r,
    )
