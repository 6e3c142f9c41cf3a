-- ===== src/Syscall/Dispatch.antt =====
-- `sysReply` of src/isr/system.c: the choice of the case.
use dek_os.Base.{ℕ, ◌%◌, ◌^◌, Bool, if◌then◌else◌, Run, ok}
use dek_os.Resource.{Resource}
use dek_os.Syscall.{
  Machine, Call, Function, Reply, returned, minus_one, sched_of, caller, process_of, function_of,
  exit_call, get_my_pid_call, get_parents_pid_call, yield_call, kill_process_call,
  check_process_call, resume_process_call, suspend_process_call, username_call, ticks_call,
  send_call, fetch_call, unread_call, malloc_call, free_call, rreq_call, blit_call, rblit_call,
  rnew_call, rdel_call, rgive_call, rsize_call, ronheap_call, rtype_call, rowner_call, rprot_call,
  dunload_call, no_function,
}
use dek_os.Syscall.Handlers.{
  sys_exit, sys_yield, sys_check_process, sys_kill_process, sys_resume_process, sys_suspend_process,
  sys_send, sys_fetch, sys_unread, sys_malloc, sys_free, sys_username, sys_rreq, sys_blit,
  sys_r_blit, sys_rnew, sys_rdel, sys_rgive, sys_field, sys_rprot, sys_dunload,
}

-- a call that returns
abbrev pub replying : ℕ × Machine → Run (Reply × Machine)
replying (value, m) = ok (returned value, m)

abbrev pub number_of : Bool → ℕ
number_of b = if b then 1 else 0

module _ (outside : Function → Call → Machine → Run (Reply × Machine)) where
  unfoldable pub reply_to : Function → Call → Machine → Run (Reply × Machine)
  reply_to exit_call c m = sys_exit m
  reply_to yield_call c m = sys_yield c m
  reply_to get_my_pid_call c m = replying (caller m, m)
  reply_to get_parents_pid_call c m = replying ((process_of m).parent.num, m)
  reply_to check_process_call c m = replying (sys_check_process c m, m)
  reply_to kill_process_call c m = sys_kill_process c m
  reply_to resume_process_call c m = sys_resume_process c m
  reply_to suspend_process_call c m = sys_suspend_process c m
  reply_to send_call c m = replying (sys_send c m)
  reply_to fetch_call c m = replying (sys_fetch c m)
  reply_to unread_call c m = replying (sys_unread c m, m)
  reply_to malloc_call c m = sys_malloc c m
  reply_to free_call c m = sys_free c m
  reply_to username_call c m = replying (sys_username c m)
  reply_to ticks_call c m = replying ((sched_of m).tick_counter, m)
  reply_to rreq_call c m = sys_rreq c m
  reply_to blit_call c m = sys_blit c m
  reply_to rblit_call c m = sys_r_blit c m
  reply_to rnew_call c m = sys_rnew c m
  reply_to rdel_call c m = sys_rdel c m
  reply_to rgive_call c m = sys_rgive c m
  reply_to rsize_call c m = sys_field (λ (r : Resource). r.region.size % 2 ^ 32) c m
  reply_to ronheap_call c m = sys_field (λ (r : Resource). number_of r.on_heap) c m
  reply_to rtype_call c m = sys_field (λ (r : Resource). r.kind) c m
  reply_to rowner_call c m = sys_field (λ (r : Resource). r.owner.num) c m
  reply_to rprot_call c m = sys_rprot c m
  reply_to dunload_call c m = sys_dunload c m
  reply_to no_function c m = replying (minus_one, m)
  reply_to f c m = outside f c m

  unfoldable pub sys_reply : Call → Machine → Run (Reply × Machine)
  sys_reply c m = reply_to (function_of c.num) c m
