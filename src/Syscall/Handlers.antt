-- ===== src/Syscall/Handlers.antt =====
-- The cases of `sysReply`, src/isr/system.c.
use Prim.Native.Nat.{min}
use dek_os.Base.{
  ℕ, zero, suc, ◌+◌, ◌-◌, ◌%◌, ◌^◌, Bool, true, false, not, ◌&&◌, ◌||◌, ltb, leb, ◌==◌,
  if◌then◌else◌, none, some, Run, ok, ◌>>=◌, Mem, null,
}
use dek_os.Memory.Heap.{kmalloc, kfree}
use dek_os.Memory.Block.{in_block}
use dek_os.User.{user_name}
use dek_os.Sched.{
  Pid, max_procs, sched_save_context, sched_next_context, sched_load_context, sched_switch,
  sched_suspend_process, sched_resume_process, sched_validate_pid,
}
use dek_os.Sched.Lifecycle.{sched_kill_process}
use dek_os.Resource.{
  Resource, Resources, Result, put, resource_get_from_rid, resource_blit_k, resource_r_blit_k,
  resource_release_k, resource_handover_k, result_ok, failed_to_allocate, failed_to_map,
  failed_to_unallocate, failed_to_umap, invalid_arguments, permissions_error, has_children,
  already_unlinked, corrupted, corrupted_scheduler, ok_with_errors, todo, argument_does_not_exist,
  no_operation, bounding_offset_error, bounding_overflow, bounding_underflow, unknown_error,
}
use dek_os.Resource.Lifecycle.{resource_create_k}
use dek_os.Ipc.{
  Message, Inbox, max_pending_messages, ipc_is_queue_full, ipc_enqueue_message, ipc_dequeue_message,
}
use dek_os.Syscall.{
  Machine, Call, Reply, returned, jumped, stopped, minus_one, sched_of, heap_of, with_sched,
  with_heap, with_bytes, kernel_of, with_kernel, caller, process_of,
}

-- `MAX_MSG_SIZE`
abbrev pub max_msg_size : ℕ
max_msg_size = 256

-- `RESOURCE_TYPE_MODULE`
abbrev pub type_module : ℕ
type_module = 6

-- the numbers of `RESULT`
abbrev pub result_number : Result → ℕ
result_number result_ok = 0
result_number failed_to_allocate = 1
result_number failed_to_map = 2
result_number failed_to_unallocate = 3
result_number failed_to_umap = 4
result_number invalid_arguments = 5
result_number permissions_error = 6
result_number has_children = 7
result_number already_unlinked = 8
result_number corrupted = 9
result_number corrupted_scheduler = 10
result_number ok_with_errors = 11
result_number todo = 12
result_number argument_does_not_exist = 13
result_number no_operation = 14
result_number bounding_offset_error = 15
result_number bounding_overflow = 16
result_number bounding_underflow = 17
result_number unknown_error = 18

-- `{1, 1}` with another number
abbrev pub pid_of : ℕ → Pid
pid_of n = record { valid = true; num = n }

unfoldable pub sys_exit : Machine → Run (Reply × Machine)
sys_exit m = do
  (_, k) ← sched_kill_process (sched_of m).current_pid (kernel_of m)
  ok (stopped, with_kernel k m)

unfoldable pub sys_yield : Call → Machine → Run (Reply × Machine)
sys_yield c m = do
  s ← sched_save_context (sched_of m)
  if c.arg1 == 0
      then (do
        s' ← sched_next_context s
        s'' ← sched_load_context s'
        ok (jumped, with_sched s'' m))
      else (do
        let (error, s') = sched_switch c.arg1 s
        if error
            then (do s'' ← sched_load_context s'; ok (jumped, with_sched s'' m))
            else ok (returned minus_one, with_sched s' m))

unfoldable pub sys_check_process : Call → Machine → ℕ
sys_check_process c m =
    if leb max_procs c.arg1 then 0 else if ((sched_of m).processes c.arg1).valid then 1 else 0

unfoldable pub sys_kill_process : Call → Machine → Run (Reply × Machine)
sys_kill_process c m =
    if ltb c.arg1 max_procs
    then (do
      (_, k) ← sched_kill_process (pid_of c.arg1) (kernel_of m)
      ok (returned 0, with_kernel k m))
    else ok (returned 0, m)

unfoldable pub sys_resume_process : Call → Machine → Run (Reply × Machine)
sys_resume_process c m =
    if ltb c.arg1 max_procs
    then (do
      (_, s) ← sched_resume_process (pid_of c.arg1) (sched_of m)
      ok (returned 0, with_sched s m))
    else ok (returned 0, m)

unfoldable pub sys_suspend_process : Call → Machine → Run (Reply × Machine)
sys_suspend_process c m =
    if ltb c.arg1 max_procs
    then (do
      (_, s) ← sched_suspend_process (pid_of c.arg1) (sched_of m)
      ok (returned 0, with_sched s m))
    else ok (returned 0, m)

-- The message that a process sends; nothing reads its bytes past the size.
abbrev pub message_of : Call → Machine → Message
message_of c m = record {
  sender_pid = caller m;
  receiver_pid = c.arg1;
  size = c.arg3;
  data_at = λ k. if ltb k c.arg3 then (heap_of m).bytes (c.arg2 + k) else 0;
  is_read = false;
}

unfoldable pub sys_send : Call → Machine → ℕ × Machine
sys_send c m =
    if leb max_procs c.arg1 || not ((sched_of m).processes c.arg1).valid
    then (minus_one, m)
    else if ltb max_msg_size c.arg3
    then (2 ^ 32 - 2, m)
    else if ipc_is_queue_full (m.inboxes c.arg1)
    then (2 ^ 32 - 4, m)
    else (
      0,
      record m {
        inboxes = λ i.
            if i == c.arg1
            then ipc_enqueue_message (message_of c m) (m.inboxes c.arg1)
            else m.inboxes i;
      },
    )

-- The calls that write to a buffer of the caller do not look at its address. Here it is one of the
-- memory of the heap record, which has none of the kernel's variables: the cases are those of the source
-- for a buffer apart from these.
-- `memcpy` out of a variable: byte `k` of `n` goes to `dest + k`.
abbrev pub copy_out : Mem → ℕ → (ℕ → ℕ) → ℕ → Mem
copy_out m dest from n = λ a. if in_block dest n a then from (a - dest) else m a

abbrev pub with_inbox : ℕ → Inbox → Machine → Machine
with_inbox n b m = record m { inboxes = λ i. if i == n then b else m.inboxes i }

unfoldable pub sys_fetch : Call → Machine → ℕ × Machine
sys_fetch c m = elim (ipc_dequeue_message (m.inboxes (caller m))).0 [
  | none ↦ (minus_one, m)
  | some msg ↦
      let taken = with_inbox (caller m) (ipc_dequeue_message (m.inboxes (caller m))).1 m in
      (
        msg.sender_pid,
        with_bytes (copy_out (heap_of m).bytes c.arg1 msg.data_at (min msg.size c.arg2)) taken,
      )
]

-- `n` messages left, from place `i` of the queue on
unfoldable pub unread_loop : ℕ → ℕ → ℕ → Inbox → ℕ
unread_loop zero i sender b = 0
unread_loop (suc n) i sender b =
    let msg = b.messages ((b.tail + i) % max_pending_messages) in
    let rest = unread_loop n (i + 1) sender b in
    if ((msg.sender_pid == sender) || (sender == minus_one)) && not msg.is_read then 1 else rest

unfoldable pub sys_unread : Call → Machine → ℕ
sys_unread c m = let b = m.inboxes (caller m) in unread_loop b.count 0 c.arg1 b

unfoldable pub sys_malloc : Call → Machine → Run (Reply × Machine)
sys_malloc c m =
    if ltb 0 c.arg1
    then (do (p, h) ← kmalloc c.arg1 (heap_of m); ok (returned p, with_heap h m))
    else ok (returned 0, m)

unfoldable pub sys_free : Call → Machine → Run (Reply × Machine)
sys_free c m = do h ← kfree c.arg1 (heap_of m); ok (returned 0, with_heap h m)

unfoldable pub sys_username : Call → Machine → ℕ × Machine
sys_username c m =
    let bytes = (heap_of m).bytes in
    let buf = user_name (λ k. bytes (c.arg1 + k)) c.arg2 (process_of m).enactor m.users in
    (c.arg1, with_bytes (λ a. if leb c.arg1 a then buf (a - c.arg1) else bytes a) m)

abbrev pub with_resources : Resources → Machine → Machine
with_resources s m = record m { resources = s }

-- A resource is looked up, with or without `override`, and NULL replied to with -1.
abbrev pub on_resource : Bool → Call → Machine → (ℕ → Run (Reply × Machine)) → Run (Reply × Machine)
on_resource override c m next = do
  rp ← resource_get_from_rid c.arg1 override m.resources
  if rp == null then ok (returned minus_one, m) else next rp

unfoldable pub sys_rreq : Call → Machine → Run (Reply × Machine)
sys_rreq c m = on_resource true c m (λ rp.
    let r = m.resources.node rp in
    if r.protected
    then ok (returned minus_one, m)
    else ok (
      returned (r.rid % 2 ^ 32),
      with_resources (put rp (record r { owner = (sched_of m).current_pid }) m.resources) m,
    ))

unfoldable pub sys_blit : Call → Machine → Run (Reply × Machine)
sys_blit c m = do
  rp ← resource_get_from_rid c.arg1 false m.resources
  let (result, s) = resource_blit_k rp c.arg2 c.arg3 c.arg4 c.arg5 m.resources
  ok (returned (result_number result), with_resources s m)

unfoldable pub sys_r_blit : Call → Machine → Run (Reply × Machine)
sys_r_blit c m = do
  rp ← resource_get_from_rid c.arg1 false m.resources
  let (result, s) = resource_r_blit_k rp c.arg2 c.arg3 c.arg4 c.arg5 m.resources
  ok (returned (result_number result), with_resources s m)

unfoldable pub sys_rnew : Call → Machine → Run (Reply × Machine)
sys_rnew c m = do
  (p, _, s) ← resource_create_k null c.arg1 c.arg2 (sched_of m).current_pid m.resources
  ok (returned (if p == null then minus_one else (s.node p).rid % 2 ^ 32), with_resources s m)

unfoldable pub sys_rdel : Call → Machine → Run (Reply × Machine)
sys_rdel c m = on_resource false c m (λ rp.
    let (result, s) = resource_release_k rp m.resources in
    ok (returned (result_number result), with_resources s m))

-- `Id` after `Id.valid = schedValidatePid(Id)`; its number has 31 bits.
abbrev pub receiver : Call → Machine → Pid
receiver c m =
    let id = pid_of (c.arg2 % 2 ^ 31) in record id { valid = sched_validate_pid id (sched_of m) }

unfoldable pub sys_rgive : Call → Machine → Run (Reply × Machine)
sys_rgive c m = on_resource false c m (λ rp.
    if (m.resources.node rp).protected
    then ok (returned minus_one, m)
    else ok (returned 0, with_resources (resource_handover_k rp (receiver c m) m.resources).1 m))

-- `RSIZE`, `RONHEAP`, `RTYPE` and `ROWNER`: a field of any resource
unfoldable pub sys_field : (Resource → ℕ) → Call → Machine → Run (Reply × Machine)
sys_field field c m = on_resource true c m (λ rp. ok (returned (field (m.resources.node rp)), m))

unfoldable pub sys_rprot : Call → Machine → Run (Reply × Machine)
sys_rprot c m = on_resource false c m (λ rp.
    let r = record (m.resources.node rp) { protected = not (c.arg2 == 0) } in
    ok (returned 0, with_resources (put rp r m.resources) m))

unfoldable pub sys_dunload : Call → Machine → Run (Reply × Machine)
sys_dunload c m = on_resource false c m (λ rp.
    let r = m.resources.node rp in
    if not (r.kind == type_module) then ok (returned minus_one, m) else (do
      h ← kfree r.region.ptr (heap_of m)
      let (result, s) = resource_release_k rp (record (m.resources) { heap = h })
      ok (returned (result_number result), with_resources s m)))
