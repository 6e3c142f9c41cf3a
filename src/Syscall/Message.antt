-- ===== src/Syscall/Message.antt =====
-- `SEND` and `FETCH` of src/isr/system.c: what one process sends, another gets.
use Prim.Native.Nat.{min}
use dek_os.Base.{
  ℕ, ◌+◌, ◌-◌, ◌≤◌, ◌<◌, ◌≡◌, refl, sym, ◌∙◌, ap, inl, inr, ◌⊎◌, true, false, not, ◌||◌, ltb, leb,
  ◌==◌, arith, if◌then◌else◌, List, [], ◌∷◌, ◌++◌, none, some,
}
use dek_os.Memory.Block.{in_block}
use dek_os.Sched.{max_procs}
use dek_os.Ipc.{
  Message, max_pending_messages, ipc_is_queue_full, ipc_enqueue_message, ipc_dequeue_message,
}
use dek_os.Ipc.Queue.{IsInbox, queued, enqueue-queued, dequeue-queued}
use dek_os.Syscall.{Machine, Call, sched_of, heap_of, caller}
use dek_os.Syscall.Handlers.{max_msg_size, message_of, sys_send, sys_fetch}

-- A message of a process to a valid one whose inbox is not full.
pub record MaySend (c : Call) (m : Machine) : Type 0 where
  pub target : c.arg1 < max_procs
  pub valid : ((sched_of m).processes c.arg1).valid ≡ true
  pub short : c.arg3 ≤ max_msg_size
  pub inbox : IsInbox (m.inboxes c.arg1)
  pub room : (m.inboxes c.arg1).count < max_pending_messages

send_lem :
    (c : Call) (m : Machine)
    → MaySend c m
    → ((sys_send c m).0 ≡ 0)
      × ((sys_send c m).1.inboxes c.arg1 ≡ ipc_enqueue_message (message_of c m) (m.inboxes c.arg1))
unfolding sys_send ipc_is_queue_full
send_lem c m v =
    let there : (leb max_procs c.arg1 || not ((sched_of m).processes c.arg1).valid) ≡ false =
      ground (arith, v.target, v.valid) in
    let fits : ltb max_msg_size c.arg3 ≡ false = ground (arith, v.short) in
    let free : leb max_pending_messages (m.inboxes c.arg1).count ≡ false = ground (arith, v.room) in
    let same : (c.arg1 == c.arg1) ≡ true = ground arith in rw (there, fits, free, same) (refl, refl)

-- The inbox after a message has come in.
received :
    (c : Call) (m : Machine)
    → MaySend c m
    → IsInbox ((sys_send c m).1.inboxes c.arg1)
      × (queued ((sys_send c m).1.inboxes c.arg1)
          ≡ queued (m.inboxes c.arg1) ++ (message_of c m ∷ []))
received c m v =
    let (_, e) = send_lem c m v in
    let (w, out) = enqueue-queued (message_of c m) (m.inboxes c.arg1) v.inbox in rw e (w, put out)
  where
    put :
        (((m.inboxes c.arg1).count ≡ max_pending_messages)
            × (ipc_enqueue_message (message_of c m) (m.inboxes c.arg1) ≡ m.inboxes c.arg1))
          ⊎ (((m.inboxes c.arg1).count < max_pending_messages)
              × (queued (ipc_enqueue_message (message_of c m) (m.inboxes c.arg1))
                  ≡ queued (m.inboxes c.arg1) ++ (message_of c m ∷ [])))
        → queued (ipc_enqueue_message (message_of c m) (m.inboxes c.arg1))
          ≡ queued (m.inboxes c.arg1) ++ (message_of c m ∷ [])
    put (inl (full, _)) = absurd (omega (arith, full, v.room))
    put (inr (_, e)) = e

-- `SEND` of a message of at most 256 bytes to a valid process whose inbox is not full gives 0, and
-- puts a message with the sender's number and the bytes behind those that are waiting there.
pub send-queued :
    (c : Call) (m : Machine)
    → MaySend c m
    → ((sys_send c m).0 ≡ 0)
      × IsInbox ((sys_send c m).1.inboxes c.arg1)
      × (queued ((sys_send c m).1.inboxes c.arg1)
          ≡ queued (m.inboxes c.arg1) ++ (message_of c m ∷ []))
send-queued c m v = let (w, q) = received c m v in ((send_lem c m v).0, w, q)

list-cons : {A : Type 0} {x y : A} {xs ys : List A} → x ∷ xs ≡ y ∷ ys → (x ≡ y) × (xs ≡ ys)
list-cons e = (cc, cc)

-- `FETCH` by a process whose inbox holds messages gives the sender of the oldest one, copies as many
-- bytes of it as the buffer has room for, changes no other byte, and leaves the other messages.
pub fetch_lem :
    (c : Call) (m : Machine) (msg : Message) (rest : List Message) (a : ℕ)
    → IsInbox (m.inboxes (caller m))
    → queued (m.inboxes (caller m)) ≡ msg ∷ rest
    → let (sender, m') = sys_fetch c m in
      (sender ≡ msg.sender_pid)
      × (queued (m'.inboxes (caller m)) ≡ rest)
      × ((heap_of m').bytes a ≡ (
          if in_block c.arg1 (min msg.size c.arg2) a
          then msg.data_at (a - c.arg1)
          else (heap_of m).bytes a))
unfolding sys_fetch
fetch_lem c m msg rest a v e = taken (dequeue-queued (m.inboxes (caller m)) v).1
  where
    same : (caller m == caller m) ≡ true
    same = ground arith

    taken :
        ((queued (m.inboxes (caller m)) ≡ [])
            × (ipc_dequeue_message (m.inboxes (caller m)) ≡ (none, m.inboxes (caller m))))
          ⊎ ((first : Message) × ((ipc_dequeue_message (m.inboxes (caller m))).0 ≡ some first)
              × (queued (m.inboxes (caller m))
                  ≡ first ∷ queued (ipc_dequeue_message (m.inboxes (caller m))).1))
        → let (sender, m') = sys_fetch c m in
          (sender ≡ msg.sender_pid)
          × (queued (m'.inboxes (caller m)) ≡ rest)
          × ((heap_of m').bytes a ≡ (
              if in_block c.arg1 (min msg.size c.arg2) a
              then msg.data_at (a - c.arg1)
              else (heap_of m).bytes a))
    taken (inl (empty, _)) = cc
    taken (inr (first, got, others)) =
        let (head, tail) = list-cons (sym others ∙ e) in
        rw (sys_fetch, got, same, head) (refl, tail, refl)

-- A message that one process sends to another, whose inbox is empty and stays as `SEND` leaves it, is
-- what the other fetches: `FETCH` gives the number of the sender, and with a buffer that is large
-- enough the bytes that the sender had at the message's address.
pub fetch-send :
    (c c' : Call) (m m₂ : Machine) (k : ℕ)
    → MaySend c m
    → queued (m.inboxes c.arg1) ≡ []
    → caller m₂ ≡ c.arg1
    → m₂.inboxes c.arg1 ≡ (sys_send c m).1.inboxes c.arg1
    → c.arg3 ≤ c'.arg2
    → k < c.arg3
    → let (sender, m') = sys_fetch c' m₂ in
      (sender ≡ caller m) × ((heap_of m').bytes (c'.arg1 + k) ≡ (heap_of m).bytes (c.arg2 + k))
fetch-send c c' m m₂ k v empty runs kept large h =
    let inbox : m₂.inboxes (caller m₂) ≡ (sys_send c m).1.inboxes c.arg1 =
      ap m₂.inboxes runs ∙ kept in
    let (w, q) = received c m v in
    let (sender, _, copied) =
      fetch_lem c' m₂ (message_of c m) [] (c'.arg1 + k) (rw inbox w)
        (rw inbox (q ∙ rw empty refl)) in
    let inside : in_block c'.arg1 (min c.arg3 c'.arg2) (c'.arg1 + k) ≡ true = ground arith in
    let back : c'.arg1 + k - c'.arg1 ≡ k = omega arith in
    let sent : ltb k c.arg3 ≡ true = ground arith in (sender, copied ∙ rw (inside, back, sent) refl)
