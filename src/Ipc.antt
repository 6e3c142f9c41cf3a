-- ===== src/Ipc.antt =====
-- The inbox of a process, a ring of messages: `IPCInbox_t` of src/programs/scheduler.h and its functions
-- in src/isr/system.c. The bytes of a message are a function of the index.
pub mod Queue
mod Tests
use dek_os.Base.{
  ℕ, ◌+◌, ◌-◌, ◌%◌, ◌^◌, Bool, true, false, leb, ◌==◌, if◌then◌else◌, Option, none, some,
}

-- `IPCMessage_t`
pub record Message : Type 0 where
  pub sender_pid : ℕ
  pub receiver_pid : ℕ
  pub size : ℕ
  pub data_at : ℕ → ℕ
  pub is_read : Bool

-- `IPCInbox_t`
pub record Inbox : Type 0 where
  pub messages : ℕ → Message
  pub head : ℕ
  pub tail : ℕ
  pub count : ℕ

abbrev pub max_pending_messages : ℕ
max_pending_messages = 255

unfoldable pub ipc_is_queue_full : Inbox → Bool
ipc_is_queue_full b = leb max_pending_messages b.count

unfoldable pub ipc_is_queue_empty : Inbox → Bool
ipc_is_queue_empty b = b.count == 0

unfoldable pub ipc_enqueue_message : Message → Inbox → Inbox
unfolding ipc_is_queue_full
ipc_enqueue_message msg b = if ipc_is_queue_full b then b else record b {
  messages = λ i. if i == b.head then msg else b.messages i;
  head = (b.head + 1) % max_pending_messages;
  count = (b.count + 1) % 2 ^ 8;
}

-- `none` is the result false; `count` is not 0 where 1 is taken from it.
unfoldable pub ipc_dequeue_message : Inbox → Option Message × Inbox
unfolding ipc_is_queue_empty
ipc_dequeue_message b = if ipc_is_queue_empty b then (none, b) else (
  some (b.messages b.tail),
  record b { tail = (b.tail + 1) % max_pending_messages; count = b.count - 1 },
)
