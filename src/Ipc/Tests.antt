-- ===== src/Ipc/Tests.antt =====
-- The inbox of src/isr/system.c with one message, at the end of the ring.
use dek_os.Base.{false, ◌<◌, ◌≡◌, refl, ◌⊎◌, arith, Option, none, some, [], ◌∷◌, ◌++◌}
use dek_os.Ipc.{
  Message, Inbox, max_pending_messages, ipc_enqueue_message, ipc_dequeue_message, ipc_is_queue_full,
  ipc_is_queue_empty,
}
use dek_os.Ipc.Queue.{IsInbox, queued, enqueue-queued, dequeue-queued}

abbrev hello : Message
hello = record { sender_pid = 2; receiver_pid = 3; size = 0; data_at = λ _. 0; is_read = false }

abbrev one : Inbox
one = record { messages = λ _. hello; head = 0; tail = 254; count = 1 }

one-IsInbox : IsInbox one
one-IsInbox = omega arith

-- A second message goes to place 0, and the first one comes out first.
second_waits : Option Message × Inbox
second_waits = ipc_dequeue_message (ipc_enqueue_message hello one)

second_is_left : (second_waits.1.tail ≡ 0) × (second_waits.1.count ≡ 1)
unfolding second_waits ipc_dequeue_message ipc_enqueue_message ipc_is_queue_full ipc_is_queue_empty
second_is_left = (refl, refl)

enqueue-queued_example :
    IsInbox (ipc_enqueue_message hello one)
    × (((one.count ≡ max_pending_messages) × (ipc_enqueue_message hello one ≡ one))
        ⊎ ((one.count < max_pending_messages)
            × (queued (ipc_enqueue_message hello one) ≡ queued one ++ (hello ∷ []))))
enqueue-queued_example = enqueue-queued hello one one-IsInbox

dequeue-queued_example :
    IsInbox (ipc_dequeue_message one).1
    × (((queued one ≡ []) × (ipc_dequeue_message one ≡ (none, one)))
        ⊎ ((msg : Message) × ((ipc_dequeue_message one).0 ≡ some msg)
            × (queued one ≡ msg ∷ queued (ipc_dequeue_message one).1)))
dequeue-queued_example = dequeue-queued one one-IsInbox
