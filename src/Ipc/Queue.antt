-- ===== src/Ipc/Queue.antt =====
-- The ring of messages of src/isr/system.c is a queue of at most 255.
use dek_os.Base.{
  ℕ, zero, suc, ◌+◌, ◌-◌, ◌%◌, ◌^◌, ◌≤◌, ◌<◌, ◌≡◌, refl, ap, inl, inr, ◌⊎◌, true, false, arith, leb,
  ◌==◌, if◌then◌else◌, Bool-cases, none, some, List, [], ◌∷◌, ◌++◌,
}
use dek_os.Ipc.{
  Message, Inbox, max_pending_messages, ipc_is_queue_full, ipc_is_queue_empty, ipc_enqueue_message,
  ipc_dequeue_message,
}

pub record IsInbox (b : Inbox) : Type 0 where
  pub in_range : (b.head < max_pending_messages) × (b.tail < max_pending_messages)
  pub bounded : b.count ≤ max_pending_messages
  pub ahead : b.head ≡ (b.tail + b.count) % max_pending_messages

-- `n` messages of the ring from place `i` on
unfoldable pub pending : ℕ → ℕ → (ℕ → Message) → List Message
pending zero i messages = []
pending (suc n) i messages = messages (i % max_pending_messages) ∷ pending n (i + 1) messages

-- the queue that an inbox stands for, the oldest message first
abbrev pub queued : Inbox → List Message
queued b = pending b.count b.tail b.messages

pending-mod :
    (n i j : ℕ) (messages : ℕ → Message)
    → i % max_pending_messages ≡ j % max_pending_messages
    → pending n i messages ≡ pending n j messages
unfolding pending
pending-mod zero i j messages e = refl
pending-mod (suc n) i j messages e =
    rw (e, pending-mod n (i + 1) (j + 1) messages (omega arith)) refl

pending-snoc :
    (n i head : ℕ) (msg : Message) (messages : ℕ → Message)
    → n < max_pending_messages
    → head ≡ (i + n) % max_pending_messages
    → pending (suc n) i (λ k. if k == head then msg else messages k)
      ≡ pending n i messages ++ (msg ∷ [])
unfolding pending
pending-snoc zero i head msg messages room e =
    let here : (i % max_pending_messages == head) ≡ true = ground arith in rw here refl
pending-snoc (suc n) i head msg messages room e =
    let elsewhere : (i % max_pending_messages == head) ≡ false = ground arith in
    rw elsewhere (
      ap (λ (t : List Message). messages (i % max_pending_messages) ∷ t)
        (pending-snoc n (i + 1) head msg messages (omega arith) (omega arith)))

-- `ipcEnqueueMessage` keeps the ring well formed. It puts the message behind the others, unless there
-- are 255 of them already: then nothing changes.
pub enqueue-queued :
    (msg : Message) (b : Inbox)
    → IsInbox b
    → IsInbox (ipc_enqueue_message msg b)
      × (((b.count ≡ max_pending_messages) × (ipc_enqueue_message msg b ≡ b))
          ⊎ ((b.count < max_pending_messages)
              × (queued (ipc_enqueue_message msg b) ≡ queued b ++ (msg ∷ []))))
unfolding ipc_enqueue_message ipc_is_queue_full
enqueue-queued msg b v = elim (Bool-cases (leb max_pending_messages b.count)) [
  | inl full ↦ rw full (v, inl (ground (arith, v.bounded), refl))
  | inr room ↦
      let fits : (b.count + 1) % 2 ^ 8 ≡ suc b.count = ground arith in
      rw (room, fits)
        (
          record {
            in_range = omega (arith, v.in_range);
            bounded = ground arith;
            ahead = omega (arith, v.ahead);
          },
          inr (
            ground arith,
            pending-snoc b.count b.tail b.head msg b.messages (ground arith) v.ahead,
          ),
        )
]

pending-zero : (n i : ℕ) (messages : ℕ → Message) → n ≡ 0 → pending n i messages ≡ []
unfolding pending
pending-zero zero i messages e = refl
pending-zero (suc n) i messages e = absurd (omega arith)

pending-cons :
    (n i : ℕ) (messages : ℕ → Message)
    → 0 < n
    → i < max_pending_messages
    → pending n i messages ≡ messages i ∷ pending (n - 1) ((i + 1) % max_pending_messages) messages
unfolding pending
pending-cons zero i messages pos low = absurd (omega arith)
pending-cons (suc n) i messages pos low =
    let here : i % max_pending_messages ≡ i = omega arith in
    let left : suc n - 1 ≡ n = omega arith in
    rw (here, left)
      (ap (λ (t : List Message). messages i ∷ t)
        (pending-mod n (i + 1) ((i + 1) % max_pending_messages) messages (omega arith)))

-- `ipcDequeueMessage` keeps the ring well formed. It takes the oldest message, or gives none and changes
-- nothing if there is none.
pub dequeue-queued :
    (b : Inbox)
    → IsInbox b
    → IsInbox (ipc_dequeue_message b).1
      × (((queued b ≡ []) × (ipc_dequeue_message b ≡ (none, b)))
          ⊎ ((msg : Message) × ((ipc_dequeue_message b).0 ≡ some msg)
              × (queued b ≡ msg ∷ queued (ipc_dequeue_message b).1)))
unfolding ipc_dequeue_message ipc_is_queue_empty
dequeue-queued b v = elim (Bool-cases (b.count == 0)) [
  | inl none_left ↦
      rw none_left (v, inl (pending-zero b.count b.tail b.messages (ground arith), refl))
  | inr some_left ↦ rw some_left (
    record {
      in_range = omega (arith, v.in_range);
      bounded = omega (arith, v.bounded);
      ahead = ground (arith, v.ahead);
    },
    inr (
      b.messages b.tail,
      refl,
      pending-cons b.count b.tail b.messages (ground arith) (omega (arith, v.in_range)),
    ),
  )
]
