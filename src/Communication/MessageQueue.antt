-- ===== src/Communication/MessageQueue.antt =====
-- communication/message_queue.cpp and message_queue.h: the replies to one request, with a new message
-- where the next segment would not fit in CHUNK_SIZE bytes.
pub mod Segments
use remote_backup_m1_server.Prelude.{
  ℕ, ◌+◌, ◌≤◌, Bool, true, false, ◌||◌, List, [], ◌∷◌, length, leb, ◌==◌, if◌then◌else◌,
}
use remote_backup_m1_server.Outcome.{Outcome, ok, fault}
use remote_backup_m1_server.Communication.Message.{
  Message, Tlv, of_type, add_tlv as append_tlv, size,
}
use remote_backup_m1_server.Communication.Types.TlvType

abbrev pub chunk_size : ℕ
chunk_size = 4096

-- The head of the list is the front of the queue.
pub record MessageQueue : Type 0 where
  pub msgs_queue : List Message
  pub queue_type : ℕ
  pub error : Bool

unfoldable pub new : ℕ → MessageQueue
new msg_type = record { msgs_queue = of_type msg_type ∷ []; queue_type = msg_type; error = false }

-- A message of its own for a segment that does not fit the last one.
unfoldable pub single : ℕ → Tlv → Message
single msg_type t = append_tlv (of_type msg_type) t

-- `back()` and the two branches. On an empty queue `back()` is undefined; no code of the repository
-- adds a segment after a `pop`, and the model starts a new message.
unfoldable pub add_back : ℕ → Tlv → List Message → List Message
add_back msg_type t [] = single msg_type t ∷ []
add_back msg_type t (m ∷ []) =
    if leb (size m + 1 + 4 + length t.value) chunk_size
    then append_tlv m t ∷ []
    else m ∷ single msg_type t ∷ []
add_back msg_type t (m ∷ n ∷ ms) = m ∷ add_back msg_type t (n ∷ ms)

unfoldable pub add_tlv : MessageQueue → Tlv → MessageQueue
add_tlv q t = record q {
  msgs_queue = add_back q.queue_type t q.msgs_queue;
  error = q.error || t.tag == TlvType.error_tag;
}

-- `pop` and `front` are undefined on an empty queue.
unfoldable pub pop : MessageQueue → Outcome MessageQueue
pop q = elim q.msgs_queue [ [] ↦ fault | m ∷ ms ↦ ok (record q { msgs_queue = ms }) ]

unfoldable pub front : MessageQueue → Outcome Message
front q = elim q.msgs_queue [ [] ↦ fault | m ∷ ms ↦ ok m ]

unfoldable pub is_empty : MessageQueue → Bool
is_empty q = elim q.msgs_queue [ [] ↦ true | m ∷ ms ↦ false ]

unfoldable pub verify_error : MessageQueue → Bool
verify_error q = q.error
