-- ===== src/Communication/MessageQueue/Segments.antt =====
-- communication/message_queue.cpp: the queue against the row of segments that it was given.
use remote_backup_m1_server.Prelude.{
  ℕ, ◌+◌, ◌≤◌, ◌%◌, ◌≡◌, ◌≢◌, refl, ap, ◌∙◌, ◌↔◌, Bool, false, ◌||◌, List, [], ◌∷◌, ◌++◌, arith,
  length, All, append-nil, append_assoc, ◌==◌, leb, if◌then◌else◌,
}
use remote_backup_m1_server.Communication.Message.{Message, Tlv, size}
use remote_backup_m1_server.Communication.Message.Encoding.{
  encode, add_tlv_lem, encode-append, size-add_tlv,
}
use remote_backup_m1_server.Communication.Message.{of_type, add_tlv as append_tlv}
use remote_backup_m1_server.Communication.Types.TlvType
use remote_backup_m1_server.Communication.MessageQueue.{
  MessageQueue, chunk_size, new, single, add_back, add_tlv,
}

-- Each message is the type byte and the bytes of one group of segments.
abbrev pub Carries : ℕ → List Message → List (List Tlv) → Type 0
Carries msg_type [] [] = Unit {0}
Carries msg_type [] (_ ∷ _) = ⊥
Carries msg_type (_ ∷ _) [] = ⊥
Carries msg_type (m ∷ ms) (g ∷ gs) =
    (m.raw_msg ≡ (msg_type % 256) ∷ encode g) × Carries msg_type ms gs

abbrev pub has_error : List Tlv → Bool
has_error [] = false
has_error (t ∷ ts) = t.tag == TlvType.error_tag || has_error ts

abbrev pub concat : List (List Tlv) → List Tlv
concat [] = []
concat (g ∷ gs) = g ++ concat gs

-- The queue is not empty, holds the segments `ts` in order over its messages, and its flag says
-- whether one of them is an ERROR.
pub record Holds (q : MessageQueue) (ts : List Tlv) : Type 0 where
  pub groups : List (List Tlv)
  pub carries : Carries q.queue_type q.msgs_queue groups
  pub some_message : q.msgs_queue ≢ []
  pub in_order : concat groups ≡ ts
  pub flagged : q.error ≡ has_error ts

-- The groups after one more segment.
add_group : Tlv → List Message → List (List Tlv) → List (List Tlv)
add_group t (m ∷ []) (g ∷ []) =
    if leb (size m + 1 + 4 + length t.value) chunk_size
    then (g ++ (t ∷ [])) ∷ []
    else g ∷ (t ∷ []) ∷ []
add_group t (m ∷ n ∷ ms) (g ∷ gs) = g ∷ add_group t (n ∷ ms) gs
add_group t _ _ = (t ∷ []) ∷ []

single-raw_msg :
    (msg_type : ℕ) (t : Tlv) → (single msg_type t).raw_msg ≡ (msg_type % 256) ∷ encode (t ∷ [])
unfolding single of_type
single-raw_msg msg_type t = add_tlv_lem _ t ∙ simp append-nil

append_tlv-raw_msg :
    (msg_type : ℕ) (m : Message) (g : List Tlv) (t : Tlv)
    → m.raw_msg ≡ (msg_type % 256) ∷ encode g
    → (append_tlv m t).raw_msg ≡ (msg_type % 256) ∷ encode (g ++ (t ∷ []))
append_tlv-raw_msg msg_type m g t e = rw (add_tlv_lem m t, e) (simp (encode-append, append-nil))

add_back-Carries :
    (msg_type : ℕ) (t : Tlv) (ms : List Message) (gs : List (List Tlv))
    → Carries msg_type ms gs
    → Carries msg_type (add_back msg_type t ms) (add_group t ms gs)
unfolding add_back add_group
add_back-Carries msg_type t [] [] c = (single-raw_msg msg_type t, tt)
add_back-Carries msg_type t [] (g ∷ gs) c = absurd c
add_back-Carries msg_type t (m ∷ []) [] c = absurd c
add_back-Carries msg_type t (m ∷ []) (g ∷ []) c =
    ground (arith, single-raw_msg msg_type t, append_tlv-raw_msg msg_type m g t c.0, c.0)
add_back-Carries msg_type t (m ∷ []) (g ∷ h ∷ gs) c = absurd c.1
add_back-Carries msg_type t (m ∷ n ∷ ms) [] c = absurd c
add_back-Carries msg_type t (m ∷ n ∷ ms) (g ∷ gs) c =
    (c.0, add_back-Carries msg_type t (n ∷ ms) gs c.1)

concat-add_group :
    (msg_type : ℕ) (t : Tlv) (ms : List Message) (gs : List (List Tlv))
    → Carries msg_type ms gs
    → concat (add_group t ms gs) ≡ concat gs ++ (t ∷ [])
unfolding add_group
concat-add_group msg_type t [] [] c = refl
concat-add_group msg_type t [] (g ∷ gs) c = absurd c
concat-add_group msg_type t (m ∷ []) [] c = absurd c
concat-add_group msg_type t (m ∷ []) (g ∷ []) c =
    ground (arith, append-nil (g ++ (t ∷ [])), append-nil g)
concat-add_group msg_type t (m ∷ []) (g ∷ h ∷ gs) c = absurd c.1
concat-add_group msg_type t (m ∷ n ∷ ms) [] c = absurd c
concat-add_group msg_type t (m ∷ n ∷ ms) (g ∷ gs) c =
    rw (concat-add_group msg_type t (n ∷ ms) gs c.1, append_assoc)

add_back-ne-nil : (msg_type : ℕ) (t : Tlv) (ms : List Message) → add_back msg_type t ms ≢ []
unfolding add_back
add_back-ne-nil msg_type t [] = ground arith
add_back-ne-nil msg_type t (m ∷ []) = ground arith
add_back-ne-nil msg_type t (m ∷ n ∷ ms) = ground arith

has_error-append :
    (ts : List Tlv) (t : Tlv)
    → has_error (ts ++ (t ∷ [])) ≡ (has_error ts || t.tag == TlvType.error_tag)
has_error-append [] t = ground arith
has_error-append (u ∷ ts) t = ground (arith, has_error-append ts t)

pub new-Holds : (msg_type : ℕ) → Holds (new msg_type) []
unfolding new of_type
new-Holds msg_type = record {
  groups = [] ∷ [];
  carries = (refl, tt);
  some_message = λ e. cc;
  in_order = refl;
  flagged = refl;
}

-- The queue keeps every segment it was given, in order, each whole in one message; a new message is
-- begun only with the type of the queue, and the error flag stays set once an ERROR was added.
pub add_tlv-Holds :
    (q : MessageQueue) (ts : List Tlv) (t : Tlv) → Holds q ts → Holds (add_tlv q t) (ts ++ (t ∷ []))
unfolding add_tlv
add_tlv-Holds q ts t h = record {
  groups = add_group t q.msgs_queue h.groups;
  carries = add_back-Carries q.queue_type t q.msgs_queue h.groups h.carries;
  some_message = add_back-ne-nil q.queue_type t q.msgs_queue;
  in_order = rw (concat-add_group q.queue_type t q.msgs_queue h.groups h.carries, h.in_order);
  flagged = rw (has_error-append, h.flagged);
}

abbrev pub IsBounded : List Message → Type 0
IsBounded = All (λ m. size m ≤ chunk_size)

size-single : (msg_type : ℕ) (t : Tlv) → size (single msg_type t) ≡ 6 + length t.value
unfolding single
size-single msg_type t = omega (arith, size-add_tlv (of_type msg_type) t, one)
  where
    one : size (of_type msg_type) ≡ 1
    one = unfold size of_type in refl

-- Messages within CHUNK_SIZE stay so when a segment of at most 4090 bytes of value is added.
pub add_back-IsBounded :
    (msg_type : ℕ) (t : Tlv) (ms : List Message)
    → IsBounded ms
    → 6 + length t.value ≤ chunk_size
    → IsBounded (add_back msg_type t ms)
unfolding add_back
add_back-IsBounded msg_type t [] b h = (omega (arith, size-single msg_type t), tt)
add_back-IsBounded msg_type t (m ∷ []) b h =
    ground (arith, size-single msg_type t, size-add_tlv m t)
add_back-IsBounded msg_type t (m ∷ n ∷ ms) b h = (b.0, add_back-IsBounded msg_type t (n ∷ ms) b.1 h)

-- A longer segment gets a message of its own, and that is above CHUNK_SIZE.
add_back-oversized :
    (msg_type : ℕ) (t : Tlv) (ms : List Message) (gs : List (List Tlv))
    → Carries msg_type ms gs
    → IsBounded (add_back msg_type t ms)
    → 6 + length t.value ≤ chunk_size
unfolding add_back size
add_back-oversized msg_type t [] gs c b = omega (arith, size-single msg_type t, b.0)
add_back-oversized msg_type t (m ∷ []) [] c b = absurd c
add_back-oversized msg_type t (m ∷ []) (g ∷ gs) c b =
    ground (arith, size-single msg_type t, size-add_tlv m t, ap length c.0)
add_back-oversized msg_type t (m ∷ n ∷ ms) [] c b = absurd c
add_back-oversized msg_type t (m ∷ n ∷ ms) (g ∷ gs) c b =
    add_back-oversized msg_type t (n ∷ ms) gs c.1 b.1

-- A queue that holds segments in messages of at most CHUNK_SIZE bytes stays within that bound after one
-- more segment exactly when the value of this segment has at most CHUNK_SIZE - 6 bytes.
pub add_tlv-IsBounded :
    (q : MessageQueue) (ts : List Tlv) (t : Tlv)
    → Holds q ts
    → IsBounded q.msgs_queue
    → IsBounded (add_tlv q t).msgs_queue ↔ (6 + length t.value ≤ chunk_size)
unfolding add_tlv
add_tlv-IsBounded q ts t h b = (
  add_back-oversized q.queue_type t q.msgs_queue h.groups h.carries,
  add_back-IsBounded q.queue_type t q.msgs_queue b,
)
