-- ===== src/Core/RequestHandler/Replies.antt =====
-- core/request_handler.cpp: the replies that a handler leaves.
use remote_backup_m1_server.Prelude.{ℕ, ◌≡◌, refl, ◌⊎◌, List, [], ◌∷◌, ◌++◌, All, All-append}
use remote_backup_m1_server.Outcome.{ok}
use remote_backup_m1_server.Platform.{Platform}
use remote_backup_m1_server.Communication.Message.{Tlv}
use remote_backup_m1_server.Communication.MessageQueue.{MessageQueue, new, add_tlv}
use remote_backup_m1_server.Communication.MessageQueue.Segments.{Holds, new-Holds, add_tlv-Holds}
use remote_backup_m1_server.Communication.Types.TlvType
use remote_backup_m1_server.Core.Exec.{◌>>=◌}
use remote_backup_m1_server.Core.RequestHandler.State.{Ctx, closing}
use remote_backup_m1_server.Communication.Message
use remote_backup_m1_server.Communication.Types.MsgType
use remote_backup_m1_server.Core.RequestHandler.Rules.{FileRules}
use remote_backup_m1_server.Core.RequestHandler.Rules.Requests.{
  serve_request-Closes, dispatch-Closes,
}
use remote_backup_m1_server.Core.RequestHandler.State.{Config}
use remote_backup_m1_server.Core.RequestHandler.{handle_request}

-- Replies of one message type that hold ITEM segments only.
pub record IsOpen (msg_type : ℕ) (q : MessageQueue) : Type 0 where
  pub items : List Tlv
  pub only_items : All (λ t. t.tag ≡ TlvType.item) items
  pub typed : q.queue_type ≡ msg_type
  pub holds : Holds q items

-- Replies of one message type: ITEM segments, then one OK or ERROR, then END, and nothing behind.
pub record IsClosed (msg_type : ℕ) (q : MessageQueue) : Type 0 where
  pub items : List Tlv
  pub only_items : All (λ t. t.tag ≡ TlvType.item) items
  pub verdict : Tlv
  pub verdict_tag : (verdict.tag ≡ TlvType.ok_tag) ⊎ (verdict.tag ≡ TlvType.error_tag)
  pub typed : q.queue_type ≡ msg_type
  pub holds : Holds q ((items ++ (verdict ∷ [])) ++ (record { tag = TlvType.end; value = [] } ∷ []))

pub new-IsOpen : (msg_type : ℕ) → IsOpen msg_type (new msg_type)
unfolding new
new-IsOpen msg_type = record {
  items = [];
  only_items = tt;
  typed = refl;
  holds = new-Holds msg_type;
}

add_tlv-queue_type : (q : MessageQueue) (t : Tlv) → (add_tlv q t).queue_type ≡ q.queue_type
unfolding add_tlv
add_tlv-queue_type q t = refl

add_tlv-IsOpen :
    (msg_type : ℕ) (q : MessageQueue) (sign : List ℕ)
    → IsOpen msg_type q
    → IsOpen msg_type (add_tlv q (record { tag = TlvType.item; value = sign }))
add_tlv-IsOpen msg_type q sign o =
    let t : Tlv = record { tag = TlvType.item; value = sign } in
    record {
      items = o.items ++ (t ∷ []);
      only_items = All-append _ o.items (t ∷ []) o.only_items (refl, tt);
      typed = rw add_tlv-queue_type o.typed;
      holds = add_tlv-Holds q o.items t o.holds;
    }

closing-IsClosed :
    (msg_type tag : ℕ) (text : List ℕ) (q : MessageQueue)
    → (tag ≡ TlvType.ok_tag) ⊎ (tag ≡ TlvType.error_tag)
    → IsOpen msg_type q
    → IsClosed msg_type (closing tag text q)
unfolding closing
closing-IsClosed msg_type tag text q which o =
    let t : Tlv = record { tag = tag; value = text } in
    record {
      items = o.items;
      only_items = o.only_items;
      verdict = t;
      verdict_tag = which;
      typed = simp add_tlv-queue_type o.typed;
      holds = add_tlv-Holds _ _ _ (add_tlv-Holds q o.items t o.holds);
    }

-- The rules of the replies. A reply of another type is not begun: only SYNC starts over.
replies_rules : (os : Platform) → ℕ → FileRules os
replies_rules os msg_type = record {
  rules = record {
    views = record {
      Open = λ c. IsOpen msg_type c.replies;
      Closed = λ c. IsClosed msg_type c.replies;
      on_view = λ c v o. o;
      on_closing = λ c tag text which o. closing-IsClosed msg_type tag text c.replies which o;
    };
    on_dir = λ c d o. o;
    on_item = λ c sign o. add_tlv-IsOpen msg_type c.replies sign o;
  };
  on_disk = λ c d o. o;
  on_get_stream = λ c path o. o;
  on_erase_stream = λ c o. o;
  on_disk_after = λ c d o. o;
}

-- Whatever the session and the request: when `handle_request` returns, the replies have the type of
-- the request and hold ITEM segments, then one OK or ERROR segment, then an empty END segment, and no
-- other; what they held before is gone.
pub handle_request-IsClosed :
    (os : Platform) (config : Config os) (msg_type : ℕ) (rest : List ℕ) (c d : Ctx os)
    → handle_request os config (Message.of_buffer (msg_type ∷ rest)) c ≡ (ok tt, d)
    → IsClosed msg_type d.replies
unfolding handle_request ◌>>=◌ Message.msg_type replies_rules
handle_request-IsClosed os config msg_type rest c d e =
    let rules = replies_rules os msg_type in
    rw e at (
      (serve_request-Closes os config msg_type rules.rules.views
          (Message.of_buffer (msg_type ∷ rest)) (λ _. Unit {0}) (λ c _. new-IsOpen msg_type)
          (dispatch-Closes os config msg_type rules (λ c name password v o. o) (λ c o. o)
            (λ c is_sync o. rw is_sync (new-IsOpen MsgType.sync)))).at
        c tt)
