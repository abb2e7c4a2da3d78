-- ===== src/Tests/Wire.antt =====
-- communication/: segments on the wire and in the queue.
use remote_backup_m1_server.Prelude.{
  ℕ, ◌+◌, ◌≤◌, ◌≡◌, refl, true, false, ◌↔◌, List, [], ◌∷◌, ◌++◌, arith, length, codes, to_string,
}
use remote_backup_m1_server.Outcome.{ok, fault, stuck}
use remote_backup_m1_server.Communication.Message.{Tlv, of_type, of_buffer, size, add_tlv}
use remote_backup_m1_server.Communication.Message.Encoding.{encode}
use remote_backup_m1_server.Communication.Message.Print.{print_message, line}
use remote_backup_m1_server.Communication.Message.Print.Laws.{
  text_of_all, print_message-add_tlvs, print_message-stuck,
}
use remote_backup_m1_server.Communication.MessageQueue.{MessageQueue, chunk_size, new}
use remote_backup_m1_server.Communication.MessageQueue
use remote_backup_m1_server.Communication.MessageQueue.Segments.{
  Holds, IsBounded, new-Holds, add_tlv-Holds, add_tlv-IsBounded,
}
use remote_backup_m1_server.Communication.TlvView.{TlvView, view, next_tlv, verify_end}
use remote_backup_m1_server.Communication.TlvView.RoundTrip.{walk, add_tlvs, walk-add_tlvs}
use remote_backup_m1_server.Communication.TlvView.Limits.{
  verify_end_lem, next_tlv_cut, next_tlv_backwards, verify_end_in_content, verify_end-end,
}
use remote_backup_m1_server.Communication.Types.TlvType

abbrev item : Tlv
item = record { tag = 2; value = 7 ∷ 8 ∷ [] }

abbrev items : List Tlv
items = item ∷ record { tag = 3; value = [] } ∷ []

walk-add_tlvs_example :
    walk (size (add_tlvs (of_type 4) items)) (view (add_tlvs (of_type 4) items)) ≡ ok items
walk-add_tlvs_example =
    walk-add_tlvs 4 items
      (
        record { tag_byte = omega arith; short = omega arith },
        (record { tag_byte = omega arith; short = omega arith }, tt),
      )
      (unfold size add_tlv of_type in omega arith)

add_tlv-Holds_example : Holds (MessageQueue.add_tlv (new 4) item) (item ∷ [])
add_tlv-Holds_example = add_tlv-Holds (new 4) [] item (new-Holds 4)

add_tlv-IsBounded_example :
    IsBounded (MessageQueue.add_tlv (new 4) item).msgs_queue ↔ (6 + length item.value ≤ chunk_size)
add_tlv-IsBounded_example =
    add_tlv-IsBounded (new 4) [] item (new-Holds 4) (unfold new of_type size in (omega arith, tt))

abbrev ended : List ℕ
ended = 4 ∷ 3 ∷ 0 ∷ 0 ∷ 0 ∷ 0 ∷ []

verify_end_lem_example : verify_end (view (of_buffer ended)) ≡ ok true
verify_end_lem_example =
    verify_end_lem (view (of_buffer ended)) (4 ∷ []) 3 0 0 0 0 (unfold view in refl)

next_tlv_cut_example : next_tlv (view (of_buffer (4 ∷ 3 ∷ 0 ∷ []))) ≡ fault
next_tlv_cut_example =
    next_tlv_cut (view (of_buffer (4 ∷ 3 ∷ 0 ∷ []))) (unfold view in refl)
      (unfold view in omega arith) (unfold view in omega arith)

abbrev looping : TlvView
looping = view (of_buffer (1 ∷ 6 ∷ 255 ∷ 255 ∷ 255 ∷ 251 ∷ []))

next_tlv_backwards_example :
    (w : TlvView) × (next_tlv looping ≡ ok (true, w))
    × (w.tlv_type ≡ 6)
    × (w.data_end ≡ looping.data_end)
    × (w.raw_msg ≡ looping.raw_msg)
    × (w.finished ≡ false)
    × (w.valid ≡ true)
next_tlv_backwards_example =
    next_tlv_backwards looping 6 [] (unfold view in refl) (unfold view in omega arith)
      (unfold view in omega arith) (unfold view in refl)

abbrev marker : Tlv
marker = record { tag = TlvType.content; value = 3 ∷ 0 ∷ 0 ∷ 0 ∷ 0 ∷ [] }

verify_end_in_content_example :
    verify_end (view (record { raw_msg = 1 ∷ encode ((item ∷ []) ++ (marker ∷ [])) })) ≡ ok true
verify_end_in_content_example = verify_end_in_content 1 (item ∷ []) []

verify_end-end_example :
    verify_end (
      view (record {
        raw_msg = 1 ∷ encode ((item ∷ []) ++ (record { tag = TlvType.end; value = [] } ∷ []));
      }))
    ≡ ok true
verify_end-end_example = verify_end-end 1 (item ∷ [])

print_message-add_tlvs_example :
    print_message (size (add_tlvs (of_type 4) items)) (add_tlvs (of_type 4) items)
    ≡ ok (line (codes "Type: ") (to_string 4) ++ text_of_all items)
print_message-add_tlvs_example =
    print_message-add_tlvs 4 items
      (
        record { tag_byte = omega arith; short = omega arith },
        (record { tag_byte = omega arith; short = omega arith }, tt),
      )
      (unfold size add_tlv of_type in omega arith)

print_message-stuck_example :
    print_message 100 (of_buffer (1 ∷ 6 ∷ 255 ∷ 255 ∷ 255 ∷ 251 ∷ [])) ≡ stuck
print_message-stuck_example = print_message-stuck 100 1 [] (omega arith)
