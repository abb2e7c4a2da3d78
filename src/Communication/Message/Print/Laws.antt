-- ===== src/Communication/Message/Print/Laws.antt =====
-- communication/message.cpp: when the loop of `operator<<` ends.
use remote_backup_m1_server.Prelude.{
  ℕ, ◌+◌, zero, suc, ◌^◌, ◌<◌, ◌%◌, ◌≡◌, refl, ap, false, List, [], ◌∷◌, ◌++◌, append_assoc, All,
  codes, to_string, arith, length, drop, if◌then◌else◌, ◌==◌, Bool-cases, inl, inr,
}
use remote_backup_m1_server.Outcome.{ok, stuck, ◌>>=◌}
use remote_backup_m1_server.Communication.Message.{Tlv, of_type, of_buffer, msg_type, size}
use remote_backup_m1_server.Communication.Types.TlvType
use remote_backup_m1_server.Communication.TlvView.{TlvView, view, get_type, get_length}
use remote_backup_m1_server.Communication.TlvView.Laws.{
  IsWire, Shows, advance, next_tlv-advance, advance-Shows, get_type-advance, get_value-advance,
  next_tlv-close, view-Shows,
}
use remote_backup_m1_server.Communication.TlvView.RoundTrip.{add_tlvs, built, length-le-encode}
use remote_backup_m1_server.Communication.TlvView.Limits.{next_tlv_backwards}
use remote_backup_m1_server.Communication.Message.Print.{
  line, tabbed, print_value, print_segments, print_message,
}

-- The lines of one segment.
unfoldable pub text_of : Tlv → List ℕ
text_of t =
    line (tabbed (codes "T: ")) (to_string t.tag)
    ++ (line (tabbed (codes "L: ")) (to_string (length t.value))
        ++ (if t.tag == TlvType.content then [] else line (tabbed (codes "V: ")) t.value))

unfoldable pub text_of_all : List Tlv → List ℕ
text_of_all [] = []
text_of_all (t ∷ ts) = text_of t ++ text_of_all ts

-- On a CONTENT segment that announces 2 ^ 32 - 5 bytes the loop does not end: no fuel is enough.
backwards-stuck :
    (fuel : ℕ) (v : TlvView) (rest : List ℕ)
    → v.finished ≡ false
    → v.data_end < length v.raw_msg
    → length v.raw_msg < 2 ^ 63
    → drop v.data_end v.raw_msg ≡ TlvType.content ∷ 255 ∷ 255 ∷ 255 ∷ 251 ∷ rest
    → print_segments fuel v ≡ stuck
unfolding print_segments print_value get_type get_length
backwards-stuck zero v rest f more fits e = refl
backwards-stuck (suc fuel) v rest f more fits e =
    let (w, next, tag, at_end, raw, open_view, valid) =
      next_tlv_backwards v TlvType.content rest f more fits e in
    let again : print_segments fuel w ≡ stuck =
      backwards-stuck fuel w rest open_view (rw (at_end, raw) more) (rw raw fits)
        (rw (at_end, raw) e) in
    rw (next, valid, tag, again) refl

module _ (v : TlvView) (t : Tlv) (ts : List Tlv) (wire : IsWire t) (at : Shows v (t ∷ ts)) where
  get_length-advance : get_length (advance v t) ≡ ok (length t.value)
  unfolding get_length
  get_length-advance = refl

  print_value-advance :
      print_value (advance v t) t.tag
      ≡ ok (if t.tag == TlvType.content then [] else line (tabbed (codes "V: ")) t.value)
  unfolding print_value
  print_value-advance = elim (Bool-cases (t.tag == TlvType.content)) [
    | inl e ↦ rw e refl
    | inr e ↦ rw e (rw (get_value-advance v t ts wire at) refl)
  ]

print_segments-Shows :
    (ts : List Tlv) (fuel : ℕ) (v : TlvView)
    → All IsWire ts
    → Shows v ts
    → length ts < fuel
    → print_segments fuel v ≡ ok (text_of_all ts)
unfolding print_segments text_of_all text_of
print_segments-Shows ts zero v wire at h = absurd (omega arith)
print_segments-Shows [] (suc fuel) v wire at h = rw (next_tlv-close v at) refl
print_segments-Shows (t ∷ ts) (suc fuel) v wire at h =
    rw
      (
        next_tlv-advance v t ts wire.0 at,
        get_type-advance v t ts wire.0 at,
        get_length-advance v t ts wire.0 at,
        print_value-advance v t ts wire.0 at,
        print_segments-Shows ts fuel (advance v t) wire.1 (advance-Shows v t ts wire.0 at)
            (omega arith),
      )
      (simp append_assoc refl)

-- Printing a message that the constructor began and `add_TLV` filled with segments of a byte tag and less
-- than 2 ^ 31 bytes each, in a buffer of less than 2 ^ 63 bytes, ends within as many rounds as the
-- message has bytes, and gives the type and every segment in order.
pub print_message-add_tlvs :
    (t : ℕ) (ts : List Tlv)
    → All IsWire ts
    → size (add_tlvs (of_type t) ts) < 2 ^ 63
    → print_message (size (add_tlvs (of_type t) ts)) (add_tlvs (of_type t) ts)
      ≡ ok (line (codes "Type: ") (to_string (t % 256)) ++ text_of_all ts)
unfolding print_message msg_type size
print_message-add_tlvs t ts wire fits = rw (built t ts) (
    ap (λ r. r >>= λ text. ok (line (codes "Type: ") (to_string (t % 256)) ++ text))
      (print_segments-Shows ts _ _ wire (view-Shows _ ts (rw (built t ts) at fits))
        (length-le-encode ts)))

-- Printing a message whose first segment is a CONTENT that announces 2 ^ 32 - 5 bytes never ends,
-- whatever follows.
pub print_message-stuck :
    (fuel t : ℕ) (rest : List ℕ)
    → 6 + length rest < 2 ^ 63
    → print_message fuel (of_buffer (t ∷ TlvType.content ∷ 255 ∷ 255 ∷ 255 ∷ 251 ∷ rest)) ≡ stuck
unfolding print_message msg_type view
print_message-stuck fuel t rest fits =
    rw
      (backwards-stuck fuel (view (of_buffer (t ∷ TlvType.content ∷ 255 ∷ 255 ∷ 255 ∷ 251 ∷ rest)))
        rest refl (omega arith) (omega arith) refl)
      refl
