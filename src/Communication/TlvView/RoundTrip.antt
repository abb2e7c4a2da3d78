-- ===== src/Communication/TlvView/RoundTrip.antt =====
-- communication/message.cpp against communication/tlv_view.cpp: what `add_TLV` wrote, `next_tlv` and
-- the accessors read back.
use remote_backup_m1_server.Prelude.{
  ℕ, zero, suc, ◌^◌, ◌%◌, ◌<◌, ◌≡◌, ◌∙◌, List, [], ◌∷◌, ◌++◌, arith, length, All, append-nil,
  append_assoc, length-append, if◌then◌else◌,
}
use mathlib.Core.List.{foldl}
use remote_backup_m1_server.Outcome.{Outcome, ok, stuck, ◌>>=◌}
use remote_backup_m1_server.Communication.Message.{Message, Tlv, of_type, add_tlv, size}
use remote_backup_m1_server.Communication.Message.Encoding.{encode, encode_one, add_tlv_lem}
use remote_backup_m1_server.Communication.TlvView.{TlvView, view, next_tlv, get_type, get_value}
use remote_backup_m1_server.Communication.TlvView.Laws.{
  IsWire, Shows, advance, next_tlv-advance, advance-Shows, get_type-advance, get_value-advance,
  next_tlv-close, view-Shows,
}

-- What a client of the view collects: the loop of `operator<<` and of the handlers, on fuel.
pub walk : ℕ → TlvView → Outcome (List Tlv)
walk zero v = stuck
walk (suc fuel) v = do
  (more, w) ← next_tlv v
  let rest = walk fuel w
  if more
      then (do
        tag ← get_type w
        value ← get_value w
        us ← rest
        ok (record { tag = tag; value = value } ∷ us))
      else ok []

walk-Shows :
    (ts : List Tlv) (fuel : ℕ) (v : TlvView)
    → All IsWire ts
    → Shows v ts
    → length ts < fuel
    → walk fuel v ≡ ok ts
unfolding walk
walk-Shows ts zero v wire at h = absurd (omega arith)
walk-Shows [] (suc fuel) v wire at h = rw (next_tlv-close v at)
walk-Shows (t ∷ ts) (suc fuel) v wire at h = rw (
  next_tlv-advance v t ts wire.0 at,
  get_type-advance v t ts wire.0 at,
  get_value-advance v t ts wire.0 at,
  walk-Shows ts fuel (advance v t) wire.1 (advance-Shows v t ts wire.0 at) (omega arith),
)

abbrev pub add_tlvs : Message → List Tlv → Message
add_tlvs = foldl add_tlv

add_tlvs-raw_msg : (m : Message) (ts : List Tlv) → (add_tlvs m ts).raw_msg ≡ m.raw_msg ++ encode ts
add_tlvs-raw_msg m [] = rw append-nil
add_tlvs-raw_msg m (t ∷ ts) = add_tlvs-raw_msg (add_tlv m t) ts ∙ rw (add_tlv_lem m t, append_assoc)

pub built :
    (msg_type : ℕ) (ts : List Tlv)
    → add_tlvs (of_type msg_type) ts ≡ record { raw_msg = (msg_type % 256) ∷ encode ts }
unfolding of_type
built msg_type ts = λ i. record { raw_msg = add_tlvs-raw_msg (of_type msg_type) ts i }

pub length-le-encode : (ts : List Tlv) → length ts < suc (length (encode ts))
length-le-encode [] = omega arith
length-le-encode (t ∷ ts) =
    omega (arith, length-append (encode_one t) (encode ts), length-le-encode ts)

-- A message that the constructor began and `add_TLV` filled with segments of a byte tag and less than
-- 2 ^ 31 bytes each, in a buffer of less than 2 ^ 63 bytes, is read back segment by segment, in order,
-- and the loop ends within as many rounds as the message has bytes.
pub walk-add_tlvs :
    (msg_type : ℕ) (ts : List Tlv)
    → All IsWire ts
    → size (add_tlvs (of_type msg_type) ts) < 2 ^ 63
    → walk (size (add_tlvs (of_type msg_type) ts)) (view (add_tlvs (of_type msg_type) ts)) ≡ ok ts
unfolding of_type size
walk-add_tlvs msg_type ts wire fits = rw (built msg_type ts) (
    walk-Shows ts _ _ wire (view-Shows _ ts (rw (built msg_type ts) at fits)) (length-le-encode ts))
