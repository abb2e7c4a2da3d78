-- ===== src/Communication/Message/Encoding.antt =====
-- The byte layout that `message::add_TLV` writes.
use remote_backup_m1_server.Prelude.{
  ℕ, ◌+◌, ◌≡◌, refl, List, [], ◌∷◌, ◌++◌, arith, length, length-append, ◌%◌, append_assoc,
}
use remote_backup_m1_server.Communication.Message.{Message, Tlv, length_bytes, add_tlv, size}

-- The bytes of one segment, and of a row of them.
abbrev pub encode_one : Tlv → List ℕ
encode_one t = ((t.tag % 256) ∷ length_bytes (length t.value)) ++ t.value

abbrev pub encode : List Tlv → List ℕ
encode [] = []
encode (t ∷ ts) = encode_one t ++ encode ts

pub encode-append : (ts us : List Tlv) → encode (ts ++ us) ≡ encode ts ++ encode us
encode-append [] us = refl
encode-append (t ∷ ts) us = rw (encode-append ts us, append_assoc)

pub add_tlv_lem : (m : Message) (t : Tlv) → (add_tlv m t).raw_msg ≡ m.raw_msg ++ encode_one t
unfolding add_tlv
add_tlv_lem m t = refl

pub size-add_tlv : (m : Message) (t : Tlv) → size (add_tlv m t) ≡ size m + 5 + length t.value
unfolding size add_tlv
size-add_tlv m t = omega (arith, length-append m.raw_msg (encode_one t))
