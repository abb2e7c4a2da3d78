-- ===== src/Communication/Message.antt =====
-- communication/message.cpp and message.h: a message is its raw bytes, the type byte first. The
-- buffer is behind a shared pointer in the source; no code writes to it after it is shared.
pub mod Encoding
pub mod Print
use remote_backup_m1_server.Prelude.{
  ℕ, ◌+◌, ◌/◌, ◌%◌, ◌^◌, Bool, List, [], ◌∷◌, ◌++◌, Option, none, some, length, take, replicate,
  bytes_eq, ◌-◌,
}
use remote_backup_m1_server.Outcome.{Outcome, ok, fault}

pub record Message : Type 0 where
  pub raw_msg : List ℕ

-- A TLV segment as the callers of `add_TLV` give it: `length` and `buffer` are one list.
pub record Tlv : Type 0 where
  pub tag : ℕ
  pub value : List ℕ

-- `message(MSG_TYPE)`
unfoldable pub of_type : ℕ → Message
of_type msg_type = record { raw_msg = (msg_type % 256) ∷ [] }

-- `message(std::shared_ptr<std::vector<uint8_t>>)`
abbrev pub of_buffer : List ℕ → Message
of_buffer raw = record { raw_msg = raw }

-- `(length >> (3 - i) * 8) & 0xFF` for i = 0 .. 3.
abbrev pub length_bytes : ℕ → List ℕ
length_bytes n = (n / 2 ^ 24 % 256) ∷ (n / 2 ^ 16 % 256) ∷ (n / 2 ^ 8 % 256) ∷ (n % 256) ∷ []

unfoldable pub add_tlv : Message → Tlv → Message
add_tlv m t = record m {
  raw_msg = m.raw_msg ++ (((t.tag % 256) ∷ length_bytes (length t.value)) ++ t.value);
}

-- `(*raw_msg_ptr_)[0]`: undefined on an empty buffer.
unfoldable pub msg_type : Message → Outcome ℕ
msg_type m = elim m.raw_msg [ [] ↦ fault | b ∷ _ ↦ ok b ]

unfoldable pub size : Message → ℕ
size m = length m.raw_msg

-- `vector::resize`: cuts, or pads with zeros.
unfoldable pub resize : Message → ℕ → Message
resize m n = record m { raw_msg = take n m.raw_msg ++ replicate (n - length m.raw_msg) 0 }

-- `operator==`
unfoldable pub same : Message → Message → Bool
same a b = bytes_eq a.raw_msg b.raw_msg
