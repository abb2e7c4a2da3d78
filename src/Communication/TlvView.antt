-- ===== src/Communication/TlvView.antt =====
-- communication/tlv_view.cpp and tlv_view.h: a cursor over the segments of a message. Iterators are
-- positions in the raw buffer, modulo 2 ^ 64 as the pointers are; a read outside is a `fault`.
pub mod Laws
pub mod RoundTrip
pub mod Limits
use remote_backup_m1_server.Prelude.{
  ℕ, zero, suc, ◌+◌, ◌-◌, ◌*◌, ◌^◌, ◌%◌, Bool, true, false, ◌&&◌, List, none, some, get_elem?, take,
  drop, length, ltb, leb, ◌==◌, if◌then◌else◌,
}
use remote_backup_m1_server.Outcome.{Outcome, ok, throws, exits, fault, stuck, logic_error, ◌>>=◌}
use remote_backup_m1_server.Communication.Message.{Message}
use remote_backup_m1_server.Communication.Types.TlvType

pub record TlvView : Type 0 where
  pub tlv_type : ℕ
  pub tlv_length : ℕ
  pub raw_msg : List ℕ
  pub data_begin : ℕ
  pub data_end : ℕ
  pub valid : Bool
  pub finished : Bool

-- The constructor leaves `tlv_type_` and `length_` unset; no accessor reads them before `valid_`.
unfoldable pub view : Message → TlvView
view m = record {
  tlv_type = 0;
  tlv_length = 0;
  raw_msg = m.raw_msg;
  data_begin = 1;
  data_end = 1;
  valid = false;
  finished = false;
}

-- `*(begin_ + i)`
unfoldable pub read : List ℕ → ℕ → Outcome ℕ
read raw i = elim (get_elem? raw i) [ none ↦ fault | some b ↦ ok b ]

-- `b << 24` in `int`, then converted to `size_t`: a set top bit becomes the sign and is extended.
abbrev pub shift_top : ℕ → ℕ
shift_top b = if ltb b 128 then b * 2 ^ 24 else b * 2 ^ 24 + (2 ^ 64 - 2 ^ 32)

abbrev pub length_of_bytes : ℕ → ℕ → ℕ → ℕ → ℕ
length_of_bytes a b c d = (shift_top a + b * 2 ^ 16 + c * 2 ^ 8 + d) % 2 ^ 64

-- The part of `next_tlv` after its two tests: the type byte, the four length bytes, the new end.
unfoldable pub read_tlv : TlvView → ℕ → Outcome TlvView
unfolding read
read_tlv v i = do
  tag ← read v.raw_msg i
  a ← read v.raw_msg (i + 1)
  b ← read v.raw_msg (i + 2)
  c ← read v.raw_msg (i + 3)
  d ← read v.raw_msg (i + 4)
  let n = length_of_bytes a b c d
  ok (record v {
    tlv_type = tag;
    tlv_length = n;
    data_begin = i + 5;
    data_end = (i + 5 + n) % 2 ^ 64;
    valid = true;
  })

unfoldable pub next_tlv : TlvView → Outcome (Bool × TlvView)
next_tlv v =
    if v.finished
    then ok (false, v)
    else if v.data_end == length v.raw_msg
    then ok (false, record v { data_begin = v.data_end; finished = true; valid = false })
    else (do w ← read_tlv v v.data_end; ok (true, w))

-- `*(begin_ + i - 1)`
unfoldable pub read_before : List ℕ → ℕ → Outcome ℕ
unfolding read
read_before raw i = if i == 0 then fault else read raw (i - 1)

-- The loop of `verify_end` with `n` rounds left, and the test of the tag after it.
unfoldable pub zeros_before : List ℕ → ℕ → ℕ → Outcome Bool
zeros_before raw zero i = do b ← read_before raw i; ok (b == TlvType.end)
zeros_before raw (suc n) i = do
  b ← read_before raw i
  if b == 0 then zeros_before raw n (i - 1) else ok false

unfoldable pub verify_end : TlvView → Outcome Bool
unfolding zeros_before
verify_end v = zeros_before v.raw_msg 4 (length v.raw_msg)

-- `valid_` guards every accessor.
abbrev guarded {ℓ} : {A : Type ℓ} → TlvView → Outcome A → Outcome A
guarded v r = if v.valid then r else throws logic_error

unfoldable pub get_type : TlvView → Outcome ℕ
get_type v = guarded v (ok v.tlv_type)

unfoldable pub get_length : TlvView → Outcome ℕ
get_length v = guarded v (ok v.tlv_length)

-- `std::string(view.cbegin(), view.cend())`: the range has to lie in the buffer.
unfoldable pub get_value : TlvView → Outcome (List ℕ)
get_value v = guarded v (
    if leb v.data_begin v.data_end && leb v.data_end (length v.raw_msg)
    then ok (take (v.data_end - v.data_begin) (drop v.data_begin v.raw_msg))
    else fault)
