-- ===== src/Communication/TlvView/Laws.antt =====
-- communication/tlv_view.cpp on messages that are a type byte and a row of segments: `next_tlv` walks
-- the segments in order.
use remote_backup_m1_server.Prelude.{
  ℕ, zero, suc, ◌+◌, ◌-◌, ◌/◌, ◌%◌, ◌^◌, ◌≤◌, ◌<◌, ◌≡◌, refl, sym, ap, ◌∙◌, true, false, List, [],
  ◌∷◌, some, arith, length, get_elem?, take, drop, length-append, length-drop, take-length_append,
  drop-length_append, drop-drop,
}
use remote_backup_m1_server.Outcome.{ok}
use remote_backup_m1_server.Communication.Message.{Tlv}
use remote_backup_m1_server.Communication.Message.Encoding.{encode, encode_one}
use remote_backup_m1_server.Communication.TlvView.{
  TlvView, view, read, read_tlv, next_tlv, get_type, get_value, length_of_bytes,
}

-- A segment that the four length bytes can carry: `next_tlv` reads longer ones as negative.
pub record IsWire (t : Tlv) : Type 0 where
  pub tag_byte : t.tag < 256
  pub short : length t.value < 2 ^ 31

-- The view stands before the segments `ts`, and these fill the rest of the buffer.
pub record Shows (v : TlvView) (ts : List Tlv) : Type 0 where
  pub open_view : v.finished ≡ false
  pub within : v.data_end ≤ length v.raw_msg
  pub addressable : length v.raw_msg < 2 ^ 63
  pub left : drop v.data_end v.raw_msg ≡ encode ts

-- The view on the segment `t` that began at the old end.
abbrev pub advance : TlvView → Tlv → TlvView
advance v t = record v {
  tlv_type = t.tag;
  tlv_length = length t.value;
  data_begin = v.data_end + 5;
  data_end = v.data_end + 5 + length t.value;
  valid = true;
}

abbrev pub close : TlvView → TlvView
close v = record v { data_begin = v.data_end; finished = true; valid = false }

length_of_bytes-length_bytes :
    (n : ℕ)
    → n < 2 ^ 31
    → length_of_bytes (n / 2 ^ 24 % 256) (n / 2 ^ 16 % 256) (n / 2 ^ 8 % 256) (n % 256) ≡ n
length_of_bytes-length_bytes n h = ground arith

get_elem?-drop : (xs : List ℕ) (i k j : ℕ) → i + k ≡ j → get_elem? xs j ≡ get_elem? (drop i xs) k
get_elem?-drop xs zero k j e = ap (get_elem? xs) (omega arith)
get_elem?-drop [] (suc i) k j e = refl
get_elem?-drop (x ∷ xs) (suc i) k zero e = absurd (omega arith)
get_elem?-drop (x ∷ xs) (suc i) k (suc j) e = get_elem?-drop xs i k j (omega arith)

pub read-drop :
    (xs : List ℕ) (i k j : ℕ) (rest : List ℕ) (b : ℕ)
    → i + k ≡ j
    → drop i xs ≡ rest
    → get_elem? rest k ≡ some b
    → read xs j ≡ ok b
unfolding read
read-drop xs i k j rest b e d g = rw (get_elem?-drop xs i k j e, d, g, read) refl

module _ (v : TlvView) (t : Tlv) (ts : List Tlv) (wire : IsWire t) (at : Shows v (t ∷ ts)) where
  room : v.data_end + 5 + length t.value ≤ length v.raw_msg
  room = omega (
    arith,
    ap length at.left,
    length-drop v.data_end v.raw_msg,
    length-append (encode_one t) (encode ts),
    at.within,
  )

  cell :
      (k j : ℕ) (b : ℕ)
      → v.data_end + k ≡ j
      → get_elem? (encode (t ∷ ts)) k ≡ some b
      → read v.raw_msg j ≡ ok b
  cell k j b e g = read-drop v.raw_msg v.data_end k j (encode (t ∷ ts)) b e at.left g

  read_tlv_lem : read_tlv v v.data_end ≡ ok (advance v t)
  unfolding read_tlv
  read_tlv_lem =
      rw
        (
          cell 0 v.data_end (t.tag % 256) (omega arith) refl,
          cell 1 (v.data_end + 1) (length t.value / 2 ^ 24 % 256) refl refl,
          cell 2 (v.data_end + 2) (length t.value / 2 ^ 16 % 256) refl refl,
          cell 3 (v.data_end + 3) (length t.value / 2 ^ 8 % 256) refl refl,
          cell 4 (v.data_end + 4) (length t.value % 256) refl refl,
        )
        (ground (
          arith,
          length_of_bytes-length_bytes (length t.value) wire.short,
          room,
          at.addressable,
          wire.tag_byte,
        ))

  pub next_tlv-advance : next_tlv v ≡ ok (true, advance v t)
  unfolding next_tlv
  next_tlv-advance = rw (at.open_view) (ground (arith, read_tlv_lem, room))

  rest_left : drop (5 + length t.value) (drop v.data_end v.raw_msg) ≡ encode ts
  rest_left = rw (at.left) (
      sym (drop-drop 5 (length t.value) (5 + length t.value) (encode (t ∷ ts)) refl)
      ∙ drop-length_append t.value (encode ts))

  inner :
      take (v.data_end + 5 + length t.value - (v.data_end + 5)) (drop 5 (encode (t ∷ ts))) ≡ t.value
  inner =
      let e : v.data_end + 5 + length t.value - (v.data_end + 5) ≡ length t.value = omega arith in
      rw e (take-length_append t.value (encode ts))

  pub advance-Shows : Shows (advance v t) ts
  advance-Shows = record {
    open_view = at.open_view;
    within = room;
    addressable = at.addressable;
    left =
        sym (
          drop-drop v.data_end (5 + length t.value) (v.data_end + 5 + length t.value) v.raw_msg
            (omega arith))
        ∙ rest_left;
  }

  pub get_value-advance : get_value (advance v t) ≡ ok t.value
  unfolding get_value
  get_value-advance =
      rw (sym (drop-drop v.data_end 5 (v.data_end + 5) v.raw_msg refl), at.left)
        (ground (arith, room, inner))

  pub get_type-advance : get_type (advance v t) ≡ ok t.tag
  unfolding get_type
  get_type-advance = refl

-- At the end of the message `next_tlv` returns false and closes the view.
pub next_tlv-close : (v : TlvView) → Shows v [] → next_tlv v ≡ ok (false, close v)
unfolding next_tlv
next_tlv-close v at =
    rw (at.open_view)
      (ground (arith, ap length at.left, length-drop v.data_end v.raw_msg, at.within))

-- A new view on a type byte and a row of segments stands before all of them.
pub view-Shows :
    (b : ℕ) (ts : List Tlv)
    → suc (length (encode ts)) < 2 ^ 63
    → Shows (view (record { raw_msg = b ∷ encode ts })) ts
unfolding view
view-Shows b ts h = record { open_view = refl; within = omega arith; addressable = h; left = refl }
