-- ===== src/Communication/TlvView/Limits.antt =====
-- communication/tlv_view.cpp on any message: `verify_end`, truncated segments, and lengths from 2 ^ 31
-- on, which the shift in `int` turns negative.
use remote_backup_m1_server.Prelude.{
  append_assoc, append-nil, ℕ, zero, suc, ◌+◌, ◌-◌, ◌^◌, ◌≤◌, ◌<◌, ◌≡◌, refl, ◌⊎◌, inl, inr, true,
  false, ◌&&◌, List, [], ◌∷◌, ◌++◌, some, arith, length, get_elem?, drop, length-append,
  drop-length_append, ◌==◌,
}
use remote_backup_m1_server.Outcome.{ok, fault}
use remote_backup_m1_server.Communication.Message.{Tlv, length_bytes}
use remote_backup_m1_server.Communication.Message.Encoding.{encode, encode-append}
use remote_backup_m1_server.Communication.Types.TlvType
use remote_backup_m1_server.Communication.TlvView.{
  TlvView, view, read, read_before, zeros_before, verify_end, read_tlv, next_tlv,
}
use remote_backup_m1_server.Communication.TlvView.Laws.{read-drop}

read_before-append :
    (front back : List ℕ) (k i : ℕ) (b : ℕ)
    → length front + k + 1 ≡ i
    → get_elem? back k ≡ some b
    → read_before (front ++ back) i ≡ ok b
unfolding read_before
read_before-append front back k i b e g = ground (
  arith,
  read-drop (front ++ back) (length front) k (i - 1) back b (omega arith)
      (drop-length_append front back) g,
)

-- On a message of at least five bytes `verify_end` tests the last five: END and a length of zero.
pub verify_end_lem :
    (v : TlvView) (front : List ℕ) (a b c d e : ℕ)
    → v.raw_msg ≡ front ++ (a ∷ b ∷ c ∷ d ∷ e ∷ [])
    → verify_end v ≡ ok ((e == 0) && (d == 0) && (c == 0) && (b == 0) && (a == TlvType.end))
unfolding verify_end zeros_before
verify_end_lem v front a b c d e h =
    let five : List ℕ = a ∷ b ∷ c ∷ d ∷ e ∷ [] in
    let n : ℕ = length (front ++ five) in
    let long : length (front ++ five) ≡ length front + 5 = length-append front five in
    rw h (
      ground (
        arith,
        read_before-append front five 4 n e (omega arith) refl,
        read_before-append front five 3 (n - 1) d (omega arith) refl,
        read_before-append front five 2 (n - 1 - 1) c (omega arith) refl,
        read_before-append front five 1 (n - 1 - 1 - 1) b (omega arith) refl,
        read_before-append front five 0 (n - 1 - 1 - 1 - 1) a (omega arith) refl,
      ))

read_past : (xs : List ℕ) (i : ℕ) → length xs ≤ i → read xs i ≡ fault
unfolding read
read_past [] i h = refl
read_past (x ∷ xs) zero h = absurd (omega arith)
read_past (x ∷ xs) (suc i) h = read_past xs i (omega arith)

read_cases : (xs : List ℕ) (i : ℕ) → ((b : ℕ) × (read xs i ≡ ok b)) ⊎ (read xs i ≡ fault)
unfolding read
read_cases [] i = inr refl
read_cases (x ∷ xs) zero = inl (x, refl)
read_cases (x ∷ xs) (suc i) = read_cases xs i

-- `next_tlv` reads past the buffer when fewer than five bytes are left for the tag and the length.
pub next_tlv_cut :
    (v : TlvView)
    → v.finished ≡ false
    → v.data_end < length v.raw_msg
    → length v.raw_msg < v.data_end + 5
    → next_tlv v ≡ fault
unfolding next_tlv read_tlv
next_tlv_cut v open_view more short = ground (
  arith,
  read_cases v.raw_msg v.data_end,
  read_cases v.raw_msg (v.data_end + 1),
  read_cases v.raw_msg (v.data_end + 2),
  read_cases v.raw_msg (v.data_end + 3),
  read_past v.raw_msg (v.data_end + 4) (omega arith),
)

-- A length of 2 ^ 32 - 5 moves the end of the segment back to where the segment began.
pub next_tlv_backwards :
    (v : TlvView) (tag : ℕ) (rest : List ℕ)
    → v.finished ≡ false
    → v.data_end < length v.raw_msg
    → length v.raw_msg < 2 ^ 63
    → drop v.data_end v.raw_msg ≡ tag ∷ 255 ∷ 255 ∷ 255 ∷ 251 ∷ rest
    → (w : TlvView) × (next_tlv v ≡ ok (true, w))
      × (w.tlv_type ≡ tag)
      × (w.data_end ≡ v.data_end)
      × (w.raw_msg ≡ v.raw_msg)
      × (w.finished ≡ false)
      × (w.valid ≡ true)
unfolding next_tlv read_tlv
next_tlv_backwards v tag rest open_view more fits e = (
  record v { tlv_type = tag; tlv_length = 2 ^ 64 - 5; data_begin = v.data_end + 5; valid = true },
  ground (
    arith,
    byte 0 v.data_end tag (omega arith) refl,
    byte 1 (v.data_end + 1) 255 refl refl,
    byte 2 (v.data_end + 2) 255 refl refl,
    byte 3 (v.data_end + 3) 255 refl refl,
    byte 4 (v.data_end + 4) 251 refl refl,
  ),
  refl,
  refl,
  refl,
  open_view,
  refl,
)
  where
    byte :
        (k j : ℕ) (b : ℕ)
        → v.data_end + k ≡ j
        → get_elem? (tag ∷ 255 ∷ 255 ∷ 255 ∷ 251 ∷ rest) k ≡ some b
        → read v.raw_msg j ≡ ok b
    byte k j b i g = read-drop v.raw_msg v.data_end k j (tag ∷ 255 ∷ 255 ∷ 255 ∷ 251 ∷ rest) b i e g

-- Whatever stands before them, a message that ends in the bytes of an END segment passes `verify_end`;
-- a CONTENT segment whose own last bytes are these passes with no END segment in the message.
pub verify_end_in_content :
    (msg_type : ℕ) (before : List Tlv) (value : List ℕ)
    → let t : Tlv = record {
      tag = TlvType.content;
      value = value ++ (TlvType.end ∷ 0 ∷ 0 ∷ 0 ∷ 0 ∷ []);
    } in
      verify_end (view (record { raw_msg = msg_type ∷ encode (before ++ (t ∷ [])) })) ≡ ok true
verify_end_in_content msg_type before value =
    let marked : List ℕ = value ++ (TlvType.end ∷ 0 ∷ 0 ∷ 0 ∷ 0 ∷ []) in
    verify_end_lem _
      (msg_type ∷ (encode before ++ ((TlvType.content ∷ length_bytes (length marked)) ++ value)))
      TlvType.end 0 0 0 0 (unfold view in simp (encode-append, append_assoc, append-nil))

-- A message whose last segment is an empty END segment passes `verify_end`.
pub verify_end-end :
    (msg_type : ℕ) (before : List Tlv)
    → verify_end (
        view (record {
          raw_msg = msg_type ∷ encode (before ++ (record { tag = TlvType.end; value = [] } ∷ []));
        }))
      ≡ ok true
verify_end-end msg_type before =
    verify_end_lem _ (msg_type ∷ encode before) TlvType.end 0 0 0 0
      (unfold view in simp (encode-append, append_assoc, append-nil))
