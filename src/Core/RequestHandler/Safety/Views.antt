-- ===== src/Core/RequestHandler/Safety/Views.antt =====
-- communication/tlv_view.cpp under the handlers: the view of a request of whole segments.
use remote_backup_m1_server.Prelude.{
  ℕ, zero, suc, ◌-◌, ◌≤◌, ◌<◌, ◌≡◌, ◌≢◌, ◌⊎◌, refl, ap, Bool, true, false, Bool-cases, inl, inr,
  List, [], ◌∷◌, ◌==◌, ==_iff, arith, length, All,
}
use remote_backup_m1_server.Outcome.{ok}
use remote_backup_m1_server.Platform.{Platform}
use remote_backup_m1_server.Communication.Message.{Tlv}
use remote_backup_m1_server.Communication.Types.TlvType
use remote_backup_m1_server.Communication.TlvView.{
  TlvView, get_type, get_value, verify_end, zeros_before, read_before, read,
}
use remote_backup_m1_server.Communication.TlvView.Laws.{
  IsWire, Shows, advance, close, next_tlv-advance, next_tlv-close, advance-Shows, get_type-advance,
  get_value-advance,
}
use remote_backup_m1_server.Core.Exec.{pure, ◌>>=◌}
use remote_backup_m1_server.Core.Exec.Safety.{Safe}
use remote_backup_m1_server.Core.RequestHandler.State.{
  Ctx, view_type, view_value, view_end, view_next, next_is, more_of, view_after,
}

-- A segment that the handlers can read: a password has a byte.
pub record IsReadable (t : Tlv) : Type 0 where
  pub wire : IsWire t
  pub password : (t.tag ≢ TlvType.pswd) ⊎ (t.value ≢ [])

-- The view is on the segment `t` of a message of five bytes or more, and before the segments `ts`.
pub record On (v : TlvView) (t : Tlv) (ts : List Tlv) : Type 0 where
  pub type_is : get_type v ≡ ok t.tag
  pub value_is : get_value v ≡ ok t.value
  pub shows : Shows v ts
  pub here : IsReadable t
  pub rest : All IsReadable ts
  pub long : 5 ≤ length v.raw_msg

read-ok : (xs : List ℕ) (i : ℕ) → i < length xs → (b : ℕ) × (read xs i ≡ ok b)
unfolding read
read-ok [] i h = absurd (omega arith)
read-ok (x ∷ xs) zero h = (x, refl)
read-ok (x ∷ xs) (suc i) h = read-ok xs i (omega arith)

read_before-ok : (xs : List ℕ) (i : ℕ) → 0 < i → i ≤ length xs → (b : ℕ) × (read_before xs i ≡ ok b)
unfolding read_before
read_before-ok xs i p h =
    let (b, e) = read-ok xs (i - 1) (omega arith) in
    let not_first : (i == 0) ≡ false = ground arith in (b, rw not_first e)

zeros_before-ok :
    (xs : List ℕ) (n i : ℕ) → n < i → i ≤ length xs → (b : Bool) × (zeros_before xs n i ≡ ok b)
unfolding zeros_before
zeros_before-ok xs zero i p h =
    let (b, e) = read_before-ok xs i p h in (b == TlvType.end, rw e refl)
zeros_before-ok xs (suc n) i p h =
    let (b, e) = read_before-ok xs i (omega arith) h in
    let (r, f) = zeros_before-ok xs n (i - 1) (omega arith) (omega arith) in
    elim (Bool-cases (b == 0)) [ inl z ↦ (r, rw (e, z) f) | inr z ↦ (false, rw (e, z) refl) ]

verify_end-ok : (v : TlvView) → 5 ≤ length v.raw_msg → (b : Bool) × (verify_end v ≡ ok b)
unfolding verify_end
verify_end-ok v h = zeros_before-ok v.raw_msg 4 (length v.raw_msg) (omega arith) (omega arith)

pub advance-On :
    (v : TlvView) (t : Tlv) (ts : List Tlv)
    → Shows v (t ∷ ts)
    → All IsReadable (t ∷ ts)
    → 5 ≤ length v.raw_msg
    → On (advance v t) t ts
advance-On v t ts shows readable long = record {
  type_is = get_type-advance v t ts readable.0.wire shows;
  value_is = get_value-advance v t ts readable.0.wire shows;
  shows = advance-Shows v t ts readable.0.wire shows;
  here = readable.0;
  rest = readable.1;
  long = long;
}

module _ (os : Platform) where
  -- The view is on some segment.
  abbrev pub Reading : Ctx os → Type 0
  Reading c = (t : Tlv) × (ts : List Tlv) × On c.msg_view t ts

  -- After `next_tlv`: on the next segment, if it has this tag.
  abbrev pub Found : ℕ → Bool → Ctx os → Type 0
  Found tag true c = (t : Tlv) × (ts : List Tlv) × On c.msg_view t ts × (t.tag ≡ tag)
  Found tag false c = Unit

  pub view_value-ok :
      (c : Ctx os) → Reading c → (value : List ℕ) × (view_value os c ≡ (ok value, c))
  unfolding view_value
  view_value-ok c (t, ts, on) = (t.value, ap (λ r. (r, c)) on.value_is)

  view_type-ok : (c : Ctx os) → Reading c → (tag : ℕ) × (view_type os c ≡ (ok tag, c))
  unfolding view_type
  view_type-ok c (t, ts, on) = (t.tag, ap (λ r. (r, c)) on.type_is)

  view_end-ok : (c : Ctx os) → Reading c → (b : Bool) × (view_end os c ≡ (ok b, c))
  unfolding view_end
  view_end-ok c (t, ts, on) =
      let (b, e) = verify_end-ok c.msg_view on.long in (b, ap (λ r. (r, c)) e)

  next_is-ok :
      (tag : ℕ) (c : Ctx os)
      → Reading c
      → (b : Bool) × (v : TlvView) × (next_is os tag c ≡ (ok b, record c { msg_view = v }))
        × Found tag b (record c { msg_view = v })
  unfolding next_is view_next view_type more_of view_after ◌>>=◌ pure
  next_is-ok tag c (t, [], on) =
      (false, close c.msg_view, simp (next_tlv-close c.msg_view on.shows) refl, tt)
  next_is-ok tag c (t, u ∷ us, on) =
      let moves = next_tlv-advance c.msg_view u us on.rest.0.wire on.shows in
      let next = advance-On c.msg_view u us on.shows on.rest on.long in
      elim (Bool-cases (u.tag == tag)) [
        | inl e ↦ (
          true,
          advance c.msg_view u,
          simp (moves, next.type_is, e) refl,
          (u, us, next, (==_iff u.tag tag).0 e),
        )
        | inr e ↦ (false, advance c.msg_view u, simp (moves, next.type_is, e) refl, tt)
      ]

  module _ (P E : Ctx os → Type 0) (reads : (c : Ctx os) → P c → Reading c) where
    pub view_value-Safe : Safe P (view_value os) (λ _. P) E
    view_value-Safe = record { at = λ c p. let (value, e) = view_value-ok c (reads c p) in rw e p }

    pub view_type-Safe : Safe P (view_type os) (λ _. P) E
    view_type-Safe = record { at = λ c p. let (tag, e) = view_type-ok c (reads c p) in rw e p }

    pub view_end-Safe : Safe P (view_end os) (λ _. P) E
    view_end-Safe = record { at = λ c p. let (b, e) = view_end-ok c (reads c p) in rw e p }

    -- The move to the next segment changes the view only.
    pub next_is-Safe :
        (tag : ℕ) (Q : Ctx os → Type 0)
        → ((c : Ctx os) (v : TlvView) → P c → Q (record c { msg_view = v }))
        → Safe P (next_is os tag) (λ b c. Found tag b c × Q c) E
    next_is-Safe tag Q keep = record {
      at = λ c p. let (b, v, e, found) = next_is-ok tag c (reads c p) in rw e (found, keep c v p);
    }
