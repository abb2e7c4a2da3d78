-- ===== src/Communication/Message/Print.antt =====
-- communication/message.cpp: `operator<<`, which the connection calls on every request and reply. A
-- round of its loop costs one unit of fuel.
pub mod Laws
use remote_backup_m1_server.Prelude.{
  ℕ, zero, suc, List, [], ◌∷◌, ◌++◌, codes, to_string, if◌then◌else◌, ◌==◌,
}
use remote_backup_m1_server.Outcome.{Outcome, ok, stuck, ◌>>=◌}
use remote_backup_m1_server.Communication.Message.{Message, msg_type}
use remote_backup_m1_server.Communication.Types.TlvType
use remote_backup_m1_server.Communication.TlvView.{
  TlvView, view, next_tlv, get_type, get_length, get_value,
}

abbrev pub line : List ℕ → List ℕ → List ℕ
line label text = label ++ (text ++ (10 ∷ []))

abbrev pub tabbed : List ℕ → List ℕ
tabbed text = 9 ∷ text

-- The value of a CONTENT segment is not printed.
unfoldable pub print_value : TlvView → ℕ → Outcome (List ℕ)
print_value v tag =
    if tag == TlvType.content
    then ok []
    else (do value ← get_value v; ok (line (tabbed (codes "V: ")) value))

unfoldable pub print_segments : ℕ → TlvView → Outcome (List ℕ)
print_segments zero v = stuck
print_segments (suc fuel) v = do
  (more, w) ← next_tlv v
  let rest = print_segments fuel w
  if more
      then (do
        tag ← get_type w
        n ← get_length w
        value ← print_value w tag
        text ← rest
        ok (
            line (tabbed (codes "T: ")) (to_string tag)
            ++ (line (tabbed (codes "L: ")) (to_string n) ++ (value ++ text))))
      else ok []

unfoldable pub print_message : ℕ → Message → Outcome (List ℕ)
print_message fuel m = do
  t ← msg_type m
  text ← print_segments fuel (view m)
  ok (line (codes "Type: ") (to_string t) ++ text)
