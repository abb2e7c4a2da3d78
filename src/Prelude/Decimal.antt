-- ===== src/Prelude/Decimal.antt =====
-- `std::to_string` and `operator<<` on an unsigned number: its decimal digits.
use Prim.Native.Nat.{ℕ, zero, suc, ◌+◌, ◌/◌, ◌%◌}
use mathlib.Core.List.{List, [], ◌∷◌, ◌++◌}
use remote_backup_m1_server.Prelude.Tests.{ltb, if◌then◌else◌}

digits : ℕ → ℕ → List ℕ
digits zero n = []
digits (suc fuel) n =
    let more = digits fuel (n / 10) in
    if ltb n 10 then (b'0' + n) ∷ [] else more ++ ((b'0' + n % 10) ∷ [])

-- A number below 2 ^ 64 has at most 20 digits.
unfoldable pub to_string : ℕ → List ℕ
unfolding digits
to_string n = digits 20 n
