-- ===== src/Core/Exec.antt =====
-- Methods that change objects and may throw: what was changed before an exception stays changed, so
-- the state comes back beside every outcome.
pub mod Triple
pub mod Safety
use remote_backup_m1_server.Prelude.{Bool, true, false}
use remote_backup_m1_server.Outcome.{Outcome, ok, throws, exits, fault, stuck, filesystem_error}

abbrev pub Exec {ℓ κ} : Type ℓ → Type κ → Type (ℓ ⊔ κ)
Exec S A = S → Outcome A × S

module _ {ℓ κ} {S : Type ℓ} {A : Type κ} where
  unfoldable pub pure : A → Exec S A
  pure a s = (ok a, s)

  unfoldable pub lift : Outcome A → Exec S A
  lift r s = (r, s)

  unfoldable pub gets : (S → A) → Exec S A
  gets f s = (ok (f s), s)

unfoldable pub modify {ℓ} : {S : Type ℓ} → (S → S) → Exec S (Unit {0})
modify f s = (ok tt, f s)

-- `if (ec) std::exit(EXIT_FAILURE)`
unfoldable pub exit_if {ℓ} : {S : Type ℓ} → Bool → Exec S (Unit {0})
exit_if true s = (exits, s)
exit_if false s = (ok tt, s)

module _ {ℓ κ μ} {S : Type ℓ} {A : Type κ} {B : Type μ} where
  abbrev pub continue : Outcome A × S → (A → Exec S B) → Outcome B × S
  continue (ok a, s) f = f a s
  continue (throws e, s) f = (throws e, s)
  continue (exits, s) f = (exits, s)
  continue (fault, s) f = (fault, s)
  continue (stuck, s) f = (stuck, s)

  infixl 5 ◌>>=◌ ◌>>◌
  -- To open this opens the actions above too.
  unfoldable pub ◌>>=◌ : Exec S A → (A → Exec S B) → Exec S B
  unfolding pure lift gets modify exit_if
  ◌>>=◌ m f s = continue (m s) f

  abbrev pub ◌>>◌ : Exec S A → Exec S B → Exec S B
  m >> k = m >>= λ _. k

module _ {ℓ κ} {S : Type ℓ} {A : Type κ} where
  abbrev pub handle_error : Outcome A × S → Exec S A → Outcome A × S
  handle_error (throws filesystem_error, s) h = h s
  handle_error (r, s) h = (r, s)

  -- `try { m } catch (fs::filesystem_error &) { h }`
  unfoldable pub try_filesystem : Exec S A → Exec S A → Exec S A
  try_filesystem m h s = handle_error (m s) h
