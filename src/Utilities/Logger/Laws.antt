-- ===== src/Utilities/Logger/Laws.antt =====
-- utilities/logger.cpp: which requests can be logged.
use remote_backup_m1_server.Prelude.{
  ℕ, zero, suc, ◌<◌, ◌≤◌, Bool-cases, inl, inr, ltb, ltb→lt, ◌≡◌, ◌↔◌, refl, List, arith,
}
use remote_backup_m1_server.Outcome.{Outcome, ok, fault, raises, ComesBack, returns}
use remote_backup_m1_server.Communication.Types.{ResultType}
use remote_backup_m1_server.Core.User.{User}
use remote_backup_m1_server.Utilities.Logger.{type_name, log_result}

pub log_result_lem :
    {K : Type 0} (clock : List ℕ) (u : User K) (t : ℕ) (a b : ResultType)
    → t < 7
    → (line : List ℕ) × (log_result clock u t a b ≡ ok line)
unfolding log_result type_name
log_result_lem clock u zero a b h = (_, refl)
log_result_lem clock u (suc zero) a b h = (_, refl)
log_result_lem clock u (suc (suc zero)) a b h = (_, refl)
log_result_lem clock u (suc (suc (suc zero))) a b h = (_, refl)
log_result_lem clock u (suc (suc (suc (suc zero)))) a b h = (_, refl)
log_result_lem clock u (suc (suc (suc (suc (suc zero))))) a b h = (_, refl)
log_result_lem clock u (suc (suc (suc (suc (suc (suc zero)))))) a b h = (_, refl)
log_result_lem clock u (suc (suc (suc (suc (suc (suc (suc t))))))) a b h = absurd (omega arith)

pub type_name-fault : (t : ℕ) → 7 ≤ t → type_name t ≡ fault
unfolding type_name
type_name-fault t h = ground arith

fault-lost : {A : Type 0} {r : Outcome A} → r ≡ fault → ComesBack r → ⊥
fault-lost e (returns a) = cc
fault-lost e (raises x) = cc

-- A request can be logged exactly when its type byte is below 7; on any other the server reads behind
-- the end of its map of names.
pub log_result-ComesBack :
    {K : Type 0} (clock : List ℕ) (u : User K) (t : ℕ)
    (message_result connection_result : ResultType)
    → ComesBack (log_result clock u t message_result connection_result) ↔ (t < 7)
unfolding log_result
log_result-ComesBack clock u t message_result connection_result = (
  λ b. elim (Bool-cases (ltb t 7)) [
    | inl h ↦ ltb→lt t 7 h
    | inr h ↦ absurd (fault-lost (rw (type_name-fault t (ground arith)) refl) b)
  ],
  λ h.
      let (line, e) = log_result_lem clock u t message_result connection_result h in
      rw e (returns line),
)
