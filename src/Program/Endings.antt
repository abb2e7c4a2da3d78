-- ===== src/Program/Endings.antt =====
-- main.cpp: how the program ends.
use remote_backup_m1_server.Prelude.{ℕ, ◌≡◌, Bool, true, false, List, Option, none, some}
use remote_backup_m1_server.Outcome.{Outcome, ok, exits}
use remote_backup_m1_server.Platform.{Platform}
use remote_backup_m1_server.Core.Exec.{Exec}
use remote_backup_m1_server.Core.RequestHandler.State.{Config}
use remote_backup_m1_server.Core.Server.{ServerEvent, make_server, run}
use remote_backup_m1_server.Core.Exec.Safety.{Safe}
use remote_backup_m1_server.Program.Options.{AllChecked, asks_help}
use remote_backup_m1_server.Program.{
  Ending, status, served, backup_root, credentials_file, Library, Parsing,
}

-- A call that returns or ends the program.
pub data IsFinal {ℓ} {A : Type ℓ} : Outcome A → Type ℓ where
  result : (a : A) → IsFinal (ok a)
  quits : IsFinal exits

module _ {S : Type 0} where
  -- From every state.
  abbrev Defined {κ} : {A : Type κ} → Exec S A → Type κ
  Defined m = Safe (λ _. Unit {0}) m (λ _ _. Unit {0}) (λ _. Unit {0})

module _ {os : Platform} (lib : Library os) (auth_flag synced_flag : Bool) (clock : List ℕ)
    (fuel : ℕ) (events : List ServerEvent) (disk : os.Disk) (log : List ℕ)
    (arguments : List (List ℕ)) (s : Parsing lib) where
  -- The ends of `main`: the help where it is asked for, and where it is not, a failure or what the
  -- server came to, which started with the paths that were checked.
  pub data IsOrderly : Outcome (Ending lib) → Type 0 where
    fails : asks_help lib arguments s ≡ false → IsOrderly (ok (status 1))
    helps : asks_help lib arguments s ≡ true → IsOrderly (ok (status 0))
    serves :
        (vm : lib.Values) (config : Config os)
        → asks_help lib arguments s ≡ false
        → AllChecked lib disk vm
        → lib.path_of backup_root vm ≡ some config.backup_root
        → lib.path_of credentials_file vm ≡ some config.credentials_path
        → IsOrderly (
            ok (
              served (
                run os auth_flag synced_flag config clock fuel events
                  (make_server os auth_flag synced_flag disk log))))

  abbrev returned_none : Outcome (Option lib.Values)
  returned_none = ok none
