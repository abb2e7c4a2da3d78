-- ===== src/Utilities/Logger.antt =====
-- utilities/logger.cpp: the lines that the server logs. The text of the clock is an argument.
pub mod Laws
use remote_backup_m1_server.Prelude.{ℕ, Bool, List, [], ◌∷◌, ◌++◌, codes, if◌then◌else◌, ◌==◌}
use remote_backup_m1_server.Outcome.{Outcome, ok, fault, ◌>>=◌}
use remote_backup_m1_server.Communication.Types.MsgType
use remote_backup_m1_server.Communication.Types.{ResultType, res_ok, res_err, res_none}
use remote_backup_m1_server.Core.User.{User}

-- `msg_type_str_map_.find(msg_type)->second`: undefined on a type that the map does not hold.
unfoldable pub type_name : ℕ → Outcome (List ℕ)
type_name t =
    if t == MsgType.none_type
    then ok (codes "-")
    else if t == MsgType.create
    then ok (codes "CREATE")
    else if t == MsgType.update
    then ok (codes "UPDATE")
    else if t == MsgType.erase
    then ok (codes "ERASE")
    else if t == MsgType.sync
    then ok (codes "SYNC")
    else if t == MsgType.auth
    then ok (codes "AUTH")
    else if t == MsgType.keep_alive
    then ok (codes "KEEP_ALIVE")
    else fault

unfoldable pub result_name : ResultType → List ℕ
result_name res_ok = codes "OK"
result_name res_err = codes "ERR"
result_name res_none = codes "-"

-- `get_time`: the text of the clock up to its first comma.
unfoldable pub get_time : List ℕ → List ℕ
get_time [] = []
get_time (c ∷ cs) = let rest = get_time cs in if c == 44 then [] else c ∷ rest

unfoldable at_sign : List ℕ → List ℕ
at_sign [] = []
at_sign (_ ∷ _) = codes "@"

module _ {K : Type 0} (clock : List ℕ) (u : User K) where
  unfoldable pub log_text : List ℕ → List ℕ
  unfolding get_time at_sign
  log_text message =
      codes "["
      ++ (get_time clock
          ++ (codes "]["
              ++ (u.username
                  ++ (at_sign u.username
                      ++ (u.ip ++ (codes "][" ++ (message ++ (codes "]" ++ (10 ∷ [])))))))))

  unfoldable pub log_result : ℕ → ResultType → ResultType → Outcome (List ℕ)
  unfolding type_name result_name log_text
  log_result msg_type message_result connection_result = do
    name ← type_name msg_type
    ok (
        log_text (
          codes "TYPE: "
          ++ (name
              ++ (codes " RES: "
                  ++ (result_name message_result
                      ++ (codes " CON: " ++ result_name connection_result))))))
