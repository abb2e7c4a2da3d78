-- ===== src/Core/RequestHandler/Auth.antt =====
-- core/request_handler.cpp: `handle_auth`.
use remote_backup_m1_server.Prelude.{ℕ, true, List, if◌then◌else◌, ◌==◌}
use remote_backup_m1_server.Platform.{Platform}
use remote_backup_m1_server.Communication.Types.TlvType
use remote_backup_m1_server.Communication.Types.ErrType.{
  err_auth_no_usrn, err_auth_no_pswd, err_auth_failed,
}
use remote_backup_m1_server.Utilities.Tools
use remote_backup_m1_server.Core.User.{User}
use remote_backup_m1_server.Core.User
use remote_backup_m1_server.Core.Exec.{Exec, lift, gets, modify, ◌>>=◌, ◌>>◌}
use remote_backup_m1_server.Core.RequestHandler.State.{
  Config, Ctx, reply_error, reply_ok, view_type, view_value, next_is,
}

module _ (os : Platform) (config : Config os) where
  open os use {join}

  -- `user.id(user_id).username(username).dir(backup_root / user_id).auth(true)`
  unfoldable pub log_in : List ℕ → User os.FsPath → User os.FsPath
  log_in username u =
      let user_id = Tools.md5_hash os username in
      User.set_auth
        (User.set_dir (User.set_username (User.set_id u user_id) username)
          (join config.backup_root (os.to_path user_id)))
        true

  unfoldable pub auth_password : List ℕ → Exec (Ctx os) (Unit {0})
  auth_password username = do
    password ← view_value os
    disk ← gets (λ c. c.disk)
    verified ← lift (Tools.verify_password os config.credentials_path username password disk)
    if verified
        then (do modify (λ c. record c { user = log_in username c.user }); reply_ok os)
        else reply_error os err_auth_failed

  unfoldable pub auth_user : Exec (Ctx os) (Unit {0})
  auth_user = do
    username ← view_value os
    has_password ← next_is os TlvType.pswd
    if has_password then auth_password username else reply_error os err_auth_no_pswd

  unfoldable pub handle_auth : Exec (Ctx os) (Unit {0})
  handle_auth = do
    tag ← view_type os
    if tag == TlvType.usrn then auth_user else reply_error os err_auth_no_usrn
