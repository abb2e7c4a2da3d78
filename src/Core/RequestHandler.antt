-- ===== src/Core/RequestHandler.antt =====
-- core/request_handler.cpp and request_handler.h: `handle_request`, which tells the states of a session
-- apart and calls the handler. The parts of the handlers are in the children.
pub mod State
pub mod Files
pub mod Auth
pub mod Sync
pub mod Create
pub mod Update
pub mod Erase
pub mod Rules
pub mod Replies
pub mod Safety
pub mod Receiving
pub mod Access
pub mod Home
pub mod Session
use remote_backup_m1_server.Prelude.{
  ℕ, suc, zero, ◌+◌, Bool, true, false, not, ◌&&◌, ◌||◌, List, [], ◌∷◌, ◌++◌, Option, none, some,
  codes, bytes_eq, length, drop, if◌then◌else◌, ◌==◌,
}
use remote_backup_m1_server.Outcome.{
  Outcome, ok, throws, exits, fault, stuck, filesystem_error, length_error, logic_error,
  runtime_error,
}
use remote_backup_m1_server.Platform.{Platform}
use remote_backup_m1_server.Communication.MessageQueue.{MessageQueue}
use remote_backup_m1_server.Communication.MessageQueue
use remote_backup_m1_server.Communication.Types.TlvType
use remote_backup_m1_server.Communication.Types.MsgType
use remote_backup_m1_server.Communication.Types.ErrType.{err_no_content, err_msg_type_rejected}
use remote_backup_m1_server.Directory.Resource.{Resource}
use remote_backup_m1_server.Directory.Dir.{Dir}
use remote_backup_m1_server.Directory.Dir
use remote_backup_m1_server.Utilities.Tools
use remote_backup_m1_server.Core.User.{User}
use remote_backup_m1_server.Core.User
use remote_backup_m1_server.Core.Exec.{
  Exec, pure, lift, gets, modify, exit_if, continue, ◌>>=◌, ◌>>◌, handle_error, try_filesystem,
}
use remote_backup_m1_server.Core.RequestHandler.State.{
  Config, Ctx, close_response, reply_error, reply_ok, add_item, view_type, view_value, view_end,
  view_next, next_is, get_dir, set_dir_object, on_disk, get_stream, erase_stream,
}
use remote_backup_m1_server.Communication.Message.{Message}
use remote_backup_m1_server.Communication.Message
use remote_backup_m1_server.Communication.TlvView
use remote_backup_m1_server.Core.RequestHandler.Auth.{handle_auth}
use remote_backup_m1_server.Core.RequestHandler.Sync.{handle_sync}
use remote_backup_m1_server.Core.RequestHandler.Create.{handle_create}
use remote_backup_m1_server.Core.RequestHandler.Update.{handle_update}
use remote_backup_m1_server.Core.RequestHandler.Erase.{handle_erase}

module _ (os : Platform) (config : Config os) where
  -- An authenticated and synchronised user.
  unfoldable pub serve_synced : ℕ → Exec (Ctx os) (Unit {0})
  serve_synced msg_type =
      if msg_type == MsgType.create
      then handle_create os
      else if msg_type == MsgType.update
      then handle_update os
      else if msg_type == MsgType.erase
      then handle_erase os
      else if msg_type == MsgType.keep_alive
      then reply_ok os
      else reply_error os err_msg_type_rejected

  unfoldable pub serve_unsynced : ℕ → Exec (Ctx os) (Unit {0})
  serve_unsynced msg_type =
      if msg_type == MsgType.sync then handle_sync os else reply_error os err_msg_type_rejected

  unfoldable pub serve_guest : ℕ → Exec (Ctx os) (Unit {0})
  serve_guest msg_type =
      if msg_type == MsgType.auth
      then handle_auth os config
      else reply_error os err_msg_type_rejected

  unfoldable pub dispatch : ℕ → Exec (Ctx os) (Unit {0})
  dispatch msg_type = do
    user ← gets (λ c. c.user)
    if not user.is_auth
        then serve_guest msg_type
        else if not user.is_synced
        then serve_unsynced msg_type
        else serve_synced msg_type

  -- `handle_request` once the message type is read.
  unfoldable pub serve_request : ℕ → Message → Exec (Ctx os) (Unit {0})
  serve_request msg_type request = do
    modify (λ c. record c { replies = MessageQueue.new msg_type; msg_view = TlvView.view request })
    more ← view_next os
    if more then dispatch msg_type else reply_error os err_no_content

  unfoldable pub handle_request : Message → Exec (Ctx os) (Unit {0})
  handle_request request = do
    msg_type ← lift (Message.msg_type request)
    serve_request msg_type request
