-- ===== src/Core/RequestHandler/Sync.antt =====
-- core/request_handler.cpp: `handle_sync`.
pub mod Listing
use remote_backup_m1_server.Prelude.{Bool, true, false, List, [], ◌∷◌, drop, if◌then◌else◌}
use remote_backup_m1_server.Outcome.{throws, filesystem_error}
use remote_backup_m1_server.Platform.{Platform}
use remote_backup_m1_server.Communication.MessageQueue.{MessageQueue}
use remote_backup_m1_server.Communication.MessageQueue
use remote_backup_m1_server.Communication.Types.MsgType
use remote_backup_m1_server.Communication.Types.ErrType.{err_sync_failed}
use remote_backup_m1_server.Directory.Resource.{Resource}
use remote_backup_m1_server.Directory.Dir.{Dir}
use remote_backup_m1_server.Directory.Dir
use remote_backup_m1_server.Utilities.Tools
use remote_backup_m1_server.Core.User.{User}
use remote_backup_m1_server.Core.User
use remote_backup_m1_server.Core.Exec.{Exec, pure, lift, gets, modify, ◌>>=◌, ◌>>◌, try_filesystem}
use remote_backup_m1_server.Core.RequestHandler.State.{
  Ctx, reply_error, reply_ok, add_item, get_dir, set_dir_object,
}

module _ (os : Platform) where
  open os use {FsPath, to_path, generic_string, path_size, path_hash, path_eq, walk}

  -- `absolute_path.generic_path().string().substr(user_dir_path_length)`
  unfoldable pub relative_to : FsPath → FsPath → FsPath
  relative_to root absolute_path = to_path (drop (path_size root) (generic_string absolute_path))

  -- `insert_or_assign` on the user's directory.
  unfoldable pub put_resource : FsPath → Resource → Exec (Ctx os) Bool
  put_resource path resource = do
    d ← get_dir os
    let (inserted, d') = Dir.insert_or_assign path_hash path_eq d path resource
    set_dir_object os d'
    pure inserted

  unfoldable pub clear_dir : Exec (Ctx os) (Unit {0})
  clear_dir = do d ← get_dir os; set_dir_object os (Dir.clear d)

  -- The body of the loop for one regular file; false is the early return.
  unfoldable pub sync_file : FsPath → FsPath → Exec (Ctx os) Bool
  sync_file root absolute_path = do
    let relative_path = relative_to root absolute_path
    disk ← gets (λ c. c.disk)
    digest ← lift (Tools.md5_hash_file os absolute_path relative_path disk)
    inserted ← put_resource relative_path (record { synced = true; digest = digest })
    if inserted
        then (do add_item os (Tools.create_sign os relative_path digest); pure true)
        else (do clear_dir; reply_error os err_sync_failed; pure false)

  -- The loop over what the iterator gives; the flag is an iteration that ends in an exception.
  unfoldable pub sync_files : FsPath → List (FsPath × Bool) → Bool → Exec (Ctx os) Bool
  sync_files root [] failed = if failed then lift (throws filesystem_error) else pure true
  sync_files root ((absolute_path, regular) ∷ rest) failed =
      let next = sync_files root rest failed in
      if regular
      then (do go ← sync_file root absolute_path; if go then next else pure false)
      else next

  unfoldable pub sync_walk : Exec (Ctx os) (Unit {0})
  sync_walk = do
    d ← get_dir os
    disk ← gets (λ c. c.disk)
    let (entries, failed) = walk d.path disk
    complete ← sync_files d.path entries failed
    if complete
        then (do modify (λ c. record c { user = User.set_synced c.user true }); reply_ok os)
        else pure tt

  unfoldable pub handle_sync : Exec (Ctx os) (Unit {0})
  handle_sync = try_filesystem sync_walk (do
    clear_dir
    modify (λ c. record c { replies = MessageQueue.new MsgType.sync })
    reply_error os err_sync_failed)
