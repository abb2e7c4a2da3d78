-- ===== src/Core/RequestHandler/Files.antt =====
-- core/request_handler.cpp: steps that `handle_create`, `handle_update` and `handle_erase` share.
use remote_backup_m1_server.Prelude.{ℕ, Bool, true, false, List, Option, bytes_eq, if◌then◌else◌}
use remote_backup_m1_server.Platform.{Platform}
use remote_backup_m1_server.Communication.Types.ErrType.{ErrType}
use remote_backup_m1_server.Directory.Resource.{Resource}
use remote_backup_m1_server.Directory.Dir.{Dir}
use remote_backup_m1_server.Directory.Dir
use remote_backup_m1_server.Utilities.Tools
use remote_backup_m1_server.Core.Exec.{Exec, pure, lift, gets, exit_if, ◌>>=◌, ◌>>◌, try_filesystem}
use remote_backup_m1_server.Core.RequestHandler.State.{
  Ctx, reply_error, get_dir, set_dir_object, on_disk,
}

module _ (os : Platform) where
  open os use {FsPath, Stream, path_hash, path_eq, write, flush, close, remove, is_good}

  unfoldable pub find_resource : FsPath → Exec (Ctx os) (Option Resource)
  find_resource path = do d ← get_dir os; pure (Dir.rsrc path_hash path_eq d path)

  unfoldable pub assign_resource : FsPath → Resource → Exec (Ctx os) (Unit {0})
  assign_resource path resource = do
    d ← get_dir os
    set_dir_object os (Dir.insert_or_assign path_hash path_eq d path resource).1

  -- True if an entry was there.
  unfoldable pub erase_resource : FsPath → Exec (Ctx os) Bool
  erase_resource path = do
    d ← get_dir os
    let (erased, d') = Dir.erase path_hash path_eq d path
    set_dir_object os d'
    pure erased

  -- The entry after a chunk: `first` is what a first chunk that is not the last one records.
  unfoldable pub record_chunk : FsPath → List ℕ → Bool → Bool → List ℕ → Exec (Ctx os) (Unit {0})
  record_chunk path c_digest is_first is_last first =
      if is_first
      then assign_resource path
          (record { synced = is_last; digest = if is_last then c_digest else first })
      else if is_last
      then assign_resource path (record { synced = true; digest = c_digest })
      else pure tt

  unfoldable pub is_ready : Stream → Exec (Ctx os) Bool
  is_ready s = gets (λ c. is_good s c.disk)

  unfoldable pub write_stream : Stream → List ℕ → Exec (Ctx os) (Unit {0})
  write_stream s bytes = on_disk os (λ disk. (tt, write s bytes disk))

  unfoldable pub flush_stream : Stream → Exec (Ctx os) (Unit {0})
  flush_stream s = on_disk os (λ disk. (tt, flush s disk))

  unfoldable pub close_stream : Stream → Exec (Ctx os) (Unit {0})
  close_stream s = on_disk os (λ disk. (tt, close s disk))

  -- `remove(path, ec); if (ec) std::exit(EXIT_FAILURE);`
  unfoldable pub remove_or_exit : FsPath → Exec (Ctx os) (Unit {0})
  remove_or_exit path = do ec ← on_disk os (remove path); exit_if ec

  -- The file and its entry go, and the reply is an error.
  unfoldable pub reject_file : FsPath → FsPath → ErrType → Exec (Ctx os) Bool
  reject_file path absolute_path err_type = do
    remove_or_exit absolute_path
    erase_resource path
    reply_error os err_type
    pure false

  -- The digest of the finished file against the one that the client sent; false is an early return.
  unfoldable pub check_digest : FsPath → List ℕ → FsPath → ErrType → ErrType → Exec (Ctx os) Bool
  check_digest path c_digest absolute_path no_match failed =
      try_filesystem
        (do
          disk ← gets (λ c. c.disk)
          s_digest ← lift (Tools.md5_hash_file os absolute_path path disk)
          if bytes_eq s_digest c_digest then pure true else reject_file path absolute_path no_match)
        (reject_file path absolute_path failed)
