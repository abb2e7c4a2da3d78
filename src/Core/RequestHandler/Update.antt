-- ===== src/Core/RequestHandler/Update.antt =====
-- core/request_handler.cpp: `handle_update`, in the order of its statements.
pub mod Whole
use remote_backup_m1_server.Prelude.{
  ℕ, Bool, List, Option, none, some, codes, bytes_eq, if◌then◌else◌, ◌==◌,
}
use remote_backup_m1_server.Platform.{Platform}
use remote_backup_m1_server.Communication.Types.TlvType
use remote_backup_m1_server.Communication.Types.ErrType.{
  err_update_no_item, err_update_no_content, err_update_not_exist, err_update_already_updated,
  err_update_failed, err_update_no_match,
}
use remote_backup_m1_server.Directory.Resource.{Resource}
use remote_backup_m1_server.Utilities.Tools
use remote_backup_m1_server.Core.Exec.{Exec, pure, lift, exit_if, ◌>>=◌, ◌>>◌, try_filesystem}
use remote_backup_m1_server.Core.RequestHandler.Files.{
  find_resource, record_chunk, is_ready, write_stream, close_stream, remove_or_exit, check_digest,
}
use remote_backup_m1_server.Core.RequestHandler.State.{
  Ctx, reply_error, reply_ok, add_item, view_type, view_value, view_end, next_is, get_dir, on_disk,
  get_stream, erase_stream,
}

module _ (os : Platform) where
  open os use {FsPath, Stream, join, concat_path, rename}

  -- After the last chunk: the file written beside takes the place of the old one.
  unfoldable pub update_finish :
      FsPath → List ℕ → FsPath → FsPath → Stream → Exec (Ctx os) (Unit {0})
  update_finish path c_digest absolute_path temp_path s = do
    close_stream os s
    erase_stream os
    remove_or_exit os absolute_path
    ec ← on_disk os (rename temp_path absolute_path)
    exit_if ec
    matches ← check_digest os path c_digest absolute_path err_update_no_match err_update_failed
    if matches then reply_ok os else pure tt

  -- Inside `try`, after the test of the stream; the result is `is_last`.
  unfoldable pub update_append : FsPath → List ℕ → List ℕ → Stream → Bool → Exec (Ctx os) Bool
  update_append path c_digest old_digest s is_first = do
    bytes ← view_value os
    write_stream os s bytes
    is_last ← view_end os
    record_chunk os path c_digest is_first is_last old_digest
    pure is_last

  -- The `try` block: `none` is its early return.
  unfoldable pub update_chunk :
      FsPath → List ℕ → List ℕ → FsPath → Exec (Ctx os) (Option (Stream × Bool))
  update_chunk path c_digest old_digest temp_path =
      try_filesystem
        (do
          (s, is_first) ← get_stream os temp_path
          ready ← is_ready os s
          if ready
              then (do
                is_last ← update_append path c_digest old_digest s is_first
                pure (some (s, is_last)))
              else (do reply_error os err_update_failed; pure none))
        (do reply_error os err_update_failed; pure none)

  unfoldable pub after_update_chunk :
      FsPath → List ℕ → FsPath → FsPath → Option (Stream × Bool) → Exec (Ctx os) (Unit {0})
  after_update_chunk path c_digest absolute_path temp_path none = pure tt
  after_update_chunk path c_digest absolute_path temp_path (some (s, is_last)) =
      if is_last then update_finish path c_digest absolute_path temp_path s else reply_ok os

  unfoldable pub update_file : FsPath → List ℕ → List ℕ → Exec (Ctx os) (Unit {0})
  unfolding after_update_chunk
  update_file path c_digest old_digest = do
    d ← get_dir os
    let absolute_path = join d.path path
    let temp_path = concat_path absolute_path (codes ".temp")
    chunk ← update_chunk path c_digest old_digest temp_path
    after_update_chunk path c_digest absolute_path temp_path chunk

  -- The tests of the entry.
  unfoldable pub update_known : FsPath → List ℕ → Option Resource → Exec (Ctx os) (Unit {0})
  update_known path c_digest none = reply_error os err_update_not_exist
  update_known path c_digest (some r) =
      if bytes_eq r.digest c_digest
      then reply_error os err_update_already_updated
      else update_file path c_digest r.digest

  unfoldable pub update_content : FsPath → List ℕ → Exec (Ctx os) (Unit {0})
  update_content path c_digest = do
    has_content ← next_is os TlvType.content
    if has_content
        then (do rsrc ← find_resource os path; update_known path c_digest rsrc)
        else reply_error os err_update_no_content

  unfoldable pub update_item : Exec (Ctx os) (Unit {0})
  update_item = do
    c_sign ← view_value os
    (path, c_digest) ← lift (Tools.split_sign os c_sign)
    add_item os c_sign
    update_content path c_digest

  unfoldable pub handle_update : Exec (Ctx os) (Unit {0})
  handle_update = do
    tag ← view_type os
    if tag == TlvType.item then update_item else reply_error os err_update_no_item
