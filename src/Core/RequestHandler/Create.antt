-- ===== src/Core/RequestHandler/Create.antt =====
-- core/request_handler.cpp: `handle_create`, in the order of its statements.
pub mod Whole
pub mod Chunks
pub mod Transfer
pub mod Uploads
use remote_backup_m1_server.Prelude.{
  ℕ, Bool, false, List, Option, none, some, codes, if◌then◌else◌, ◌==◌,
}
use remote_backup_m1_server.Platform.{Platform}
use remote_backup_m1_server.Communication.Types.TlvType
use remote_backup_m1_server.Communication.Types.ErrType.{
  err_create_no_item, err_create_no_content, err_create_already_exist, err_create_failed,
  err_create_no_match,
}
use remote_backup_m1_server.Directory.Resource.{Resource}
use remote_backup_m1_server.Utilities.Tools
use remote_backup_m1_server.Core.Exec.{Exec, pure, lift, ◌>>=◌, ◌>>◌, try_filesystem}
use remote_backup_m1_server.Core.RequestHandler.Files.{
  find_resource, record_chunk, is_ready, write_stream, flush_stream, close_stream, check_digest,
}
use remote_backup_m1_server.Core.RequestHandler.State.{
  Ctx, reply_error, reply_ok, add_item, view_type, view_value, view_end, next_is, get_dir, on_disk,
  get_stream, erase_stream,
}

-- `rsrc && rsrc.value().synced()`
unfoldable pub is_complete : Option Resource → Bool
is_complete none = false
is_complete (some r) = r.synced

module _ (os : Platform) where
  open os use {FsPath, Stream, join, parent_path, create_directories}

  -- After the last chunk.
  unfoldable pub create_finish : FsPath → List ℕ → FsPath → Stream → Exec (Ctx os) (Unit {0})
  create_finish path c_digest absolute_path s = do
    close_stream os s
    erase_stream os
    matches ← check_digest os path c_digest absolute_path err_create_no_match err_create_failed
    if matches then reply_ok os else pure tt

  -- Inside `try`, after the test of the stream; the result is `is_last`.
  unfoldable pub create_append : FsPath → List ℕ → Stream → Bool → Exec (Ctx os) Bool
  create_append path c_digest s is_first = do
    bytes ← view_value os
    write_stream os s bytes
    flush_stream os s
    is_last ← view_end os
    record_chunk os path c_digest is_first is_last (codes "TEMP")
    pure is_last

  -- The `try` block: `none` is its early return.
  unfoldable pub create_chunk : FsPath → List ℕ → FsPath → Exec (Ctx os) (Option (Stream × Bool))
  create_chunk path c_digest absolute_path =
      try_filesystem
        (do
          (s, is_first) ← get_stream os absolute_path
          ready ← is_ready os s
          if ready
              then (do is_last ← create_append path c_digest s is_first; pure (some (s, is_last)))
              else (do reply_error os err_create_failed; pure none))
        (do reply_error os err_create_failed; pure none)

  unfoldable pub after_create_chunk :
      FsPath → List ℕ → FsPath → Option (Stream × Bool) → Exec (Ctx os) (Unit {0})
  after_create_chunk path c_digest absolute_path none = pure tt
  after_create_chunk path c_digest absolute_path (some (s, is_last)) =
      if is_last then create_finish path c_digest absolute_path s else reply_ok os

  -- After the tests of the request: the directories, the chunk, and the check after the last chunk.
  unfoldable pub create_file : FsPath → List ℕ → Exec (Ctx os) (Unit {0})
  unfolding after_create_chunk
  create_file path c_digest = do
    d ← get_dir os
    let absolute_path = join d.path path
    ec ← on_disk os (create_directories (parent_path absolute_path))
    if ec then reply_error os err_create_failed else (do
      chunk ← create_chunk path c_digest absolute_path
      after_create_chunk path c_digest absolute_path chunk)

  unfoldable pub create_content : FsPath → List ℕ → Exec (Ctx os) (Unit {0})
  create_content path c_digest = do
    has_content ← next_is os TlvType.content
    if has_content
        then (do
          rsrc ← find_resource os path
          if is_complete rsrc
              then reply_error os err_create_already_exist
              else create_file path c_digest)
        else reply_error os err_create_no_content

  unfoldable pub create_item : Exec (Ctx os) (Unit {0})
  create_item = do
    c_sign ← view_value os
    (path, c_digest) ← lift (Tools.split_sign os c_sign)
    add_item os c_sign
    create_content path c_digest

  unfoldable pub handle_create : Exec (Ctx os) (Unit {0})
  handle_create = do
    tag ← view_type os
    if tag == TlvType.item then create_item else reply_error os err_create_no_item
