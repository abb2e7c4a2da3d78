-- ===== src/Core/RequestHandler/Erase.antt =====
-- core/request_handler.cpp: `handle_erase`, in the order of its statements.
pub mod Pruning
pub mod Whole
use remote_backup_m1_server.Prelude.{
  ℕ, suc, zero, Bool, false, ◌||◌, List, Option, none, some, bytes_eq, length, if◌then◌else◌, ◌==◌,
}
use remote_backup_m1_server.Outcome.{stuck}
use remote_backup_m1_server.Platform.{Platform}
use remote_backup_m1_server.Communication.Types.TlvType
use remote_backup_m1_server.Communication.Types.ErrType.{
  err_none, err_erase_no_item, err_erase_no_match,
}
use remote_backup_m1_server.Directory.Resource.{Resource}
use remote_backup_m1_server.Utilities.Tools
use remote_backup_m1_server.Core.Exec.{Exec, pure, lift, gets, ◌>>=◌, ◌>>◌}
use remote_backup_m1_server.Core.RequestHandler.Files.{find_resource, erase_resource}
use remote_backup_m1_server.Core.RequestHandler.State.{
  Ctx, close_response, reply_error, add_item, view_type, view_value, get_dir, on_disk,
}

-- `rsrc && rsrc.value().digest() == c_digest`
unfoldable pub has_digest : Option Resource → List ℕ → Bool
has_digest none c_digest = false
has_digest (some r) c_digest = bytes_eq r.digest c_digest

module _ (os : Platform) where
  open os use {FsPath, path_eq, generic_string, join, parent_path, remove, is_empty}

  -- `while (!ec && tmp != user_dir->path() && is_empty(tmp, ec)) { … }` on fuel.
  unfoldable pub prune : ℕ → FsPath → FsPath → Bool → Exec (Ctx os) (Unit {0})
  prune zero root tmp ec = lift stuck
  prune (suc fuel) root tmp ec =
      let next = λ (ec' : Bool). prune fuel root (parent_path tmp) ec' in
      if ec || path_eq tmp root then pure tt else (do
        empty ← gets (λ c. is_empty tmp c.disk)
        if empty then (do ec' ← on_disk os (remove tmp); next ec') else pure tt)

  -- A path gets shorter in every round.
  unfoldable pub prune_fuel : FsPath → ℕ
  prune_fuel tmp = suc (suc (length (generic_string tmp)))

  unfoldable pub erase_file : FsPath → Exec (Ctx os) (Unit {0})
  erase_file path = do
    d ← get_dir os
    let tmp = join d.path path
    ec ← on_disk os (remove tmp)
    if ec then close_response os TlvType.error_tag err_none else (do
      erased ← erase_resource os path
      close_response os (if erased then TlvType.ok_tag else TlvType.error_tag) err_none
      prune (prune_fuel (parent_path tmp)) d.path (parent_path tmp) false)

  unfoldable pub erase_item : Exec (Ctx os) (Unit {0})
  erase_item = do
    c_sign ← view_value os
    (path, c_digest) ← lift (Tools.split_sign os c_sign)
    add_item os c_sign
    rsrc ← find_resource os path
    if has_digest rsrc c_digest then erase_file path else reply_error os err_erase_no_match

  unfoldable pub handle_erase : Exec (Ctx os) (Unit {0})
  handle_erase = do
    tag ← view_type os
    if tag == TlvType.item then erase_item else reply_error os err_erase_no_item
