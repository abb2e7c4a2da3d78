-- ===== src/Core/RequestHandler/Rules/Updating.antt =====
-- core/request_handler.cpp: `handle_update` closes.
use remote_backup_m1_server.Prelude.{ℕ, Bool, List, Option, none, some, ◌==◌, bytes_eq}
use remote_backup_m1_server.Platform.{Platform}
use remote_backup_m1_server.Communication.Types.TlvType
use remote_backup_m1_server.Directory.Resource.{Resource}
use remote_backup_m1_server.Core.Exec.Triple.{
  Triple, Triple-pure, Triple-bind, Triple-if, Triple-try,
}
use remote_backup_m1_server.Core.RequestHandler.Rules.{FileRules}
use remote_backup_m1_server.Core.RequestHandler.Rules.Steps.{
  Going, Pending, find_resource-Keeps, Open, Closed, Keeps, Closes, then_open, pure-Keeps,
  lift-Keeps, view_type-Keeps, view_value-Keeps, view_end-Keeps, get_dir-Keeps, exit_if-Keeps,
  next_is-Keeps, reply_error-Closes, reply_ok-Closes,
}
use remote_backup_m1_server.Core.RequestHandler.Rules.FileSteps.{
  on_disk-Keeps, get_stream-Keeps, erase_stream-Keeps, add_item-Keeps, record_chunk-Keeps,
  remove_or_exit-Keeps, check_digest-Going,
}
use remote_backup_m1_server.Core.RequestHandler.Update.{
  update_finish, update_append, update_chunk, update_file, update_known, update_content,
  update_item, handle_update, after_update_chunk,
}
use remote_backup_m1_server.Core.RequestHandler.Rules.Chunks.{
  checked, write_stream-Keeps, close_stream-Keeps, is_ready-Keeps, failed_chunk,
}

module _ (os : Platform) (files : FileRules os) where
  update_finish-Closes :
      (path : os.FsPath) (c_digest : List ℕ) (absolute_path temp_path : os.FsPath) (s : os.Stream)
      → Closes os files.rules.views (update_finish os path c_digest absolute_path temp_path s)
  unfolding update_finish
  update_finish-Closes path c_digest absolute_path temp_path s =
      then_open os files.rules.views _ _ _ (close_stream-Keeps os files s) λ _.
        then_open os files.rules.views _ _ _ (erase_stream-Keeps os files) λ _.
          then_open os files.rules.views _ _ _ (remove_or_exit-Keeps os files absolute_path) λ _.
            then_open os files.rules.views _ _ _ (on_disk-Keeps os files _) λ ec.
              then_open os files.rules.views _ _ _ (exit_if-Keeps os files.rules.views ec) λ _.
                Triple-bind _ (Going os files.rules.views) _ _ _ _
                  (check_digest-Going os files path c_digest absolute_path _ _) (checked os files)

  update_append-Keeps :
      (path : os.FsPath) (c_digest old_digest : List ℕ) (s : os.Stream) (is_first : Bool)
      → Keeps os files.rules.views (update_append os path c_digest old_digest s is_first)
  unfolding update_append
  update_append-Keeps path c_digest old_digest s is_first =
      then_open os files.rules.views _ _ _ (view_value-Keeps os files.rules.views) λ bytes.
        then_open os files.rules.views _ _ _ (write_stream-Keeps os files s bytes) λ _.
          then_open os files.rules.views _ _ _ (view_end-Keeps os files.rules.views) λ is_last.
            then_open os files.rules.views _ _ _
              (record_chunk-Keeps os files.rules path c_digest is_first is_last old_digest)
              λ _. pure-Keeps os files.rules.views _

  update_chunk-Pending :
      (path : os.FsPath) (c_digest old_digest : List ℕ) (temp_path : os.FsPath)
      → Triple
          (Open os files.rules.views)
          (update_chunk os path c_digest old_digest temp_path)
          (Pending os files.rules.views)
          (Open os files.rules.views)
  unfolding update_chunk
  update_chunk-Pending path c_digest old_digest temp_path =
      Triple-try _ (Pending os files.rules.views) _ _ _
        (then_open os files.rules.views _ _ _ (get_stream-Keeps os files temp_path) λ r.
          then_open os files.rules.views _ _ _ (is_ready-Keeps os files r.0) λ ready.
            Triple-if _ (Pending os files.rules.views) _ ready _ _
              (then_open os files.rules.views _ _ _
                (update_append-Keeps path c_digest old_digest r.0 r.1)
                λ is_last.
                  Triple-pure _ (Pending os files.rules.views) _ (some (r.0, is_last)) (λ c o. o))
              (failed_chunk os files _))
        (failed_chunk os files _)

  after_update_chunk-Closes :
      (path : os.FsPath) (c_digest : List ℕ) (absolute_path temp_path : os.FsPath)
      (r : Option (os.Stream × Bool))
      → Triple
          (Pending os files.rules.views r)
          (after_update_chunk os path c_digest absolute_path temp_path r)
          (λ _. Closed os files.rules.views)
          (Open os files.rules.views)
  unfolding after_update_chunk
  after_update_chunk-Closes path c_digest absolute_path temp_path none =
      Triple-pure _ _ _ tt (λ c h. h)
  after_update_chunk-Closes path c_digest absolute_path temp_path (some (s, is_last)) =
      Triple-if _ _ _ is_last _ _ (update_finish-Closes path c_digest absolute_path temp_path s)
        (reply_ok-Closes os files.rules.views)

  update_known-Closes :
      (path : os.FsPath) (c_digest : List ℕ) (rsrc : Option Resource)
      → Closes os files.rules.views (update_known os path c_digest rsrc)
  unfolding update_known update_file
  update_known-Closes path c_digest none = reply_error-Closes os files.rules.views _
  update_known-Closes path c_digest (some r) =
      Triple-if _ _ _ (bytes_eq r.digest c_digest) _ _ (reply_error-Closes os files.rules.views _) (
        then_open os files.rules.views _ _ _ (get_dir-Keeps os files.rules.views) λ d.
          Triple-bind _ (Pending os files.rules.views) _ _ _ _
            (update_chunk-Pending path c_digest r.digest _)
            (after_update_chunk-Closes path c_digest _ _))

  pub handle_update-Closes : Closes os files.rules.views (handle_update os)
  unfolding handle_update update_item update_content
  handle_update-Closes =
      then_open os files.rules.views _ _ _ (view_type-Keeps os files.rules.views) λ tag.
        Triple-if _ _ _ (tag == TlvType.item) _ _
          (then_open os files.rules.views _ _ _ (view_value-Keeps os files.rules.views) λ c_sign.
            then_open os files.rules.views _ _ _ (lift-Keeps os files.rules.views _) λ r.
              then_open os files.rules.views _ _ _ (add_item-Keeps os files.rules c_sign) λ _.
                then_open os files.rules.views _ _ _ (next_is-Keeps os files.rules.views _)
                  λ has_content.
                    Triple-if _ _ _ has_content _ _
                      (then_open os files.rules.views _ _ _
                        (find_resource-Keeps os files.rules.views r.0)
                        λ rsrc. update_known-Closes r.0 r.1 rsrc)
                      (reply_error-Closes os files.rules.views _))
          (reply_error-Closes os files.rules.views _)
