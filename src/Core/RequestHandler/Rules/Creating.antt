-- ===== src/Core/RequestHandler/Rules/Creating.antt =====
-- core/request_handler.cpp: `handle_create` closes.
use remote_backup_m1_server.Prelude.{ℕ, Bool, List, Option, none, some, ◌==◌}
use remote_backup_m1_server.Platform.{Platform}
use remote_backup_m1_server.Communication.Types.TlvType
use remote_backup_m1_server.Core.Exec.Triple.{
  Triple, Triple-pure, Triple-bind, Triple-if, Triple-try,
}
use remote_backup_m1_server.Core.RequestHandler.Rules.{FileRules}
use remote_backup_m1_server.Core.RequestHandler.Rules.Steps.{
  Going, Pending, find_resource-Keeps, Open, Closed, Keeps, Closes, then_open, pure-Keeps,
  lift-Keeps, view_type-Keeps, view_value-Keeps, view_end-Keeps, get_dir-Keeps, next_is-Keeps,
  reply_error-Closes, reply_ok-Closes,
}
use remote_backup_m1_server.Core.RequestHandler.Rules.FileSteps.{
  on_disk-Keeps, get_stream-Keeps, erase_stream-Keeps, add_item-Keeps, record_chunk-Keeps,
  check_digest-Going,
}
use remote_backup_m1_server.Core.RequestHandler.Create.{
  is_complete, create_finish, create_append, create_chunk, create_file, create_content, create_item,
  handle_create, after_create_chunk,
}
use remote_backup_m1_server.Core.RequestHandler.Rules.Chunks.{
  checked, write_stream-Keeps, flush_stream-Keeps, close_stream-Keeps, is_ready-Keeps, failed_chunk,
}

module _ (os : Platform) (files : FileRules os) where
  create_finish-Closes :
      (path : os.FsPath) (c_digest : List ℕ) (absolute_path : os.FsPath) (s : os.Stream)
      → Closes os files.rules.views (create_finish os path c_digest absolute_path s)
  unfolding create_finish
  create_finish-Closes path c_digest absolute_path s =
      then_open os files.rules.views _ _ _ (close_stream-Keeps os files s) λ _.
        then_open os files.rules.views _ _ _ (erase_stream-Keeps os files) λ _.
          Triple-bind _ (Going os files.rules.views) _ _ _ _
            (check_digest-Going os files path c_digest absolute_path _ _) (checked os files)

  create_append-Keeps :
      (path : os.FsPath) (c_digest : List ℕ) (s : os.Stream) (is_first : Bool)
      → Keeps os files.rules.views (create_append os path c_digest s is_first)
  unfolding create_append
  create_append-Keeps path c_digest s is_first =
      then_open os files.rules.views _ _ _ (view_value-Keeps os files.rules.views) λ bytes.
        then_open os files.rules.views _ _ _ (write_stream-Keeps os files s bytes) λ _.
          then_open os files.rules.views _ _ _ (flush_stream-Keeps os files s) λ _.
            then_open os files.rules.views _ _ _ (view_end-Keeps os files.rules.views) λ is_last.
              then_open os files.rules.views _ _ _
                (record_chunk-Keeps os files.rules path c_digest is_first is_last _)
                λ _. pure-Keeps os files.rules.views _

  create_chunk-Pending :
      (path : os.FsPath) (c_digest : List ℕ) (absolute_path : os.FsPath)
      → Triple
          (Open os files.rules.views)
          (create_chunk os path c_digest absolute_path)
          (Pending os files.rules.views)
          (Open os files.rules.views)
  unfolding create_chunk
  create_chunk-Pending path c_digest absolute_path =
      Triple-try _ (Pending os files.rules.views) _ _ _
        (then_open os files.rules.views _ _ _ (get_stream-Keeps os files absolute_path) λ r.
          then_open os files.rules.views _ _ _ (is_ready-Keeps os files r.0) λ ready.
            Triple-if _ (Pending os files.rules.views) _ ready _ _
              (then_open os files.rules.views _ _ _ (create_append-Keeps path c_digest r.0 r.1)
                λ is_last.
                  Triple-pure _ (Pending os files.rules.views) _ (some (r.0, is_last)) (λ c o. o))
              (failed_chunk os files _))
        (failed_chunk os files _)

  after_create_chunk-Closes :
      (path : os.FsPath) (c_digest : List ℕ) (absolute_path : os.FsPath)
      (r : Option (os.Stream × Bool))
      → Triple
          (Pending os files.rules.views r)
          (after_create_chunk os path c_digest absolute_path r)
          (λ _. Closed os files.rules.views)
          (Open os files.rules.views)
  unfolding after_create_chunk
  after_create_chunk-Closes path c_digest absolute_path none = Triple-pure _ _ _ tt (λ c h. h)
  after_create_chunk-Closes path c_digest absolute_path (some (s, is_last)) =
      Triple-if _ _ _ is_last _ _ (create_finish-Closes path c_digest absolute_path s)
        (reply_ok-Closes os files.rules.views)

  create_file-Closes :
      (path : os.FsPath) (c_digest : List ℕ)
      → Closes os files.rules.views (create_file os path c_digest)
  unfolding create_file
  create_file-Closes path c_digest =
      then_open os files.rules.views _ _ _ (get_dir-Keeps os files.rules.views) λ d.
        then_open os files.rules.views _ _ _ (on_disk-Keeps os files _) λ ec.
          Triple-if _ _ _ ec _ _ (reply_error-Closes os files.rules.views _) (
            Triple-bind _ (Pending os files.rules.views) _ _ _ _
              (create_chunk-Pending path c_digest _) (after_create_chunk-Closes path c_digest _))

  pub handle_create-Closes : Closes os files.rules.views (handle_create os)
  unfolding handle_create create_item create_content
  handle_create-Closes =
      then_open os files.rules.views _ _ _ (view_type-Keeps os files.rules.views) λ tag.
        Triple-if _ _ _ (tag == TlvType.item) _ _
          (then_open os files.rules.views _ _ _ (view_value-Keeps os files.rules.views) λ c_sign.
            then_open os files.rules.views _ _ _ (lift-Keeps os files.rules.views _) λ r.
              then_open os files.rules.views _ _ _ (add_item-Keeps os files.rules c_sign) λ _.
                then_open os files.rules.views _ _ _ (next_is-Keeps os files.rules.views _)
                  λ has_content.
                    Triple-if _ _ _ has_content _ _
                      (then_open os files.rules.views _ _ _
                        (find_resource-Keeps os files.rules.views r.0)
                        λ rsrc.
                          Triple-if _ _ _ (is_complete rsrc) _ _
                            (reply_error-Closes os files.rules.views _)
                            (create_file-Closes r.0 r.1))
                      (reply_error-Closes os files.rules.views _))
          (reply_error-Closes os files.rules.views _)
