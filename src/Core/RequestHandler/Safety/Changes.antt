-- ===== src/Core/RequestHandler/Safety/Changes.antt =====
-- core/request_handler.cpp: `handle_update` and `handle_erase` on a request of whole segments.
use remote_backup_m1_server.Prelude.{ℕ, Bool, List, Option, none, some}
use remote_backup_m1_server.Platform.{Platform}
use remote_backup_m1_server.Directory.Resource.{Resource}
use remote_backup_m1_server.Core.Exec.Safety.{Safe-try, Safe-exit_if}
use remote_backup_m1_server.Utilities.Tools.Signs.{IsText}
use remote_backup_m1_server.Core.RequestHandler.Files.{is_ready, write_stream, close_stream}
use remote_backup_m1_server.Core.RequestHandler.Safety.{
  IsLenient, Homed, bind-Keeps, pure-Keeps, gets-Keeps, if-Keeps, reply_error-Keeps, reply_ok-Keeps,
  get_dir-Keeps, on_disk-Keeps, get_stream-Keeps, erase_stream-Keeps, find_resource-Keeps,
  erase_resource-Keeps, record_chunk-Keeps, remove_or_exit-Keeps, check_digest-Keeps,
  close_response-Keeps, Keeps,
}
use remote_backup_m1_server.Core.RequestHandler.Safety.Views.{view_end-Safe}
use remote_backup_m1_server.Core.RequestHandler.Update.{
  update_finish, update_append, update_chunk, after_update_chunk, update_file, update_known,
  update_content, update_item, handle_update,
}
use remote_backup_m1_server.Core.RequestHandler.Erase.{
  erase_file, erase_item, handle_erase, prune, prune_fuel,
}
use remote_backup_m1_server.Core.RequestHandler.Erase.Pruning.{HasParents, prune_lem}
use remote_backup_m1_server.Core.RequestHandler.Safety.Handlers.{
  Serving, serving, home, Leaves, then-Leaves, last-Leaves, home-Leaves, if-Leaves, value-Leaves,
  next_is-Leaves, rejects, settles, signed-Leaves, typed-Leaves,
}

module _ (os : Platform) ⦃lenient : IsLenient os⦄ where
  update_append-Leaves :
      (path : os.FsPath) (digest old : List ℕ) (s : os.Stream) (is_first : Bool)
      → Leaves os (update_append os path digest old s is_first)
  unfolding update_append write_stream
  update_append-Leaves path digest old s is_first = value-Leaves os _ λ bytes.
      then-Leaves os _ _ (on_disk-Keeps os (Serving os) (serving os) _) λ _.
        then-Leaves os _ _ (view_end-Safe os (Serving os) (Homed os) (λ c p. p.0)) λ is_last.
          home-Leaves os _ (
            bind-Keeps os (Homed os) (home os) _ _
              (record_chunk-Keeps os (Homed os) (home os) _ _ _ _ _)
              λ _. pure-Keeps os (Homed os) (home os) _)

  update_chunk-Leaves :
      (path : os.FsPath) (digest old : List ℕ) (temp_path : os.FsPath)
      → Leaves os (update_chunk os path digest old temp_path)
  unfolding update_chunk is_ready
  update_chunk-Leaves path digest old temp_path =
      Safe-try (Serving os) (λ _. Homed os) (Homed os) _ _
        (then-Leaves os _ _ (get_stream-Keeps os (Serving os) (serving os) _) λ (s, is_first).
          then-Leaves os _ _ (gets-Keeps os (Serving os) (serving os) _) λ ready.
            if-Leaves os ready _ _
              (last-Leaves os _ _ (update_append-Leaves path digest old s is_first)
                λ is_last. pure-Keeps os (Homed os) (home os) _)
              (home-Leaves os _ (rejects os _ _)))
        (rejects os _ _)

  update_finish-Keeps :
      (path : os.FsPath) (digest : List ℕ) (absolute_path temp_path : os.FsPath) (s : os.Stream)
      → Keeps os (Homed os) (home os) (update_finish os path digest absolute_path temp_path s)
  unfolding update_finish close_stream
  update_finish-Keeps path digest absolute_path temp_path s =
      bind-Keeps os (Homed os) (home os) _ _ (on_disk-Keeps os (Homed os) (home os) _) λ _.
        bind-Keeps os (Homed os) (home os) _ _ (erase_stream-Keeps os (Homed os) (home os)) λ _.
          bind-Keeps os (Homed os) (home os) _ _ (remove_or_exit-Keeps os (Homed os) (home os) _)
            λ _.
              bind-Keeps os (Homed os) (home os) _ _ (on_disk-Keeps os (Homed os) (home os) _) λ ec.
                bind-Keeps os (Homed os) (home os) _ _ (Safe-exit_if (Homed os) (Homed os) ec) λ _.
                  bind-Keeps os (Homed os) (home os) _ _
                    (check_digest-Keeps os path digest absolute_path _ _) (settles os)

  after_update_chunk-Keeps :
      (path : os.FsPath) (digest : List ℕ) (absolute_path temp_path : os.FsPath)
      (chunk : Option (os.Stream × Bool))
      → Keeps os
          (Homed os)
          (home os)
          (after_update_chunk os path digest absolute_path temp_path chunk)
  unfolding after_update_chunk
  after_update_chunk-Keeps path digest absolute_path temp_path none =
      pure-Keeps os (Homed os) (home os) tt
  after_update_chunk-Keeps path digest absolute_path temp_path (some (s, is_last)) =
      if-Keeps os (Homed os) (home os) is_last _ _
        (update_finish-Keeps path digest absolute_path temp_path s)
        (reply_ok-Keeps os (Homed os) (home os))

  update_file-Leaves :
      (path : os.FsPath) (digest old : List ℕ) → Leaves os (update_file os path digest old)
  unfolding update_file
  update_file-Leaves path digest old =
      then-Leaves os _ _ (get_dir-Keeps os (Serving os) (serving os)) λ d.
        last-Leaves os _ _ (update_chunk-Leaves path digest old _)
          λ chunk. after_update_chunk-Keeps path digest _ _ chunk

  update_known-Leaves :
      (path : os.FsPath) (digest : List ℕ) (r : Option Resource)
      → Leaves os (update_known os path digest r)
  unfolding update_known
  update_known-Leaves path digest none =
      home-Leaves os _ (reply_error-Keeps os (Homed os) (home os) _)
  update_known-Leaves path digest (some r) =
      if-Leaves os _ _ _ (home-Leaves os _ (reply_error-Keeps os (Homed os) (home os) _))
        (update_file-Leaves path digest r.digest)

  update_content-Leaves :
      (path : os.FsPath) (digest : List ℕ) → Leaves os (update_content os path digest)
  unfolding update_content
  update_content-Leaves path digest =
      next_is-Leaves os _ _ _
        (then-Leaves os _ _ (find_resource-Keeps os (Serving os) (serving os) path)
          λ r. update_known-Leaves path digest r)
        (reply_error-Keeps os (Homed os) (home os) _)

  pub handle_update-Leaves : IsText os → Leaves os (handle_update os)
  unfolding handle_update update_item
  handle_update-Leaves laws = typed-Leaves os _ λ tag.
      if-Leaves os _ _ _ (signed-Leaves os laws _ update_content-Leaves)
        (home-Leaves os _ (reply_error-Keeps os (Homed os) (home os) _))

  -- The loop over the directories comes to an end.
  prune-Keeps :
      (parents : HasParents os) (root tmp : os.FsPath) (ec : Bool)
      → Keeps os (Homed os) (home os) (prune os (prune_fuel os tmp) root tmp ec)
  prune-Keeps parents root tmp ec = record {
    at = λ c h. let (d, run, same) = prune_lem os parents root tmp ec c in rw (run, same) h;
  }

  erase_file-Keeps :
      HasParents os → (path : os.FsPath) → Keeps os (Homed os) (home os) (erase_file os path)
  unfolding erase_file
  erase_file-Keeps parents path =
      bind-Keeps os (Homed os) (home os) _ _ (get_dir-Keeps os (Homed os) (home os)) λ d.
        bind-Keeps os (Homed os) (home os) _ _ (on_disk-Keeps os (Homed os) (home os) _) λ ec.
          if-Keeps os (Homed os) (home os) ec _ _ (close_response-Keeps os (Homed os) (home os) _ _)
            (bind-Keeps os (Homed os) (home os) _ _
              (erase_resource-Keeps os (Homed os) (home os) path)
              λ erased.
                bind-Keeps os (Homed os) (home os) _ _
                  (close_response-Keeps os (Homed os) (home os) _ _) λ _. prune-Keeps parents _ _ _)

  pub handle_erase-Leaves : IsText os → HasParents os → Leaves os (handle_erase os)
  unfolding handle_erase erase_item
  handle_erase-Leaves laws parents = typed-Leaves os _ λ tag.
      if-Leaves os _ _ _
        (signed-Leaves os laws _ λ path digest.
          then-Leaves os _ _ (find_resource-Keeps os (Serving os) (serving os) path) λ r.
            home-Leaves os _ (
              if-Keeps os (Homed os) (home os) _ _ _ (erase_file-Keeps parents path)
                (reply_error-Keeps os (Homed os) (home os) _)))
        (home-Leaves os _ (reply_error-Keeps os (Homed os) (home os) _))
