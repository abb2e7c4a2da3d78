-- ===== src/Core/RequestHandler/Create/Whole.antt =====
-- core/request_handler.cpp: a file that `handle_create` receives in one chunk.
use remote_backup_m1_server.Prelude.{
  ℕ, ◌≡◌, refl, sym, subst, true, false, List, [], ◌∷◌, none, some, bytes_eq_refl,
}
use remote_backup_m1_server.Outcome.{ok}
use remote_backup_m1_server.Platform.{Platform}
use remote_backup_m1_server.Communication.TlvView
use remote_backup_m1_server.Communication.Types.TlvType
use remote_backup_m1_server.Communication.Types.ErrType.{
  ErrType, to_number, err_create_no_match, err_create_failed,
}
use remote_backup_m1_server.Directory.Dir.{Dir, insert_or_assign}
use remote_backup_m1_server.Core.OpenStreams.{find_stream}
use remote_backup_m1_server.Core.OpenStreams.Laws.{get_stream-none, erase_stream-head}
use remote_backup_m1_server.Core.Exec.{lift, modify, try_filesystem, ◌>>=◌}
use remote_backup_m1_server.Utilities.Tools
use remote_backup_m1_server.Core.RequestHandler.State.{
  Ctx, error_text, closing, close_response, reply_ok, view_value, view_end, get_dir, deref,
  set_dir_object, on_disk, get_stream, erase_stream,
}
use remote_backup_m1_server.Core.RequestHandler.Files.{
  assign_resource, record_chunk, is_ready, write_stream, flush_stream, close_stream, check_digest,
}
use remote_backup_m1_server.Core.RequestHandler.Create.{
  create_finish, create_append, create_chunk, after_create_chunk, create_file,
}

module _ (os : Platform) (c : Ctx os) (d : Dir os.FsPath) (path : os.FsPath)
    (digest bytes : List ℕ) where
  abbrev pub absolute : os.FsPath
  absolute = os.join d.path path

  abbrev pub prepared : os.Disk
  prepared = (os.create_directories (os.parent_path absolute) c.disk).1

  abbrev pub stream : os.Stream
  stream = (os.open_append absolute prepared).0

  abbrev pub opened : os.Disk
  opened = (os.open_append absolute prepared).1

  -- The chunk is written, and the stream is closed by `close` and again when it is destroyed.
  abbrev pub finished : os.Disk
  finished = os.close stream (os.close stream (os.flush stream (os.write stream bytes opened)))

  abbrev pub stored : Ctx os
  stored = record c {
    disk = finished;
    user = record (c.user) {
      dir_ptr =
          some
            (insert_or_assign os.path_hash os.path_eq d path
              (record { synced = true; digest = digest })).1;
    };
    replies = closing TlvType.ok_tag [] c.replies;
  }

  -- The state with the directory of the user in place, before and after the chunk.
  homed : os.Disk → Ctx os
  homed disk = record c { disk = disk; user = record (c.user) { dir_ptr = some d } }

  abbrev chunked : Ctx os
  chunked = record c {
    disk = os.flush stream (os.write stream bytes opened);
    streams = (c.user.id, stream) ∷ c.streams;
    user = record (c.user) {
      dir_ptr =
          some
            (insert_or_assign os.path_hash os.path_eq d path
              (record { synced = true; digest = digest })).1;
    };
  }

  create_append-ok :
      TlvView.get_value c.msg_view ≡ ok bytes
      → TlvView.verify_end c.msg_view ≡ ok true
      → create_append os path digest stream true
          (record (homed opened) { streams = (c.user.id, stream) ∷ c.streams })
        ≡ (ok true, chunked)
  unfolding create_append get_dir deref on_disk view_value write_stream flush_stream view_end
      record_chunk assign_resource set_dir_object ◌>>=◌ homed
  create_append-ok value last = simp (value, last) refl

  create_chunk-ok :
      find_stream os c.user.id c.streams ≡ none
      → os.is_good stream opened ≡ true
      → TlvView.get_value c.msg_view ≡ ok bytes
      → TlvView.verify_end c.msg_view ≡ ok true
      → create_chunk os path digest absolute (homed prepared) ≡ (ok (some (stream, true)), chunked)
  unfolding create_chunk try_filesystem get_stream is_ready ◌>>=◌ homed
  create_chunk-ok none_open good value last =
      let fresh = get_stream-none os c.user.id absolute c.streams prepared none_open in
      simp (fresh, good, create_append-ok value last) refl

  closes_stream :
      (r : Ctx os)
      → erase_stream os (record r { streams = (r.user.id, stream) ∷ c.streams })
        ≡ (ok tt, record r { streams = c.streams; disk = os.close stream r.disk })
  unfolding erase_stream
  closes_stream r = simp (erase_stream-head os r.user.id stream c.streams r.disk) refl

  pub check_digest-ok :
      (e : Ctx os) (no_match failed : ErrType)
      → Tools.md5_hash_file os absolute path e.disk ≡ ok digest
      → check_digest os path digest absolute no_match failed e ≡ (ok true, e)
  unfolding check_digest try_filesystem ◌>>=◌
  check_digest-ok e no_match failed matches = simp (matches, bytes_eq_refl) refl

  -- After `close`, and after the stream is destroyed.
  abbrev shut : Ctx os
  shut = record chunked { disk = os.close stream (os.flush stream (os.write stream bytes opened)) }

  abbrev freed : Ctx os
  freed = record shut { streams = c.streams; disk = finished }

  create_finish-ok :
      Tools.md5_hash_file os absolute path finished ≡ ok digest
      → create_finish os path digest absolute stream chunked ≡ (ok tt, stored)
  unfolding create_finish close_stream on_disk reply_ok close_response error_text to_number lift
      modify ◌>>=◌
  create_finish-ok matches =
      simp (closes_stream shut, check_digest-ok freed err_create_no_match err_create_failed matches)
        refl

  homed-eq : c.user.dir_ptr ≡ some d → homed c.disk ≡ c
  unfolding homed
  homed-eq dir = λ i. record c { user = record (c.user) { dir_ptr = sym dir i } }

  create_file-homed :
      (os.create_directories (os.parent_path absolute) c.disk).0 ≡ false
      → find_stream os c.user.id c.streams ≡ none
      → os.is_good stream opened ≡ true
      → TlvView.get_value c.msg_view ≡ ok bytes
      → TlvView.verify_end c.msg_view ≡ ok true
      → Tools.md5_hash_file os absolute path finished ≡ ok digest
      → create_file os path digest (homed c.disk) ≡ (ok tt, stored)
  unfolding create_file get_dir deref on_disk after_create_chunk ◌>>=◌ homed
  create_file-homed made none_open good value last matches =
      simp (made, create_chunk-ok none_open good value last, create_finish-ok matches) refl

  -- A user without an open stream, directories that are made without an error, a stream that opens, and a chunk that is the last of the request and
  -- has the digest that the client sent: the bytes are written and the stream is closed, the
  -- directory has the path as synchronised with the digest, the reply is OK, and no stream is left open.
  pub create_file_lem :
      c.user.dir_ptr ≡ some d
      → (os.create_directories (os.parent_path absolute) c.disk).0 ≡ false
      → find_stream os c.user.id c.streams ≡ none
      → os.is_good stream opened ≡ true
      → TlvView.get_value c.msg_view ≡ ok bytes
      → TlvView.verify_end c.msg_view ≡ ok true
      → Tools.md5_hash_file os absolute path finished ≡ ok digest
      → create_file os path digest c ≡ (ok tt, stored)
  create_file_lem dir made none_open good value last matches =
      subst (λ e. create_file os path digest e ≡ (ok tt, stored)) (homed-eq dir)
        (create_file-homed made none_open good value last matches)
