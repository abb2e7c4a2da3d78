-- ===== src/Core/RequestHandler/Update/Whole.antt =====
-- core/request_handler.cpp: a file that `handle_update` receives in one chunk.
use remote_backup_m1_server.Prelude.{
  ℕ, ◌≡◌, refl, sym, ap, ◌∙◌, Bool, true, false, Bool-cases, inl, inr, List, [], none, to_string,
  Option-cases, some, codes, bytes_eq, if◌then◌else◌,
}
use remote_backup_m1_server.Outcome.{Outcome, ok}
use remote_backup_m1_server.Platform.{Platform}
use remote_backup_m1_server.Communication.TlvView
use remote_backup_m1_server.Communication.MessageQueue.{MessageQueue}
use remote_backup_m1_server.Communication.Types.TlvType
use remote_backup_m1_server.Communication.Types.ErrType.{
  to_number, err_update_no_match, err_update_failed,
}
use remote_backup_m1_server.Directory.Resource.{Resource}
use remote_backup_m1_server.Directory.Dir.{Dir, insert_or_assign, erase, without}
use remote_backup_m1_server.Core.OpenStreams.{find_stream}
use remote_backup_m1_server.Core.OpenStreams.Laws.{get_stream-none}
use remote_backup_m1_server.Core.Exec.{pure, lift, modify, exit_if, try_filesystem, ◌>>=◌}
use remote_backup_m1_server.Utilities.Tools
use remote_backup_m1_server.Core.RequestHandler.State.{
  Ctx, error_text, closing, close_response, reply_ok, reply_error, view_value, view_end, get_dir,
  deref, set_dir_object, on_disk, get_stream,
}
use remote_backup_m1_server.Core.RequestHandler.Files.{
  assign_resource, erase_resource, record_chunk, is_ready, write_stream, close_stream,
  remove_or_exit, reject_file, check_digest,
}
use remote_backup_m1_server.Core.RequestHandler.Receiving.{
  Chunk, IsSeen, midway, file_path, shut, with_stream, entry, erases_stream,
}
use remote_backup_m1_server.Core.RequestHandler.Update.{
  update_finish, update_append, update_chunk, after_update_chunk, update_file,
}

module _ (os : Platform) (c : Ctx os) (d : Dir os.FsPath) (path : os.FsPath) (digest old : List ℕ)
    (s : os.Stream) where
  abbrev target : os.FsPath
  target = file_path os c d path digest s

  -- Where the new content is written.
  abbrev pub temp_path : os.FsPath
  temp_path = os.concat_path target (codes ".temp")

  abbrev state :
      List (os.FsPath × Resource)
      → os.Disk
      → List (List ℕ × os.Stream)
      → TlvView.TlvView
      → MessageQueue
      → Ctx os
  state = midway os c d path digest s

  update_append-only :
      (k : Chunk) (content : List (os.FsPath × Resource)) (disk : os.Disk) (r : MessageQueue)
      → IsSeen true k
      → update_append os path digest old s true
          (state content disk (with_stream os c d path digest s) k.seen r)
        ≡ (
          ok true,
          state
              (entry os c d path digest s true digest content)
              (os.write s k.bytes disk)
              (with_stream os c d path digest s)
              k.seen
              r,
        )
  unfolding update_append get_dir deref on_disk view_value write_stream view_end record_chunk
      assign_resource set_dir_object insert_or_assign ◌>>=◌ midway
  update_append-only k content disk r h = simp (h.value, h.last) refl

  -- The end of the request, by the digest of the file that is there: an OK, or the file and its entry
  -- gone and an ERROR.
  abbrev pub settled :
      List (os.FsPath × Resource)
      → os.Disk
      → os.Disk
      → TlvView.TlvView
      → MessageQueue
      → Bool
      → Outcome (Unit {0}) × Ctx os
  settled content disk without_file seen r matches =
      if matches
      then (ok tt, state content disk c.streams seen (closing TlvType.ok_tag [] r))
      else close_response os TlvType.error_tag err_update_no_match
          (state (without os.path_hash os.path_eq path content) without_file c.streams seen r)

  check_digest-settled :
      (content : List (os.FsPath × Resource)) (disk without_file : os.Disk) (seen : TlvView.TlvView)
      (r : MessageQueue) (s_digest : List ℕ)
      → Tools.md5_hash_file os target path disk ≡ ok s_digest
      → os.remove target disk ≡ (false, without_file)
      → (check_digest os path digest target err_update_no_match err_update_failed >>= λ matches.
            if matches then reply_ok os else pure tt)
          (state content disk c.streams seen r)
        ≡ settled content disk without_file seen r (bytes_eq s_digest digest)
  unfolding check_digest try_filesystem reject_file remove_or_exit erase_resource get_dir deref
      set_dir_object erase on_disk exit_if reply_error reply_ok close_response error_text to_number
      lift modify pure ◌>>=◌ midway
  check_digest-settled content disk without_file seen r s_digest hash gone =
      elim (Bool-cases (bytes_eq s_digest digest)) [
        | inl e ↦ simp (hash, e) refl
        | inr e ↦ elim (Option-cases (os.freed (to_string (to_number err_update_no_match)))) [
          | inl n ↦ simp (hash, e, gone, n) refl
          | inr (text, n) ↦ simp (hash, e, gone, n) refl
        ]
      ]

  update_finish-settled :
      (content : List (os.FsPath × Resource)) (disk gone renamed without_file : os.Disk)
      (seen : TlvView.TlvView) (r : MessageQueue) (s_digest : List ℕ)
      → os.remove target (shut os c d path digest s disk) ≡ (false, gone)
      → os.rename temp_path target gone ≡ (false, renamed)
      → Tools.md5_hash_file os target path renamed ≡ ok s_digest
      → os.remove target renamed ≡ (false, without_file)
      → update_finish os path digest target temp_path s
          (state content disk (with_stream os c d path digest s) seen r)
        ≡ settled content renamed without_file seen r (bytes_eq s_digest digest)
  unfolding update_finish close_stream on_disk remove_or_exit exit_if ◌>>=◌ midway
  update_finish-settled content disk gone renamed without_file seen r s_digest removed moved hash
        rejects =
      simp (erases_stream os c d path digest s content (os.close s disk) seen r, removed, moved)
        (check_digest-settled content renamed without_file seen r s_digest hash rejects)

  update_chunk-only :
      (k : Chunk) (content : List (os.FsPath × Resource)) (disk : os.Disk) (r : MessageQueue)
      → find_stream os c.user.id c.streams ≡ none
      → os.open_append temp_path c.disk ≡ (s, disk)
      → os.is_good s disk ≡ true
      → IsSeen true k
      → update_chunk os path digest old temp_path (state content c.disk c.streams k.seen r) ≡ (
        ok (some (s, true)),
        state
            (entry os c d path digest s true digest content)
            (os.write s k.bytes disk)
            (with_stream os c d path digest s)
            k.seen
            r,
      )
  unfolding update_chunk try_filesystem get_stream is_ready ◌>>=◌ midway
  update_chunk-only k content disk r none_open opened good seen =
      simp
        (
          get_stream-none os c.user.id temp_path c.streams c.disk none_open,
          opened,
          good,
          update_append-only k content disk r seen,
        )
        refl

  homed-eq : c.user.dir_ptr ≡ some d → state d.content c.disk c.streams c.msg_view c.replies ≡ c
  unfolding midway
  homed-eq dir = λ i. record c { user = record (c.user) { dir_ptr = sym dir i } }

  update_file-homed :
      (k : Chunk) (r : MessageQueue) (disk gone renamed without_file : os.Disk) (s_digest : List ℕ)
      → find_stream os c.user.id c.streams ≡ none
      → os.open_append temp_path c.disk ≡ (s, disk)
      → os.is_good s disk ≡ true
      → IsSeen true k
      → os.remove target (shut os c d path digest s (os.write s k.bytes disk)) ≡ (false, gone)
      → os.rename temp_path target gone ≡ (false, renamed)
      → Tools.md5_hash_file os target path renamed ≡ ok s_digest
      → os.remove target renamed ≡ (false, without_file)
      → update_file os path digest old (state d.content c.disk c.streams k.seen r)
        ≡ settled
            (entry os c d path digest s true digest d.content)
            renamed
            without_file
            k.seen
            r
            (bytes_eq s_digest digest)
  unfolding update_file get_dir deref after_update_chunk ◌>>=◌ midway
  update_file-homed k r disk gone renamed without_file s_digest none_open opened good seen removed
        moved hash rejects =
      simp
        (
          update_chunk-only k d.content disk r none_open opened good seen,
          update_finish-settled (entry os c d path digest s true digest d.content)
              (os.write s k.bytes disk) gone renamed without_file k.seen r s_digest removed moved
              hash rejects,
        )
        refl

  -- A user without an open stream, a stream that opens beside the file, a chunk that is the last of the
  -- request, and no error from the disk: the bytes are written beside the file, which is removed and
  -- replaced. If the new file has the digest that the client sent, the directory has the path as
  -- synchronised with it, and the reply is OK; if not, the file and its entry are gone, and
  -- `close_response` adds the ERROR, as far as the text of its code can be read. No stream is left open.
  pub update_file_lem :
      (bytes : List ℕ) (disk gone renamed without_file : os.Disk) (s_digest : List ℕ)
      → c.user.dir_ptr ≡ some d
      → find_stream os c.user.id c.streams ≡ none
      → os.open_append temp_path c.disk ≡ (s, disk)
      → os.is_good s disk ≡ true
      → IsSeen true (record { seen = c.msg_view; bytes = bytes })
      → os.remove target (shut os c d path digest s (os.write s bytes disk)) ≡ (false, gone)
      → os.rename temp_path target gone ≡ (false, renamed)
      → Tools.md5_hash_file os target path renamed ≡ ok s_digest
      → os.remove target renamed ≡ (false, without_file)
      → update_file os path digest old c
        ≡ settled
            (entry os c d path digest s true digest d.content)
            renamed
            without_file
            c.msg_view
            c.replies
            (bytes_eq s_digest digest)
  update_file_lem bytes disk gone renamed without_file s_digest dir none_open opened good seen
        removed moved hash rejects =
      ap (update_file os path digest old) (sym (homed-eq dir))
      ∙ update_file-homed (record { seen = c.msg_view; bytes = bytes }) c.replies disk gone renamed
          without_file s_digest none_open opened good seen removed moved hash rejects
