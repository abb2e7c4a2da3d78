-- ===== src/Core/RequestHandler/Create/Chunks.antt =====
-- core/request_handler.cpp: a file that `handle_create` receives in several chunks, one in each request.
use remote_backup_m1_server.Prelude.{ℕ, ◌≡◌, refl, Bool, true, false, List, [], none, codes}
use remote_backup_m1_server.Outcome.{ok}
use remote_backup_m1_server.Platform.{Platform}
use remote_backup_m1_server.Communication.TlvView
use remote_backup_m1_server.Communication.MessageQueue.{MessageQueue}
use remote_backup_m1_server.Communication.Types.TlvType
use remote_backup_m1_server.Communication.Types.ErrType.{to_number}
use remote_backup_m1_server.Communication.Types.ErrType.{err_create_no_match, err_create_failed}
use remote_backup_m1_server.Directory.Dir.{Dir, insert_or_assign}
use remote_backup_m1_server.Directory.Resource.{Resource}
use remote_backup_m1_server.Core.OpenStreams.{Streams, find_stream}
use remote_backup_m1_server.Core.OpenStreams.Laws.{get_stream-none, get_stream-head}
use remote_backup_m1_server.Core.Exec.{lift, modify, try_filesystem, ◌>>=◌}
use remote_backup_m1_server.Utilities.Tools
use remote_backup_m1_server.Core.RequestHandler.State.{
  Ctx, error_text, closing, close_response, reply_ok, view_value, view_end, get_dir, deref,
  set_dir_object, on_disk, get_stream,
}
use remote_backup_m1_server.Core.RequestHandler.Files.{
  assign_resource, record_chunk, is_ready, write_stream, flush_stream, close_stream,
}
use remote_backup_m1_server.Core.RequestHandler.Create.Whole.{check_digest-ok}
use remote_backup_m1_server.Core.RequestHandler.Create.{
  create_finish, create_append, create_chunk, after_create_chunk, create_file,
}
use remote_backup_m1_server.Core.RequestHandler.Receiving.{
  Chunk, IsSeen, file_path, midway, with_stream, entry, appended, IsReady, shut, erases_stream,
}

module _ (os : Platform) (c : Ctx os) (d : Dir os.FsPath) (path : os.FsPath) (digest : List ℕ)
    (s : os.Stream) where
  abbrev target : os.FsPath
  target = file_path os c d path digest s

  abbrev streams : Streams os
  streams = with_stream os c d path digest s

  abbrev state :
      List (os.FsPath × Resource) → os.Disk → Streams os → TlvView.TlvView → MessageQueue → Ctx os
  state = midway os c d path digest s

  abbrev known : Bool → List ℕ → List (os.FsPath × Resource) → List (os.FsPath × Resource)
  known = entry os c d path digest s

  abbrev added : os.Disk → List ℕ → os.Disk
  added = appended os c d path digest s

  abbrev closed : os.Disk → os.Disk
  closed = shut os c d path digest s

  abbrev Ready : os.Disk → Type 0
  Ready = IsReady os c d path digest s

  create_append-middle :
      (k : Chunk) (content : List (os.FsPath × Resource)) (disk : os.Disk) (r : MessageQueue)
      → IsSeen false k
      → create_append os path digest s false (state content disk streams k.seen r)
        ≡ (ok false, state content (added disk k.bytes) streams k.seen r)
  unfolding create_append on_disk view_value write_stream flush_stream view_end record_chunk ◌>>=◌
      midway
  create_append-middle k content disk r h = simp (h.value, h.last) refl

  create_append-last :
      (k : Chunk) (content : List (os.FsPath × Resource)) (disk : os.Disk) (r : MessageQueue)
      → IsSeen true k
      → create_append os path digest s false (state content disk streams k.seen r)
        ≡ (ok true, state (known true digest content) (added disk k.bytes) streams k.seen r)
  unfolding create_append get_dir deref on_disk view_value write_stream flush_stream view_end
      record_chunk assign_resource set_dir_object insert_or_assign ◌>>=◌ midway
  create_append-last k content disk r h = simp (h.value, h.last) refl

  create_append-first :
      (k : Chunk) (content : List (os.FsPath × Resource)) (disk : os.Disk) (r : MessageQueue)
      → IsSeen false k
      → create_append os path digest s true (state content disk streams k.seen r) ≡ (
        ok false,
        state (known false (codes "TEMP") content) (added disk k.bytes) streams k.seen r,
      )
  unfolding create_append get_dir deref on_disk view_value write_stream flush_stream view_end
      record_chunk assign_resource set_dir_object insert_or_assign ◌>>=◌ midway
  create_append-first k content disk r h = simp (h.value, h.last) refl

  -- The stream of the user is found, and the new one is closed.
  found_stream :
      (content : List (os.FsPath × Resource)) (disk : os.Disk) (seen : TlvView.TlvView)
      (r : MessageQueue)
      → Ready disk
      → get_stream os target (state content disk streams seen r)
        ≡ (ok (s, false), state content disk streams seen r)
  unfolding get_stream midway
  found_stream content disk seen r h =
      simp (get_stream-head os c.user.id target s c.streams disk, h.reopened) refl

  pub create_file-middle :
      (k : Chunk) (content : List (os.FsPath × Resource)) (disk : os.Disk) (r : MessageQueue)
      → Ready disk
      → IsSeen false k
      → create_file os path digest (state content disk streams k.seen r)
        ≡ (ok tt, state content (added disk k.bytes) streams k.seen (closing TlvType.ok_tag [] r))
  unfolding create_file get_dir deref on_disk create_chunk after_create_chunk try_filesystem
      is_ready reply_ok close_response error_text to_number lift modify ◌>>=◌ midway
  create_file-middle k content disk r h seen =
      simp
        (
          h.made,
          found_stream content disk k.seen r h,
          h.good,
          create_append-middle k content disk r seen,
        )
        refl

  create_finish-last :
      (content : List (os.FsPath × Resource)) (disk : os.Disk) (seen : TlvView.TlvView)
      (r : MessageQueue)
      → Tools.md5_hash_file os target path (closed disk) ≡ ok digest
      → create_finish os path digest target s (state content disk streams seen r)
        ≡ (ok tt, state content (closed disk) c.streams seen (closing TlvType.ok_tag [] r))
  unfolding create_finish close_stream on_disk reply_ok close_response error_text to_number lift
      modify ◌>>=◌ midway
  create_finish-last content disk seen r matches =
      simp
        (
          erases_stream os c d path digest s content (os.close s disk) seen r,
          check_digest-ok os c d path digest [] (state content (closed disk) c.streams seen r)
              err_create_no_match err_create_failed matches,
        )
        refl

  pub create_file-last :
      (k : Chunk) (content : List (os.FsPath × Resource)) (disk : os.Disk) (r : MessageQueue)
      → Ready disk
      → IsSeen true k
      → Tools.md5_hash_file os target path (closed (added disk k.bytes)) ≡ ok digest
      → create_file os path digest (state content disk streams k.seen r) ≡ (
        ok tt,
        state
            (known true digest content)
            (closed (added disk k.bytes))
            c.streams
            k.seen
            (closing TlvType.ok_tag [] r),
      )
  unfolding create_file get_dir deref on_disk create_chunk after_create_chunk try_filesystem
      is_ready ◌>>=◌ midway
  create_file-last k content disk r h seen matches =
      simp
        (
          h.made,
          found_stream content disk k.seen r h,
          h.good,
          create_append-last k content disk r seen,
          create_finish-last (known true digest content) (added disk k.bytes) k.seen r matches,
        )
        refl

  -- The first chunk: the directories are made, and the file is opened.
  pub create_file-first :
      (k : Chunk) (disk : os.Disk) (content : List (os.FsPath × Resource)) (r : MessageQueue)
      → (os.create_directories (os.parent_path target) c.disk).0 ≡ false
      → find_stream os c.user.id c.streams ≡ none
      → os.open_append target (os.create_directories (os.parent_path target) c.disk).1 ≡ (s, disk)
      → os.is_good s disk ≡ true
      → IsSeen false k
      → create_file os path digest (state content c.disk c.streams k.seen r) ≡ (
        ok tt,
        state
            (known false (codes "TEMP") content)
            (added disk k.bytes)
            streams
            k.seen
            (closing TlvType.ok_tag [] r),
      )
  unfolding create_file get_dir deref on_disk create_chunk after_create_chunk try_filesystem
      is_ready get_stream reply_ok close_response error_text to_number lift modify ◌>>=◌ midway
  create_file-first k disk content r made none_open opened good seen =
      simp
        (
          made,
          get_stream-none os c.user.id target c.streams
              (os.create_directories (os.parent_path target) c.disk).1 none_open,
          opened,
          good,
          create_append-first k content disk r seen,
        )
        refl

  pub create_file-only :
      (k : Chunk) (disk : os.Disk) (content : List (os.FsPath × Resource)) (r : MessageQueue)
      → (os.create_directories (os.parent_path target) c.disk).0 ≡ false
      → find_stream os c.user.id c.streams ≡ none
      → os.open_append target (os.create_directories (os.parent_path target) c.disk).1 ≡ (s, disk)
      → os.is_good s disk ≡ true
      → IsSeen true k
      → Tools.md5_hash_file os target path (closed (added disk k.bytes)) ≡ ok digest
      → create_file os path digest (state content c.disk c.streams k.seen r) ≡ (
        ok tt,
        state
            (known true digest content)
            (closed (added disk k.bytes))
            c.streams
            k.seen
            (closing TlvType.ok_tag [] r),
      )
  unfolding create_file create_append record_chunk assign_resource set_dir_object insert_or_assign
      view_value write_stream flush_stream view_end get_dir deref on_disk create_chunk
      after_create_chunk try_filesystem is_ready get_stream reply_ok close_response error_text
      to_number lift modify ◌>>=◌ midway
  create_file-only k disk content r made none_open opened good seen matches =
      simp
        (
          made,
          get_stream-none os c.user.id target c.streams
              (os.create_directories (os.parent_path target) c.disk).1 none_open,
          opened,
          good,
          seen.value,
          seen.last,
          create_finish-last (known true digest content) (added disk k.bytes) k.seen r matches,
        )
        refl
