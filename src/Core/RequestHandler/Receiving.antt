-- ===== src/Core/RequestHandler/Receiving.antt =====
-- core/request_handler.cpp: the session on the way through a transfer, for `handle_create` and
-- `handle_update`.
use remote_backup_m1_server.Prelude.{ℕ, ◌≡◌, refl, Bool, true, false, List, ◌∷◌, some}
use remote_backup_m1_server.Outcome.{ok}
use remote_backup_m1_server.Platform.{Platform}
use remote_backup_m1_server.Communication.TlvView
use remote_backup_m1_server.Communication.MessageQueue.{MessageQueue}
use remote_backup_m1_server.Directory.Dir.{Dir, assign}
use remote_backup_m1_server.Directory.Resource.{Resource}
use remote_backup_m1_server.Core.OpenStreams.{Streams}
use remote_backup_m1_server.Core.OpenStreams.Laws.{erase_stream-head}
use remote_backup_m1_server.Core.RequestHandler.State.{Ctx, erase_stream}

-- The view on the CONTENT of a request, and the bytes that it holds.
pub record Chunk : Type 0 where
  pub seen : TlvView.TlvView
  pub bytes : List ℕ

-- The request of the chunk ends with it, or does not.
pub record IsSeen (is_last : Bool) (k : Chunk) : Type 0 where
  pub value : TlvView.get_value k.seen ≡ ok k.bytes
  pub last : TlvView.verify_end k.seen ≡ ok is_last

module _ (os : Platform) (c : Ctx os) (d : Dir os.FsPath) (path : os.FsPath) (digest : List ℕ)
    (s : os.Stream) where
  abbrev pub file_path : os.FsPath
  file_path = os.join d.path path

  -- The session of `c` on the way, with other entries of its directory.
  unfoldable pub midway :
      List (os.FsPath × Resource) → os.Disk → Streams os → TlvView.TlvView → MessageQueue → Ctx os
  midway content disk streams seen replies = record c {
    disk = disk;
    streams = streams;
    msg_view = seen;
    replies = replies;
    user = record (c.user) { dir_ptr = some (record d { content = content }) };
  }

  abbrev pub with_stream : Streams os
  with_stream = (c.user.id, s) ∷ c.streams

  abbrev pub entry : Bool → List ℕ → List (os.FsPath × Resource) → List (os.FsPath × Resource)
  entry synced text content =
      assign os.path_hash os.path_eq path (record { synced = synced; digest = text }) content

  abbrev pub appended : os.Disk → List ℕ → os.Disk
  appended disk bytes = os.flush s (os.write s bytes disk)

  -- The directories are there, to open the file once more and close it changes nothing, and the
  -- stream can be written to.
  pub record IsReady (disk : os.Disk) : Type 0 where
    pub made : os.create_directories (os.parent_path file_path) disk ≡ (false, disk)
    pub reopened :
        os.close (os.open_append file_path disk).0 (os.open_append file_path disk).1 ≡ disk
    pub good : os.is_good s disk ≡ true

  -- After `close`, and after the stream is destroyed.
  abbrev pub shut : os.Disk → os.Disk
  shut disk = os.close s (os.close s disk)

  pub erases_stream :
      (content : List (os.FsPath × Resource)) (disk : os.Disk) (seen : TlvView.TlvView)
      (r : MessageQueue)
      → erase_stream os (midway content disk with_stream seen r)
        ≡ (ok tt, midway content (os.close s disk) c.streams seen r)
  unfolding erase_stream midway
  erases_stream content disk seen r = simp (erase_stream-head os c.user.id s c.streams disk) refl
