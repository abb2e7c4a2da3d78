-- ===== src/Core/RequestHandler/Create/Uploads.antt =====
-- core/request_handler.cpp: the requests with the chunks of a file, through the whole `handle_request`.
use remote_backup_m1_server.Prelude.{
  ℕ, ◌≡◌, refl, ◌∙◌, true, false, List, [], ◌∷◌, ◌++◌, All, none, some, codes,
}
use remote_backup_m1_server.Outcome.{ok}
use remote_backup_m1_server.Platform.{Platform}
use remote_backup_m1_server.Communication.Message
use remote_backup_m1_server.Communication.Message.{Message}
use remote_backup_m1_server.Communication.MessageQueue.{MessageQueue, new, add_tlv}
use remote_backup_m1_server.Communication.TlvView
use remote_backup_m1_server.Communication.TlvView.{TlvView}
use remote_backup_m1_server.Communication.Types.MsgType
use remote_backup_m1_server.Communication.Types.TlvType
use remote_backup_m1_server.Directory.Resource.{Resource}
use remote_backup_m1_server.Directory.Dir.{Dir, rsrc}
use remote_backup_m1_server.Core.OpenStreams.{find_stream}
use remote_backup_m1_server.Core.Exec.{Exec, lift, gets, modify, pure, ◌>>=◌, ◌>>◌}
use remote_backup_m1_server.Utilities.Tools
use remote_backup_m1_server.Core.RequestHandler.State.{
  Config, Ctx, closing, view_type, view_value, view_next, next_is, more_of, view_after, add_item,
  get_dir, deref,
}
use remote_backup_m1_server.Core.RequestHandler.Files.{find_resource}
use remote_backup_m1_server.Core.RequestHandler.Create.{
  is_complete, create_content, create_item, handle_create,
}
use remote_backup_m1_server.Core.RequestHandler.{
  handle_request, serve_request, dispatch, serve_synced,
}
use remote_backup_m1_server.Core.RequestHandler.Receiving.{Chunk, IsSeen, midway}
use remote_backup_m1_server.Core.RequestHandler.Create.Chunks.{
  create_file-first, create_file-middle,
}
use remote_backup_m1_server.Core.RequestHandler.Create.Transfer.{
  receive, receive_all, receive-at_home, target, streams, state, known, added, closed, received,
  all_bytes, AllReady, Joins, receive_all-receive, find-assign_same, same_key_refl,
}

-- A request, the view on its ITEM, and its chunk.
pub record Upload : Type 0 where
  pub request : Message
  pub item : TlvView
  pub chunk : Chunk

-- The type CREATE, first an ITEM with the sign, then the CONTENT.
pub record IsUpload (sign : List ℕ) (u : Upload) : Type 0 where
  pub named : Message.msg_type u.request ≡ ok MsgType.create
  pub to_item : TlvView.next_tlv (TlvView.view u.request) ≡ ok (true, u.item)
  pub item_type : TlvView.get_type u.item ≡ ok TlvType.item
  pub item_value : TlvView.get_value u.item ≡ ok sign
  pub to_content : TlvView.next_tlv u.item ≡ ok (true, u.chunk.seen)
  pub content_type : TlvView.get_type u.chunk.seen ≡ ok TlvType.content

-- The replies when the ITEM is echoed.
abbrev pub begun : List ℕ → MessageQueue
begun sign = add_tlv (new MsgType.create) (record { tag = TlvType.item; value = sign })

module _ (os : Platform) (config : Config os) (sign : List ℕ) (path : os.FsPath) (digest : List ℕ)
    (split : Tools.split_sign os sign ≡ ok (path, digest)) where
  unfoldable pub upload_all : List Upload → Exec (Ctx os) (Unit {0})
  upload_all [] = pure tt
  upload_all (u ∷ us) = let rest = upload_all us in handle_request os config u.request >> rest

  -- An authenticated and synchronised session without a complete file at the path comes to
  -- `create_file`.
  handle_request-receive :
      (c : Ctx os) (d : Dir os.FsPath) (s : os.Stream) (u : Upload) (x : Ctx os) (e : Dir os.FsPath)
      → IsUpload sign u
      → x.user.is_auth ≡ true
      → x.user.is_synced ≡ true
      → x.user.dir_ptr ≡ some e
      → is_complete (rsrc os.path_hash os.path_eq e path) ≡ false
      → handle_request os config u.request x ≡ receive os c d path digest s (begun sign) u.chunk x
  unfolding handle_request serve_request dispatch serve_synced handle_create create_item
      create_content next_is view_next view_type view_value more_of view_after add_item
      find_resource get_dir deref receive lift gets modify pure ◌>>=◌
  handle_request-receive c d s u x e is auth synced dir incomplete =
      simp
        (
          is.named, is.to_item, auth, synced, is.item_type, is.item_value, split, is.to_content,
          is.content_type, dir, incomplete,
        )
        refl

  abbrev pub chunks : List Upload → List Chunk
  chunks [] = []
  chunks (u ∷ us) = u.chunk ∷ chunks us

  module _ (c : Ctx os) (d : Dir os.FsPath) (s : os.Stream) (auth : c.user.is_auth ≡ true)
      (synced : c.user.is_synced ≡ true) where
    upload_all-rest :
        (more : List Upload) (last : Upload) (content : List (os.FsPath × Resource))
        (disk : os.Disk) (k : Chunk) (r : MessageQueue)
        → is_complete (rsrc os.path_hash os.path_eq (record d { content = content }) path) ≡ false
        → All (IsUpload sign) (more ++ (last ∷ []))
        → AllReady os c d path digest s (begun sign) disk (chunks more ++ (last.chunk ∷ []))
        → All (IsSeen false) (chunks more)
        → upload_all (more ++ (last ∷ [])) (
            state os c d path digest s
              (begun sign)
              content
              disk
              (streams os c d path digest s (begun sign))
              k.seen
              r)
          ≡ receive_all os c d path digest s (begun sign) (chunks more ++ (last.chunk ∷ [])) (
              state os c d path digest s
                (begun sign)
                content
                disk
                (streams os c d path digest s (begun sign))
                k.seen
                r)
    unfolding upload_all receive_all receive modify ◌>>=◌ pure midway
    upload_all-rest [] last content disk k r incomplete is ready seen =
        let step =
          handle_request-receive c d s last
            (state os c d path digest s (begun sign) content disk
              (streams os c d path digest s (begun sign)) k.seen r)
            (record d { content = content }) is.0 auth synced refl incomplete in
        simp step refl
    upload_all-rest (m ∷ more) last content disk k r incomplete is ready seen =
        let step =
          handle_request-receive c d s m
            (state os c d path digest s (begun sign) content disk
              (streams os c d path digest s (begun sign)) k.seen r)
            (record d { content = content }) is.0 auth synced refl incomplete in
        let middle =
          create_file-middle os c d path digest s m.chunk content disk (begun sign) ready.0
            seen.0 in
        simp (step, middle)
          (upload_all-rest more last content
            (added os c d path digest s (begun sign) disk m.chunk.bytes) m.chunk
            (closing TlvType.ok_tag [] (begun sign)) incomplete is.1 ready.1 seen.1)

    upload_all-receive_all :
        (k : Upload) (more : List Upload) (last : Upload) (disk : os.Disk)
        → c.user.dir_ptr ≡ some d
        → os.path_eq path path ≡ true
        → (os.create_directories
            (os.parent_path (target os c d path digest s (begun sign)))
            c.disk).0
          ≡ false
        → find_stream os c.user.id c.streams ≡ none
        → os.open_append
            (target os c d path digest s (begun sign))
            (os.create_directories
              (os.parent_path (target os c d path digest s (begun sign)))
              c.disk).1
          ≡ (s, disk)
        → os.is_good s disk ≡ true
        → AllReady os c d path digest s
            (begun sign)
            (added os c d path digest s (begun sign) disk k.chunk.bytes)
            (chunks more ++ (last.chunk ∷ []))
        → IsSeen false k.chunk
        → All (IsSeen false) (chunks more)
        → is_complete (rsrc os.path_hash os.path_eq d path) ≡ false
        → All (IsUpload sign) (k ∷ (more ++ (last ∷ [])))
        → upload_all (k ∷ (more ++ (last ∷ []))) c
          ≡ receive_all os c d path digest s
              (begun sign)
              (k.chunk ∷ (chunks more ++ (last.chunk ∷ [])))
              c
    unfolding upload_all receive_all ◌>>=◌ rsrc is_complete
    upload_all-receive_all k more last disk dir same made none_open opened good ready first middle
          incomplete are =
        let temp = known os c d path digest s (begun sign) false (codes "TEMP") d.content in
        let not_yet : is_complete (rsrc os.path_hash os.path_eq (record d { content = temp }) path)
            ≡ false =
          rw
            (find-assign_same os.path_hash os.path_eq path
              (record { synced = false; digest = codes "TEMP" }) d.content
              (same_key_refl os.path_hash os.path_eq path same))
            refl in
        simp
          (
            handle_request-receive c d s k c d are.0 auth synced dir incomplete,
            receive-at_home os c d path digest s (begun sign) k.chunk dir,
            create_file-first os c d path digest s k.chunk disk d.content (begun sign) made
                none_open opened good first,
          )
          (upload_all-rest more last temp
            (added os c d path digest s (begun sign) disk k.chunk.bytes) k.chunk
            (closing TlvType.ok_tag [] (begun sign)) not_yet are.1 ready middle)

    -- An authenticated and synchronised session whose user has no open stream and no complete file at
    -- the path, a stream that opens and joins what is written to it, directories that are there after
    -- they were made, a file that does not change when it is opened once more and closed, and a file
    -- that has the digest that the client sent: to handle the CREATE requests with its chunks, the last
    -- of which ends with its chunk, leaves the same disk, streams, user and replies as to handle one
    -- request with all bytes, and these are the file written whole, the stream closed, the entry
    -- synchronised, and the reply OK.
    pub upload_all-upload :
        (k : Upload) (more : List Upload) (last whole : Upload) (disk : os.Disk)
        → c.user.dir_ptr ≡ some d
        → is_complete (rsrc os.path_hash os.path_eq d path) ≡ false
        → os.path_eq path path ≡ true
        → Joins os c d path digest s (begun sign)
        → (os.create_directories
            (os.parent_path (target os c d path digest s (begun sign)))
            c.disk).0
          ≡ false
        → find_stream os c.user.id c.streams ≡ none
        → os.open_append
            (target os c d path digest s (begun sign))
            (os.create_directories
              (os.parent_path (target os c d path digest s (begun sign)))
              c.disk).1
          ≡ (s, disk)
        → os.is_good s disk ≡ true
        → AllReady os c d path digest s
            (begun sign)
            (added os c d path digest s (begun sign) disk k.chunk.bytes)
            (chunks more ++ (last.chunk ∷ []))
        → IsSeen false k.chunk
        → All (IsSeen false) (chunks more)
        → IsSeen true last.chunk
        → IsSeen true whole.chunk
        → All (IsUpload sign) (k ∷ (more ++ (last ∷ [])))
        → IsUpload sign whole
        → whole.chunk.bytes ≡ all_bytes (k.chunk ∷ (chunks more ++ (last.chunk ∷ [])))
        → Tools.md5_hash_file os (target os c d path digest s (begun sign)) path (
            closed os c d path digest s
              (begun sign)
              (added os c d path digest s (begun sign) disk whole.chunk.bytes))
          ≡ ok digest
        → let all_written = added os c d path digest s (begun sign) disk whole.chunk.bytes in
          (upload_all (k ∷ (more ++ (last ∷ []))) c
            ≡ (ok tt, received os c d path digest s (begun sign) all_written last.chunk))
          × (handle_request os config whole.request c
              ≡ (ok tt, received os c d path digest s (begun sign) all_written whole.chunk))
    upload_all-upload k more last whole disk dir incomplete same joins made none_open opened good
          ready first middle ends whole_seen are is bytes matches =
        let (many, once) =
          receive_all-receive os c d path digest s (begun sign) k.chunk (chunks more) last.chunk
            whole.chunk disk dir same joins made none_open opened good ready first middle ends
            whole_seen bytes matches in
        (
          upload_all-receive_all k more last disk dir same made none_open opened good ready first
                middle incomplete are
              ∙ many,
          handle_request-receive c d s whole c d is auth synced dir incomplete ∙ once,
        )
