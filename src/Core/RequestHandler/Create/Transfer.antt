-- ===== src/Core/RequestHandler/Create/Transfer.antt =====
-- core/request_handler.cpp: to send a file in chunks comes to the same as to send it at once.
use remote_backup_m1_server.Prelude.{
  ℕ, ◌≡◌, refl, sym, ap, ◌∙◌, Bool, Bool-cases, inl, inr, true, false, List, [], ◌∷◌, ◌++◌,
  append_assoc, append-nil, ==_refl, All, none, some, codes,
}
use remote_backup_m1_server.Outcome.{ok}
use remote_backup_m1_server.Platform.{Platform}
use remote_backup_m1_server.Communication.MessageQueue.{MessageQueue}
use remote_backup_m1_server.Communication.Types.TlvType
use remote_backup_m1_server.Directory.Resource.{Resource}
use remote_backup_m1_server.Directory.Dir.{Dir, same_key, find, assign}
use remote_backup_m1_server.Core.OpenStreams.{Streams, find_stream}
use remote_backup_m1_server.Communication.TlvView.{TlvView}
use remote_backup_m1_server.Core.Exec.{Exec, modify, pure, ◌>>=◌, ◌>>◌}
use remote_backup_m1_server.Utilities.Tools
use remote_backup_m1_server.Core.RequestHandler.State.{Ctx, closing}
use remote_backup_m1_server.Core.RequestHandler.Create.{create_file}
use remote_backup_m1_server.Core.RequestHandler.Receiving.{
  Chunk, IsSeen, midway, file_path, appended, shut, with_stream, entry, IsReady,
}
use remote_backup_m1_server.Core.RequestHandler.Create.Chunks.{
  create_file-first, create_file-middle, create_file-last, create_file-only,
}

-- The last assignment to a path decides.
assign-assign :
    {K : Type 0} (hash : K → ℕ) (eq : K → K → Bool) (k : K) (r t : Resource)
    (es : List (K × Resource))
    → same_key hash eq k k ≡ true
    → assign hash eq k t (assign hash eq k r es) ≡ assign hash eq k t es
unfolding assign
assign-assign hash eq k r t [] same = simp same refl
assign-assign hash eq k r t ((j, u) ∷ es) same = elim (Bool-cases (same_key hash eq j k)) [
  | inl e ↦ simp e refl
  | inr e ↦ simp e (ap (◌∷◌ (j, u)) (assign-assign hash eq k r t es same))
]

-- What was assigned to a path is found there.
pub find-assign_same :
    {K : Type 0} (hash : K → ℕ) (eq : K → K → Bool) (k : K) (r : Resource)
    (es : List (K × Resource))
    → same_key hash eq k k ≡ true
    → find hash eq k (assign hash eq k r es) ≡ some r
unfolding assign find
find-assign_same hash eq k r [] same = simp same refl
find-assign_same hash eq k r ((j, u) ∷ es) same = elim (Bool-cases (same_key hash eq j k)) [
  | inl e ↦ simp e refl
  | inr e ↦ simp e (find-assign_same hash eq k r es same)
]

pub same_key_refl :
    {K : Type 0} (hash : K → ℕ) (eq : K → K → Bool) (k : K)
    → eq k k ≡ true
    → same_key hash eq k k ≡ true
unfolding same_key
same_key_refl hash eq k same = rw (==_refl (hash k)) same

abbrev pub all_bytes : List Chunk → List ℕ
all_bytes [] = []
all_bytes (k ∷ ks) = k.bytes ++ all_bytes ks

module _ (os : Platform) (c : Ctx os) (d : Dir os.FsPath) (path : os.FsPath) (digest : List ℕ)
    (s : os.Stream) (begun : MessageQueue) where
  abbrev pub target : os.FsPath
  target = file_path os c d path digest s

  abbrev pub streams : Streams os
  streams = with_stream os c d path digest s

  abbrev pub state :
      List (os.FsPath × Resource) → os.Disk → Streams os → TlvView → MessageQueue → Ctx os
  state = midway os c d path digest s

  abbrev pub known : Bool → List ℕ → List (os.FsPath × Resource) → List (os.FsPath × Resource)
  known = entry os c d path digest s

  abbrev pub added : os.Disk → List ℕ → os.Disk
  added = appended os c d path digest s

  abbrev pub closed : os.Disk → os.Disk
  closed = shut os c d path digest s

  -- A request with one chunk, from where `handle_create` comes to `create_directories`: its view, and
  -- the replies that were begun.
  unfoldable pub receive : Chunk → Exec (Ctx os) (Unit {0})
  receive k =
      modify (λ x. record x { msg_view = k.seen; replies = begun }) >> create_file os path digest

  unfoldable pub receive_all : List Chunk → Exec (Ctx os) (Unit {0})
  unfolding receive
  receive_all [] = pure tt
  receive_all (k ∷ ks) = let rest = receive_all ks in receive k >> rest

  abbrev pub written : os.Disk → List Chunk → os.Disk
  written disk [] = disk
  written disk (k ∷ ks) = written (added disk k.bytes) ks

  -- Every chunk comes to a disk that is ready for it.
  abbrev pub AllReady : os.Disk → List Chunk → Type 0
  AllReady disk [] = Unit
  AllReady disk (k ∷ ks) = IsReady os c d path digest s disk × AllReady (added disk k.bytes) ks

  receive_all-rest :
      (more : List Chunk) (last : Chunk) (content : List (os.FsPath × Resource)) (disk : os.Disk)
      (k : Chunk) (r : MessageQueue)
      → AllReady disk (more ++ (last ∷ []))
      → All (IsSeen false) more
      → IsSeen true last
      → Tools.md5_hash_file os target path (closed (written disk (more ++ (last ∷ [])))) ≡ ok digest
      → receive_all (more ++ (last ∷ [])) (state content disk streams k.seen r) ≡ (
        ok tt,
        state
            (known true digest content)
            (closed (written disk (more ++ (last ∷ []))))
            c.streams
            last.seen
            (closing TlvType.ok_tag [] begun),
      )
  unfolding receive_all receive modify ◌>>=◌ pure midway
  receive_all-rest [] last content disk k r ready seen ends matches =
      simp (create_file-last os c d path digest s last content disk begun ready.0 ends matches) refl
  receive_all-rest (m ∷ more) last content disk k r ready seen ends matches =
      simp (create_file-middle os c d path digest s m content disk begun ready.0 seen.0) (
        receive_all-rest more last content (added disk m.bytes) m (closing TlvType.ok_tag [] begun)
          ready.1 seen.1 ends matches)

  -- What is written and flushed in two parts is written as one.
  abbrev pub Joins : Type 0
  Joins = (disk : os.Disk) (a b : List ℕ) → added (added disk a) b ≡ added disk (a ++ b)

  written-all_bytes :
      (disk : os.Disk) (a : List ℕ) (ks : List Chunk)
      → Joins
      → written (added disk a) ks ≡ added disk (a ++ all_bytes ks)
  written-all_bytes disk a [] joins = ap (added disk) (sym (append-nil a))
  written-all_bytes disk a (k ∷ ks) joins =
      ap (λ d. written d ks) (joins disk a k.bytes)
      ∙ written-all_bytes disk (a ++ k.bytes) ks joins
      ∙ ap (added disk) (append_assoc a k.bytes (all_bytes ks))

  -- The session when the file is there: it was written, its stream is closed, and its entry is
  -- synchronised.
  abbrev pub received : os.Disk → Chunk → Ctx os
  received disk k =
      state (known true digest d.content) (closed disk) c.streams k.seen
        (closing TlvType.ok_tag [] begun)

  abbrev pub at_home : Chunk → Ctx os
  at_home k = state d.content c.disk c.streams k.seen begun

  pub receive-at_home :
      (k : Chunk) → c.user.dir_ptr ≡ some d → receive k c ≡ create_file os path digest (at_home k)
  unfolding receive modify ◌>>=◌ midway
  receive-at_home k dir = ap (create_file os path digest) (λ i. record c {
    msg_view = k.seen;
    replies = begun;
    user = record (c.user) { dir_ptr = dir i };
  })

  -- What `create_file` makes of the chunks one by one, and of all bytes at once.
  pub receive_all-receive :
      (k : Chunk) (more : List Chunk) (last whole : Chunk) (disk : os.Disk)
      → c.user.dir_ptr ≡ some d
      → os.path_eq path path ≡ true
      → Joins
      → (os.create_directories (os.parent_path target) c.disk).0 ≡ false
      → find_stream os c.user.id c.streams ≡ none
      → os.open_append target (os.create_directories (os.parent_path target) c.disk).1 ≡ (s, disk)
      → os.is_good s disk ≡ true
      → AllReady (added disk k.bytes) (more ++ (last ∷ []))
      → IsSeen false k
      → All (IsSeen false) more
      → IsSeen true last
      → IsSeen true whole
      → whole.bytes ≡ all_bytes (k ∷ (more ++ (last ∷ [])))
      → Tools.md5_hash_file os target path (closed (added disk whole.bytes)) ≡ ok digest
      → (receive_all (k ∷ (more ++ (last ∷ []))) c
          ≡ (ok tt, received (added disk whole.bytes) last))
        × (receive whole c ≡ (ok tt, received (added disk whole.bytes) whole))
  unfolding receive_all ◌>>=◌
  receive_all-receive k more last whole disk dir same joins made none_open opened good ready first
        middle ends whole_seen bytes matches =
      let all_written =
        written-all_bytes disk k.bytes (more ++ (last ∷ [])) joins ∙ ap (added disk) (sym bytes) in
      let temp = known false (codes "TEMP") d.content in
      let once =
        assign-assign os.path_hash os.path_eq path
          (record { synced = false; digest = codes "TEMP" })
          (record { synced = true; digest = digest }) d.content
          (same_key_refl os.path_hash os.path_eq path same) in
      (
        simp
            (
              receive-at_home k dir,
              create_file-first os c d path digest s k disk d.content begun made none_open opened
                  good first,
            )
            (receive_all-rest more last temp (added disk k.bytes) k
                (closing TlvType.ok_tag [] begun) ready middle ends
                (ap (λ e. Tools.md5_hash_file os target path (closed e)) all_written ∙ matches)
              ∙ ap
                  (λ e. (
                    ok tt,
                    state e (closed (written (added disk k.bytes) (more ++ (last ∷ [])))) c.streams
                        last.seen (closing TlvType.ok_tag [] begun),
                  ))
                  once
              ∙ ap (λ e. (ok tt, received e last)) all_written),
        receive-at_home whole dir
            ∙ create_file-only os c d path digest s whole disk d.content begun made none_open opened
                good whole_seen matches,
      )
