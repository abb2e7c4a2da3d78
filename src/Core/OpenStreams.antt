-- ===== src/Core/OpenStreams.antt =====
-- core/open_streams.cpp and open_streams.h: one open stream for each user, keyed by the user's id. A
-- method runs under the mutex and is one step.
pub mod Laws
use remote_backup_m1_server.Prelude.{
  ℕ, Bool, true, false, List, [], ◌∷◌, Option, none, some, bytes_eq, if◌then◌else◌,
}
use remote_backup_m1_server.Platform.{Platform}

abbrev pub Streams : Platform → Type 0
Streams os = List (List ℕ × os.Stream)

module _ (os : Platform) where
  open os use {FsPath, Disk, Stream, open_append, close}

  unfoldable pub find_stream : List ℕ → Streams os → Option Stream
  find_stream id [] = none
  find_stream id ((j, s) ∷ rest) = if bytes_eq j id then some s else find_stream id rest

  unfoldable pub remove_stream : List ℕ → Streams os → Streams os
  remove_stream id [] = []
  remove_stream id ((j, s) ∷ rest) = if bytes_eq j id then rest else (j, s) ∷ remove_stream id rest

  -- `emplace`: the new stream is opened first, whatever the map holds. If the user has one already the
  -- new one is destroyed, which closes it. The flag says that the new stream was stored.
  unfoldable pub get_stream :
      List ℕ → FsPath → Streams os → Disk → (Stream × Bool) × Streams os × Disk
  get_stream id path streams disk =
      let (opened, disk') = open_append path disk in
      elim (find_stream id streams) [
        | none ↦ ((opened, true), (id, opened) ∷ streams, disk')
        | some s ↦ ((s, false), streams, close opened disk')
      ]

  -- Destroying the map's stream closes it.
  unfoldable pub erase_stream : List ℕ → Streams os → Disk → Streams os × Disk
  erase_stream id streams disk = elim (find_stream id streams) [
    | none ↦ (streams, disk)
    | some s ↦ (remove_stream id streams, close s disk)
  ]
