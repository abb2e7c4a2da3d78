-- ===== src/Core/RequestHandler/Erase/Whole.antt =====
-- core/request_handler.cpp: what `handle_erase` does with a file that it knows.
use remote_backup_m1_server.Prelude.{
  ◌≡◌, refl, sym, ap, subst, [], Bool, false, Bool-cases, inl, inr, some, if◌then◌else◌,
}
use remote_backup_m1_server.Outcome.{ok}
use remote_backup_m1_server.Platform.{Platform}
use remote_backup_m1_server.Communication.Types.TlvType
use remote_backup_m1_server.Communication.Types.ErrType.{to_number}
use remote_backup_m1_server.Directory.Dir.{Dir, erase, contains}
use remote_backup_m1_server.Core.Exec.{lift, modify, ◌>>=◌}
use remote_backup_m1_server.Core.RequestHandler.State.{
  Ctx, error_text, closing, close_response, get_dir, deref, set_dir_object, on_disk,
}
use remote_backup_m1_server.Core.RequestHandler.Files.{erase_resource}
use remote_backup_m1_server.Core.RequestHandler.Erase.{erase_file}
use remote_backup_m1_server.Core.RequestHandler.Erase.Pruning.{HasParents, prune_lem}

module _ (os : Platform) (laws : HasParents os) (c : Ctx os) (d : Dir os.FsPath)
    (path : os.FsPath) where
  abbrev target : os.FsPath
  target = os.join d.path path

  homed : Ctx os
  homed = record c { user = record (c.user) { dir_ptr = some d } }

  -- The session after the disk refused to remove the file, or after the directories above it were gone
  -- through.
  abbrev pub erased : Bool → os.Disk → os.Disk → Ctx os
  erased failed refused after =
      if failed
      then record c {
        disk = refused;
        user = record (c.user) { dir_ptr = some d };
        replies = closing TlvType.error_tag [] c.replies;
      }
      else record c {
        disk = after;
        user = record (c.user) { dir_ptr = some (erase os.path_hash os.path_eq d path).1 };
        replies =
            closing
              (if contains os.path_hash os.path_eq d path
                then TlvType.ok_tag
                else TlvType.error_tag)
              [] c.replies;
      }

  homed-eq : c.user.dir_ptr ≡ some d → homed ≡ c
  unfolding homed
  homed-eq dir = λ i. record c { user = record (c.user) { dir_ptr = sym dir i } }

  -- What `erase_file` comes to: the session, the entry and the reply; the loop changes the disk only.
  abbrev pub Erases : Ctx os → Type 0
  Erases x =
      let (failed, removed) = os.remove target c.disk in
      (after : os.Disk) × (erase_file os path x ≡ (ok tt, erased failed removed after))

  erase_file-homed : Erases homed
  unfolding erase_file get_dir deref on_disk close_response error_text to_number lift modify
      erase_resource erase set_dir_object ◌>>=◌ homed
  erase_file-homed = elim (Bool-cases (os.remove target c.disk).0) [
    | inl e ↦ ((os.remove target c.disk).1, simp e refl)
    | inr e ↦
        let left = erased false (os.remove target c.disk).1 (os.remove target c.disk).1 in
        let (after, run, same) = prune_lem os laws d.path (os.parent_path target) false left in
        (after.disk, simp (e, run) (ap (λ x. (ok tt, x)) same))
  ]

  -- Where the parent of a path that is not empty is shorter and the empty path is no empty directory:
  -- the loop over the directories ends, and a file that the disk does not remove leaves the entries
  -- as they were and an ERROR; else its entry is gone, the reply is OK if there was one, and besides
  -- that only the disk has changed.
  pub erase_file_lem : c.user.dir_ptr ≡ some d → Erases c
  erase_file_lem dir = subst Erases (homed-eq dir) erase_file-homed
