-- ===== src/Core/RequestHandler/Erase/Pruning.antt =====
-- core/request_handler.cpp: the loop of `handle_erase` that removes empty directories.
use remote_backup_m1_server.Prelude.{
  ℕ, zero, suc, ◌<◌, ◌≡◌, refl, Bool, true, false, ◌||◌, arith, length, Bool-cases, inl, inr,
}
use remote_backup_m1_server.Outcome.{ok}
use remote_backup_m1_server.Platform.{Platform}
use remote_backup_m1_server.Core.Exec.{◌>>=◌}
use remote_backup_m1_server.Core.RequestHandler.State.{Ctx, on_disk}
use remote_backup_m1_server.Core.RequestHandler.Erase.{prune, prune_fuel}

-- What is documented of paths: the parent of a path that is not empty is shorter, and the empty path is
-- no empty directory.
pub record HasParents (os : Platform) : Type 0 where
  pub shorter :
      (p : os.FsPath)
      → 0 < length (os.generic_string p)
      → length (os.generic_string (os.parent_path p)) < length (os.generic_string p)
  pub no_directory :
      (p : os.FsPath) (disk : os.Disk)
      → length (os.generic_string p) ≡ 0
      → os.is_empty p disk ≡ false

module _ (os : Platform) (laws : HasParents os) where
  -- Only the disk may differ.
  abbrev pub SameButDisk : Ctx os → Ctx os → Type 0
  SameButDisk c d = d ≡ record c { disk = d.disk }

  nonempty :
      (p : os.FsPath) (disk : os.Disk)
      → os.is_empty p disk ≡ true
      → (n : ℕ) → length (os.generic_string p) ≡ n
      → 0 < n
  nonempty p disk e zero h = let no : os.is_empty p disk ≡ false = laws.no_directory p disk h in cc
  nonempty p disk e (suc n) h = omega arith

  prune-ends :
      (fuel : ℕ) (root tmp : os.FsPath) (ec : Bool) (c : Ctx os)
      → suc (length (os.generic_string tmp)) < fuel
      → (d : Ctx os) × (prune os fuel root tmp ec c ≡ (ok tt, d)) × SameButDisk c d
  unfolding prune ◌>>=◌ on_disk
  prune-ends zero root tmp ec c h = absurd (omega arith)
  prune-ends (suc fuel) root tmp ec c h = elim (Bool-cases (ec || os.path_eq tmp root)) [
    | inl e ↦ (c, simp e refl, refl)
    | inr e ↦ elim (Bool-cases (os.is_empty tmp c.disk)) [
      | inl empty ↦
          let shrinks = laws.shorter tmp (nonempty tmp c.disk empty _ refl) in
          let (d, run, same) =
            prune-ends fuel root (os.parent_path tmp) (os.remove tmp c.disk).0
              (record c { disk = (os.remove tmp c.disk).1 }) (omega (arith, shrinks, h)) in
          (d, simp (e, empty) run, same)
      | inr full ↦ (c, simp (e, full) refl, refl)
    ]
  ]

  -- The loop that removes empty directories ends with the fuel that `erase_file` gives it, from any path,
  -- and changes nothing but the disk, where the parent of a path that is not empty is shorter and the
  -- empty path is no empty directory.
  pub prune_lem :
      (root tmp : os.FsPath) (ec : Bool) (c : Ctx os)
      → (d : Ctx os) × (prune os (prune_fuel os tmp) root tmp ec c ≡ (ok tt, d)) × SameButDisk c d
  unfolding prune_fuel
  prune_lem root tmp ec c = prune-ends _ root tmp ec c (omega arith)
