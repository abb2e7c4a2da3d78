-- ===== src/Core/RequestHandler/Rules/Erasing.antt =====
-- core/request_handler.cpp: `handle_erase` closes.
use remote_backup_m1_server.Prelude.{
  ℕ, zero, suc, ◌||◌, ◌≡◌, refl, ◌⊎◌, inl, inr, Bool, true, false, ◌==◌, if◌then◌else◌,
}
use remote_backup_m1_server.Platform.{Platform}
use remote_backup_m1_server.Communication.Types.TlvType
use remote_backup_m1_server.Core.Exec.{Exec, gets, lift}
use remote_backup_m1_server.Core.Exec.Triple.{Triple, Triple-pure, Triple-bind, Triple-if}
use remote_backup_m1_server.Core.RequestHandler.Rules.{FileRules}
use remote_backup_m1_server.Core.RequestHandler.State.{Ctx, on_disk}
use remote_backup_m1_server.Core.RequestHandler.Rules.Steps.{
  find_resource-Keeps, Open, Closed, Closes, then_open, lift-Keeps, view_type-Keeps,
  view_value-Keeps, get_dir-Keeps, reply_error-Closes, close_response-Closes,
}
use remote_backup_m1_server.Core.RequestHandler.Rules.FileSteps.{
  on_disk-Keeps, add_item-Keeps, erase_resource-Keeps,
}
use remote_backup_m1_server.Core.RequestHandler.Erase.{
  has_digest, prune, erase_file, erase_item, handle_erase,
}

module _ (os : Platform) (files : FileRules os) where
  -- A step after the replies are closed.
  abbrev KeepsClosed {κ} : {A : Type κ} → Exec (Ctx os) A → Type 0
  KeepsClosed m =
      Triple (Closed os files.rules.views) m (λ _. Closed os files.rules.views)
        (Open os files.rules.views)

  gets-KeepsClosed {κ} : {A : Type κ} (f : Ctx os → A) → KeepsClosed (gets f)
  unfolding gets
  gets-KeepsClosed f = record { at = λ c h. h }

  on_disk-KeepsClosed {κ} : {A : Type κ} (f : os.Disk → A × os.Disk) → KeepsClosed (on_disk os f)
  unfolding on_disk
  on_disk-KeepsClosed f = record { at = λ c h. files.on_disk_after c (f c.disk).1 h }

  prune-KeepsClosed :
      (fuel : ℕ) (root tmp : os.FsPath) (ec : Bool) → KeepsClosed (prune os fuel root tmp ec)
  unfolding prune lift
  prune-KeepsClosed zero root tmp ec = record { at = λ c h. tt }
  prune-KeepsClosed (suc fuel) root tmp ec =
      Triple-if _ _ _ (ec || os.path_eq tmp root) _ _ (Triple-pure _ _ _ tt (λ c h. h)) (
        Triple-bind _ (λ _. Closed os files.rules.views) _ _ _ _ (gets-KeepsClosed _)
          λ empty.
            Triple-if _ _ _ empty _ _
              (Triple-bind _ (λ _. Closed os files.rules.views) _ _ _ _ (on_disk-KeepsClosed _)
                λ ec'. prune-KeepsClosed fuel root (os.parent_path tmp) ec')
              (Triple-pure _ _ _ tt (λ c h. h)))

  which_tag :
      (erased : Bool)
      → ((if erased then TlvType.ok_tag else TlvType.error_tag) ≡ TlvType.ok_tag)
        ⊎ ((if erased then TlvType.ok_tag else TlvType.error_tag) ≡ TlvType.error_tag)
  which_tag true = inl refl
  which_tag false = inr refl

  erase_file-Closes : (path : os.FsPath) → Closes os files.rules.views (erase_file os path)
  unfolding erase_file
  erase_file-Closes path =
      then_open os files.rules.views _ _ _ (get_dir-Keeps os files.rules.views) λ d.
        then_open os files.rules.views _ _ _ (on_disk-Keeps os files _) λ ec.
          Triple-if _ _ _ ec _ _ (close_response-Closes os files.rules.views _ _ (inr refl)) (
            then_open os files.rules.views _ _ _ (erase_resource-Keeps os files.rules path)
              λ erased.
                Triple-bind _ (λ _. Closed os files.rules.views) _ _ _ _
                  (close_response-Closes os files.rules.views _ _ (which_tag erased))
                  λ _. prune-KeepsClosed _ _ _ _)

  pub handle_erase-Closes : Closes os files.rules.views (handle_erase os)
  unfolding handle_erase erase_item
  handle_erase-Closes =
      then_open os files.rules.views _ _ _ (view_type-Keeps os files.rules.views) λ tag.
        Triple-if _ _ _ (tag == TlvType.item) _ _
          (then_open os files.rules.views _ _ _ (view_value-Keeps os files.rules.views) λ c_sign.
            then_open os files.rules.views _ _ _ (lift-Keeps os files.rules.views _) λ r.
              then_open os files.rules.views _ _ _ (add_item-Keeps os files.rules c_sign) λ _.
                then_open os files.rules.views _ _ _ (find_resource-Keeps os files.rules.views r.0)
                  λ rsrc.
                    Triple-if _ _ _ (has_digest rsrc r.1) _ _ (erase_file-Closes r.0)
                      (reply_error-Closes os files.rules.views _))
          (reply_error-Closes os files.rules.views _)
