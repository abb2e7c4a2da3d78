-- ===== src/Core/RequestHandler/Rules/FileSteps.antt =====
-- core/request_handler.cpp: the replies under the steps on files and entries.
use remote_backup_m1_server.Directory.Dir.{Dir}
use remote_backup_m1_server.Prelude.{ℕ, Bool, true, false, List, bytes_eq}
use remote_backup_m1_server.Platform.{Platform}
use remote_backup_m1_server.Communication.Types.ErrType.{ErrType}
use remote_backup_m1_server.Directory.Resource.{Resource}
use remote_backup_m1_server.Core.Exec.{modify}
use remote_backup_m1_server.Core.Exec.Triple.{Triple, Triple-pure, Triple-if, Triple-try}
use remote_backup_m1_server.Core.RequestHandler.Rules.{Rules, FileRules}
use remote_backup_m1_server.Core.RequestHandler.State.{
  add_item, on_disk, get_stream, erase_stream, set_dir_object,
}
use remote_backup_m1_server.Core.RequestHandler.Rules.Steps.{
  Going, closed_then, Open, Keeps, then_open, pure-Keeps, lift-Keeps, gets-Keeps, get_dir-Keeps,
  exit_if-Keeps,
}
use remote_backup_m1_server.Core.RequestHandler.Files.{
  assign_resource, erase_resource, record_chunk, remove_or_exit, reject_file, check_digest,
}

module _ (os : Platform) (rules : Rules os) where
  pub set_dir_object-Keeps : (d : Dir os.FsPath) → Keeps os rules.views (set_dir_object os d)
  unfolding set_dir_object modify
  set_dir_object-Keeps d = record { at = λ c o. rules.on_dir c d o }

  pub add_item-Keeps : (sign : List ℕ) → Keeps os rules.views (add_item os sign)
  unfolding add_item modify
  add_item-Keeps sign = record { at = λ c o. rules.on_item c sign o }

  pub assign_resource-Keeps :
      (path : os.FsPath) (r : Resource) → Keeps os rules.views (assign_resource os path r)
  unfolding assign_resource
  assign_resource-Keeps path r =
      then_open os rules.views _ _ _ (get_dir-Keeps os rules.views) λ d. set_dir_object-Keeps _

  pub erase_resource-Keeps : (path : os.FsPath) → Keeps os rules.views (erase_resource os path)
  unfolding erase_resource
  erase_resource-Keeps path =
      then_open os rules.views _ _ _ (get_dir-Keeps os rules.views) λ d.
        then_open os rules.views _ _ _ (set_dir_object-Keeps _) λ _. pure-Keeps os rules.views _

  pub record_chunk-Keeps :
      (path : os.FsPath) (c_digest : List ℕ) (is_first is_last : Bool) (first : List ℕ)
      → Keeps os rules.views (record_chunk os path c_digest is_first is_last first)
  unfolding record_chunk
  record_chunk-Keeps path c_digest is_first is_last first =
      Triple-if _ _ _ is_first _ _ (assign_resource-Keeps path _)
        (Triple-if _ _ _ is_last _ _ (assign_resource-Keeps path _) (pure-Keeps os rules.views _))

module _ (os : Platform) (files : FileRules os) where
  pub on_disk-Keeps {κ} :
      {A : Type κ} (f : os.Disk → A × os.Disk) → Keeps os files.rules.views (on_disk os f)
  unfolding on_disk
  on_disk-Keeps f = record { at = λ c o. files.on_disk c (f c.disk).1 o }

  pub get_stream-Keeps : (path : os.FsPath) → Keeps os files.rules.views (get_stream os path)
  unfolding get_stream
  get_stream-Keeps path = record { at = λ c o. files.on_get_stream c path o }

  pub erase_stream-Keeps : Keeps os files.rules.views (erase_stream os)
  unfolding erase_stream
  erase_stream-Keeps = record { at = λ c o. files.on_erase_stream c o }

  pub remove_or_exit-Keeps :
      (path : os.FsPath) → Keeps os files.rules.views (remove_or_exit os path)
  unfolding remove_or_exit
  remove_or_exit-Keeps path =
      then_open os files.rules.views _ _ _ (on_disk-Keeps _)
        λ ec. exit_if-Keeps os files.rules.views ec

  pub reject_file-Going :
      (path absolute_path : os.FsPath) (err_type : ErrType)
      → Triple
          (Open os files.rules.views)
          (reject_file os path absolute_path err_type)
          (Going os files.rules.views)
          (Open os files.rules.views)
  unfolding reject_file
  reject_file-Going path absolute_path err_type =
      then_open os files.rules.views _ _ _ (remove_or_exit-Keeps absolute_path) λ _.
        then_open os files.rules.views _ _ _ (erase_resource-Keeps os files.rules path) λ _.
          closed_then os files.rules.views (Going os files.rules.views) err_type false (λ c h. h)

  pub check_digest-Going :
      (path : os.FsPath) (c_digest : List ℕ) (absolute_path : os.FsPath) (no_match failed : ErrType)
      → Triple
          (Open os files.rules.views)
          (check_digest os path c_digest absolute_path no_match failed)
          (Going os files.rules.views)
          (Open os files.rules.views)
  unfolding check_digest
  check_digest-Going path c_digest absolute_path no_match failed =
      Triple-try _ (Going os files.rules.views) _ _ _
        (then_open os files.rules.views _ _ _ (gets-Keeps os files.rules.views _) λ disk.
          then_open os files.rules.views _ _ _ (lift-Keeps os files.rules.views _) λ s_digest.
            Triple-if _ (Going os files.rules.views) _ (bytes_eq s_digest c_digest) _ _
              (Triple-pure _ (Going os files.rules.views) _ true (λ c o. o))
              (reject_file-Going path absolute_path no_match))
        (reject_file-Going path absolute_path failed)
