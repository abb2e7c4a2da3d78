-- ===== src/Core/RequestHandler/Rules/Syncing.antt =====
-- core/request_handler.cpp: `handle_sync` closes.
use remote_backup_m1_server.Prelude.{Bool, true, false, List, [], ◌∷◌, if◌then◌else◌}
use remote_backup_m1_server.Outcome.{throws, filesystem_error}
use remote_backup_m1_server.Platform.{Platform}
use remote_backup_m1_server.Communication.MessageQueue
use remote_backup_m1_server.Communication.Types.MsgType
use remote_backup_m1_server.Directory.Resource.{Resource}
use remote_backup_m1_server.Core.User
use remote_backup_m1_server.Core.User.{User}
use remote_backup_m1_server.Core.Exec.{Exec, pure, lift, modify, ◌>>◌}
use remote_backup_m1_server.Core.Exec.Triple.{
  Triple, Triple-pure, Triple-bind, Triple-if, Triple-try,
}
use remote_backup_m1_server.Core.RequestHandler.Rules.{Rules}
use remote_backup_m1_server.Core.RequestHandler.State.{Ctx, reply_ok}
use remote_backup_m1_server.Core.RequestHandler.Rules.Steps.{
  Going, closed_then, Open, Closed, Keeps, Closes, then_open, pure-Keeps, lift-Keeps, gets-Keeps,
  get_dir-Keeps, reply_error-Closes, reply_ok-Closes,
}
use remote_backup_m1_server.Core.RequestHandler.Rules.FileSteps.{
  set_dir_object-Keeps, add_item-Keeps,
}
use remote_backup_m1_server.Core.RequestHandler.Sync.{
  put_resource, clear_dir, sync_file, sync_files, sync_walk, handle_sync,
}

module _ (os : Platform) (rules : Rules os)
    (on_synced : (c : Ctx os)
      → rules.Open c
      → rules.Open (record c { user = User.set_synced c.user true }))
    (on_restart : (c : Ctx os)
      → rules.Open c
      → rules.Open (record c { replies = MessageQueue.new MsgType.sync })) where
  put_resource-Keeps :
      (path : os.FsPath) (r : Resource) → Keeps os rules.views (put_resource os path r)
  unfolding put_resource
  put_resource-Keeps path r = then_open os rules.views _ _ _ (get_dir-Keeps os rules.views) λ d.
      then_open os rules.views _ _ _ (set_dir_object-Keeps os rules _)
        λ _. pure-Keeps os rules.views _

  clear_dir-Keeps : Keeps os rules.views (clear_dir os)
  unfolding clear_dir
  clear_dir-Keeps =
      then_open os rules.views _ _ _ (get_dir-Keeps os rules.views)
        λ d. set_dir_object-Keeps os rules _

  sync_file-Going :
      (root absolute_path : os.FsPath)
      → Triple
          (Open os rules.views)
          (sync_file os root absolute_path)
          (Going os rules.views)
          (Open os rules.views)
  unfolding sync_file
  sync_file-Going root absolute_path =
      then_open os rules.views _ _ _ (gets-Keeps os rules.views _) λ disk.
        then_open os rules.views _ _ _ (lift-Keeps os rules.views _) λ digest.
          then_open os rules.views _ _ _ (put_resource-Keeps _ _) λ inserted.
            Triple-if _ (Going os rules.views) _ inserted _ _
              (then_open os rules.views _ _ _ (add_item-Keeps os rules _)
                λ _. Triple-pure _ (Going os rules.views) _ true (λ c o. o))
              (then_open os rules.views _ _ _ clear_dir-Keeps
                λ _. closed_then os rules.views (Going os rules.views) _ false (λ c h. h))

  -- A Boolean result that comes to nothing at all.
  throw-Going :
      Triple
        (Open os rules.views)
        (lift (throws filesystem_error))
        (Going os rules.views)
        (Open os rules.views)
  unfolding lift
  throw-Going = record { at = λ c o. o }

  continue-Going :
      (go : Bool) (m : Exec (Ctx os) Bool)
      → Triple (Open os rules.views) m (Going os rules.views) (Open os rules.views)
      → Triple
          (Going os rules.views go)
          (if go then m else pure false)
          (Going os rules.views)
          (Open os rules.views)
  continue-Going true m h = h
  continue-Going false m h = Triple-pure _ (Going os rules.views) _ false (λ c closed. closed)

  sync_files-Going :
      (root : os.FsPath) (entries : List (os.FsPath × Bool)) (failed : Bool)
      → Triple
          (Open os rules.views)
          (sync_files os root entries failed)
          (Going os rules.views)
          (Open os rules.views)
  unfolding sync_files
  sync_files-Going root [] failed =
      Triple-if _ (Going os rules.views) _ failed _ _ (throw-Going)
        (Triple-pure _ (Going os rules.views) _ true (λ c o. o))
  sync_files-Going root ((absolute_path, regular) ∷ rest) failed =
      Triple-if _ (Going os rules.views) _ regular _ _
        (Triple-bind _ (Going os rules.views) _ _ _ _ (sync_file-Going root absolute_path)
          λ go. continue-Going go _ (sync_files-Going root rest failed))
        (sync_files-Going root rest failed)

  finish :
      (complete : Bool)
      → Triple
          (Going os rules.views complete)
          (if complete
            then (do modify (λ c. record c { user = User.set_synced c.user true }); reply_ok os)
            else pure tt)
          (λ _. Closed os rules.views)
          (Open os rules.views)
  unfolding modify
  finish true =
      Triple-bind (Open os rules.views) (λ _. Open os rules.views) _ _ _ _
        (record { at = on_synced }) (λ _. reply_ok-Closes os rules.views)
  finish false = Triple-pure _ _ _ tt (λ c closed. closed)

  restart :
      Keeps os rules.views (modify (λ c. record c { replies = MessageQueue.new MsgType.sync }))
  unfolding modify
  restart = record { at = on_restart }

  sync_walk-Closes : Closes os rules.views (sync_walk os)
  unfolding sync_walk
  sync_walk-Closes = then_open os rules.views _ _ _ (get_dir-Keeps os rules.views) λ d.
      then_open os rules.views _ _ _ (gets-Keeps os rules.views _) λ disk.
        Triple-bind _ (Going os rules.views) _ _ _ _ (sync_files-Going _ _ _)
          λ complete. finish complete

  pub handle_sync-Closes : Closes os rules.views (handle_sync os)
  unfolding handle_sync
  handle_sync-Closes = Triple-try _ _ _ _ _ sync_walk-Closes (
      then_open os rules.views _ _ _ clear_dir-Keeps
        λ _. then_open os rules.views _ _ _ restart λ _. reply_error-Closes os rules.views _)
