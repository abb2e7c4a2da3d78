-- ===== src/Core/RequestHandler/Rules/Sessions.antt =====
-- core/request_handler.cpp: `handle_request` for what is said of the disk, the streams and the session
-- only, on any bytes as the request.
use remote_backup_m1_server.Prelude.{ℕ, true, List, [], ◌∷◌, some}
use remote_backup_m1_server.Platform.{Platform}
use remote_backup_m1_server.Communication.Message.{of_buffer, msg_type}
use remote_backup_m1_server.Directory.Dir.{Dir}
use remote_backup_m1_server.Core.User.{User, set_synced}
use remote_backup_m1_server.Core.OpenStreams.{Streams}
use remote_backup_m1_server.Core.OpenStreams
use remote_backup_m1_server.Core.Exec.{◌>>=◌}
use remote_backup_m1_server.Core.Exec.Triple.{After}
use remote_backup_m1_server.Core.RequestHandler.State.{Config, Ctx}
use remote_backup_m1_server.Core.RequestHandler.Auth.{log_in}
use remote_backup_m1_server.Core.RequestHandler.Rules.{FileRules}
use remote_backup_m1_server.Core.RequestHandler.Rules.Requests.{
  serve_request-Closes, dispatch-Closes,
}
use remote_backup_m1_server.Core.RequestHandler.{handle_request}

pub record CoreRules (os : Platform) (config : Config os) : Type 1 where
  pub Holds : os.Disk → Streams os → User os.FsPath → Type 0
  pub on_disk :
      (disk d : os.Disk) (streams : Streams os) (user : User os.FsPath)
      → Holds disk streams user
      → Holds d streams user
  pub on_get_stream :
      (disk : os.Disk) (streams : Streams os) (user : User os.FsPath) (path : os.FsPath)
      → Holds disk streams user
      → let (_, s, d) = OpenStreams.get_stream os user.id path streams disk in Holds d s user
  pub on_erase_stream :
      (disk : os.Disk) (streams : Streams os) (user : User os.FsPath)
      → Holds disk streams user
      → let (s, d) = OpenStreams.erase_stream os user.id streams disk in Holds d s user
  pub on_dir :
      (disk : os.Disk) (streams : Streams os) (user : User os.FsPath) (dir : Dir os.FsPath)
      → Holds disk streams user
      → Holds disk streams (record user { dir_ptr = some dir })
  pub on_login :
      (disk : os.Disk) (streams : Streams os) (user : User os.FsPath) (username : List ℕ)
      → Holds disk streams user
      → Holds disk streams (log_in os config username user)
  pub on_synced :
      (disk : os.Disk) (streams : Streams os) (user : User os.FsPath)
      → Holds disk streams user
      → Holds disk streams (set_synced user true)

module _ (os : Platform) (config : Config os) (rules : CoreRules os config) where
  abbrev pub Kept : Ctx os → Type 0
  Kept c = rules.Holds c.disk c.streams c.user

  file_rules : FileRules os
  file_rules = record {
    rules = record {
      views = record {
        Open = Kept;
        Closed = Kept;
        on_view = λ c v o. o;
        on_closing = λ c tag err_type which o. o;
      };
      on_dir = λ c d o. rules.on_dir c.disk c.streams c.user d o;
      on_item = λ c sign o. o;
    };
    on_disk = λ c d o. rules.on_disk c.disk d c.streams c.user o;
    on_get_stream = λ c path o. rules.on_get_stream c.disk c.streams c.user path o;
    on_erase_stream = λ c o. rules.on_erase_stream c.disk c.streams c.user o;
    on_disk_after = λ c d o. rules.on_disk c.disk d c.streams c.user o;
  }

  -- A request without a type byte is a read out of bounds.
  pub handle_request-After :
      (request : List ℕ) (c : Ctx os)
      → Kept c
      → After (λ _. Kept) Kept (handle_request os config (of_buffer request) c)
  unfolding handle_request ◌>>=◌ msg_type file_rules
  handle_request-After [] c h = tt
  handle_request-After (t ∷ rest) c h =
      (serve_request-Closes os config t (file_rules.rules.views) (of_buffer (t ∷ rest)) Kept
          (λ c o. o)
          (dispatch-Closes os config t file_rules
            (λ c username password v o. rules.on_login c.disk c.streams c.user username o)
            (λ c o. rules.on_synced c.disk c.streams c.user o) (λ c s o. o))).at
        c h
