-- ===== src/Core/RequestHandler/Safety/Requests.antt =====
-- core/request_handler.cpp: every request of whole segments is handled without undefined behaviour.
use remote_backup_m1_server.Prelude.{◌≡◌, sym, ◌∙◌, Bool, true, false}
use remote_backup_m1_server.Platform.{Platform}
use remote_backup_m1_server.Communication.Message
use remote_backup_m1_server.Communication.Types.MsgType
use remote_backup_m1_server.Utilities.Tools.Signs.{IsText}
use remote_backup_m1_server.Core.User.{User}
use remote_backup_m1_server.Core.Exec.{Exec}
use remote_backup_m1_server.Core.RequestHandler.State.{Config, Ctx}
use remote_backup_m1_server.Core.RequestHandler.Home.{HasHome, not_yet, at_home}
use remote_backup_m1_server.Core.RequestHandler.Erase.Pruning.{HasParents}
use remote_backup_m1_server.Core.RequestHandler.Safety.{IsLenient}
use remote_backup_m1_server.Core.RequestHandler.Safety.Views.{Reading}
use remote_backup_m1_server.Core.RequestHandler.Safety.Handlers.{Serving}

module _ (os : Platform) (config : Config os) (laws : IsText os) (parents : HasParents os)
    ⦃lenient : IsLenient os⦄ where
  -- The view is on a segment, and an authenticated session has a directory.
  abbrev Ready : Ctx os → Type 0
  Ready c = Reading os c × HasHome c.user

  served : (c : Ctx os) → Ready c → c.user.is_auth ≡ true → Serving os c
  served c (reading, not_yet e) a = let clash : true ≡ false = sym a ∙ e in cc
  served c (reading, at_home d e) a = (reading, (d, e))

  abbrev Chosen : Bool → Ctx os → Type 0
  Chosen true c = Serving os c
  Chosen false c = Reading os c
