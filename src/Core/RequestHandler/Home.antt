-- ===== src/Core/RequestHandler/Home.antt =====
-- core/request_handler.cpp: the directory of a session, which the handlers dereference without a test.
use remote_backup_m1_server.Prelude.{ℕ, ◌≡◌, refl, false, true, List, ◌∷◌, some}
use remote_backup_m1_server.Outcome.{ComesBack, Outcome}
use remote_backup_m1_server.Platform.{Platform}
use remote_backup_m1_server.Communication.Message
use remote_backup_m1_server.Directory.Dir.{Dir}
use remote_backup_m1_server.Core.User.{User, set_auth, set_dir, set_username, set_id, set_synced}
use remote_backup_m1_server.Core.Exec.Triple.{After-ComesBack}
use remote_backup_m1_server.Core.RequestHandler.State.{Config, Ctx}
use remote_backup_m1_server.Core.RequestHandler.Auth.{log_in}
use remote_backup_m1_server.Core.RequestHandler.Rules.Sessions.{CoreRules, handle_request-After}
use remote_backup_m1_server.Core.RequestHandler.{handle_request}

-- A session that is not authenticated, or that has a directory.
pub data HasHome {K : Type 0} (u : User K) : Type 0 where
  not_yet : u.is_auth ≡ false → HasHome u
  at_home : (d : Dir K) → u.dir_ptr ≡ some d → HasHome u

module _ (os : Platform) (config : Config os) where
  pub set_synced-HasHome : (u : User os.FsPath) → HasHome u → HasHome (set_synced u true)
  unfolding set_synced
  set_synced-HasHome u (not_yet e) = not_yet e
  set_synced-HasHome u (at_home d e) = at_home d e

  pub log_in-HasHome :
      (u : User os.FsPath) (username : List ℕ) → HasHome (log_in os config username u)
  unfolding log_in set_auth set_dir set_username set_id
  log_in-HasHome u username = at_home _ refl

  unfoldable pub home_rules : CoreRules os config
  home_rules = record {
    Holds = λ disk streams user. HasHome user;
    on_disk = λ disk d streams user h. h;
    on_get_stream = λ disk streams user path h. h;
    on_erase_stream = λ disk streams user h. h;
    on_dir = λ disk streams user dir h. at_home dir refl;
    on_login = λ disk streams user username h. log_in-HasHome user username;
    on_synced = λ disk streams user h. set_synced-HasHome user h;
  }

-- A session that is not authenticated or has a directory stays so under every request, when the handler
-- returns or throws: an authenticated session never loses its directory.
pub handle_request-HasHome :
    (os : Platform) (config : Config os) (msg_type : ℕ) (rest : List ℕ) (c d : Ctx os)
    (r : Outcome (Unit {0}))
    → HasHome c.user
    → handle_request os config (Message.of_buffer (msg_type ∷ rest)) c ≡ (r, d)
    → ComesBack r
    → HasHome d.user
handle_request-HasHome os config msg_type rest c d r h run back =
    unfold home_rules in
    After-ComesBack (λ s. HasHome s.user) r d back
      (rw run at (handle_request-After os config (home_rules os config) (msg_type ∷ rest) c h))
