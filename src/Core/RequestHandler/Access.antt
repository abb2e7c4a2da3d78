-- ===== src/Core/RequestHandler/Access.antt =====
-- core/request_handler.cpp: what a session can do before it is authenticated and before it is
-- synchronised.
use remote_backup_m1_server.Prelude.{ℕ, ◌≡◌, refl, true, false, List, ◌∷◌, ap, ◌∙◌}
use remote_backup_m1_server.Outcome.{ComesBack, Outcome, ok}
use remote_backup_m1_server.Platform.{Platform}
use remote_backup_m1_server.Communication.Message
use remote_backup_m1_server.Utilities.Tools
use remote_backup_m1_server.Core.User.{User}
use remote_backup_m1_server.Core.User
use remote_backup_m1_server.Core.Exec.{◌>>=◌}
use remote_backup_m1_server.Core.Exec.Triple.{After, Triple, After-ComesBack}
use remote_backup_m1_server.Core.RequestHandler.State.{Config, Ctx}
use remote_backup_m1_server.Core.RequestHandler.Auth.{log_in}
use remote_backup_m1_server.Core.RequestHandler.Rules.{ViewRules, Rules}
use remote_backup_m1_server.Core.RequestHandler.Rules.Steps.{Open}
use remote_backup_m1_server.Core.RequestHandler.Rules.Requests.{
  serve_guest-Closes, serve_unsynced-Closes, serve_request-Triple,
}
use remote_backup_m1_server.Core.RequestHandler.{
  dispatch, serve_guest, serve_unsynced, serve_synced, handle_request,
}

module _ (os : Platform) (config : Config os) (msg_type : ℕ) (c : Ctx os) where
  pub dispatch-guest :
      c.user.is_auth ≡ false → dispatch os config msg_type c ≡ serve_guest os config msg_type c
  unfolding dispatch ◌>>=◌
  dispatch-guest e = simp e refl

  pub dispatch-unsynced :
      c.user.is_auth ≡ true
      → c.user.is_synced ≡ false
      → dispatch os config msg_type c ≡ serve_unsynced os config msg_type c
  unfolding dispatch ◌>>=◌
  dispatch-unsynced a e = simp (a, e) refl

  pub dispatch-synced :
      c.user.is_auth ≡ true
      → c.user.is_synced ≡ true
      → dispatch os config msg_type c ≡ serve_synced os config msg_type c
  unfolding dispatch ◌>>=◌
  dispatch-synced a e = simp (a, e) refl

-- The user is as before, or was logged in with a password that the credentials verify.
pub data LoginOnly (os : Platform) (config : Config os) (disk : os.Disk) (u v : User os.FsPath)
    : Type 0 where
  stays : v ≡ u → LoginOnly os config disk u v
  logs_in :
      (username password : List ℕ)
      → Tools.verify_password os config.credentials_path username password disk ≡ ok true
      → v ≡ log_in os config username u
      → LoginOnly os config disk u v

log_in-LoginOnly :
    (os : Platform) (config : Config os) (disk : os.Disk) (u v : User os.FsPath)
    (username password : List ℕ)
    → Tools.verify_password os config.credentials_path username password disk ≡ ok true
    → LoginOnly os config disk u v
    → LoginOnly os config disk u (log_in os config username v)
unfolding log_in User.set_auth User.set_dir User.set_username User.set_id
log_in-LoginOnly os config disk u v username password e (stays s) =
    logs_in username password e (rw s refl)
log_in-LoginOnly os config disk u v username password e (logs_in n w v' s) =
    logs_in username password e (rw s refl)

module _ (os : Platform) (config : Config os) (c : Ctx os) where
  -- The disk and the streams are as they were.
  abbrev pub Untouched : Ctx os → Type 0
  Untouched d = (d.disk ≡ c.disk) × (d.streams ≡ c.streams)

  abbrev pub Guest : Ctx os → Type 0
  Guest d = Untouched d × LoginOnly os config c.disk c.user d.user

  -- Before the dispatch only the view and the replies change.
  before_rules : ViewRules os
  before_rules = record {
    Open = λ d. Untouched d × (d.user ≡ c.user);
    Closed = λ d. Untouched d × (d.user ≡ c.user);
    on_view = λ d v o. o;
    on_closing = λ d tag err_type which o. o;
  }

  guest_rules : ViewRules os
  guest_rules = record {
    Open = Guest;
    Closed = Guest;
    on_view = λ d v o. o;
    on_closing = λ d tag err_type which o. o;
  }

  Guest-dispatch :
      (msg_type : ℕ)
      → c.user.is_auth ≡ false
      → Triple (Open os before_rules) (dispatch os config msg_type) (λ _. Guest) Guest
  unfolding before_rules guest_rules
  Guest-dispatch msg_type e = record {
    at = λ d o. rw (dispatch-guest os config msg_type d (ap (λ u. u.is_auth) o.1 ∙ e)) (
        (serve_guest-Closes os config msg_type guest_rules (λ d username password v g. (
          g.0,
          log_in-LoginOnly os config c.disk c.user d.user username password (rw g.0.0 at v) g.1,
        ))).at
          d (o.0, stays o.1));
  }

  pub Guest-request :
      (msg_type : ℕ) (rest : List ℕ)
      → c.user.is_auth ≡ false
      → After (λ _. Guest) Guest (handle_request os config (Message.of_buffer (msg_type ∷ rest)) c)
  unfolding handle_request ◌>>=◌ Message.msg_type before_rules guest_rules
  Guest-request msg_type rest e =
      (serve_request-Triple os config msg_type before_rules guest_rules
          (Message.of_buffer (msg_type ∷ rest)) (λ d. d ≡ c) (λ d o. rw o ((refl, refl), refl))
          (λ d o. (o.0, stays o.1)) (Guest-dispatch msg_type e)).at
        c refl

-- A session that is not authenticated: whatever the request holds, when the handler returns or throws,
-- the disk and the streams are as they were, and the user is as it was or was logged in with a name
-- and a password that the credentials on the disk verify.
pub handle_request-Guest :
    (os : Platform) (config : Config os) (msg_type : ℕ) (rest : List ℕ) (c d : Ctx os)
    (r : Outcome (Unit {0}))
    → c.user.is_auth ≡ false
    → handle_request os config (Message.of_buffer (msg_type ∷ rest)) c ≡ (r, d)
    → ComesBack r
    → Guest os config c d
handle_request-Guest os config msg_type rest c d r e run back =
    After-ComesBack (Guest os config c) r d back
      (rw run at (Guest-request os config c msg_type rest e))

-- Who the session belongs to.
abbrev pub SameOwner : {K : Type 0} → User K → User K → Type 0
SameOwner u v = (v.id ≡ u.id) × (v.username ≡ u.username) × (v.ip ≡ u.ip) × (v.is_auth ≡ u.is_auth)

module _ (os : Platform) (config : Config os) (c : Ctx os) where
  abbrev pub Unsynced : Ctx os → Type 0
  Unsynced d = Untouched os config c d × SameOwner c.user d.user

  unsynced_rules : Rules os
  unfolding User.set_synced
  unsynced_rules = record {
    views = record {
      Open = Unsynced;
      Closed = Unsynced;
      on_view = λ d v o. o;
      on_closing = λ d tag err_type which o. o;
    };
    on_dir = λ d dir o. o;
    on_item = λ d sign o. o;
  }

  Unsynced-dispatch :
      (msg_type : ℕ)
      → c.user.is_auth ≡ true
      → c.user.is_synced ≡ false
      → Triple
          (Open os (before_rules os config c))
          (dispatch os config msg_type)
          (λ _. Unsynced)
          Unsynced
  unfolding before_rules unsynced_rules User.set_synced
  Unsynced-dispatch msg_type a e = record {
    at = λ d o.
        rw
          (dispatch-unsynced os config msg_type d (ap (λ u. u.is_auth) o.1 ∙ a)
            (ap (λ u. u.is_synced) o.1 ∙ e))
          ((serve_unsynced-Closes os config msg_type unsynced_rules (λ d o. o) (λ d t o. o)).at d
            (o.0, (rw o.1 (refl, refl, refl, refl))));
  }

  Unsynced-request :
      (msg_type : ℕ) (rest : List ℕ)
      → c.user.is_auth ≡ true
      → c.user.is_synced ≡ false
      → After
          (λ _. Unsynced)
          Unsynced
          (handle_request os config (Message.of_buffer (msg_type ∷ rest)) c)
  unfolding handle_request ◌>>=◌ Message.msg_type before_rules unsynced_rules
  Unsynced-request msg_type rest a e =
      (serve_request-Triple os config msg_type (before_rules os config c) (unsynced_rules.views)
          (Message.of_buffer (msg_type ∷ rest)) (λ d. d ≡ c) (λ d o. rw o ((refl, refl), refl))
          (λ d o. (o.0, (rw o.1 (refl, refl, refl, refl)))) (Unsynced-dispatch msg_type a e)).at
        c refl

-- A session that is authenticated and not synchronised: when the handler returns or throws, the disk
-- and the streams are as they were, and the session still belongs to the same user.
pub handle_request-Unsynced :
    (os : Platform) (config : Config os) (msg_type : ℕ) (rest : List ℕ) (c d : Ctx os)
    (r : Outcome (Unit {0}))
    → c.user.is_auth ≡ true
    → c.user.is_synced ≡ false
    → handle_request os config (Message.of_buffer (msg_type ∷ rest)) c ≡ (r, d)
    → ComesBack r
    → Unsynced os config c d
handle_request-Unsynced os config msg_type rest c d r a e run back =
    After-ComesBack (Unsynced os config c) r d back
      (rw run at (Unsynced-request os config c msg_type rest a e))
