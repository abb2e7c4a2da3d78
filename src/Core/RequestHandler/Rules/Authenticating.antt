-- ===== src/Core/RequestHandler/Rules/Authenticating.antt =====
-- core/request_handler.cpp: `handle_auth` closes.
use remote_backup_m1_server.Prelude.{ℕ, ◌≡◌, refl, Bool, true, false, List, ◌==◌, if◌then◌else◌}
use remote_backup_m1_server.Outcome.{Outcome, ok, throws, exits, fault, stuck}
use remote_backup_m1_server.Platform.{Platform}
use remote_backup_m1_server.Communication.Types.TlvType
use remote_backup_m1_server.Communication.Types.ErrType.{err_auth_failed}
use remote_backup_m1_server.Utilities.Tools
use remote_backup_m1_server.Core.Exec.{continue, modify, ◌>>=◌, ◌>>◌}
use remote_backup_m1_server.Core.Exec.Triple.{After, Triple-if}
use remote_backup_m1_server.Core.RequestHandler.Rules.{ViewRules}
use remote_backup_m1_server.Core.RequestHandler.State.{Config, Ctx, reply_error, reply_ok}
use remote_backup_m1_server.Core.RequestHandler.Rules.Steps.{
  Open, Closed, Closes, then_open, view_type-Keeps, view_value-Keeps, next_is-Keeps,
  reply_error-Closes, reply_ok-Closes,
}
use remote_backup_m1_server.Core.RequestHandler.Auth.{log_in, auth_password, auth_user, handle_auth}

-- What a login has to keep: it happens only on a password that was verified on the disk as it is.
abbrev pub OnLogin : (os : Platform) → Config os → ViewRules os → Type 0
OnLogin os config views =
    (c : Ctx os) (username password : List ℕ)
    → Tools.verify_password os config.credentials_path username password c.disk ≡ ok true
    → views.Open c
    → views.Open (record c { user = log_in os config username c.user })

module _ (os : Platform) (config : Config os) (views : ViewRules os)
    (on_login : OnLogin os config views) where
  -- The rest of `handle_auth` after the password is read, from the outcome of the verification.
  verified-Closes :
      (username password : List ℕ) (c : Ctx os) (r : Outcome Bool)
      → Tools.verify_password os config.credentials_path username password c.disk ≡ r
      → views.Open c
      → After
          (λ _. Closed os views)
          (Open os views)
          (continue
            (r, c)
            λ verified.
              if verified
              then (do
                modify (λ c. record c { user = log_in os config username c.user })
                reply_ok os)
              else reply_error os err_auth_failed)
  unfolding ◌>>=◌
  verified-Closes username password c (ok true) e o =
      (reply_ok-Closes os views).at _ (on_login c username password e o)
  verified-Closes username password c (ok false) e o = (reply_error-Closes os views _).at c o
  verified-Closes username password c (throws x) e o = o
  verified-Closes username password c exits e o = tt
  verified-Closes username password c fault e o = tt
  verified-Closes username password c stuck e o = tt

  auth_password-Closes : (username : List ℕ) → Closes os views (auth_password os config username)
  unfolding auth_password ◌>>=◌
  auth_password-Closes username =
      then_open os views _ _ _ (view_value-Keeps os views)
        λ password. record { at = λ c o. verified-Closes username password c _ refl o }

  pub handle_auth-Closes : Closes os views (handle_auth os config)
  unfolding handle_auth auth_user
  handle_auth-Closes = then_open os views _ _ _ (view_type-Keeps os views) λ tag.
      Triple-if _ _ _ (tag == TlvType.usrn) _ _
        (then_open os views _ _ _ (view_value-Keeps os views) λ username.
          then_open os views _ _ _ (next_is-Keeps os views _) λ more.
            Triple-if _ _ _ more _ _ (auth_password-Closes username)
              (reply_error-Closes os views _))
        (reply_error-Closes os views _)
