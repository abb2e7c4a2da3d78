-- ===== src/Core/Connection/Logins.antt =====
-- core/connection.cpp: a session stays authenticated, and before that no callback changes a disk without
-- streams.
use remote_backup_m1_server.Prelude.{
  ℕ, ◌≡◌, refl, sym, subst, ap, ◌∙◌, ◌⊎◌, inl, inr, true, Bool-cases, List, [], ◌∷◌,
}
use remote_backup_m1_server.Platform.{Platform}
use remote_backup_m1_server.Communication.Message.{of_buffer, msg_type}
use remote_backup_m1_server.Core.User.{User, set_auth, set_synced, set_ip}
use remote_backup_m1_server.Core.OpenStreams.{Streams}
use remote_backup_m1_server.Core.OpenStreams
use remote_backup_m1_server.Core.Exec.{◌>>=◌}
use remote_backup_m1_server.Core.Exec.Triple.{After, After-weaken}
use remote_backup_m1_server.Core.RequestHandler.State.{Config, Ctx}
use remote_backup_m1_server.Core.RequestHandler.Auth.{log_in}
use remote_backup_m1_server.Core.RequestHandler.Access.{Guest, stays, logs_in, Guest-request}
use remote_backup_m1_server.Core.RequestHandler.Rules.Sessions.{CoreRules, handle_request-After}
use remote_backup_m1_server.Core.RequestHandler.{handle_request}
use remote_backup_m1_server.Core.Connection.{Connection, Event, react, start}
use remote_backup_m1_server.Core.Connection.Rules.{
  SessionRules, session_rules, react-Keeps, start-Keeps,
}

module _ (os : Platform) (config : Config os) where
  log_in-is_auth :
      (u : User os.FsPath) (username : List ℕ) → (log_in os config username u).is_auth ≡ true
  unfolding log_in set_auth
  log_in-is_auth u username = refl

  auth_core : CoreRules os config
  unfolding set_synced
  auth_core = record {
    Holds = λ disk streams user. user.is_auth ≡ true;
    on_disk = λ disk d streams user h. h;
    on_get_stream = λ disk streams user path h. h;
    on_erase_stream = λ disk streams user h. h;
    on_dir = λ disk streams user dir h. h;
    on_login = λ disk streams user username h. log_in-is_auth user username;
    on_synced = λ disk streams user h. h;
  }

  auth_session : SessionRules os config
  unfolding auth_core set_ip
  auth_session = session_rules os config auth_core (λ disk streams user ip h. h)

  module _ (disk : os.Disk) where
    -- Authenticated, or the disk is `disk` and no stream is open.
    abbrev pub Unmoved : os.Disk → Streams os → User os.FsPath → Type 0
    Unmoved d streams user = (user.is_auth ≡ true) ⊎ ((d ≡ disk) × (streams ≡ []))

    Guest-Unmoved :
        (x y : Ctx os)
        → (x.disk ≡ disk) × (x.streams ≡ [])
        → Guest os config x y
        → Unmoved y.disk y.streams y.user
    Guest-Unmoved x y (d, s) (same, stays e) = inr (same.0 ∙ d, same.1 ∙ s)
    Guest-Unmoved x y (d, s) (same, logs_in n w v e) =
        inl (ap (λ u. u.is_auth) e ∙ log_in-is_auth x.user n)

    request-Unmoved :
        (request : List ℕ) (x : Ctx os)
        → Unmoved x.disk x.streams x.user
        → After
            (λ _ y. Unmoved y.disk y.streams y.user)
            (λ y. Unmoved y.disk y.streams y.user)
            (handle_request os config (of_buffer request) x)
    unfolding handle_request ◌>>=◌ msg_type auth_core
    request-Unmoved [] x h = tt
    request-Unmoved (t ∷ rest) x (inl auth) =
        After-weaken (λ _ y. y.user.is_auth ≡ true) _ (λ y. y.user.is_auth ≡ true) _ _
          (handle_request-After os config auth_core (t ∷ rest) x auth) (λ a y h. inl h)
          (λ y h. inl h)
    request-Unmoved (t ∷ rest) x (inr same) = elim (Bool-cases x.user.is_auth) [
      | inl auth ↦
          After-weaken (λ _ y. y.user.is_auth ≡ true) _ (λ y. y.user.is_auth ≡ true) _ _
            (handle_request-After os config auth_core (t ∷ rest) x auth) (λ a y h. inl h)
            (λ y h. inl h)
      | inr guest ↦
          After-weaken (λ _ y. Guest os config x y) _ (λ y. Guest os config x y) _ _
            (Guest-request os config x t rest guest) (λ a y h. Guest-Unmoved x y same h)
            (λ y h. Guest-Unmoved x y same h)
    ]

    shutdown-Unmoved :
        (d : os.Disk) (streams : Streams os) (user : User os.FsPath)
        → Unmoved d streams user
        → let (s, d') = OpenStreams.erase_stream os user.id streams d in Unmoved d' s user
    unfolding OpenStreams.erase_stream OpenStreams.find_stream
    shutdown-Unmoved d streams user (inl auth) = inl auth
    shutdown-Unmoved d streams user (inr (same, none_open)) =
        subst
          (λ streams.
            let (s, d') = OpenStreams.erase_stream os user.id streams d in Unmoved d' s user)
          (sym none_open) (inr (same, refl))

    guest_session : SessionRules os config
    unfolding set_ip
    guest_session = record {
      Holds = Unmoved;
      on_ip = λ d streams user ip h. h;
      on_shutdown = shutdown-Unmoved;
      on_request = λ request x h. request-Unmoved request.raw_msg x h;
    }

  module _ (clock : List ℕ) (fuel : ℕ) where
    abbrev pub AtDisk : os.Disk → Connection os → Type 0
    AtDisk disk c = Unmoved disk c.disk c.streams c.user

    pub react-Unmoved :
        (disk : os.Disk) (event : Event) (c : Connection os)
        → AtDisk disk c
        → After (λ _. AtDisk disk) (AtDisk disk) (react os config clock fuel event c)
    unfolding guest_session
    react-Unmoved disk event c h =
        (react-Keeps os config (guest_session disk) clock fuel event).at c h

    pub start-Unmoved :
        (disk : os.Disk) (ip : List ℕ) (c : Connection os)
        → AtDisk disk c
        → After (λ _. AtDisk disk) (AtDisk disk) (start os config clock fuel ip c)
    unfolding guest_session
    start-Unmoved disk ip c h = (start-Keeps os config (guest_session disk) clock fuel ip).at c h

    pub react-is_auth :
        (event : Event) (c : Connection os)
        → c.user.is_auth ≡ true
        → After
            (λ _ d. d.user.is_auth ≡ true)
            (λ d. d.user.is_auth ≡ true)
            (react os config clock fuel event c)
    unfolding auth_session session_rules auth_core
    react-is_auth event c h = (react-Keeps os config auth_session clock fuel event).at c h
