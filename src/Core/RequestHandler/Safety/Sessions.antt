-- ===== src/Core/RequestHandler/Safety/Sessions.antt =====
-- core/request_handler.cpp: `handle_auth` and `handle_sync` on a request of whole segments.
use remote_backup_m1_server.Prelude.{
  ℕ, ◌≢◌, refl, Bool, true, false, inl, inr, List, [], ◌∷◌, Option-cases, if◌then◌else◌,
}
use remote_backup_m1_server.Outcome.{filesystem_error}
use remote_backup_m1_server.Platform.{Platform}
use remote_backup_m1_server.Communication.Types.TlvType
use remote_backup_m1_server.Communication.Types.ErrType.{ErrType, err_none, err_auth_no_pswd}
use remote_backup_m1_server.Directory.Resource.{Resource}
use remote_backup_m1_server.Utilities.Tools
use remote_backup_m1_server.Core.User.{set_synced}
use remote_backup_m1_server.Core.Exec.{Exec}
use remote_backup_m1_server.Core.Exec.Safety.{
  Safe, IsDefined, returned, thrown, Safe-lift, Safe-gets, Safe-if, Safe-modify, Safe-bind,
  Safe-try, Safe-weaken,
}
use remote_backup_m1_server.Core.RequestHandler.State.{
  Config, Ctx, close_response, reply_error, reply_ok, view_value,
}
use remote_backup_m1_server.Core.RequestHandler.Auth.{auth_password, auth_user, handle_auth}
use remote_backup_m1_server.Core.RequestHandler.Sync.{
  put_resource, clear_dir, sync_file, sync_files, sync_walk, handle_sync,
}
use remote_backup_m1_server.Core.RequestHandler.Safety.{
  IsLenient, error_text-IsDefined, Homed, Keeps, bind-Keeps, lift-Keeps, pure-Keeps, gets-Keeps,
  if-Keeps, reply_error-Keeps, reply_ok-Keeps, add_item-Keeps, get_dir-Keeps, set_dir_object-Keeps,
  md5_hash_file-IsDefined,
}
use remote_backup_m1_server.Core.RequestHandler.Safety.Views.{
  Reading, Found, view_value-Safe, view_type-Safe, next_is-Safe,
}
use remote_backup_m1_server.Core.RequestHandler.Safety.Handlers.{home, rejects}

-- A password of a byte or more can be hashed.
verify_password-IsDefined :
    (os : Platform) (path : os.FsPath) (username password : List ℕ) (disk : os.Disk)
    → password ≢ []
    → IsDefined (Tools.verify_password os path username password disk)
unfolding Tools.verify_password Tools.sha512_hash
verify_password-IsDefined os path username [] disk h = absurd (h refl)
verify_password-IsDefined os path username (c ∷ cs) disk h =
    elim (Option-cases (os.read_file path disk)) [
      | inl e ↦ rw e (returned _)
      | inr (text, e) ↦ rw e (returned _)
    ]

module _ (os : Platform) ⦃lenient : IsLenient os⦄ where
  -- Nothing is known of the state, before or after.
  abbrev pub Anywhere {κ} : {A : Type κ} → Exec (Ctx os) A → Type κ
  Anywhere m = Safe (λ _. Unit {0}) m (λ _ _. Unit {0}) (λ _. Unit {0})

  abbrev pub From {κ} : {A : Type κ} → (Ctx os → Type 0) → Exec (Ctx os) A → Type κ
  From P m = Safe P m (λ _ _. Unit {0}) (λ _. Unit {0})

  pub anywhere {κ} :
      {A : Type κ} (P : Ctx os → Type 0) (m : Exec (Ctx os) A) → Anywhere m → From P m
  anywhere P m h = Safe-weaken _ P _ _ m (λ c p. tt) h

  pub reply_error-Anywhere : (err_type : ErrType) → Anywhere (reply_error os err_type)
  unfolding reply_error close_response
  reply_error-Anywhere err_type =
      Safe-bind _ _ _ _ _ _ (Safe-lift _ _ _ (error_text-IsDefined os lenient err_type) (λ c p. tt))
        λ text. Safe-modify _ _ _ _ (λ c p. tt)

  pub reply_ok-Anywhere : Anywhere (reply_ok os)
  unfolding reply_ok close_response
  reply_ok-Anywhere =
      Safe-bind _ _ _ _ _ _ (Safe-lift _ _ _ (error_text-IsDefined os lenient err_none) (λ c p. tt))
        λ text. Safe-modify _ _ _ _ (λ c p. tt)

  -- A PSWD segment has a byte.
  password_value :
      Safe
        (λ c. Found os TlvType.pswd true c × Unit {0})
        (view_value os)
        (λ value c. value ≢ [])
        (λ _. Unit {0})
  unfolding view_value
  password_value = record {
    at = λ c ((t, ts, on, same), _).
        let some_byte : t.value ≢ [] = elim on.here.password [
          | inl other ↦ absurd (other same)
          | inr bytes ↦ bytes
        ] in
        rw (view_value, on.value_is) some_byte;
  }

  module _ (config : Config os) where
    auth_password-Safe :
        (username : List ℕ)
        → From (λ c. Found os TlvType.pswd true c × Unit {0}) (auth_password os config username)
    unfolding auth_password
    auth_password-Safe username =
        Safe-bind _ (λ password _. password ≢ []) _ _ _ _ password_value
          λ password.
            Safe-bind _ (λ _ _. password ≢ []) _ _ _ _ (Safe-gets _ _ _)
              λ disk.
                Safe-bind _ (λ _ _. password ≢ []) _ _ _ _
                  (record {
                    at = λ c some_byte.
                        (Safe-lift (λ _. password ≢ []) (λ _. Unit {0}) _
                            (verify_password-IsDefined os config.credentials_path username password
                              disk some_byte)
                            (λ c h. tt)).at
                          c some_byte;
                  })
                  λ verified. anywhere _ _ (
                    Safe-if _ _ _ verified _ _
                      (Safe-bind _ (λ _ _. Unit {0}) _ _ _ _ (Safe-modify _ _ _ _ (λ c p. tt))
                        λ _. reply_ok-Anywhere)
                      (reply_error-Anywhere _))

    pub handle_auth-Safe : From (Reading os) (handle_auth os config)
    unfolding handle_auth auth_user
    handle_auth-Safe =
        Safe-bind _ (λ _. Reading os) _ _ _ _ (view_type-Safe os (Reading os) _ (λ c p. p))
          λ tag.
            Safe-if _ _ _ _ _ _
              (Safe-bind _ (λ _. Reading os) _ _ _ _ (view_value-Safe os (Reading os) _ (λ c p. p))
                λ username.
                  Safe-bind _ (λ b c. Found os TlvType.pswd b c × Unit {0}) _ _ _ _
                    (next_is-Safe os (Reading os) _ (λ c p. p) TlvType.pswd (λ _. Unit {0})
                      (λ c v p. tt))
                    λ b. asked username b)
              (anywhere _ _ (reply_error-Anywhere _))
      where
        asked :
            (username : List ℕ) (b : Bool)
            → From
                (λ c. Found os TlvType.pswd b c × Unit {0})
                (if b then auth_password os config username else reply_error os err_auth_no_pswd)
        asked username true = auth_password-Safe username
        asked username false = anywhere _ _ (reply_error-Anywhere _)

  put_resource-Keeps :
      (path : os.FsPath) (r : Resource) → Keeps os (Homed os) (home os) (put_resource os path r)
  unfolding put_resource
  put_resource-Keeps path r =
      bind-Keeps os (Homed os) (home os) _ _ (get_dir-Keeps os (Homed os) (home os)) λ d.
        bind-Keeps os (Homed os) (home os) _ _ (set_dir_object-Keeps os (Homed os) (home os) _)
          λ _. pure-Keeps os (Homed os) (home os) _

  clear_dir-Keeps : Keeps os (Homed os) (home os) (clear_dir os)
  unfolding clear_dir
  clear_dir-Keeps =
      bind-Keeps os (Homed os) (home os) _ _ (get_dir-Keeps os (Homed os) (home os))
        λ d. set_dir_object-Keeps os (Homed os) (home os) _

  sync_file-Keeps :
      (root absolute_path : os.FsPath)
      → Keeps os (Homed os) (home os) (sync_file os root absolute_path)
  unfolding sync_file
  sync_file-Keeps root absolute_path =
      bind-Keeps os (Homed os) (home os) _ _ (gets-Keeps os (Homed os) (home os) _) λ disk.
        bind-Keeps os (Homed os) (home os) _ _
          (lift-Keeps os (Homed os) (home os) _ (md5_hash_file-IsDefined os lenient _ _ disk))
          λ digest. bind-Keeps os (Homed os) (home os) _ _ (put_resource-Keeps _ _) λ inserted.
            if-Keeps os (Homed os) (home os) inserted _ _
              (bind-Keeps os (Homed os) (home os) _ _ (add_item-Keeps os (Homed os) (home os) _)
                λ _. pure-Keeps os (Homed os) (home os) true)
              (bind-Keeps os (Homed os) (home os) _ _ clear_dir-Keeps λ _. rejects os _ false)

  sync_files-Keeps :
      (root : os.FsPath) (entries : List (os.FsPath × Bool)) (failed : Bool)
      → Keeps os (Homed os) (home os) (sync_files os root entries failed)
  unfolding sync_files
  sync_files-Keeps root [] failed =
      if-Keeps os (Homed os) (home os) failed _ _
        (lift-Keeps os (Homed os) (home os) _ (thrown filesystem_error))
        (pure-Keeps os (Homed os) (home os) true)
  sync_files-Keeps root ((path, regular) ∷ entries) failed =
      let rest = sync_files-Keeps root entries failed in
      if-Keeps os (Homed os) (home os) regular _ _
        (bind-Keeps os (Homed os) (home os) _ _ (sync_file-Keeps root path) λ go.
          if-Keeps os (Homed os) (home os) go _ _ rest (pure-Keeps os (Homed os) (home os) false))
        rest

  pub handle_sync-Keeps : Keeps os (Homed os) (home os) (handle_sync os)
  unfolding handle_sync sync_walk set_synced
  handle_sync-Keeps =
      Safe-try (Homed os) (λ _. Homed os) (Homed os) _ _
        (bind-Keeps os (Homed os) (home os) _ _ (get_dir-Keeps os (Homed os) (home os)) λ d.
          bind-Keeps os (Homed os) (home os) _ _ (gets-Keeps os (Homed os) (home os) _) λ disk.
            bind-Keeps os (Homed os) (home os) _ _ (sync_files-Keeps _ _ _) λ complete.
              if-Keeps os (Homed os) (home os) complete _ _
                (bind-Keeps os (Homed os) (home os) _ _
                  (Safe-modify (Homed os) (Homed os) (Homed os) _ (λ c h. h))
                  λ _. reply_ok-Keeps os (Homed os) (home os))
                (pure-Keeps os (Homed os) (home os) tt))
        (bind-Keeps os (Homed os) (home os) _ _ clear_dir-Keeps λ _.
          bind-Keeps os (Homed os) (home os) _ _
            (Safe-modify (Homed os) (Homed os) (Homed os) _ (λ c h. h))
            λ _. reply_error-Keeps os (Homed os) (home os) _)
