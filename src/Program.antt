-- ===== src/Program.antt =====
-- main.cpp: the options of the program. Boost.Program_options, and what Boost.Filesystem says of a path, are
-- a parameter.
pub mod Options
pub mod Endings
use remote_backup_m1_server.Prelude.{
  ℕ, Bool, true, false, List, [], ◌∷◌, ◌++◌, Option, none, some, codes, if◌then◌else◌,
}
use remote_backup_m1_server.Outcome.{Outcome, ok, throws, exits, fault, stuck, logic_error}
use remote_backup_m1_server.Platform.{Platform}
use remote_backup_m1_server.Core.Exec.{Exec, pure, lift, gets, modify, ◌>>=◌, ◌>>◌}
use remote_backup_m1_server.Core.RequestHandler.State.{Config}
use remote_backup_m1_server.Core.Server.{Server, ServerEvent, make_server, run}

-- The options that are paths.
pub data Setting : Type 0 where
  backup_root credentials_file logger_file : Setting

-- `Values` is `po::variables_map`, and `none` an exception.
pub record Library (os : Platform) : Type 1 where
  pub Values : Type 0
  pub nothing_stored : Values
  -- `po::store(po::parse_command_line(argc, argv, desc), vm)`, the same with `parse_config_file`,
  -- and `po::notify`
  pub store_command_line : List (List ℕ) → Values → Option Values
  pub store_config_file : List ℕ → Values → Option Values
  pub notify : Values → Option (Unit {0})
  pub has_help : Values → Bool
  -- `vm[...].as<fs::path>()`, `vm.at(...).value() = ...`, `defaulted()`
  pub path_of : Setting → Values → Option os.FsPath
  pub set_path : Setting → os.FsPath → Values → Values
  pub defaulted : Setting → Values → Bool
  pub threads_defaulted : Values → Bool
  pub canonical : os.FsPath → os.Disk → Option os.FsPath
  pub is_directory : os.FsPath → os.Disk → Option Bool
  pub is_regular_file : os.FsPath → os.Disk → Option Bool
  -- what the constructor of `server` does with Boost.Asio and the file of the log: signals, resolver,
  -- acceptor, TLS
  pub set_up : Values → Option (Unit {0})

-- What is printed.
pub data Note (os : Platform) : Type 0 where
  usage no_config_file parsing_failed serving_failed default_threads : Note os
  not_a_directory not_a_file : os.FsPath → Note os
  default_path : Setting → os.FsPath → Note os

pub record Parsing {os : Platform} (lib : Library os) : Type 0 where
  pub vm : lib.Values
  pub printed : List (Note os)

-- A call that may throw a `std::exception`.
unfoldable pub or_throw {ℓ} : {A : Type ℓ} → Option A → Outcome A
or_throw none = throws logic_error
or_throw (some a) = ok a

abbrev pub handle_any {ℓ κ} : {S : Type ℓ} {A : Type κ} → Outcome A × S → Exec S A → Outcome A × S
handle_any (throws e, s) h = h s
handle_any (r, s) h = (r, s)

-- `try { m } catch (std::exception &) { h }`
unfoldable pub try_any {ℓ κ} : {S : Type ℓ} {A : Type κ} → Exec S A → Exec S A → Exec S A
try_any m h s = handle_any (m s) h

module _ {os : Platform} (lib : Library os) where
  open lib use {
    Values, store_command_line, store_config_file, notify, has_help, path_of, set_path, defaulted,
    threads_defaulted, canonical, is_directory, is_regular_file, set_up,
  }

  abbrev pub Action {ℓ} : Type ℓ → Type ℓ
  Action A = Exec (Parsing lib) A

  unfoldable pub note : Note os → Action (Unit {0})
  note n = modify (λ s. record s { printed = s.printed ++ (n ∷ []) })

  -- A message, and `std::exit(EXIT_FAILURE)`.
  unfoldable pub give_up {ℓ} : {A : Type ℓ} → Note os → Action A
  unfolding note
  give_up n = note n >> lift exits

  unfoldable pub remark : Bool → Note os → Action (Unit {0})
  unfolding note
  remark b n = if b then note n else pure tt

  unfoldable pub require : Bool → Note os → Action (Unit {0})
  unfolding give_up
  require b n = if b then pure tt else give_up n

  unfoldable pub store : (Values → Option Values) → Action (Unit {0})
  unfolding or_throw
  store f = do s ← gets (λ s. s); vm ← lift (or_throw (f s.vm)); modify (λ s. record s { vm = vm })

  module _ (disk : os.Disk) where
    -- The path of an option is replaced by its canonical one, which `test` has to accept. The note
    -- is printed when the option `shown` has its default value.
    unfoldable pub check_path :
        Setting
        → (os.FsPath → os.Disk → Option Bool)
        → (os.FsPath → Note os)
        → Setting
        → Action (Unit {0})
    unfolding or_throw require remark
    check_path setting test refused shown = do
      vm ← gets (λ s. s.vm)
      given ← lift (or_throw (path_of setting vm))
      path ← lift (or_throw (canonical given disk))
      modify (λ s. record s { vm = set_path setting path s.vm })
      vm ← gets (λ s. s.vm)
      path ← lift (or_throw (path_of setting vm))
      accepted ← lift (or_throw (test path disk))
      require accepted (refused path)
      remark (defaulted shown vm) (default_path setting path)

    -- The last of the three notes on a default value looks at the option of the credentials.
    unfoldable pub check_paths : Action (Unit {0})
    unfolding check_path
    check_paths = do
      check_path backup_root is_directory not_a_directory backup_root
      check_path credentials_file is_regular_file not_a_file credentials_file
      check_path logger_file is_regular_file not_a_file credentials_file

    unfoldable pub read_config_file : Action (Unit {0})
    unfolding give_up store
    read_config_file = elim (os.read_file (os.to_path (codes "./CONFIG.txt")) disk) [
      | none ↦ give_up no_config_file
      | some text ↦ store (store_config_file text)
    ]

    -- After the command line is stored; `none` is `std::exit(EXIT_SUCCESS)`.
    unfoldable pub parse_rest : Action (Option Values)
    unfolding read_config_file or_throw check_paths remark
    parse_rest = do
      read_config_file
      vm ← gets (λ s. s.vm)
      lift (or_throw (notify vm))
      check_paths
      vm ← gets (λ s. s.vm)
      remark (threads_defaulted vm) default_threads
      gets (λ s. some s.vm)

    unfoldable pub parse : List (List ℕ) → Action (Option Values)
    unfolding store note parse_rest
    parse arguments = do
      store (store_command_line arguments)
      vm ← gets (λ s. s.vm)
      if has_help vm then (note usage >> pure none) else parse_rest

    unfoldable pub parse_options : List (List ℕ) → Action (Option Values)
    unfolding try_any parse give_up
    parse_options arguments = try_any (parse arguments) (give_up parsing_failed)

  -- How the program ends: by a status, or by what its server came to.
  pub data Ending : Type 0 where
    status : ℕ → Ending
    served : Outcome (Unit {0}) × Server os → Ending

  -- The constructor of `server`, but for its first connection: the paths are read from the options.
  unfoldable pub construct : Values → Action (Config os)
  unfolding or_throw
  construct vm = do
    lift (or_throw (path_of logger_file vm))
    root ← lift (or_throw (path_of backup_root vm))
    credentials ← lift (or_throw (path_of credentials_file vm))
    lift (or_throw (set_up vm))
    pure (record { backup_root = root; credentials_path = credentials })

  -- After `parse_options`: the server is constructed and runs, in the `try` of `main`. The flags of a new
  -- session, the clock and the events are arguments.
  module _ (auth_flag synced_flag : Bool) (clock : List ℕ) (fuel : ℕ)
      (events : List ServerEvent) where
    unfoldable pub serve : os.Disk → List ℕ → Values → Action Ending
    unfolding note construct try_any
    serve disk log vm =
        try_any
          (do
            config ← construct vm
            pure (
                served (
                  run os auth_flag synced_flag config clock fuel events
                    (make_server os auth_flag synced_flag disk log))))
          (note serving_failed >> pure (status 1))

    abbrev pub after_parsing :
        os.Disk → List ℕ → Outcome (Option Values) × Parsing lib → Outcome Ending × Parsing lib
    after_parsing disk log (ok none, s) = (ok (status 0), s)
    after_parsing disk log (ok (some vm), s) = serve disk log vm s
    after_parsing disk log (exits, s) = (ok (status 1), s)
    after_parsing disk log (throws e, s) = (note serving_failed >> pure (status 1)) s
    after_parsing disk log (fault, s) = (fault, s)
    after_parsing disk log (stuck, s) = (stuck, s)

    unfoldable pub main : os.Disk → List ℕ → List (List ℕ) → Action Ending
    unfolding parse_options
    main disk log arguments s = after_parsing disk log (parse_options disk arguments s)
