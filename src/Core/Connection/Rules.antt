-- ===== src/Core/Connection/Rules.antt =====
-- core/connection.cpp: one induction over all callbacks, for what is said of the disk, the streams and the
-- session. The record is what a property has to say of a request and of a shutdown.
use remote_backup_m1_server.Prelude.{ℕ, Bool, false, List, if◌then◌else◌}
use remote_backup_m1_server.Outcome.{Outcome}
use remote_backup_m1_server.Platform.{Platform}
use remote_backup_m1_server.Communication.Message.{Message}
use remote_backup_m1_server.Communication.Types.{ResultType}
use remote_backup_m1_server.Core.User.{User, set_ip}
use remote_backup_m1_server.Core.OpenStreams.{Streams}
use remote_backup_m1_server.Core.OpenStreams
use remote_backup_m1_server.Core.Exec.{Exec, lift, gets, modify, ◌>>=◌, ◌>>◌}
use remote_backup_m1_server.Core.Exec.Triple.{
  After, Triple, After-into, Triple-pure, Triple-lift, Triple-bind, Triple-if,
}
use remote_backup_m1_server.Core.RequestHandler.State.{Config, Ctx}
use remote_backup_m1_server.Core.RequestHandler
use remote_backup_m1_server.Core.RequestHandler.Rules.Sessions.{CoreRules, handle_request-After}
use remote_backup_m1_server.Core.Connection.{
  Connection, Waiting, for_nothing, for_handshake, for_header, for_body, for_size_sent,
  for_message_sent, Event, io_done, timer_expired, unless_timed_out, completed, react,
  write_response, size_sent, read_request, header_read, handle_completion, handle_request, serve,
  start, shutdown, shutdown_state, schedule_timeout, log_write, log_line, log_read,
}

pub record SessionRules (os : Platform) (config : Config os) : Type 1 where
  pub Holds : os.Disk → Streams os → User os.FsPath → Type 0
  pub on_ip :
      (disk : os.Disk) (streams : Streams os) (user : User os.FsPath) (ip : List ℕ)
      → Holds disk streams user
      → Holds disk streams (set_ip user ip)
  pub on_shutdown :
      (disk : os.Disk) (streams : Streams os) (user : User os.FsPath)
      → Holds disk streams user
      → let (s, d) = OpenStreams.erase_stream os user.id streams disk in Holds d s user
  pub on_request :
      (request : Message) (x : Ctx os)
      → Holds x.disk x.streams x.user
      → After
          (λ _ d. Holds d.disk d.streams d.user)
          (λ d. Holds d.disk d.streams d.user)
          (RequestHandler.handle_request os config request x)

module _ (os : Platform) (config : Config os) (rules : SessionRules os config) where
  abbrev pub At : Connection os → Type 0
  At c = rules.Holds c.disk c.streams c.user

  -- An action that keeps it, whether it returns or throws.
  abbrev pub Keeps {κ} : {A : Type κ} → Exec (Connection os) A → Type 0
  Keeps m = Triple At m (λ _. At) At

  then-Keeps {κ ν} :
      {A : Type κ} {B : Type ν} (m : Exec (Connection os) A) (f : A → Exec (Connection os) B)
      → Keeps m
      → ((a : A) → Keeps (f a))
      → Keeps (m >>= f)
  then-Keeps m f = Triple-bind At (λ _. At) (λ _. At) At m f

  lift-Keeps {κ} : {A : Type κ} (r : Outcome A) → Keeps (lift r)
  lift-Keeps r = Triple-lift At At r (λ c h. h)

  gets-Keeps {κ} : {A : Type κ} (f : Connection os → A) → Keeps (gets f)
  unfolding gets
  gets-Keeps f = record { at = λ c h. h }

  modify-Keeps :
      (f : Connection os → Connection os)
      → ((c : Connection os) → At c → At (f c))
      → Keeps (modify f)
  unfolding modify
  modify-Keeps f h = record { at = h }

  if-Keeps {κ} :
      {A : Type κ} (b : Bool) (m n : Exec (Connection os) A)
      → Keeps m
      → Keeps n
      → Keeps (if b then m else n)
  if-Keeps b m n = Triple-if At (λ _. At) At b m n

  module _ (clock : List ℕ) (fuel : ℕ) where
    schedule_timeout-Keeps : Keeps (schedule_timeout os config clock fuel)
    unfolding schedule_timeout
    schedule_timeout-Keeps = modify-Keeps _ (λ c h. h)

    pub shutdown-Keeps : Keeps (shutdown os config clock fuel)
    unfolding shutdown shutdown_state
    shutdown-Keeps = modify-Keeps _ (λ c h. rules.on_shutdown c.disk c.streams c.user h)

    log_line-Keeps : (t : ℕ) (a b : ResultType) → Keeps (log_line os config clock fuel t a b)
    unfolding log_line
    log_line-Keeps t a b =
        then-Keeps _ _ (gets-Keeps _)
          λ user. then-Keeps _ _ (lift-Keeps _) λ line. modify-Keeps _ (λ c h. h)

    log_read-Keeps : Keeps (log_read os config clock fuel)
    unfolding log_read
    log_read-Keeps = log_line-Keeps _ _ _

    log_write-Keeps : (e : Bool) → Keeps (log_write os config clock fuel e)
    unfolding log_write
    log_write-Keeps e = then-Keeps _ _ (gets-Keeps _) λ q. log_line-Keeps _ _ _

    unless_timed_out-Keeps :
        (m : Exec (Connection os) (Unit {0}))
        → Keeps m
        → Keeps (unless_timed_out os config clock fuel m)
    unfolding unless_timed_out
    unless_timed_out-Keeps m h =
        then-Keeps _ _ (gets-Keeps _)
          λ over. if-Keeps over _ _ (Triple-pure At (λ _. At) At tt (λ c o. o)) h

    read_failed-Keeps : Keeps (log_read os config clock fuel >> shutdown os config clock fuel)
    read_failed-Keeps = then-Keeps _ _ log_read-Keeps λ _. shutdown-Keeps

    write_failed-Keeps :
        (e : Bool) → Keeps (log_write os config clock fuel e >> shutdown os config clock fuel)
    write_failed-Keeps e = then-Keeps _ _ (log_write-Keeps e) λ _. shutdown-Keeps

    read_request-Keeps : (e : Bool) → Keeps (read_request os config clock fuel e)
    unfolding read_request
    read_request-Keeps e = unless_timed_out-Keeps _ (
        if-Keeps e _ _ read_failed-Keeps
          (then-Keeps _ _ schedule_timeout-Keeps λ _. modify-Keeps _ (λ c h. h)))

    header_read-Keeps :
        (e : Bool) (bytes : List ℕ) → Keeps (header_read os config clock fuel e bytes)
    unfolding header_read
    header_read-Keeps e bytes = unless_timed_out-Keeps _ (
        if-Keeps e _ _ read_failed-Keeps
          (then-Keeps _ _ schedule_timeout-Keeps λ _. modify-Keeps _ (λ c h. h)))

    write_response-Keeps : (e : Bool) → Keeps (write_response os config clock fuel e)
    unfolding write_response
    write_response-Keeps e = unless_timed_out-Keeps _ (
        if-Keeps e _ _ (write_failed-Keeps e) (
          then-Keeps _ _ (gets-Keeps _)
            λ q. then-Keeps _ _ (lift-Keeps _) λ m. modify-Keeps _ (λ c h. h)))

    size_sent-Keeps : (e : Bool) → Keeps (size_sent os config clock fuel e)
    unfolding size_sent
    size_sent-Keeps e = unless_timed_out-Keeps _ (
        if-Keeps e _ _ (write_failed-Keeps e) (
          then-Keeps _ _ (gets-Keeps _) λ q. then-Keeps _ _ (lift-Keeps _) λ m.
            then-Keeps _ _ (lift-Keeps _) λ q'.
              then-Keeps _ _ (modify-Keeps _ (λ c h. h))
                λ _. then-Keeps _ _ (lift-Keeps _) λ _. modify-Keeps _ (λ c h. h)))

    handle_completion-Keeps : (e : Bool) → Keeps (handle_completion os config clock fuel e)
    unfolding handle_completion
    handle_completion-Keeps e = unless_timed_out-Keeps _ (
        then-Keeps _ _ (log_write-Keeps e)
          λ _. if-Keeps e _ _ shutdown-Keeps (read_request-Keeps e))

    -- The state of the request goes back into the fields of the connection.
    abbrev taken_over : Connection os → Ctx os → Connection os
    taken_over c d = record c {
      disk = d.disk;
      streams = d.streams;
      user = d.user;
      replies = d.replies;
    }

    serve-Keeps : Keeps (serve os config clock fuel)
    unfolding serve
    serve-Keeps = record {
      at = λ c h. After-into At (taken_over c) _ _ (rules.on_request c.msg _ h);
    }

    handle_request-Keeps :
        (e : Bool) (bytes : List ℕ) → Keeps (handle_request os config clock fuel e bytes)
    unfolding handle_request
    handle_request-Keeps e bytes = unless_timed_out-Keeps _ (
        if-Keeps e _ _ read_failed-Keeps (
          then-Keeps _ _ (modify-Keeps _ (λ c h. h)) λ _. then-Keeps _ _ (gets-Keeps _) λ c.
            then-Keeps _ _ (lift-Keeps _) λ m. then-Keeps _ _ (modify-Keeps _ (λ c h. h)) λ _.
              then-Keeps _ _ (lift-Keeps _)
                λ _. then-Keeps _ _ serve-Keeps λ _. write_response-Keeps false))

    pub start-Keeps : (ip : List ℕ) → Keeps (start os config clock fuel ip)
    unfolding start
    start-Keeps ip =
        then-Keeps _ _ (modify-Keeps _ (λ c h. rules.on_ip c.disk c.streams c.user ip h)) λ _.
          then-Keeps _ _ (modify-Keeps _ (λ c h. h))
            λ _. then-Keeps _ _ schedule_timeout-Keeps λ _. modify-Keeps _ (λ c h. h)

    completed-Keeps :
        (w : Waiting) (e : Bool) (bytes : List ℕ) → Keeps (completed os config clock fuel w e bytes)
    unfolding completed
    completed-Keeps for_nothing e bytes = Triple-pure At (λ _. At) At tt (λ c o. o)
    completed-Keeps for_handshake e bytes = read_request-Keeps e
    completed-Keeps for_header e bytes = header_read-Keeps e bytes
    completed-Keeps for_body e bytes = handle_request-Keeps e bytes
    completed-Keeps for_size_sent e bytes = size_sent-Keeps e
    completed-Keeps (for_message_sent last) e bytes =
        if-Keeps last _ _ (handle_completion-Keeps e) (write_response-Keeps e)

    -- Every callback and the end of the timer.
    pub react-Keeps : (event : Event) → Keeps (react os config clock fuel event)
    unfolding react
    react-Keeps (io_done e bytes) =
        then-Keeps _ _ (gets-Keeps _)
          λ w. then-Keeps _ _ (modify-Keeps _ (λ c h. h)) λ _. completed-Keeps w e bytes
    react-Keeps timer_expired = then-Keeps _ _ (modify-Keeps _ (λ c h. h)) λ _. shutdown-Keeps

-- What every step of a request keeps, every callback keeps.
unfoldable pub session_rules :
    (os : Platform) (config : Config os)
    → (core : CoreRules os config)
    → ((disk : os.Disk) (streams : Streams os) (user : User os.FsPath) (ip : List ℕ)
        → core.Holds disk streams user
        → core.Holds disk streams (set_ip user ip))
    → SessionRules os config
session_rules os config core on_ip = record {
  Holds = core.Holds;
  on_ip = on_ip;
  on_shutdown = core.on_erase_stream;
  on_request = λ request c h. handle_request-After os config core request.raw_msg c h;
}
