-- ===== src/Core/Server.antt =====
-- core/server.cpp and server.h: the server as its connections over one disk, one map of streams and one
-- log, with the callbacks of its threads one after the other.
pub mod Rules
pub mod Guests
pub mod Invariant
use remote_backup_m1_server.Prelude.{
  ℕ, zero, suc, Bool, true, false, List, [], ◌∷◌, ◌++◌, Option, none, some, get_elem?, replicate,
  if◌then◌else◌,
}
use remote_backup_m1_server.Outcome.{Outcome, ok, throws, fault, runtime_error}
use remote_backup_m1_server.Platform.{Platform}
use remote_backup_m1_server.Communication.Message.{of_type}
use remote_backup_m1_server.Communication.MessageQueue.{chunk_size}
use remote_backup_m1_server.Communication.MessageQueue
use remote_backup_m1_server.Communication.Types.MsgType
use remote_backup_m1_server.Core.User.{unset}
use remote_backup_m1_server.Core.OpenStreams.{Streams}
use remote_backup_m1_server.Core.Exec.{Exec, pure, lift, gets, modify, ◌>>=◌, ◌>>◌}
use remote_backup_m1_server.Core.RequestHandler.State.{Config}
use remote_backup_m1_server.Core.Connection.{
  Connection, Event, io_done, timer_expired, for_nothing, for_handshake, for_header, for_body,
  for_size_sent, for_message_sent, start, react,
}

-- A connection keeps its own copy of what it shares; `lend` and `give_back` hold the copies together.
-- `accepted` has a place for every connection that was started, in order: `none` once it is destroyed.
pub record Server (os : Platform) : Type 0 where
  pub disk : os.Disk
  pub streams : Streams os
  pub log : List ℕ
  pub accepted : List (Option (Connection os))
  pub new_connection : Connection os
  pub is_stopped : Bool

-- What the threads of the pool come to run: the end of an accept, with its error flag and the remote
-- address, if the client is still there; a callback of a connection; a signal.
pub data ServerEvent : Type 0 where
  accept_done : Bool → Option (List ℕ) → ServerEvent
  connection_event : ℕ → Event → ServerEvent
  signalled : ServerEvent

-- A callback whose operation is under way holds its connection alive (`shared_from_this`); the timer
-- does not, and is cancelled when the connection is destroyed.
unfoldable pub kept : {os : Platform} → Connection os → Option (Connection os)
kept c = elim c.waiting [
  | for_nothing ↦ none
  | for_handshake ↦ some c
  | for_header ↦ some c
  | for_body ↦ some c
  | for_size_sent ↦ some c
  | for_message_sent last ↦ some c
]

-- No operation of a destroyed connection is under way. Its timer may have expired before it was
-- cancelled: then the callback has a dangling `this`.
unfoldable pub too_late : Event → Outcome (Unit {0})
too_late (io_done e bytes) = ok tt
too_late timer_expired = fault

unfoldable pub put_at {ℓ} : {A : Type ℓ} → ℕ → A → List A → List A
put_at i a [] = []
put_at zero a (x ∷ xs) = a ∷ xs
put_at (suc i) a (x ∷ xs) = x ∷ put_at i a xs

-- `remote_endpoint()` throws when the client is gone.
unfoldable pub remote_endpoint : Option (List ℕ) → Outcome (List ℕ)
remote_endpoint none = throws runtime_error
remote_endpoint (some ip) = ok ip

module _ (os : Platform) (auth_flag synced_flag : Bool) where
  -- The constructor of `connection`. The flags of its user have no initial value and are arguments;
  -- `header_` has none either, and is set before it is read.
  unfoldable pub make_connection : os.Disk → Streams os → List ℕ → Connection os
  make_connection disk streams log = record {
    disk = disk;
    streams = streams;
    log = log;
    user = unset auth_flag synced_flag;
    header = 0;
    buffer = replicate chunk_size 0;
    msg = of_type MsgType.none_type;
    replies = MessageQueue.new MsgType.none_type;
    timed_out = false;
    timer_set = false;
    is_open = true;
    waiting = for_nothing;
    written = [];
  }

  abbrev pub lend : Server os → Connection os → Connection os
  lend s c = record c { disk = s.disk; streams = s.streams; log = s.log }

  abbrev pub give_back : Server os → Connection os → Server os
  give_back s c = record s { disk = c.disk; streams = c.streams; log = c.log }

  unfoldable pub start_accept : Exec (Server os) (Unit {0})
  unfolding make_connection
  start_accept = modify (λ s. record s { new_connection = make_connection s.disk s.streams s.log })

  -- The constructor, from the disk and the text of the log as they are found.
  unfoldable pub make_server : os.Disk → List ℕ → Server os
  unfolding make_connection
  make_server disk log = record {
    disk = disk;
    streams = [];
    log = log;
    accepted = [];
    new_connection = make_connection disk [] log;
    is_stopped = false;
  }

  module _ (config : Config os) (clock : List ℕ) (fuel : ℕ) where
    -- `new_connection_ptr_->start()`: the connection lives on in its callbacks.
    unfoldable pub start_connection : List ℕ → Exec (Server os) (Unit {0})
    unfolding kept
    start_connection ip s =
        let (r, d) = start os config clock fuel ip (lend s s.new_connection) in
        (r, record (give_back s d) { accepted = s.accepted ++ (kept d ∷ []) })

    unfoldable pub start_new : Option (List ℕ) → Exec (Server os) (Unit {0})
    unfolding remote_endpoint start_connection
    start_new address = do ip ← lift (remote_endpoint address); start_connection ip

    unfoldable pub handle_accept : Bool → Option (List ℕ) → Exec (Server os) (Unit {0})
    unfolding start_new start_accept
    handle_accept e address = (if e then pure tt else start_new address) >> start_accept

    unfoldable pub handle_stop : Exec (Server os) (Unit {0})
    handle_stop = modify (λ s. record s { is_stopped = true })

    -- A callback of one connection.
    unfoldable pub run_callback : ℕ → Event → Exec (Server os) (Unit {0})
    unfolding kept too_late
    run_callback i event s = elim (get_elem? s.accepted i) [
      | none ↦ (ok tt, s)
      | some none ↦ (too_late event, s)
      | some (some c) ↦
          let (r, d) = react os config clock fuel event (lend s c) in
          (r, record (give_back s d) { accepted = put_at i (kept d) s.accepted })
    ]

    unfoldable pub handle : ServerEvent → Exec (Server os) (Unit {0})
    unfolding handle_accept run_callback handle_stop
    handle (accept_done e address) = handle_accept e address
    handle (connection_event i event) = run_callback i event
    handle signalled = handle_stop

    -- `io_context::run` in the threads: an exception of a callback ends the program, and nothing runs
    -- after `stop`.
    unfoldable pub run : List ServerEvent → Exec (Server os) (Unit {0})
    unfolding handle
    run [] = pure tt
    run (event ∷ events) = do
      over ← gets (λ s. s.is_stopped)
      if over then pure tt else handle event >> run events
