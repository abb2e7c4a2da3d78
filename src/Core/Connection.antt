-- ===== src/Core/Connection.antt =====
-- core/connection.cpp and connection.h: the callbacks of one connection, which its strand runs one after
-- the other. The socket, TLS and the timer are Boost.Asio: an operation that was started is
-- `waiting`, and its end comes as an event.
pub mod Laws
pub mod Writing
pub mod Rules
pub mod Logins
pub mod Cycle
use remote_backup_m1_server.Prelude.{
  ℕ, zero, suc, ◌+◌, ◌*◌, ◌%◌, ◌/◌, Bool, true, false, List, [], ◌∷◌, ◌++◌, codes, length, take,
  leb, replicate, if◌then◌else◌,
}
use remote_backup_m1_server.Outcome.{Outcome, ok, fault}
use remote_backup_m1_server.Platform.{Platform}
use remote_backup_m1_server.Communication.Message.{Message, of_type, of_buffer, size}
use remote_backup_m1_server.Communication.Message.Print.{print_message}
use remote_backup_m1_server.Communication.MessageQueue.{MessageQueue, chunk_size}
use remote_backup_m1_server.Communication.MessageQueue
use remote_backup_m1_server.Communication.TlvView
use remote_backup_m1_server.Communication.Types.{ResultType, res_ok, res_err, res_none}
use remote_backup_m1_server.Communication.Types.MsgType
use remote_backup_m1_server.Utilities.Logger.{log_text, log_result}
use remote_backup_m1_server.Core.User.{User, set_ip}
use remote_backup_m1_server.Core.OpenStreams.{Streams}
use remote_backup_m1_server.Core.OpenStreams
use remote_backup_m1_server.Core.Exec.{Exec, pure, lift, gets, modify, ◌>>=◌, ◌>>◌}
use remote_backup_m1_server.Core.RequestHandler.State.{Config, Ctx}
use remote_backup_m1_server.Core.RequestHandler

-- The operation on the socket whose callback is due. The flag of the last one is `replies_.empty()` when
-- the write was started, which chose its callback.
pub data Waiting : Type 0 where
  for_nothing for_handshake for_header for_body for_size_sent : Waiting
  for_message_sent : Bool → Waiting

-- What was handed to `async_write`: the size of a message, or its bytes.
pub data Written : Type 0 where
  size_of : ℕ → Written
  bytes_of : List ℕ → Written

-- The end of an operation with its error flag and the bytes it read, or the end of the timer.
pub data Event : Type 0 where
  io_done : Bool → List ℕ → Event
  timer_expired : Event

-- The fields of a connection, what it shares with the others (disk, streams, log), and the state of
-- the socket and the timer.
pub record Connection (os : Platform) : Type 0 where
  pub disk : os.Disk
  pub streams : Streams os
  pub log : List ℕ
  pub user : User os.FsPath
  pub header : ℕ
  pub buffer : List ℕ
  pub msg : Message
  pub replies : MessageQueue
  pub timed_out : Bool
  pub timer_set : Bool
  pub is_open : Bool
  pub waiting : Waiting
  pub written : List Written

-- The bytes of a `size_t` on the platforms that the server is built for.
unfoldable pub little_endian : List ℕ → ℕ
little_endian [] = 0
little_endian (b ∷ bs) = b + 256 * little_endian bs

-- The eight bytes of a `size_t`.
unfoldable pub header_bytes : ℕ → ℕ → List ℕ
header_bytes zero n = []
header_bytes (suc w) n = (n % 256) ∷ header_bytes w (n / 256)

-- The memory of a buffer once bytes were read into it, from its first: it keeps its length.
unfoldable pub overlay : List ℕ → List ℕ → List ℕ
overlay [] bytes = []
overlay (m ∷ ms) [] = m ∷ ms
overlay (m ∷ ms) (b ∷ bs) = b ∷ overlay ms bs

module _ (os : Platform) (config : Config os) (clock : List ℕ) (fuel : ℕ) where
  abbrev pub Action : Type 0
  Action = Exec (Connection os) (Unit {0})

  unfoldable pub schedule_timeout : Action
  schedule_timeout = modify (λ c. record c { timer_set = true })

  -- `streams().erase_stream(user_)`, the timer, the log, the socket.
  unfoldable pub shutdown_state : Connection os → Connection os
  shutdown_state c =
      let (streams, disk) = OpenStreams.erase_stream os c.user.id c.streams c.disk in
      record c {
        streams = streams;
        disk = disk;
        timer_set = false;
        log = c.log ++ log_text clock c.user (codes "Shutdown");
        is_open = false;
      }

  unfoldable pub shutdown : Action
  unfolding shutdown_state
  shutdown = modify shutdown_state

  unfoldable pub log_line : ℕ → ResultType → ResultType → Action
  log_line msg_type message_result connection_result = do
    user ← gets (λ c. c.user)
    line ← lift (log_result clock user msg_type message_result connection_result)
    modify (λ c. record c { log = c.log ++ line })

  unfoldable pub log_read : Action
  unfolding log_line
  log_read = log_line MsgType.none_type res_none res_err

  unfoldable pub log_write : Bool → Action
  unfolding log_line
  log_write e = do
    q ← gets (λ c. c.replies)
    log_line q.queue_type (if MessageQueue.verify_error q then res_err else res_ok)
        (if e then res_err else res_ok)

  -- Every callback starts with this test.
  unfoldable pub unless_timed_out : Action → Action
  unless_timed_out m = do over ← gets (λ c. c.timed_out); if over then pure tt else m

  unfoldable pub read_request : Bool → Action
  unfolding unless_timed_out schedule_timeout log_read shutdown
  read_request e = unless_timed_out (
      if e
      then log_read >> shutdown
      else schedule_timeout >> modify (λ c. record c { waiting = for_header }))

  -- `async_read` has put the bytes over the eight of `header_`.
  unfoldable pub header_read : Bool → List ℕ → Action
  unfolding unless_timed_out schedule_timeout log_read shutdown little_endian overlay header_bytes
  header_read e bytes = unless_timed_out (
      if e
      then log_read >> shutdown
      else schedule_timeout
        >> modify (λ c. record c {
          header = little_endian (overlay (header_bytes 8 c.header) bytes);
          waiting = for_body;
        }))

  unfoldable pub write_response : Bool → Action
  unfolding unless_timed_out log_write shutdown
  write_response e = unless_timed_out (
      if e then log_write e >> shutdown else (do
        q ← gets (λ c. c.replies)
        m ← lift (MessageQueue.front q)
        modify (λ c. record c {
          header = size m;
          written = c.written ++ (size_of (size m) ∷ []);
          waiting = for_size_sent;
        })))

  -- The callback after the size of a reply is written.
  unfoldable pub size_sent : Bool → Action
  unfolding unless_timed_out log_write shutdown
  size_sent e = unless_timed_out (
      if e then log_write e >> shutdown else (do
        q ← gets (λ c. c.replies)
        m ← lift (MessageQueue.front q)
        q' ← lift (MessageQueue.pop q)
        modify (λ c. record c { msg = m; replies = q' })
        lift (print_message fuel m)
        modify (λ c. record c {
          written = c.written ++ (bytes_of m.raw_msg ∷ []);
          waiting = for_message_sent (MessageQueue.is_empty q');
        })))

  unfoldable pub handle_completion : Bool → Action
  unfolding unless_timed_out log_write shutdown read_request
  handle_completion e = unless_timed_out (log_write e >> (if e then shutdown else read_request e))

  -- The first `header_` bytes of the buffer: `std::next` past its end is undefined.
  unfoldable pub request_of : List ℕ → ℕ → Outcome Message
  request_of buffer header =
      if leb header (length buffer) then ok (of_buffer (take header buffer)) else fault

  -- `req_handler_ptr_->handle_request(msg_, replies_, user_)`
  unfoldable pub serve : Action
  serve c =
      let (r, d) = RequestHandler.handle_request os config c.msg (record {
        disk = c.disk;
        streams = c.streams;
        user = c.user;
        msg_view = TlvView.view c.msg;
        replies = c.replies;
      }) in
      (r, record c { disk = d.disk; streams = d.streams; user = d.user; replies = d.replies })

  -- `async_read` has put at most `header_` bytes over the first ones of the buffer, and none behind it.
  unfoldable pub handle_request : Bool → List ℕ → Action
  unfolding unless_timed_out log_read shutdown request_of serve write_response overlay
  handle_request e bytes = unless_timed_out (
      if e then log_read >> shutdown else (do
        modify
            (λ c. record c { timer_set = false; buffer = overlay c.buffer (take c.header bytes) })
        c ← gets (λ c. c)
        m ← lift (request_of c.buffer c.header)
        modify (λ c. record c { msg = m })
        lift (print_message fuel m)
        serve
        write_response false))

  unfoldable pub start : List ℕ → Action
  unfolding schedule_timeout
  start ip = do
    modify (λ c. record c { user = set_ip c.user ip })
    modify (λ c. record c { log = c.log ++ log_text clock c.user (codes "Accepted connection") })
    schedule_timeout
    modify (λ c. record c { waiting = for_handshake })

  -- The callback of the operation that has ended.
  unfoldable pub completed : Waiting → Bool → List ℕ → Action
  completed for_nothing e bytes = pure tt
  completed for_handshake e bytes = read_request e
  completed for_header e bytes = header_read e bytes
  completed for_body e bytes = handle_request e bytes
  completed for_size_sent e bytes = size_sent e
  completed (for_message_sent last) e bytes = if last then handle_completion e else write_response e

  unfoldable pub react : Event → Action
  unfolding completed shutdown
  react (io_done e bytes) = do
    w ← gets (λ c. c.waiting)
    modify (λ c. record c { waiting = for_nothing })
    completed w e bytes
  react timer_expired = modify (λ c. record c { timed_out = true }) >> shutdown
