-- ===== src/Core/Connection/Laws.antt =====
-- core/connection.cpp: what the callbacks do.
use remote_backup_m1_server.Prelude.{ℕ, ◌≡◌, refl, Bool, true, false, List, ◌++◌, none, codes}
use remote_backup_m1_server.Outcome.{ok}
use remote_backup_m1_server.Platform.{Platform}
use remote_backup_m1_server.Utilities.Logger.{log_result, log_text, type_name, result_name}
use remote_backup_m1_server.Core.OpenStreams.{find_stream}
use remote_backup_m1_server.Core.OpenStreams.Laws.{IsMap, erase_stream-gone}
use remote_backup_m1_server.Core.Exec.{Exec, ◌>>=◌}
use remote_backup_m1_server.Core.RequestHandler.State.{Config}
use remote_backup_m1_server.Core.Connection.{
  Connection, Waiting, for_nothing, for_handshake, for_header, for_body, for_size_sent,
  for_message_sent, io_done, timer_expired, unless_timed_out, completed, react, write_response,
  size_sent, read_request, header_read, handle_completion, handle_request, shutdown, shutdown_state,
  log_line, log_read,
}

module _ (os : Platform) (config : Config os) (clock : List ℕ) (fuel : ℕ) where
  unless_timed_out-pure :
      (m : Exec (Connection os) (Unit {0})) (c : Connection os)
      → c.timed_out ≡ true
      → unless_timed_out os config clock fuel m c ≡ (ok tt, c)
  unfolding unless_timed_out ◌>>=◌
  unless_timed_out-pure m c e = simp e refl

  completed-pure :
      (w : Waiting) (e : Bool) (bytes : List ℕ) (c : Connection os)
      → c.timed_out ≡ true
      → completed os config clock fuel w e bytes c ≡ (ok tt, c)
  unfolding completed read_request header_read handle_request size_sent handle_completion
      write_response ◌>>=◌
  completed-pure for_nothing e bytes c t = refl
  completed-pure for_handshake e bytes c t = unless_timed_out-pure _ c t
  completed-pure for_header e bytes c t = unless_timed_out-pure _ c t
  completed-pure for_body e bytes c t = unless_timed_out-pure _ c t
  completed-pure for_size_sent e bytes c t = unless_timed_out-pure _ c t
  completed-pure (for_message_sent true) e bytes c t = unless_timed_out-pure _ c t
  completed-pure (for_message_sent false) e bytes c t = unless_timed_out-pure _ c t

  -- On a connection that has timed out, the end of any operation, with or without an error, changes
  -- nothing, and starts no other operation.
  pub react-timed_out :
      (e : Bool) (bytes : List ℕ) (c : Connection os)
      → c.timed_out ≡ true
      → react os config clock fuel (io_done e bytes) c ≡ (ok tt, record c { waiting = for_nothing })
  unfolding react ◌>>=◌
  react-timed_out e bytes c t =
      completed-pure c.waiting e bytes (record c { waiting = for_nothing }) t

  -- A connection that was shut down: the socket is closed, the timer is off, and the user has no stream.
  pub record IsShut (c d : Connection os) : Type 0 where
    pub closed : d.is_open ≡ false
    pub timer_off : d.timer_set ≡ false
    pub no_stream : find_stream os c.user.id d.streams ≡ none

  shutdown_state-IsShut :
      (c : Connection os) → IsMap os c.streams → IsShut c (shutdown_state os config clock fuel c)
  unfolding shutdown_state
  shutdown_state-IsShut c m = record {
    closed = refl;
    timer_off = refl;
    no_stream = erase_stream-gone os c.user.id c.streams c.disk m;
  }

  -- When the timer expires, whatever operation is due, the connection has timed out and is shut down, if
  -- no user has two streams.
  pub react-IsShut :
      (c : Connection os)
      → IsMap os c.streams
      → (d : Connection os) × (react os config clock fuel timer_expired c ≡ (ok tt, d))
        × (d.timed_out ≡ true)
        × IsShut c d
  unfolding react shutdown ◌>>=◌ shutdown_state
  react-IsShut c m =
      let shut = shutdown_state-IsShut (record c { timed_out = true }) m in
      (
        shutdown_state os config clock fuel (record c { timed_out = true }),
        refl,
        refl,
        record { closed = shut.closed; timer_off = shut.timer_off; no_stream = shut.no_stream },
      )

  -- The operations that read from the client.
  pub data IsReading : Waiting → Type 0 where
    handshakes : IsReading for_handshake
    reads_header : IsReading for_header
    reads_body : IsReading for_body

  read_failed : Connection os → List ℕ → Connection os
  read_failed c line = shutdown_state os config clock fuel (record c { log = c.log ++ line })

  -- What `log_read` logs.
  failed_line : Connection os → List ℕ
  failed_line c = log_text clock c.user (
      codes "TYPE: "
      ++ (codes "-" ++ (codes " RES: " ++ (codes "-" ++ (codes " CON: " ++ codes "ERR")))))

  completed-failed :
      (w : Waiting) (bytes : List ℕ) (c : Connection os)
      → IsReading w
      → c.timed_out ≡ false
      → (line : List ℕ) × (completed os config clock fuel w true bytes c
          ≡ (ok tt, read_failed c line))
  unfolding completed read_request header_read handle_request unless_timed_out log_read log_line
      log_result type_name shutdown ◌>>=◌ read_failed failed_line result_name
  completed-failed for_handshake bytes c handshakes t = (failed_line c, simp t refl)
  completed-failed for_header bytes c reads_header t = (failed_line c, simp t refl)
  completed-failed for_body bytes c reads_body t = (failed_line c, simp t refl)
  completed-failed for_nothing bytes c reading t = elim reading [ ]
  completed-failed for_size_sent bytes c reading t = elim reading [ ]
  completed-failed (for_message_sent last) bytes c reading t = elim reading [ ]

  -- When the handshake or a read fails on a connection that has not timed out, the connection is shut
  -- down, if no user has two streams.
  pub react-failed :
      (bytes : List ℕ) (c : Connection os)
      → IsReading c.waiting
      → c.timed_out ≡ false
      → IsMap os c.streams
      → (d : Connection os) × (react os config clock fuel (io_done true bytes) c ≡ (ok tt, d))
        × IsShut c d
  unfolding react ◌>>=◌ read_failed
  react-failed bytes c reading t m =
      let idle : Connection os = record c { waiting = for_nothing } in
      let (line, run) = completed-failed c.waiting bytes idle reading t in
      let shut = shutdown_state-IsShut (record idle { log = c.log ++ line }) m in
      (
        read_failed idle line,
        run,
        record { closed = shut.closed; timer_off = shut.timer_off; no_stream = shut.no_stream },
      )
