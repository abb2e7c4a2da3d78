-- ===== src/Core/Connection/Writing.antt =====
-- core/connection.cpp: the replies to one request are written one after the other.
use remote_backup_m1_server.Prelude.{
  ℕ, zero, suc, ◌≡◌, refl, sym, ◌∙◌, subst, true, false, List, [], ◌∷◌, ◌++◌, append_assoc, All,
}
use remote_backup_m1_server.Outcome.{ok}
use remote_backup_m1_server.Platform.{Platform}
use remote_backup_m1_server.Communication.Message.{Message, size}
use remote_backup_m1_server.Communication.Message.Print.{print_message}
use remote_backup_m1_server.Communication.MessageQueue.{pop, front, is_empty}
use remote_backup_m1_server.Core.Exec.{Exec, pure, ◌>>=◌, ◌>>◌}
use remote_backup_m1_server.Core.RequestHandler.State.{Config}
use remote_backup_m1_server.Core.Connection.{
  Connection, for_size_sent, for_message_sent, Written, size_of, bytes_of, io_done,
  unless_timed_out, completed, react, write_response, size_sent,
}

-- What is written for a row of messages: the size of each, then its bytes.
abbrev pub frames : List Message → List Written
frames [] = []
frames (m ∷ ms) = size_of (size m) ∷ bytes_of m.raw_msg ∷ frames ms

-- The writes that are left when the size of the first of the messages was written.
abbrev pub writes : List Message → ℕ
writes [] = 1
writes (m ∷ ms) = suc (suc (writes ms))

module _ (os : Platform) (config : Config os) (clock : List ℕ) (fuel : ℕ) where
  -- So many operations end without an error.
  unfoldable pub deliver : ℕ → Exec (Connection os) (Unit {0})
  deliver zero = pure tt
  deliver (suc n) = react os config clock fuel (io_done false []) >> deliver n

  sending : Connection os → List Message → Connection os
  sending c ms = record c {
    timed_out = false;
    waiting = for_size_sent;
    replies = record (c.replies) { msgs_queue = ms };
  }

  sent : Connection os → Message → List Message → Connection os
  sent c m ms = record c {
    timed_out = false;
    waiting = for_message_sent (is_empty (record (c.replies) { msgs_queue = ms }));
    replies = record (c.replies) { msgs_queue = ms };
    msg = m;
    written = c.written ++ (bytes_of m.raw_msg ∷ []);
  }

  react-sending :
      (c : Connection os) (m : Message) (ms : List Message) (text : List ℕ)
      → print_message fuel m ≡ ok text
      → react os config clock fuel (io_done false []) (sending c (m ∷ ms)) ≡ (ok tt, sent c m ms)
  unfolding react completed size_sent unless_timed_out ◌>>=◌ sending sent front pop is_empty
  react-sending c m ms text e = simp e refl

  react-sent :
      (c : Connection os) (m n : Message) (ms : List Message)
      → react os config clock fuel (io_done false []) (sent c m (n ∷ ms)) ≡ (
        ok tt,
        sending
            (record c {
              msg = m;
              header = size n;
              written = (c.written ++ (bytes_of m.raw_msg ∷ [])) ++ (size_of (size n) ∷ []);
            })
            (n ∷ ms),
      )
  unfolding react completed write_response unless_timed_out ◌>>=◌ sending sent front is_empty
  react-sent c m n ms = refl

  -- A connection that has written the bytes of the last message of its queue, and these `chunks` since.
  pub record IsWritten (c d : Connection os) (chunks : List Written) : Type 0 where
    pub all_written : d.written ≡ c.written ++ chunks
    pub last_due : d.waiting ≡ for_message_sent true
    pub none_left : d.replies.msgs_queue ≡ []
    pub same_type : d.replies.queue_type ≡ c.replies.queue_type
    pub in_time : d.timed_out ≡ false
    pub same_disk : d.disk ≡ c.disk
    pub same_streams : d.streams ≡ c.streams
    pub same_user : d.user ≡ c.user

  deliver-sending :
      (c : Connection os) (m : Message) (ms : List Message)
      → All (λ m. (text : List ℕ) × (print_message fuel m ≡ ok text)) (m ∷ ms)
      → (d : Connection os) × (deliver (writes ms) (sending c (m ∷ ms)) ≡ (ok tt, d))
        × IsWritten c d (bytes_of m.raw_msg ∷ frames ms)
  unfolding deliver ◌>>=◌
  deliver-sending c m [] shown = (
    sent c m [],
    simp (react-sending c m [] _ shown.0.1) refl,
    unfold sent is_empty in
        record {
          all_written = refl;
          last_due = refl;
          none_left = refl;
          same_type = refl;
          in_time = refl;
          same_disk = refl;
          same_streams = refl;
          same_user = refl;
        },
  )
  deliver-sending c m (n ∷ ms) shown =
      let next : Connection os = record c {
        msg = m;
        header = size n;
        written = (c.written ++ (bytes_of m.raw_msg ∷ [])) ++ (size_of (size n) ∷ []);
      } in
      let (d, run, w) = deliver-sending next n ms shown.1 in
      (
        d,
        simp (react-sending c m (n ∷ ms) _ shown.0.1, react-sent c m n ms) run,
        record {
          all_written = w.all_written ∙ simp append_assoc refl;
          last_due = w.last_due;
          none_left = w.none_left;
          same_type = w.same_type;
          in_time = w.in_time;
          same_disk = w.same_disk;
          same_streams = w.same_streams;
          same_user = w.same_user;
        },
      )

  ready : Connection os → List Message → Connection os
  ready c ms = record c { timed_out = false; replies = record (c.replies) { msgs_queue = ms } }

  ready-eq :
      (c : Connection os) (ms : List Message)
      → c.timed_out ≡ false
      → c.replies.msgs_queue ≡ ms
      → ready c ms ≡ c
  unfolding ready
  ready-eq c ms t q =
      λ i. record c { timed_out = sym t i; replies = record (c.replies) { msgs_queue = sym q i } }

  ready-IsWritten :
      (c : Connection os) (m : Message) (ms : List Message)
      → All (λ m. (text : List ℕ) × (print_message fuel m ≡ ok text)) (m ∷ ms)
      → (d : Connection os) × ((write_response os config clock fuel false >> deliver (writes ms))
            (ready c (m ∷ ms))
          ≡ (ok tt, d))
        × IsWritten c d (frames (m ∷ ms))
  unfolding write_response unless_timed_out ◌>>=◌ ready sending front
  ready-IsWritten c m ms shown =
      let (d, run, w) =
        deliver-sending
          (record c { header = size m; written = c.written ++ (size_of (size m) ∷ []) }) m ms
          shown in
      (
        d,
        run,
        record {
          all_written = w.all_written ∙ simp append_assoc refl;
          last_due = w.last_due;
          none_left = w.none_left;
          same_type = w.same_type;
          in_time = w.in_time;
          same_disk = w.same_disk;
          same_streams = w.same_streams;
          same_user = w.same_user;
        },
      )

  -- A connection that has not timed out and has replies that can be printed: when the operations that
  -- `write_response` starts end without an error, the size and the bytes of every reply are written,
  -- in the order of the queue, no reply is left, the callback that is due is `handle_completion`, and
  -- the disk, the streams and the user are the same.
  pub write_response-IsWritten :
      (c : Connection os) (m : Message) (ms : List Message)
      → c.timed_out ≡ false
      → c.replies.msgs_queue ≡ m ∷ ms
      → All (λ m. (text : List ℕ) × (print_message fuel m ≡ ok text)) (m ∷ ms)
      → (d : Connection os) × ((write_response os config clock fuel false >> deliver (writes ms)) c
          ≡ (ok tt, d))
        × IsWritten c d (frames (m ∷ ms))
  write_response-IsWritten c m ms t q shown =
      subst
        (λ s.
          (d : Connection os) × ((write_response os config clock fuel false >> deliver (writes ms))
              s
            ≡ (ok tt, d))
          × IsWritten c d (frames (m ∷ ms)))
        (ready-eq c (m ∷ ms) t q) (ready-IsWritten c m ms shown)
