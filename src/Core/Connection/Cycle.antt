-- ===== src/Core/Connection/Cycle.antt =====
-- core/connection.cpp: from one request to the next.
use remote_backup_m1_server.Prelude.{
  ℕ, zero, suc, ◌<◌, ◌≤◌, ◌/◌, ◌≡◌, ◌≢◌, refl, sym, ap, ◌∙◌, subst, true, false, List, [], ◌∷◌,
  ◌++◌, length, take, take-length, leb, le→leb, arith, All, if◌then◌else◌,
}
use remote_backup_m1_server.Outcome.{ok}
use remote_backup_m1_server.Platform.{Platform}
use remote_backup_m1_server.Communication.Types.{res_ok, res_err}
use remote_backup_m1_server.Communication.Message.{Message, of_buffer}
use remote_backup_m1_server.Communication.Message.Print.{print_message}
use remote_backup_m1_server.Communication.MessageQueue.{chunk_size, verify_error}
use remote_backup_m1_server.Communication.TlvView
use remote_backup_m1_server.Utilities.Logger.Laws.{log_result_lem}
use remote_backup_m1_server.Core.Exec.{Exec, ◌>>=◌, ◌>>◌}
use remote_backup_m1_server.Core.RequestHandler.State.{Config, Ctx}
use remote_backup_m1_server.Core.RequestHandler
use remote_backup_m1_server.Core.RequestHandler.Replies.{handle_request-IsClosed}
use remote_backup_m1_server.Core.Connection.{
  Connection, for_nothing, for_header, for_message_sent, io_done, little_endian, header_bytes,
  overlay, unless_timed_out, schedule_timeout, completed, react, header_read, read_request,
  request_of, serve, handle_request, write_response, handle_completion, log_write, log_line,
}
use remote_backup_m1_server.Core.Connection.Writing.{
  frames, writes, deliver, write_response-IsWritten,
}

-- What is as long as the memory replaces it.
overlay-full : (ms bs : List ℕ) → length ms ≡ length bs → overlay ms bs ≡ bs
unfolding overlay
overlay-full [] [] e = refl
overlay-full [] (b ∷ bs) e = absurd (omega arith)
overlay-full (m ∷ ms) [] e = absurd (omega arith)
overlay-full (m ∷ ms) (b ∷ bs) e = ap (◌∷◌ b) (overlay-full ms bs (omega arith))

length-overlay : (ms bs : List ℕ) → length (overlay ms bs) ≡ length ms
unfolding overlay
length-overlay [] bs = refl
length-overlay (m ∷ ms) [] = refl
length-overlay (m ∷ ms) (b ∷ bs) = ap suc (length-overlay ms bs)

-- The bytes that were read are found again, if they fit.
take-overlay : (ms bs : List ℕ) → length bs ≤ length ms → take (length bs) (overlay ms bs) ≡ bs
unfolding overlay
take-overlay ms [] h = refl
take-overlay [] (b ∷ bs) h = absurd (omega arith)
take-overlay (m ∷ ms) (b ∷ bs) h = ap (◌∷◌ b) (take-overlay ms bs (omega arith))

length-header_bytes : (w n : ℕ) → length (header_bytes w n) ≡ w
unfolding header_bytes
length-header_bytes zero n = refl
length-header_bytes (suc w) n = ap suc (length-header_bytes w (n / 256))

some_cons {ℓ} : {A : Type ℓ} (xs : List A) → xs ≢ [] → (x : A) × (ys : List A) × (xs ≡ x ∷ ys)
some_cons [] h = absurd (h refl)
some_cons (x ∷ xs) h = (x, xs, refl)

-- The ends of writes that are handled before the last one.
abbrev writes_of : List Message → ℕ
writes_of [] = 0
writes_of (m ∷ ms) = writes ms

module _ (os : Platform) (config : Config os) (clock : List ℕ) (fuel : ℕ) where
  request_of_lem :
      (body memory : List ℕ) (header : ℕ)
      → header ≡ length body
      → length body ≤ length memory
      → request_of os config clock fuel (overlay memory (take header body)) header
        ≡ ok (of_buffer body)
  unfolding request_of
  request_of_lem body memory header e short =
      let fits : leb (length body) (length (overlay memory body)) ≡ true =
        le→leb _ _ (omega (arith, length-overlay memory body)) in
      simp (e, take-length body, fits, take-overlay memory body short) refl

  -- What the handler is given.
  abbrev pub request_state : Connection os → List ℕ → Ctx os
  request_state c body = record {
    disk = c.disk;
    streams = c.streams;
    user = c.user;
    msg_view = TlvView.view (of_buffer body);
    replies = c.replies;
  }

  -- The connection when a request was handled and nothing is written yet.
  served : Connection os → List ℕ → List ℕ → Ctx os → Connection os
  served c bytes body x = record c {
    timed_out = false;
    timer_set = false;
    header = little_endian bytes;
    waiting = for_nothing;
    buffer = overlay c.buffer (take (little_endian bytes) body);
    msg = of_buffer body;
    disk = x.disk;
    streams = x.streams;
    user = x.user;
    replies = x.replies;
  }

  -- A header and a body arrive.
  arrive : List ℕ → List ℕ → Exec (Connection os) (Unit {0})
  arrive bytes body =
      react os config clock fuel (io_done false bytes)
      >> react os config clock fuel (io_done false body)

  listening : Connection os → Connection os
  listening c = record c { timed_out = false; waiting = for_header }

  arrive-write_response :
      (c : Connection os) (bytes body text : List ℕ) (x : Ctx os)
      → length bytes ≡ 8
      → length body ≤ length c.buffer
      → little_endian bytes ≡ length body
      → print_message fuel (of_buffer body) ≡ ok text
      → RequestHandler.handle_request os config (of_buffer body) (request_state c body) ≡ (ok tt, x)
      → arrive bytes body (listening c)
        ≡ write_response os config clock fuel false (served c bytes body x)
  unfolding arrive react completed header_read schedule_timeout handle_request unless_timed_out
      serve ◌>>=◌ listening served
  arrive-write_response c bytes body text x eight short e shown run =
      let whole : overlay (header_bytes 8 c.header) bytes ≡ bytes =
        overlay-full (header_bytes 8 c.header) bytes (length-header_bytes 8 c.header ∙ sym eight) in
      simp (whole, request_of_lem body c.buffer (little_endian bytes) e short, shown, run) refl

  completing : Connection os → Connection os
  completing c = record c { timed_out = false; waiting = for_message_sent true }

  completing-for_header :
      (c : Connection os)
      → c.replies.queue_type < 7
      → (line : List ℕ) × (react os config clock fuel (io_done false []) (completing c) ≡ (
        ok tt,
        record c { timed_out = false; timer_set = true; log = c.log ++ line; waiting = for_header },
      ))
  unfolding react completed handle_completion read_request schedule_timeout unless_timed_out
      log_write log_line ◌>>=◌ completing
  completing-for_header c named =
      let (line, e) =
        log_result_lem clock c.user c.replies.queue_type
          (if verify_error c.replies then res_err else res_ok) res_ok named in
      (line, simp e refl)

  completing-eq :
      (d : Connection os)
      → d.timed_out ≡ false
      → d.waiting ≡ for_message_sent true
      → completing d ≡ d
  unfolding completing
  completing-eq d t w = λ i. record d { timed_out = sym t i; waiting = sym w i }

  listening-eq :
      (c : Connection os) → c.timed_out ≡ false → c.waiting ≡ for_header → listening c ≡ c
  unfolding listening
  listening-eq c t w = λ i. record c { timed_out = sym t i; waiting = sym w i }

  -- The header and the body of a request arrive, the replies that its handler leaves are written, and
  -- the end of the last write is handled.
  unfoldable pub cycle : List ℕ → List ℕ → List Message → Exec (Connection os) (Unit {0})
  unfolding arrive
  cycle bytes body replies =
      (arrive bytes body >> deliver os config clock fuel (writes_of replies))
      >> react os config clock fuel (io_done false [])

  -- A connection that has answered with what the handler left, and waits for the next request.
  pub record IsAnswered (c d : Connection os) (x : Ctx os) : Type 0 where
    pub all_written : d.written ≡ c.written ++ frames x.replies.msgs_queue
    pub listens : d.waiting ≡ for_header
    pub timer_on : d.timer_set ≡ true
    pub in_time : d.timed_out ≡ false
    pub new_disk : d.disk ≡ x.disk
    pub new_streams : d.streams ≡ x.streams
    pub new_user : d.user ≡ x.user

  listening-IsAnswered :
      (c : Connection os) (bytes rest text : List ℕ) (msg_type : ℕ) (x : Ctx os)
      → length bytes ≡ 8
      → length c.buffer ≡ chunk_size
      → length (msg_type ∷ rest) ≤ chunk_size
      → msg_type < 7
      → little_endian bytes ≡ length (msg_type ∷ rest)
      → print_message fuel (of_buffer (msg_type ∷ rest)) ≡ ok text
      → RequestHandler.handle_request os config
          (of_buffer (msg_type ∷ rest))
          (request_state c (msg_type ∷ rest))
        ≡ (ok tt, x)
      → All (λ m. (text : List ℕ) × (print_message fuel m ≡ ok text)) x.replies.msgs_queue
      → (d : Connection os) × (cycle bytes (msg_type ∷ rest) x.replies.msgs_queue (listening c)
          ≡ (ok tt, d))
        × IsAnswered c d x
  unfolding cycle ◌>>=◌ served
  listening-IsAnswered c bytes rest text msg_type x eight size short named e shown run printable =
      let closed = handle_request-IsClosed os config msg_type rest _ x run in
      let (m, ms, q) = some_cons x.replies.msgs_queue closed.holds.some_message in
      let (d, sent, w) =
        write_response-IsWritten os config clock fuel (served c bytes (msg_type ∷ rest) x) m ms refl
          q (subst (All (λ m. (text : List ℕ) × (print_message fuel m ≡ ok text))) q printable) in
      let (line, done) = completing-for_header d (omega (arith, w.same_type, closed.typed)) in
      (
        record d { timed_out = false; timer_set = true; log = d.log ++ line; waiting = for_header },
        simp
            (
              arrive-write_response c bytes (msg_type ∷ rest) text x eight (rw size short) e shown
                  run,
              ap writes_of q,
              sent,
            )
            (rw (completing-eq d w.in_time w.last_due) at done),
        record {
          all_written = w.all_written ∙ ap (λ ms. c.written ++ frames ms) (sym q);
          listens = refl;
          timer_on = refl;
          in_time = refl;
          new_disk = w.same_disk;
          new_streams = w.same_streams;
          new_user = w.same_user;
        },
      )

  -- On a connection that has not timed out and waits for a header: its buffer has the 4096 bytes of
  -- the source, and the header has eight bytes: when it says the size of the request that follows, which
  -- fits into the buffer, its type byte is below 7, the request and the replies can be printed, the
  -- handler returns, and no operation ends with an error, all replies that the handler left are written, in
  -- order, the disk, the streams and the user are as the handler left them, and the connection waits for
  -- the next header, with the timer set.
  pub cycle-IsAnswered :
      (c : Connection os) (bytes rest text : List ℕ) (msg_type : ℕ) (x : Ctx os)
      → c.timed_out ≡ false
      → c.waiting ≡ for_header
      → length bytes ≡ 8
      → length c.buffer ≡ chunk_size
      → length (msg_type ∷ rest) ≤ chunk_size
      → msg_type < 7
      → little_endian bytes ≡ length (msg_type ∷ rest)
      → print_message fuel (of_buffer (msg_type ∷ rest)) ≡ ok text
      → RequestHandler.handle_request os config
          (of_buffer (msg_type ∷ rest))
          (request_state c (msg_type ∷ rest))
        ≡ (ok tt, x)
      → All (λ m. (text : List ℕ) × (print_message fuel m ≡ ok text)) x.replies.msgs_queue
      → (d : Connection os) × (cycle bytes (msg_type ∷ rest) x.replies.msgs_queue c ≡ (ok tt, d))
        × IsAnswered c d x
  cycle-IsAnswered c bytes rest text msg_type x t w eight size short named e shown run printable =
      let (d, ran, answered) =
        listening-IsAnswered c bytes rest text msg_type x eight size short named e shown run
          printable in
      (d, rw (listening-eq c t w) at ran, answered)
