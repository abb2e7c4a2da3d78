-- ===== src/Tests/Cycles.antt =====
-- core/connection.cpp: a client asks for the list of the files a second time.
use remote_backup_m1_server.Core.RequestHandler.State.{Ctx}
use remote_backup_m1_server.Communication.Message.{of_buffer}
use remote_backup_m1_server.Core.RequestHandler
use remote_backup_m1_server.Core.Connection.{
  overlay, header_bytes, Connection, for_header, little_endian,
}
use remote_backup_m1_server.Core.Connection.Cycle.{
  IsAnswered, request_state, cycle, cycle-IsAnswered,
}
use remote_backup_m1_server.Core.Connection
use remote_backup_m1_server.Core.Connection.{
  overlay, header_bytes, overlay, header_bytes, io_done, timer_expired, start, react, read_request,
  header_read, serve, write_response,
}
use remote_backup_m1_server.Prelude.{replicate, length-replicate, to_string}
use remote_backup_m1_server.Communication.Types.ErrType.{to_number}
use remote_backup_m1_server.Communication.Message.Print.{print_message, print_segments, print_value}
use remote_backup_m1_server.Communication.TlvView.{get_length}
use remote_backup_m1_server.Core.User.{unset, set_ip}
use remote_backup_m1_server.Core.Server.{make_server, run, put_at}
use remote_backup_m1_server.Prelude.{
  ℕ, arith, ◌≡◌, refl, true, List, [], ◌∷◌, codes, bytes_eq, false,
}
use remote_backup_m1_server.Outcome.{ok}
use remote_backup_m1_server.Communication.Message
use remote_backup_m1_server.Communication.MessageQueue
use remote_backup_m1_server.Communication.MessageQueue.{chunk_size}
use remote_backup_m1_server.Core.RequestHandler.State.{
  closing, error_text, deref, close_response, reply_error, reply_ok, add_item, view_type,
  view_value, view_end, view_next, next_is, more_of, view_after, get_dir, set_dir_object, on_disk,
  get_stream, erase_stream,
}
use remote_backup_m1_server.Core.RequestHandler.Auth.{log_in, handle_auth, auth_user, auth_password}
use remote_backup_m1_server.Core.RequestHandler.Sync.{
  relative_to, put_resource, clear_dir, sync_file, sync_files, sync_walk, handle_sync,
}
use remote_backup_m1_server.Core.RequestHandler.Files.{
  find_resource, assign_resource, erase_resource, record_chunk, is_ready, write_stream,
  flush_stream, close_stream, remove_or_exit, reject_file, check_digest,
}
use remote_backup_m1_server.Core.RequestHandler.Create.{
  is_complete, create_finish, create_append, create_chunk, after_create_chunk, create_file,
  create_content, create_item, handle_create,
}
use remote_backup_m1_server.Core.RequestHandler.{
  handle_request, serve_request, dispatch, serve_guest, serve_unsynced, serve_synced,
}
use remote_backup_m1_server.Core.OpenStreams
use remote_backup_m1_server.Core.OpenStreams.{find_stream, remove_stream}
use remote_backup_m1_server.Core.OpenStreams.Laws.{IsMap}
use remote_backup_m1_server.Core.User.{set_id, set_username, set_dir, set_auth, set_synced}
use remote_backup_m1_server.Communication.TlvView.{
  next_tlv, view, get_type, get_value, read_tlv, read, verify_end, zeros_before, read_before,
}
use remote_backup_m1_server.Core.Exec.{◌>>=◌, pure, lift, gets, modify, exit_if, try_filesystem}
use remote_backup_m1_server.Directory.Dir
use remote_backup_m1_server.Directory.Dir.{Dir, find, assign, is_found, get_instance}
use remote_backup_m1_server.Utilities.Tools.{
  verify_password, verify_lines, sha512_hash, split_sign, match_and_parse, first_two, create_sign,
  md5_hash, md5_to_string, md5_hash_content, md5_hash_file,
}
use remote_backup_m1_server.Utilities.Tools.Signs.{split_last, groups_of}
use remote_backup_m1_server.Utilities.Tools.Text.{
  lines, lines_from, starts_with, contains_text, after_tab,
}
use remote_backup_m1_server.Tests.{synced, memory, file_at, put, take_out, content_of, config, disk}

abbrev clock : List ℕ
clock = codes "2020-01-01T00:00:00"

abbrev connection : Connection memory
connection = record {
  disk = disk;
  streams = [];
  log = [];
  user = synced;
  header = 0;
  buffer = replicate chunk_size 0;
  msg = of_buffer [];
  replies = record { msgs_queue = []; queue_type = 6; error = false };
  timed_out = false;
  timer_set = true;
  is_open = true;
  waiting = for_header;
  written = [];
}

abbrev eight_bytes : List ℕ
eight_bytes = 6 ∷ 0 ∷ 0 ∷ 0 ∷ 0 ∷ 0 ∷ 0 ∷ 0 ∷ []

abbrev rest : List ℕ
rest = 3 ∷ 0 ∷ 0 ∷ 0 ∷ 0 ∷ []

abbrev handled : Ctx memory
handled =
    (RequestHandler.handle_request memory config (of_buffer (4 ∷ rest))
      (request_state memory config clock 99 connection (4 ∷ rest))).1

cycle-IsAnswered_example :
    (d : Connection memory) × (cycle memory config clock 99 eight_bytes
        (4 ∷ rest)
        handled.replies.msgs_queue
        connection
      ≡ (ok tt, d))
    × IsAnswered memory config clock 99 connection d handled
unfolding little_endian overlay header_bytes bytes_eq closing error_text deref close_response
    reply_error reply_ok add_item view_type view_value view_end view_next next_is more_of view_after
    get_dir set_dir_object on_disk get_stream erase_stream log_in handle_auth auth_user
    auth_password relative_to put_resource clear_dir sync_file sync_files sync_walk handle_sync
    find_resource assign_resource erase_resource record_chunk is_ready write_stream flush_stream
    close_stream remove_or_exit reject_file check_digest is_complete create_finish create_append
    create_chunk after_create_chunk create_file create_content create_item handle_create
    handle_request serve_request dispatch serve_guest serve_unsynced serve_synced find_stream
    remove_stream IsMap set_id set_username set_dir set_auth set_synced next_tlv view get_type
    get_value read_tlv read verify_end zeros_before is_found read_before ◌>>=◌ pure lift gets modify
    exit_if try_filesystem find assign get_instance verify_password verify_lines sha512_hash
    split_sign match_and_parse first_two create_sign md5_hash md5_to_string md5_hash_content
    md5_hash_file split_last groups_of lines lines_from starts_with contains_text after_tab file_at
    put take_out content_of Message.msg_type Dir.rsrc Dir.contains Dir.insert_or_assign Dir.erase
    Dir.clear OpenStreams.get_stream OpenStreams.erase_stream MessageQueue.add_tlv run make_server
    start react read_request put_at print_message print_segments get_length print_value
    MessageQueue.front MessageQueue.add_back MessageQueue.new Message.size Message.of_type
    Message.add_tlv to_string to_number header_read unset set_ip Connection.handle_request serve
    write_response
cycle-IsAnswered_example =
    cycle-IsAnswered memory config clock 99 connection eight_bytes rest _ 4 handled refl refl refl
      (length-replicate {A = ℕ} chunk_size 0) (omega arith) (omega arith) refl refl refl
      ((_, refl), tt)
