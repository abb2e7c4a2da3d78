-- ===== src/Tests/Servers.antt =====
-- core/server.cpp: a client that connects, sends a request and times out, and one that is gone before it
-- is served.
use remote_backup_m1_server.Core.Connection
use remote_backup_m1_server.Core.Connection.{
  overlay, header_bytes, io_done, timer_expired, start, react, read_request, header_read, serve,
  write_response,
}
use remote_backup_m1_server.Prelude.{replicate, to_string}
use remote_backup_m1_server.Communication.Types.ErrType.{to_number}
use remote_backup_m1_server.Communication.Message.Print.{print_message, print_segments, print_value}
use remote_backup_m1_server.Communication.TlvView.{get_length}
use remote_backup_m1_server.Core.User.{unset, set_ip}
use remote_backup_m1_server.Core.Server.{
  kept, too_late, handle, run_callback, handle_accept, start_new, start_connection, Server,
  ServerEvent, accept_done, connection_event, make_server, run, put_at,
}
use remote_backup_m1_server.Core.Server.Guests.{run-logs_in, logs_in, authenticates, then_also}
use remote_backup_m1_server.Core.Server.Invariant.{IsSound, run-IsSound}
use remote_backup_m1_server.Prelude.{
  ℕ, ◌≡◌, refl, true, List, [], ◌∷◌, codes, bytes_eq, some, none, length, false,
}
use remote_backup_m1_server.Outcome.{Outcome, raises, runtime_error}
use remote_backup_m1_server.Communication.Message
use remote_backup_m1_server.Communication.MessageQueue
use remote_backup_m1_server.Core.RequestHandler.State.{
  closing, error_text, deref, close_response, reply_error, reply_ok, add_item, view_type,
  view_value, view_end, view_next, next_is, more_of, view_after, get_dir, set_dir_object, on_disk,
  get_stream, erase_stream,
}
use remote_backup_m1_server.Core.RequestHandler.Auth.{log_in, handle_auth, auth_user, auth_password}
use remote_backup_m1_server.Core.RequestHandler.Sync.{
  relative_to, put_resource, clear_dir, sync_file, sync_files, sync_walk, handle_sync,
}
use remote_backup_m1_server.Core.RequestHandler.Files.{
  find_resource, assign_resource, erase_resource, record_chunk, is_ready, write_stream,
  flush_stream, close_stream, remove_or_exit, reject_file, check_digest,
}
use remote_backup_m1_server.Core.RequestHandler.Create.{
  is_complete, create_finish, create_append, create_chunk, after_create_chunk, create_file,
  create_content, create_item, handle_create,
}
use remote_backup_m1_server.Core.RequestHandler.{
  handle_request, serve_request, dispatch, serve_guest, serve_unsynced, serve_synced,
}
use remote_backup_m1_server.Core.OpenStreams
use remote_backup_m1_server.Core.OpenStreams.{find_stream, remove_stream}
use remote_backup_m1_server.Core.OpenStreams.Laws.{IsMap}
use remote_backup_m1_server.Core.User.{set_id, set_username, set_dir, set_auth, set_synced}
use remote_backup_m1_server.Communication.TlvView.{
  next_tlv, view, get_type, get_value, read_tlv, read, verify_end, zeros_before, read_before,
}
use remote_backup_m1_server.Core.Exec.{◌>>=◌, pure, lift, gets, modify, exit_if, try_filesystem}
use remote_backup_m1_server.Directory.Dir
use remote_backup_m1_server.Directory.Dir.{Dir, find, assign, is_found, get_instance}
use remote_backup_m1_server.Utilities.Tools.{
  verify_password, verify_lines, sha512_hash, split_sign, match_and_parse, first_two, create_sign,
  md5_hash, md5_to_string, md5_hash_content, md5_hash_file,
}
use remote_backup_m1_server.Utilities.Tools.Signs.{split_last, groups_of}
use remote_backup_m1_server.Utilities.Tools.Text.{
  lines, lines_from, starts_with, contains_text, after_tab,
}
use remote_backup_m1_server.Tests.{memory, file_at, put, take_out, content_of, config, disk}

abbrev clock : List ℕ
clock = codes "2020-01-01T00:00:00"

abbrev events : List ℕ → List ServerEvent
events request =
    accept_done false (some (codes "10.0.0.1"))
    ∷ connection_event 0 (io_done false [])
    ∷ connection_event 0 (io_done false (length request ∷ replicate 7 0))
    ∷ connection_event 0 (io_done false request)
    ∷ connection_event 0 timer_expired
    ∷ accept_done false none
    ∷ []

abbrev ended : List ℕ → Outcome (Unit {0}) × Server memory
ended request =
    run memory false false config clock 99 (events request) (make_server memory false false disk [])

-- An END, as the list of the files of a client that is not logged in.
abbrev listing : List ℕ
listing = 4 ∷ 3 ∷ 0 ∷ 0 ∷ 0 ∷ 0 ∷ []

-- USRN `a`, PSWD `xy`, END.
abbrev login : List ℕ
login = 5 ∷ 0 ∷ 0 ∷ 0 ∷ 0 ∷ 1 ∷ 97 ∷ 1 ∷ 0 ∷ 0 ∷ 0 ∷ 2 ∷ 120 ∷ 121 ∷ 3 ∷ 0 ∷ 0 ∷ 0 ∷ 0 ∷ []

test_login :
    logs_in memory false false config clock 99
      (events login)
      (make_server memory false false disk [])
    ≡ true
unfolding bytes_eq closing error_text deref close_response reply_error reply_ok add_item view_type
    view_value view_end view_next next_is more_of view_after get_dir set_dir_object on_disk
    get_stream erase_stream log_in handle_auth auth_user auth_password relative_to put_resource
    clear_dir sync_file sync_files sync_walk handle_sync find_resource assign_resource
    erase_resource record_chunk is_ready write_stream flush_stream close_stream remove_or_exit
    reject_file check_digest is_complete create_finish create_append create_chunk after_create_chunk
    create_file create_content create_item handle_create handle_request serve_request dispatch
    serve_guest serve_unsynced serve_synced find_stream remove_stream IsMap set_id set_username
    set_dir set_auth set_synced next_tlv view get_type get_value read_tlv read verify_end
    zeros_before is_found read_before ◌>>=◌ pure lift gets modify exit_if try_filesystem find assign
    get_instance verify_password verify_lines sha512_hash split_sign match_and_parse first_two
    create_sign md5_hash md5_to_string md5_hash_content md5_hash_file split_last groups_of lines
    lines_from starts_with contains_text after_tab file_at put take_out content_of Message.msg_type
    Dir.rsrc Dir.contains Dir.insert_or_assign Dir.erase Dir.clear OpenStreams.get_stream
    OpenStreams.erase_stream MessageQueue.add_tlv run make_server start react read_request put_at
    print_message print_segments get_length print_value MessageQueue.front MessageQueue.add_back
    MessageQueue.new Message.size Message.of_type Message.add_tlv to_string to_number header_read
    overlay header_bytes kept too_late logs_in authenticates then_also handle run_callback
    handle_accept start_new start_connection unset set_ip Connection.handle_request serve
    write_response
test_login = refl

run-logs_in_example : ((ended listing).1.disk ≡ disk) × ((ended listing).1.streams ≡ [])
unfolding bytes_eq closing error_text deref close_response reply_error reply_ok add_item view_type
    view_value view_end view_next next_is more_of view_after get_dir set_dir_object on_disk
    get_stream erase_stream log_in handle_auth auth_user auth_password relative_to put_resource
    clear_dir sync_file sync_files sync_walk handle_sync find_resource assign_resource
    erase_resource record_chunk is_ready write_stream flush_stream close_stream remove_or_exit
    reject_file check_digest is_complete create_finish create_append create_chunk after_create_chunk
    create_file create_content create_item handle_create handle_request serve_request dispatch
    serve_guest serve_unsynced serve_synced find_stream remove_stream IsMap set_id set_username
    set_dir set_auth set_synced next_tlv view get_type get_value read_tlv read verify_end
    zeros_before is_found read_before ◌>>=◌ pure lift gets modify exit_if try_filesystem find assign
    get_instance verify_password verify_lines sha512_hash split_sign match_and_parse first_two
    create_sign md5_hash md5_to_string md5_hash_content md5_hash_file split_last groups_of lines
    lines_from starts_with contains_text after_tab file_at put take_out content_of Message.msg_type
    Dir.rsrc Dir.contains Dir.insert_or_assign Dir.erase Dir.clear OpenStreams.get_stream
    OpenStreams.erase_stream MessageQueue.add_tlv run make_server start react read_request put_at
    print_message print_segments get_length print_value MessageQueue.front MessageQueue.add_back
    MessageQueue.new Message.size Message.of_type Message.add_tlv to_string to_number header_read
    overlay header_bytes kept too_late logs_in authenticates then_also handle run_callback
    handle_accept start_new start_connection unset set_ip Connection.handle_request serve
    write_response
run-logs_in_example =
    run-logs_in memory false false config clock 99 disk [] (events listing) _ _ refl
      (raises runtime_error) refl

run-IsSound_example : IsSound memory config false false clock 99 (ended login).1
unfolding bytes_eq closing error_text deref close_response reply_error reply_ok add_item view_type
    view_value view_end view_next next_is more_of view_after get_dir set_dir_object on_disk
    get_stream erase_stream log_in handle_auth auth_user auth_password relative_to put_resource
    clear_dir sync_file sync_files sync_walk handle_sync find_resource assign_resource
    erase_resource record_chunk is_ready write_stream flush_stream close_stream remove_or_exit
    reject_file check_digest is_complete create_finish create_append create_chunk after_create_chunk
    create_file create_content create_item handle_create handle_request serve_request dispatch
    serve_guest serve_unsynced serve_synced find_stream remove_stream IsMap set_id set_username
    set_dir set_auth set_synced next_tlv view get_type get_value read_tlv read verify_end
    zeros_before is_found read_before ◌>>=◌ pure lift gets modify exit_if try_filesystem find assign
    get_instance verify_password verify_lines sha512_hash split_sign match_and_parse first_two
    create_sign md5_hash md5_to_string md5_hash_content md5_hash_file split_last groups_of lines
    lines_from starts_with contains_text after_tab file_at put take_out content_of Message.msg_type
    Dir.rsrc Dir.contains Dir.insert_or_assign Dir.erase Dir.clear OpenStreams.get_stream
    OpenStreams.erase_stream MessageQueue.add_tlv run make_server start react read_request put_at
    print_message print_segments get_length print_value MessageQueue.front MessageQueue.add_back
    MessageQueue.new Message.size Message.of_type Message.add_tlv to_string to_number header_read
    overlay header_bytes kept too_late logs_in authenticates then_also handle run_callback
    handle_accept start_new start_connection unset set_ip Connection.handle_request serve
    write_response
run-IsSound_example =
    run-IsSound memory config false false clock 99 disk [] (events login) _ _ refl refl
      (raises runtime_error)
