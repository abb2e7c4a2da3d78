-- ===== src/Tests/Sessions.antt =====
-- core/request_handler.cpp: requests of sessions in every state.
use remote_backup_m1_server.Communication.Types.ErrType.{to_number}
use remote_backup_m1_server.Prelude.{ℕ, ◌≡◌, refl, true, List, [], ◌∷◌, codes, bytes_eq, some, none}
use remote_backup_m1_server.Outcome.{Outcome, returns}
use remote_backup_m1_server.Communication.Message
use remote_backup_m1_server.Communication.MessageQueue
use remote_backup_m1_server.Core.RequestHandler.State.{
  Ctx, closing, error_text, deref, close_response, reply_error, reply_ok, add_item, view_type,
  view_value, view_end, view_next, next_is, more_of, view_after, get_dir, set_dir_object, on_disk,
  get_stream, erase_stream,
}
use remote_backup_m1_server.Core.RequestHandler.Auth.{log_in, handle_auth, auth_user, auth_password}
use remote_backup_m1_server.Core.RequestHandler.Sync.{
  relative_to, put_resource, clear_dir, sync_file, sync_files, sync_walk, handle_sync,
}
use remote_backup_m1_server.Core.RequestHandler.Files.{
  find_resource, assign_resource, erase_resource, record_chunk, is_ready, write_stream,
  flush_stream, close_stream, remove_or_exit, reject_file, check_digest,
}
use remote_backup_m1_server.Core.RequestHandler.Create.{
  is_complete, create_finish, create_append, create_chunk, after_create_chunk, create_file,
  create_content, create_item, handle_create,
}
use remote_backup_m1_server.Core.RequestHandler.{
  handle_request, serve_request, dispatch, serve_guest, serve_unsynced, serve_synced,
}
use remote_backup_m1_server.Core.RequestHandler.Access.{
  Guest, SameOwner, Unsynced, handle_request-Guest, handle_request-Unsynced,
}
use remote_backup_m1_server.Core.RequestHandler.Home.{HasHome, not_yet, handle_request-HasHome}
use remote_backup_m1_server.Core.RequestHandler.Session.{handle_request-synced}
use remote_backup_m1_server.Core.RequestHandler.Replies.{IsClosed, handle_request-IsClosed}
use remote_backup_m1_server.Core.OpenStreams
use remote_backup_m1_server.Core.OpenStreams.{find_stream, remove_stream}
use remote_backup_m1_server.Core.OpenStreams.Laws.{IsMap}
use remote_backup_m1_server.Core.User.{set_id, set_username, set_dir, set_auth, set_synced}
use remote_backup_m1_server.Communication.TlvView.{
  next_tlv, view, get_type, get_value, read_tlv, read, verify_end, zeros_before, read_before,
}
use remote_backup_m1_server.Core.Exec.{◌>>=◌, pure, lift, gets, modify, exit_if, try_filesystem}
use remote_backup_m1_server.Directory.Dir
use remote_backup_m1_server.Directory.Dir.{Dir, find, assign, is_found, get_instance}
use remote_backup_m1_server.Utilities.Tools.{
  verify_password, verify_lines, sha512_hash, split_sign, match_and_parse, first_two, create_sign,
  md5_hash, md5_to_string, md5_hash_content, md5_hash_file,
}
use remote_backup_m1_server.Utilities.Tools.Signs.{split_last, groups_of}
use remote_backup_m1_server.Utilities.Tools.Text.{
  lines, lines_from, starts_with, contains_text, after_tab,
}
use remote_backup_m1_server.Tests.{
  memory, file_at, put, take_out, content_of, config, state, guest, unsynced, synced,
}

abbrev answer : Ctx memory → List ℕ → Outcome (Unit {0}) × Ctx memory
answer c request = handle_request memory config (Message.of_buffer request) c

-- USRN `a`, PSWD `xy`, END.
abbrev login : List ℕ
login = 0 ∷ 0 ∷ 0 ∷ 0 ∷ 1 ∷ 97 ∷ 1 ∷ 0 ∷ 0 ∷ 0 ∷ 2 ∷ 120 ∷ 121 ∷ 3 ∷ 0 ∷ 0 ∷ 0 ∷ 0 ∷ []

abbrev logged_in : Outcome (Unit {0}) × Ctx memory
logged_in = answer (state guest) (5 ∷ login)

test_login : logged_in.1.user.is_auth ≡ true
unfolding bytes_eq closing error_text to_number deref close_response reply_error reply_ok add_item
    view_type view_value view_end view_next next_is more_of view_after get_dir set_dir_object
    on_disk get_stream erase_stream log_in handle_auth auth_user auth_password relative_to
    put_resource clear_dir sync_file sync_files sync_walk handle_sync find_resource assign_resource
    erase_resource record_chunk is_ready write_stream flush_stream close_stream remove_or_exit
    reject_file check_digest is_complete create_finish create_append create_chunk after_create_chunk
    create_file create_content create_item handle_create handle_request serve_request dispatch
    serve_guest serve_unsynced serve_synced find_stream remove_stream IsMap set_id set_username
    set_dir set_auth set_synced next_tlv view get_type get_value read_tlv read verify_end
    zeros_before is_found read_before ◌>>=◌ pure lift gets modify exit_if try_filesystem find assign
    get_instance verify_password verify_lines sha512_hash split_sign match_and_parse first_two
    create_sign md5_hash md5_to_string md5_hash_content md5_hash_file split_last groups_of lines
    lines_from starts_with contains_text after_tab file_at put take_out content_of Message.msg_type
    Dir.rsrc Dir.contains Dir.insert_or_assign Dir.erase Dir.clear OpenStreams.get_stream
    OpenStreams.erase_stream MessageQueue.add_tlv
test_login = refl

handle_request-Guest_example : Guest memory config (state guest) logged_in.1
unfolding bytes_eq closing error_text to_number deref close_response reply_error reply_ok add_item
    view_type view_value view_end view_next next_is more_of view_after get_dir set_dir_object
    on_disk get_stream erase_stream log_in handle_auth auth_user auth_password relative_to
    put_resource clear_dir sync_file sync_files sync_walk handle_sync find_resource assign_resource
    erase_resource record_chunk is_ready write_stream flush_stream close_stream remove_or_exit
    reject_file check_digest is_complete create_finish create_append create_chunk after_create_chunk
    create_file create_content create_item handle_create handle_request serve_request dispatch
    serve_guest serve_unsynced serve_synced find_stream remove_stream IsMap set_id set_username
    set_dir set_auth set_synced next_tlv view get_type get_value read_tlv read verify_end
    zeros_before is_found read_before ◌>>=◌ pure lift gets modify exit_if try_filesystem find assign
    get_instance verify_password verify_lines sha512_hash split_sign match_and_parse first_two
    create_sign md5_hash md5_to_string md5_hash_content md5_hash_file split_last groups_of lines
    lines_from starts_with contains_text after_tab file_at put take_out content_of Message.msg_type
    Dir.rsrc Dir.contains Dir.insert_or_assign Dir.erase Dir.clear OpenStreams.get_stream
    OpenStreams.erase_stream MessageQueue.add_tlv
handle_request-Guest_example =
    handle_request-Guest memory config 5 login (state guest) _ _ refl refl (returns tt)

handle_request-IsClosed_example : IsClosed 5 logged_in.1.replies
unfolding bytes_eq closing error_text to_number deref close_response reply_error reply_ok add_item
    view_type view_value view_end view_next next_is more_of view_after get_dir set_dir_object
    on_disk get_stream erase_stream log_in handle_auth auth_user auth_password relative_to
    put_resource clear_dir sync_file sync_files sync_walk handle_sync find_resource assign_resource
    erase_resource record_chunk is_ready write_stream flush_stream close_stream remove_or_exit
    reject_file check_digest is_complete create_finish create_append create_chunk after_create_chunk
    create_file create_content create_item handle_create handle_request serve_request dispatch
    serve_guest serve_unsynced serve_synced find_stream remove_stream IsMap set_id set_username
    set_dir set_auth set_synced next_tlv view get_type get_value read_tlv read verify_end
    zeros_before is_found read_before ◌>>=◌ pure lift gets modify exit_if try_filesystem find assign
    get_instance verify_password verify_lines sha512_hash split_sign match_and_parse first_two
    create_sign md5_hash md5_to_string md5_hash_content md5_hash_file split_last groups_of lines
    lines_from starts_with contains_text after_tab file_at put take_out content_of Message.msg_type
    Dir.rsrc Dir.contains Dir.insert_or_assign Dir.erase Dir.clear OpenStreams.get_stream
    OpenStreams.erase_stream MessageQueue.add_tlv
handle_request-IsClosed_example = handle_request-IsClosed memory config 5 login (state guest) _ refl

-- An END alone: the client lists no file.
abbrev listing : List ℕ
listing = 3 ∷ 0 ∷ 0 ∷ 0 ∷ 0 ∷ []

abbrev listed : Outcome (Unit {0}) × Ctx memory
listed = answer (state unsynced) (4 ∷ listing)

test_sync : listed.1.user.is_synced ≡ true
unfolding bytes_eq closing error_text to_number deref close_response reply_error reply_ok add_item
    view_type view_value view_end view_next next_is more_of view_after get_dir set_dir_object
    on_disk get_stream erase_stream log_in handle_auth auth_user auth_password relative_to
    put_resource clear_dir sync_file sync_files sync_walk handle_sync find_resource assign_resource
    erase_resource record_chunk is_ready write_stream flush_stream close_stream remove_or_exit
    reject_file check_digest is_complete create_finish create_append create_chunk after_create_chunk
    create_file create_content create_item handle_create handle_request serve_request dispatch
    serve_guest serve_unsynced serve_synced find_stream remove_stream IsMap set_id set_username
    set_dir set_auth set_synced next_tlv view get_type get_value read_tlv read verify_end
    zeros_before is_found read_before ◌>>=◌ pure lift gets modify exit_if try_filesystem find assign
    get_instance verify_password verify_lines sha512_hash split_sign match_and_parse first_two
    create_sign md5_hash md5_to_string md5_hash_content md5_hash_file split_last groups_of lines
    lines_from starts_with contains_text after_tab file_at put take_out content_of Message.msg_type
    Dir.rsrc Dir.contains Dir.insert_or_assign Dir.erase Dir.clear OpenStreams.get_stream
    OpenStreams.erase_stream MessageQueue.add_tlv
test_sync = refl

handle_request-Unsynced_example : Unsynced memory config (state unsynced) listed.1
unfolding bytes_eq closing error_text to_number deref close_response reply_error reply_ok add_item
    view_type view_value view_end view_next next_is more_of view_after get_dir set_dir_object
    on_disk get_stream erase_stream log_in handle_auth auth_user auth_password relative_to
    put_resource clear_dir sync_file sync_files sync_walk handle_sync find_resource assign_resource
    erase_resource record_chunk is_ready write_stream flush_stream close_stream remove_or_exit
    reject_file check_digest is_complete create_finish create_append create_chunk after_create_chunk
    create_file create_content create_item handle_create handle_request serve_request dispatch
    serve_guest serve_unsynced serve_synced find_stream remove_stream IsMap set_id set_username
    set_dir set_auth set_synced next_tlv view get_type get_value read_tlv read verify_end
    zeros_before is_found read_before ◌>>=◌ pure lift gets modify exit_if try_filesystem find assign
    get_instance verify_password verify_lines sha512_hash split_sign match_and_parse first_two
    create_sign md5_hash md5_to_string md5_hash_content md5_hash_file split_last groups_of lines
    lines_from starts_with contains_text after_tab file_at put take_out content_of Message.msg_type
    Dir.rsrc Dir.contains Dir.insert_or_assign Dir.erase Dir.clear OpenStreams.get_stream
    OpenStreams.erase_stream MessageQueue.add_tlv
handle_request-Unsynced_example =
    handle_request-Unsynced memory config 4 listing (state unsynced) _ _ refl refl refl (returns tt)

-- ITEM `f`, NUL, `fz`; CONTENT `z`; END.
abbrev file_f : List ℕ
file_f = 2 ∷ 0 ∷ 0 ∷ 0 ∷ 4 ∷ 102 ∷ 0 ∷ 102 ∷ 122 ∷ 6 ∷ 0 ∷ 0 ∷ 0 ∷ 1 ∷ 122 ∷ 3 ∷ 0 ∷ 0 ∷ 0 ∷ 0 ∷ []

abbrev created : Outcome (Unit {0}) × Ctx memory
created = answer (state synced) (1 ∷ file_f)

test_create : file_at (codes "root/a/f") created.1.disk ≡ some (codes "z")
unfolding bytes_eq closing error_text to_number deref close_response reply_error reply_ok add_item
    view_type view_value view_end view_next next_is more_of view_after get_dir set_dir_object
    on_disk get_stream erase_stream log_in handle_auth auth_user auth_password relative_to
    put_resource clear_dir sync_file sync_files sync_walk handle_sync find_resource assign_resource
    erase_resource record_chunk is_ready write_stream flush_stream close_stream remove_or_exit
    reject_file check_digest is_complete create_finish create_append create_chunk after_create_chunk
    create_file create_content create_item handle_create handle_request serve_request dispatch
    serve_guest serve_unsynced serve_synced find_stream remove_stream IsMap set_id set_username
    set_dir set_auth set_synced next_tlv view get_type get_value read_tlv read verify_end
    zeros_before is_found read_before ◌>>=◌ pure lift gets modify exit_if try_filesystem find assign
    get_instance verify_password verify_lines sha512_hash split_sign match_and_parse first_two
    create_sign md5_hash md5_to_string md5_hash_content md5_hash_file split_last groups_of lines
    lines_from starts_with contains_text after_tab file_at put take_out content_of Message.msg_type
    Dir.rsrc Dir.contains Dir.insert_or_assign Dir.erase Dir.clear OpenStreams.get_stream
    OpenStreams.erase_stream MessageQueue.add_tlv
test_create = refl

handle_request-synced_example :
    SameOwner (synced) created.1.user
    × (created.1.user.is_synced ≡ true)
    × IsMap memory created.1.streams
    × (find_stream memory (codes "b") created.1.streams ≡ none)
unfolding bytes_eq closing error_text to_number deref close_response reply_error reply_ok add_item
    view_type view_value view_end view_next next_is more_of view_after get_dir set_dir_object
    on_disk get_stream erase_stream log_in handle_auth auth_user auth_password relative_to
    put_resource clear_dir sync_file sync_files sync_walk handle_sync find_resource assign_resource
    erase_resource record_chunk is_ready write_stream flush_stream close_stream remove_or_exit
    reject_file check_digest is_complete create_finish create_append create_chunk after_create_chunk
    create_file create_content create_item handle_create handle_request serve_request dispatch
    serve_guest serve_unsynced serve_synced find_stream remove_stream IsMap set_id set_username
    set_dir set_auth set_synced next_tlv view get_type get_value read_tlv read verify_end
    zeros_before is_found read_before ◌>>=◌ pure lift gets modify exit_if try_filesystem find assign
    get_instance verify_password verify_lines sha512_hash split_sign match_and_parse first_two
    create_sign md5_hash md5_to_string md5_hash_content md5_hash_file split_last groups_of lines
    lines_from starts_with contains_text after_tab file_at put take_out content_of Message.msg_type
    Dir.rsrc Dir.contains Dir.insert_or_assign Dir.erase Dir.clear OpenStreams.get_stream
    OpenStreams.erase_stream MessageQueue.add_tlv
handle_request-synced_example =
    handle_request-synced memory config 1 file_f (codes "b") (state synced) _ _ refl refl tt refl
      (returns tt) refl

handle_request-HasHome_example : HasHome logged_in.1.user
unfolding bytes_eq closing error_text to_number deref close_response reply_error reply_ok add_item
    view_type view_value view_end view_next next_is more_of view_after get_dir set_dir_object
    on_disk get_stream erase_stream log_in handle_auth auth_user auth_password relative_to
    put_resource clear_dir sync_file sync_files sync_walk handle_sync find_resource assign_resource
    erase_resource record_chunk is_ready write_stream flush_stream close_stream remove_or_exit
    reject_file check_digest is_complete create_finish create_append create_chunk after_create_chunk
    create_file create_content create_item handle_create handle_request serve_request dispatch
    serve_guest serve_unsynced serve_synced find_stream remove_stream IsMap set_id set_username
    set_dir set_auth set_synced next_tlv view get_type get_value read_tlv read verify_end
    zeros_before is_found read_before ◌>>=◌ pure lift gets modify exit_if try_filesystem find assign
    get_instance verify_password verify_lines sha512_hash split_sign match_and_parse first_two
    create_sign md5_hash md5_to_string md5_hash_content md5_hash_file split_last groups_of lines
    lines_from starts_with contains_text after_tab file_at put take_out content_of Message.msg_type
    Dir.rsrc Dir.contains Dir.insert_or_assign Dir.erase Dir.clear OpenStreams.get_stream
    OpenStreams.erase_stream MessageQueue.add_tlv
handle_request-HasHome_example =
    handle_request-HasHome memory config 5 login (state guest) _ _ (not_yet refl) refl (returns tt)
