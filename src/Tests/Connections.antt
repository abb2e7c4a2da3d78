-- ===== src/Tests/Connections.antt =====
-- core/connection.cpp and utilities/logger.cpp.
use remote_backup_m1_server.Prelude.{
  ℕ, ◌<◌, ◌≡◌, refl, ◌↔◌, true, false, List, [], ◌∷◌, codes, replicate,
}
use remote_backup_m1_server.Outcome.{ok, ComesBack}
use remote_backup_m1_server.Communication.Message.{Message, of_buffer, msg_type}
use remote_backup_m1_server.Communication.Message.Print.{print_message, print_segments, print_value}
use remote_backup_m1_server.Communication.TlvView.{
  view, next_tlv, read_tlv, read, get_type, get_length, get_value,
}
use remote_backup_m1_server.Communication.Types.{res_ok}
use remote_backup_m1_server.Utilities.Logger.{log_result}
use remote_backup_m1_server.Utilities.Logger.Laws.{log_result-ComesBack}
use remote_backup_m1_server.Core.OpenStreams.Laws.{IsMap}
use remote_backup_m1_server.Core.Exec.{◌>>◌}
use remote_backup_m1_server.Core.Connection.{
  Connection, for_nothing, for_header, io_done, timer_expired, react, write_response,
}
use remote_backup_m1_server.Core.Connection.Writing.{
  IsWritten, frames, deliver, write_response-IsWritten,
}
use remote_backup_m1_server.Core.Connection.Laws.{
  IsShut, reads_header, react-timed_out, react-IsShut, react-failed,
}
use remote_backup_m1_server.Tests.{memory, config, disk, synced}

abbrev ok_reply : Message
ok_reply = of_buffer (6 ∷ 4 ∷ 0 ∷ 0 ∷ 0 ∷ 0 ∷ 3 ∷ 0 ∷ 0 ∷ 0 ∷ 0 ∷ [])

abbrev clock : List ℕ
clock = codes "2020-01-01T00:00:00"

abbrev connection : Connection memory
connection = record {
  disk = disk;
  streams = [];
  log = [];
  user = synced;
  header = 0;
  buffer = replicate 8 0;
  msg = ok_reply;
  replies = record { msgs_queue = ok_reply ∷ ok_reply ∷ []; queue_type = 6; error = false };
  timed_out = false;
  timer_set = true;
  is_open = true;
  waiting = for_header;
  written = [];
}

log_result-ComesBack_example : ComesBack (log_result clock synced 6 res_ok res_ok) ↔ (6 < 7)
log_result-ComesBack_example = log_result-ComesBack clock synced 6 res_ok res_ok

react-timed_out_example :
    react memory config clock 99 (io_done false (1 ∷ [])) (record connection { timed_out = true })
    ≡ (ok tt, record connection { timed_out = true; waiting = for_nothing })
react-timed_out_example =
    react-timed_out memory config clock 99 false (1 ∷ []) (record connection { timed_out = true })
      refl

react-IsShut_example :
    (d : Connection memory) × (react memory config clock 99 timer_expired connection ≡ (ok tt, d))
    × (d.timed_out ≡ true)
    × IsShut memory config clock 99 connection d
unfolding IsMap
react-IsShut_example = react-IsShut memory config clock 99 connection tt

react-failed_example :
    (d : Connection memory) × (react memory config clock 99 (io_done true []) connection
      ≡ (ok tt, d))
    × IsShut memory config clock 99 connection d
unfolding IsMap
react-failed_example = react-failed memory config clock 99 [] connection reads_header refl tt

write_response-IsWritten_example :
    (d : Connection memory) × ((write_response memory config clock 9 false
          >> deliver memory config clock 9 3)
        connection
      ≡ (ok tt, d))
    × IsWritten memory config clock 9 connection d (frames (ok_reply ∷ ok_reply ∷ []))
unfolding print_message print_segments print_value view next_tlv read_tlv read get_type get_length
    get_value msg_type
write_response-IsWritten_example =
    write_response-IsWritten memory config clock 9 connection ok_reply (ok_reply ∷ []) refl refl
      ((_, refl), ((_, refl), tt))
