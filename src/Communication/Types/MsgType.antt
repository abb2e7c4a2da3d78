-- ===== src/Communication/Types/MsgType.antt =====
-- communication/types.h: `MSG_TYPE`.
use remote_backup_m1_server.Prelude.{ℕ}

abbrev pub none_type : ℕ
none_type = 0

abbrev pub create : ℕ
create = 1

abbrev pub update : ℕ
update = 2

abbrev pub erase : ℕ
erase = 3

abbrev pub sync : ℕ
sync = 4

abbrev pub auth : ℕ
auth = 5

abbrev pub keep_alive : ℕ
keep_alive = 6
