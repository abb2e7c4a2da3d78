-- ===== src/Communication/Types/TlvType.antt =====
-- communication/types.h: `TLV_TYPE`.
use remote_backup_m1_server.Prelude.{ℕ}

abbrev pub usrn : ℕ
usrn = 0

abbrev pub pswd : ℕ
pswd = 1

abbrev pub item : ℕ
item = 2

abbrev pub end : ℕ
end = 3

abbrev pub ok_tag : ℕ
ok_tag = 4

abbrev pub error_tag : ℕ
error_tag = 5

abbrev pub content : ℕ
content = 6
