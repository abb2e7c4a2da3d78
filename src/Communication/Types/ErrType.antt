-- ===== src/Communication/Types/ErrType.antt =====
-- communication/types.h: `ERR_TYPE`. No cast makes one, so it is an enumeration with its numbers.
use remote_backup_m1_server.Prelude.{ℕ}

pub data ErrType : Type 0 where
  err_none : ErrType
  err_no_content : ErrType
  err_msg_type_rejected : ErrType
  err_create_no_item : ErrType
  err_create_no_content : ErrType
  err_create_already_exist : ErrType
  err_create_failed : ErrType
  err_create_no_match : ErrType
  err_update_no_item : ErrType
  err_update_no_content : ErrType
  err_update_not_exist : ErrType
  err_update_already_updated : ErrType
  err_update_failed : ErrType
  err_update_no_match : ErrType
  err_erase_no_item : ErrType
  err_erase_no_match : ErrType
  err_sync_failed : ErrType
  err_auth_no_usrn : ErrType
  err_auth_no_pswd : ErrType
  err_auth_failed : ErrType

unfoldable pub to_number : ErrType → ℕ
to_number err_none = 0
to_number err_no_content = 1
to_number err_msg_type_rejected = 2
to_number err_create_no_item = 101
to_number err_create_no_content = 102
to_number err_create_already_exist = 103
to_number err_create_failed = 104
to_number err_create_no_match = 105
to_number err_update_no_item = 201
to_number err_update_no_content = 202
to_number err_update_not_exist = 203
to_number err_update_already_updated = 204
to_number err_update_failed = 205
to_number err_update_no_match = 206
to_number err_erase_no_item = 301
to_number err_erase_no_match = 302
to_number err_sync_failed = 401
to_number err_auth_no_usrn = 501
to_number err_auth_no_pswd = 502
to_number err_auth_failed = 503
