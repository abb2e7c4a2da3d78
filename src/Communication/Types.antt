-- ===== src/Communication/Types.antt =====
-- communication/types.h. The unscoped enums of the wire are their numbers: the casts from and to
-- `uint8_t` keep the number, and a byte that names no enumerator stays what it is.
pub mod MsgType
pub mod TlvType
pub mod ErrType

pub data ResultType : Type 0 where
  res_ok res_err res_none : ResultType
