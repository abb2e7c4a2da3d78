-- ===== src/Tests/Requests.antt =====
-- core/request_handler.cpp: a login of whole segments.
use remote_backup_m1_server.Prelude.{List, [], ◌∷◌, codes}
use remote_backup_m1_server.Communication.Message
use remote_backup_m1_server.Communication.Message.{Tlv}
use remote_backup_m1_server.Communication.Types.TlvType

abbrev login : List Tlv
login =
    record { tag = 0; value = codes "a" }
    ∷ record { tag = 1; value = codes "xy" }
    ∷ record { tag = 3; value = [] }
    ∷ []
