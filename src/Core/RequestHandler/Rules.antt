-- ===== src/Core/RequestHandler/Rules.antt =====
-- core/request_handler.cpp: one induction over all handlers. The records are what a property has to say
-- of each kind of step; the children carry it through every handler.
pub mod Steps
pub mod FileSteps
pub mod Chunks
pub mod Creating
pub mod Updating
pub mod Erasing
pub mod Authenticating
pub mod Syncing
pub mod Requests
pub mod Sessions
use remote_backup_m1_server.Prelude.{ℕ, ◌≡◌, ◌⊎◌, List, some}
use remote_backup_m1_server.Platform.{Platform}
use remote_backup_m1_server.Communication.MessageQueue.{add_tlv}
use remote_backup_m1_server.Communication.TlvView.{TlvView}
use remote_backup_m1_server.Communication.Types.TlvType
use remote_backup_m1_server.Core.OpenStreams
use remote_backup_m1_server.Core.OpenStreams.{Streams}
use remote_backup_m1_server.Core.RequestHandler.State.{Ctx, closing}
use remote_backup_m1_server.Directory.Dir.{Dir}

-- `Open` holds until the reply is finished and `Closed` after that. These rules are enough for a
-- handler that only reads the request and answers.
pub record ViewRules (os : Platform) : Type 1 where
  pub Open : Ctx os → Type 0
  pub Closed : Ctx os → Type 0
  pub on_view : (c : Ctx os) (v : TlvView) → Open c → Open (record c { msg_view = v })
  pub on_closing :
      (c : Ctx os) (tag : ℕ) (text : List ℕ)
      → (tag ≡ TlvType.ok_tag) ⊎ (tag ≡ TlvType.error_tag)
      → Open c
      → Closed (record c { replies = closing tag text c.replies })

-- For a handler that also adds ITEM segments and changes the user's directory object.
pub record Rules (os : Platform) : Type 1 where
  pub views : ViewRules os
  pub open views use *
  pub on_dir :
      (c : Ctx os) (d : Dir os.FsPath)
      → Open c
      → Open (record c { user = record (c.user) { dir_ptr = some d } })
  pub on_item :
      (c : Ctx os) (sign : List ℕ)
      → Open c
      → Open
          (record c { replies = add_tlv c.replies (record { tag = TlvType.item; value = sign }) })

-- For a handler that also works on the disk and on the open streams.
pub record FileRules (os : Platform) : Type 1 where
  pub rules : Rules os
  pub open rules use *
  pub on_disk : (c : Ctx os) (d : os.Disk) → Open c → Open (record c { disk = d })
  pub on_get_stream :
      (c : Ctx os) (path : os.FsPath)
      → Open c
      → let (_, s, d) = OpenStreams.get_stream os c.user.id path c.streams c.disk in
        Open (record c { streams = s; disk = d })
  pub on_erase_stream :
      (c : Ctx os)
      → Open c
      → let (s, d) = OpenStreams.erase_stream os c.user.id c.streams c.disk in
        Open (record c { streams = s; disk = d })
  pub on_disk_after : (c : Ctx os) (d : os.Disk) → Closed c → Closed (record c { disk = d })
