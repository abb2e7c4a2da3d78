-- ===== src/Core/RequestHandler/State.antt =====
-- core/request_handler.cpp: what the handlers share: the objects that they reach by reference, as one
-- state, and `close_response`.
use remote_backup_m1_server.Prelude.{
  ℕ, Bool, false, List, [], none, some, Option, to_string, if◌then◌else◌, ◌==◌,
}
use remote_backup_m1_server.Outcome.{Outcome, ok, throws, exits, fault, stuck}
use remote_backup_m1_server.Platform.{Platform}
use remote_backup_m1_server.Communication.MessageQueue.{MessageQueue, add_tlv}
use remote_backup_m1_server.Communication.TlvView.{TlvView}
use remote_backup_m1_server.Communication.TlvView
use remote_backup_m1_server.Communication.Types.TlvType
use remote_backup_m1_server.Communication.Types.ErrType.{ErrType, err_none, to_number}
use remote_backup_m1_server.Directory.Dir.{Dir}
use remote_backup_m1_server.Core.User.{User}
use remote_backup_m1_server.Core.OpenStreams
use remote_backup_m1_server.Core.OpenStreams.{Streams}
use remote_backup_m1_server.Core.Exec.{Exec, pure, lift, modify, ◌>>=◌}

-- The two fields that the constructor of `request_handler` sets.
pub record Config (os : Platform) : Type 0 where
  pub backup_root : os.FsPath
  pub credentials_path : os.FsPath

-- What a handler reaches: the disk, `streams_`, and the arguments `user`, `msg_view` and `replies`.
pub record Ctx (os : Platform) : Type 0 where
  pub disk : os.Disk
  pub streams : Streams os
  pub user : User os.FsPath
  pub msg_view : TlvView
  pub replies : MessageQueue

-- The text that `buffer` points to when `add_TLV` reads it: `err_type_str` is destroyed before that.
unfoldable pub error_text : Platform → ErrType → Outcome (List ℕ)
error_text os e =
    if to_number e == to_number err_none
    then ok []
    else elim (os.freed (to_string (to_number e))) [ none ↦ fault | some text ↦ ok text ]

-- The verdict with the text of its code, and END.
unfoldable pub closing : ℕ → List ℕ → MessageQueue → MessageQueue
closing tlv_type text q =
    add_tlv (add_tlv q (record { tag = tlv_type; value = text }))
      (record { tag = TlvType.end; value = [] })

-- The result of `next_tlv` and the view that it leaves.
unfoldable pub more_of : Outcome (Bool × TlvView) → Outcome Bool
more_of (ok (more, w)) = ok more
more_of (throws e) = throws e
more_of exits = exits
more_of fault = fault
more_of stuck = stuck

unfoldable pub view_after : Outcome (Bool × TlvView) → TlvView → TlvView
view_after (ok (more, w)) v = w
view_after _ v = v

unfoldable pub deref {ℓ} : {A : Type ℓ} → Option A → Outcome A
deref none = fault
deref (some a) = ok a

module _ (os : Platform) where
  unfoldable pub close_response : ℕ → ErrType → Exec (Ctx os) (Unit {0})
  unfolding error_text
  close_response tlv_type err_type = do
    text ← lift (error_text os err_type)
    modify (λ c. record c { replies = closing tlv_type text c.replies })

  unfoldable pub reply_error : ErrType → Exec (Ctx os) (Unit {0})
  unfolding close_response
  reply_error err_type = close_response TlvType.error_tag err_type

  unfoldable pub reply_ok : Exec (Ctx os) (Unit {0})
  unfolding close_response
  reply_ok = close_response TlvType.ok_tag err_none

  unfoldable pub add_item : List ℕ → Exec (Ctx os) (Unit {0})
  add_item sign =
      modify (λ c. record c {
        replies = add_tlv c.replies (record { tag = TlvType.item; value = sign });
      })

  -- The accessors of `msg_view`.
  unfoldable pub view_type : Exec (Ctx os) ℕ
  view_type c = (TlvView.get_type c.msg_view, c)

  unfoldable pub view_value : Exec (Ctx os) (List ℕ)
  view_value c = (TlvView.get_value c.msg_view, c)

  unfoldable pub view_end : Exec (Ctx os) Bool
  view_end c = (TlvView.verify_end c.msg_view, c)

  unfoldable pub view_next : Exec (Ctx os) Bool
  unfolding more_of view_after
  view_next c =
      let r = TlvView.next_tlv c.msg_view in
      (more_of r, record c { msg_view = view_after r c.msg_view })

  -- `msg_view.next_tlv() && msg_view.tlv_type() == tag`
  unfoldable pub next_is : ℕ → Exec (Ctx os) Bool
  unfolding view_next view_type
  next_is tag = do
    more ← view_next
    if more then (do t ← view_type; pure (t == tag)) else pure false

  -- `*user.dir()`: a null pointer is not checked.
  unfoldable pub get_dir : Exec (Ctx os) (Dir os.FsPath)
  unfolding deref
  get_dir c = (deref c.user.dir_ptr, c)

  -- A change of the object behind `user.dir()`.
  unfoldable pub set_dir_object : Dir os.FsPath → Exec (Ctx os) (Unit {0})
  set_dir_object d = modify (λ c. record c { user = record (c.user) { dir_ptr = some d } })

  -- A call that may change the disk.
  unfoldable pub on_disk {ℓ} : {A : Type ℓ} → (os.Disk → A × os.Disk) → Exec (Ctx os) A
  on_disk f c = let (a, disk) = f c.disk in (ok a, record c { disk = disk })

  unfoldable pub get_stream : os.FsPath → Exec (Ctx os) (os.Stream × Bool)
  get_stream path c =
      let (result, streams, disk) = OpenStreams.get_stream os c.user.id path c.streams c.disk in
      (ok result, record c { streams = streams; disk = disk })

  unfoldable pub erase_stream : Exec (Ctx os) (Unit {0})
  erase_stream c =
      let (streams, disk) = OpenStreams.erase_stream os c.user.id c.streams c.disk in
      (ok tt, record c { streams = streams; disk = disk })
