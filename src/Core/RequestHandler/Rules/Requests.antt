-- ===== src/Core/RequestHandler/Rules/Requests.antt =====
-- core/request_handler.cpp: `handle_request` closes.
use remote_backup_m1_server.Prelude.{not, ℕ, ◌≡◌, inl, inr, true, ◌==◌, ==_iff, Bool-cases}
use remote_backup_m1_server.Platform.{Platform}
use remote_backup_m1_server.Communication.Message.{Message}
use remote_backup_m1_server.Communication.MessageQueue
use remote_backup_m1_server.Communication.TlvView
use remote_backup_m1_server.Communication.Types.MsgType
use remote_backup_m1_server.Core.User
use remote_backup_m1_server.Core.Exec.{modify}
use remote_backup_m1_server.Core.Exec.Triple.{Triple, Triple-weaken, Triple-bind, Triple-if}
use remote_backup_m1_server.Core.RequestHandler.Rules.{ViewRules, Rules, FileRules}
use remote_backup_m1_server.Core.RequestHandler.State.{Config, Ctx}
use remote_backup_m1_server.Core.RequestHandler.Rules.Steps.{
  Open, Closed, Closes, then_open, gets-Keeps, view_next-Keeps, reply_error-Closes, reply_ok-Closes,
}
use remote_backup_m1_server.Core.RequestHandler.Rules.Authenticating.{OnLogin, handle_auth-Closes}
use remote_backup_m1_server.Core.RequestHandler.Rules.Syncing.{handle_sync-Closes}
use remote_backup_m1_server.Core.RequestHandler.Rules.Creating.{handle_create-Closes}
use remote_backup_m1_server.Core.RequestHandler.Rules.Updating.{handle_update-Closes}
use remote_backup_m1_server.Core.RequestHandler.Rules.Erasing.{handle_erase-Closes}
use remote_backup_m1_server.Core.RequestHandler.{
  serve_synced, serve_unsynced, serve_guest, dispatch, serve_request,
}

module _ (os : Platform) (config : Config os) (msg_type : ℕ) where
  pub serve_guest-Closes :
      (views : ViewRules os)
      → OnLogin os config views
      → Closes os views (serve_guest os config msg_type)
  unfolding serve_guest
  serve_guest-Closes views on_login =
      Triple-if _ _ _ (msg_type == MsgType.auth) _ _ (handle_auth-Closes os config views on_login)
        (reply_error-Closes os views _)

  pub serve_unsynced-Closes :
      (rules : Rules os)
      → ((c : Ctx os) → rules.Open c → rules.Open (record c { user = User.set_synced c.user true }))
      → ((c : Ctx os)
          → msg_type ≡ MsgType.sync
          → rules.Open c
          → rules.Open (record c { replies = MessageQueue.new MsgType.sync }))
      → Closes os rules.views (serve_unsynced os config msg_type)
  unfolding serve_unsynced
  serve_unsynced-Closes rules on_synced on_restart = elim (Bool-cases (msg_type == MsgType.sync)) [
    | inl e ↦ rw e (
        handle_sync-Closes os rules on_synced
          (λ c o. on_restart c ((==_iff msg_type MsgType.sync).0 e) o))
    | inr e ↦ rw e (reply_error-Closes os rules.views _)
  ]

  pub serve_synced-Closes :
      (files : FileRules os) → Closes os files.rules.views (serve_synced os config msg_type)
  unfolding serve_synced
  serve_synced-Closes files =
      Triple-if _ _ _ (msg_type == MsgType.create) _ _ (handle_create-Closes os files) (
        Triple-if _ _ _ (msg_type == MsgType.update) _ _ (handle_update-Closes os files) (
          Triple-if _ _ _ (msg_type == MsgType.erase) _ _ (handle_erase-Closes os files) (
            Triple-if _ _ _ (msg_type == MsgType.keep_alive) _ _
              (reply_ok-Closes os files.rules.views) (reply_error-Closes os files.rules.views _))))

  -- A new request: the replies start over and the view stands before its first TLV.
  abbrev pub begun : Message → Ctx os → Ctx os
  begun request c = record c {
    replies = MessageQueue.new msg_type;
    msg_view = TlvView.view request;
  }

  started :
      (views : ViewRules os) (request : Message) (P : Ctx os → Type 0)
      → ((c : Ctx os) → P c → views.Open (begun request c))
      → Triple P (modify (begun request)) (λ _. Open os views) (Open os views)
  unfolding modify
  started views request P start = record { at = start }

  -- The start of `handle_request`, from a state with `P`, and a dispatch that closes.
  pub serve_request-Closes :
      (views : ViewRules os) (request : Message) (P : Ctx os → Type 0)
      → ((c : Ctx os) → P c → views.Open (begun request c))
      → Closes os views (dispatch os config msg_type)
      → Triple P (serve_request os config msg_type request) (λ _. Closed os views) (Open os views)
  unfolding serve_request
  serve_request-Closes views request P start dispatched =
      Triple-bind _ (λ _. Open os views) _ _ _ _ (started views request P start)
        λ _.
          then_open os views _ _ _ (view_next-Keeps os views)
            λ more. Triple-if _ _ _ more _ _ dispatched (reply_error-Closes os views _)

  -- The same with a dispatch that closes only from what the start leaves.
  pub serve_request-Triple :
      (before views : ViewRules os) (request : Message) (P : Ctx os → Type 0)
      → ((c : Ctx os) → P c → before.Open (begun request c))
      → ((c : Ctx os) → before.Open c → views.Open c)
      → Triple (Open os before) (dispatch os config msg_type) (λ _. Closed os views) (Open os views)
      → Triple P (serve_request os config msg_type request) (λ _. Closed os views) (Open os views)
  unfolding serve_request
  serve_request-Triple before views request P start weaken dispatched =
      Triple-bind _ (λ _. Open os before) _ _ _ _
        (Triple-weaken P P _ _ _ _ (λ c o. o) weaken (started before request P start))
        λ _.
          Triple-bind _ (λ _. Open os before) _ _ _ _
            (Triple-weaken _ _ _ _ _ _ (λ c o. o) weaken (view_next-Keeps os before))
            λ more.
              Triple-if _ _ _ more _ _ dispatched
                (Triple-weaken _ _ _ _ _ _ weaken (λ c o. o) (reply_error-Closes os views _))

  -- Every branch of the dispatch.
  pub dispatch-Closes :
      (files : FileRules os)
      → OnLogin os config files.rules.views
      → ((c : Ctx os) → files.Open c → files.Open (record c { user = User.set_synced c.user true }))
      → ((c : Ctx os)
          → msg_type ≡ MsgType.sync
          → files.Open c
          → files.Open (record c { replies = MessageQueue.new MsgType.sync }))
      → Closes os files.rules.views (dispatch os config msg_type)
  unfolding dispatch
  dispatch-Closes files on_login on_synced on_restart =
      then_open os files.rules.views _ _ _ (gets-Keeps os files.rules.views _) λ user.
        Triple-if _ _ _ (not user.is_auth) _ _ (serve_guest-Closes files.rules.views on_login) (
          Triple-if _ _ _ (not user.is_synced) _ _
            (serve_unsynced-Closes files.rules on_synced on_restart) (serve_synced-Closes files))
