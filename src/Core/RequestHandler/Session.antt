-- ===== src/Core/RequestHandler/Session.antt =====
-- core/request_handler.cpp: a synchronised session and the sessions of other users.
use remote_backup_m1_server.Prelude.{ℕ, ◌≡◌, refl, true, false, List, ◌∷◌, bytes_eq, ◌∙◌}
use remote_backup_m1_server.Outcome.{ComesBack, Outcome}
use remote_backup_m1_server.Platform.{Platform}
use remote_backup_m1_server.Communication.Message
use remote_backup_m1_server.Core.OpenStreams.{find_stream}
use remote_backup_m1_server.Core.OpenStreams.Laws.{
  IsMap, get_stream-others, erase_stream-others, get_stream-IsMap, erase_stream-IsMap,
}
use remote_backup_m1_server.Core.Exec.{◌>>=◌}
use remote_backup_m1_server.Core.Exec.Triple.{After, Triple, After-ComesBack}
use remote_backup_m1_server.Core.RequestHandler.State.{Config, Ctx}
use remote_backup_m1_server.Core.RequestHandler.Rules.{FileRules}
use remote_backup_m1_server.Core.RequestHandler.Rules.Requests.{
  serve_synced-Closes, serve_request-Closes,
}
use remote_backup_m1_server.Core.RequestHandler.Access.{SameOwner, dispatch-synced}
use remote_backup_m1_server.Core.RequestHandler.{dispatch, handle_request}

module _ (os : Platform) (config : Config os) (c : Ctx os) where
  -- The session is as it was but for its directory object, and every other user has the stream that it
  -- had, or none as before.
  abbrev pub Served : Ctx os → Type 0
  Served d =
      SameOwner c.user d.user
      × (d.user.is_synced ≡ c.user.is_synced)
      × IsMap os d.streams
      × ((other : List ℕ)
          → bytes_eq c.user.id other ≡ false
          → find_stream os other d.streams ≡ find_stream os other c.streams)

  synced_rules : FileRules os
  synced_rules = record {
    rules = record {
      views = record {
        Open = Served;
        Closed = Served;
        on_view = λ d v o. o;
        on_closing = λ d tag err_type which o. o;
      };
      on_dir = λ d dir o. o;
      on_item = λ d sign o. o;
    };
    on_disk = λ d disk o. o;
    on_get_stream = λ d path (owner, synced, m, others). (
      owner,
      synced,
      get_stream-IsMap os d.user.id path d.streams d.disk m,
      λ other e.
          get_stream-others os d.user.id other path d.streams d.disk (rw (owner.0) e)
          ∙ others other e,
    );
    on_erase_stream = λ d (owner, synced, m, others). (
      owner,
      synced,
      erase_stream-IsMap os d.user.id d.streams d.disk m,
      λ other e.
          erase_stream-others os d.user.id other d.streams d.disk (rw (owner.0) e) ∙ others other e,
    );
    on_disk_after = λ d disk o. o;
  }

  synced_dispatch :
      (msg_type : ℕ)
      → c.user.is_auth ≡ true
      → c.user.is_synced ≡ true
      → Triple Served (dispatch os config msg_type) (λ _. Served) Served
  unfolding synced_rules
  synced_dispatch msg_type a e = record {
    at = λ d o.
        rw (dispatch-synced os config msg_type d (o.0.3 ∙ a) (o.1 ∙ e))
          ((serve_synced-Closes os config msg_type synced_rules).at d o);
  }

  synced_request :
      (msg_type : ℕ) (rest : List ℕ)
      → c.user.is_auth ≡ true
      → c.user.is_synced ≡ true
      → IsMap os c.streams
      → After
          (λ _. Served)
          Served
          (handle_request os config (Message.of_buffer (msg_type ∷ rest)) c)
  unfolding handle_request ◌>>=◌ Message.msg_type synced_rules
  synced_request msg_type rest a e m =
      (serve_request-Closes os config msg_type (synced_rules.rules.views)
          (Message.of_buffer (msg_type ∷ rest)) Served (λ d o. o) (synced_dispatch msg_type a e)).at
        c ((refl, refl, refl, refl), refl, m, λ other h. refl)

-- A synchronised session: when the handler returns or throws, the session has the same id, name,
-- address and flags, no user has two streams if none had two before, and any other user has the stream
-- that it had, or none as before.
pub handle_request-synced :
    (os : Platform) (config : Config os) (msg_type : ℕ) (rest other : List ℕ) (c d : Ctx os)
    (r : Outcome (Unit {0}))
    → c.user.is_auth ≡ true
    → c.user.is_synced ≡ true
    → IsMap os c.streams
    → handle_request os config (Message.of_buffer (msg_type ∷ rest)) c ≡ (r, d)
    → ComesBack r
    → bytes_eq c.user.id other ≡ false
    → SameOwner c.user d.user
      × (d.user.is_synced ≡ c.user.is_synced)
      × IsMap os d.streams
      × (find_stream os other d.streams ≡ find_stream os other c.streams)
handle_request-synced os config msg_type rest other c d r a e m run back differs =
    let (owner, synced, map, others) : Served os config c d =
      After-ComesBack (Served os config c) r d back
        (rw run at (synced_request os config c msg_type rest a e m)) in
    (owner, synced, map, others other differs)
