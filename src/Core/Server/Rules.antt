-- ===== src/Core/Server/Rules.antt =====
-- core/server.cpp: what every event of the server keeps, it has at the end of every run.
use remote_backup_m1_server.Prelude.{
  ℕ, ◌≡◌, Bool, true, List, [], ◌∷◌, ◌++◌, Option, none, some, get_elem?, Option-cases, inl, inr,
}
use remote_backup_m1_server.Outcome.{Outcome, ComesBack}
use remote_backup_m1_server.Platform.{Platform}
use remote_backup_m1_server.Core.Exec.{Exec, gets, modify}
use remote_backup_m1_server.Core.Exec.Triple.{
  After, After-same, Triple, After-into, After-ComesBack, Triple-pure, Triple-lift, Triple-bind,
  Triple-if,
}
use remote_backup_m1_server.Core.RequestHandler.State.{Config}
use remote_backup_m1_server.Core.Connection.{Connection, Event, start, react}
use remote_backup_m1_server.Core.Server.{
  kept, too_late, Server, ServerEvent, accept_done, connection_event, signalled, put_at,
  remote_endpoint, make_connection, lend, give_back, start_accept, start_connection, start_new,
  handle_accept, handle_stop, run_callback, handle, run,
}

module _ (os : Platform) (auth_flag synced_flag : Bool) (config : Config os) (clock : List ℕ)
    (fuel : ℕ) where
  -- The server after the callback of connection `i` left it as `d`, and after a new one was started.
  abbrev pub after_callback : Server os → ℕ → Connection os → Server os
  after_callback s i d = record (give_back os auth_flag synced_flag s d) {
    accepted = put_at i (kept d) s.accepted;
  }

  abbrev pub after_start : Server os → Connection os → Server os
  after_start s d = record (give_back os auth_flag synced_flag s d) {
    accepted = s.accepted ++ (kept d ∷ []);
  }

  -- What a property has to say of a callback, of a new connection, and of a server that stops.
  pub record ServerRules : Type 1 where
    pub Holds : Server os → Type 0
    pub on_callback :
        (s : Server os) (i : ℕ) (c : Connection os) (event : Event)
        → get_elem? s.accepted i ≡ some (some c)
        → Holds s
        → After
            (λ _ d. Holds (after_callback s i d))
            (λ d. Holds (after_callback s i d))
            (react os config clock fuel event (lend os auth_flag synced_flag s c))
    pub on_start :
        (s : Server os) (ip : List ℕ)
        → Holds s
        → After
            (λ _ d. Holds (after_start s d))
            (λ d. Holds (after_start s d))
            (start os config clock fuel ip (lend os auth_flag synced_flag s s.new_connection))
    pub on_accept :
        (s : Server os)
        → Holds s
        → Holds (record s {
          new_connection = make_connection os auth_flag synced_flag s.disk s.streams s.log;
        })
    pub on_stop : (s : Server os) → Holds s → Holds (record s { is_stopped = true })

  module _ (rules : ServerRules) where
    open rules use {Holds}

    abbrev Keeps : Exec (Server os) (Unit {0}) → Type 0
    Keeps m = Triple Holds m (λ _. Holds) Holds

    run_callback-Keeps :
        (i : ℕ) (event : Event)
        → Keeps (run_callback os auth_flag synced_flag config clock fuel i event)
    unfolding run_callback
    run_callback-Keeps i event = record {
      at = λ s h. elim (Option-cases (get_elem? s.accepted i)) [
        | inl e ↦ rw (run_callback, e) h
        | inr (none, e) ↦
            rw (run_callback, e) (After-same (λ _. Holds) Holds (too_late event) s (λ _. h) h)
        | inr (some c, e) ↦
            rw (run_callback, e)
              (After-into Holds (after_callback s i) _ _ (rules.on_callback s i c event e h))
      ];
    }

    start_connection-Keeps :
        (ip : List ℕ) → Keeps (start_connection os auth_flag synced_flag config clock fuel ip)
    unfolding start_connection
    start_connection-Keeps ip = record {
      at = λ s h. After-into Holds (after_start s) _ _ (rules.on_start s ip h);
    }

    start_new-Keeps :
        (address : Option (List ℕ))
        → Keeps (start_new os auth_flag synced_flag config clock fuel address)
    unfolding start_new
    start_new-Keeps address =
        Triple-bind Holds (λ _. Holds) (λ _. Holds) Holds _ _
          (Triple-lift Holds Holds (remote_endpoint address) (λ s h. h)) start_connection-Keeps

    handle_accept-Keeps :
        (e : Bool) (address : Option (List ℕ))
        → Keeps (handle_accept os auth_flag synced_flag config clock fuel e address)
    unfolding handle_accept start_accept modify
    handle_accept-Keeps e address =
        Triple-bind Holds (λ _. Holds) (λ _. Holds) Holds _ _
          (Triple-if Holds (λ _. Holds) Holds e _ _
            (Triple-pure Holds (λ _. Holds) Holds tt (λ s h. h)) (start_new-Keeps address))
          λ _. record { at = rules.on_accept }

    handle-Keeps :
        (event : ServerEvent) → Keeps (handle os auth_flag synced_flag config clock fuel event)
    unfolding handle handle_stop modify
    handle-Keeps (accept_done e address) = handle_accept-Keeps e address
    handle-Keeps (connection_event i event) = run_callback-Keeps i event
    handle-Keeps signalled = record { at = rules.on_stop }

    run-Keeps :
        (events : List ServerEvent) → Keeps (run os auth_flag synced_flag config clock fuel events)
    unfolding run gets
    run-Keeps [] = Triple-pure Holds (λ _. Holds) Holds tt (λ s h. h)
    run-Keeps (event ∷ events) =
        let rest = run-Keeps events in
        Triple-bind Holds (λ _. Holds) (λ _. Holds) Holds _ _ (record { at = λ s h. h })
          λ over.
            Triple-if Holds (λ _. Holds) Holds over _ _
              (Triple-pure Holds (λ _. Holds) Holds tt (λ s h. h))
              (Triple-bind Holds (λ _. Holds) (λ _. Holds) Holds _ _ (handle-Keeps event) λ _. rest)

    -- Whatever events there were, and whether the program goes on or ends in an exception.
    pub run-Holds :
        (events : List ServerEvent) (s t : Server os) (r : Outcome (Unit {0}))
        → Holds s
        → run os auth_flag synced_flag config clock fuel events s ≡ (r, t)
        → ComesBack r
        → Holds t
    run-Holds events s t r h e back =
        After-ComesBack Holds r t back (rw e at ((run-Keeps events).at s h))
