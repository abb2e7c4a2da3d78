-- ===== src/Core/Server/Guests.antt =====
-- core/server.cpp: a run in which nobody logs in.
use remote_backup_m1_server.Prelude.{
  ◌≡◌, refl, sym, ◌∙◌, inl, inr, Bool, true, false, ◌||◌, List, [], ◌∷◌, Option, Option-cases, none,
  some, ℕ, get_elem?, if◌then◌else◌,
}
use remote_backup_m1_server.Outcome.{Outcome, ComesBack, ok, throws, exits, fault, stuck}
use remote_backup_m1_server.Platform.{Platform}
use remote_backup_m1_server.Core.Exec.{Exec, continue, pure, lift, gets, modify, ◌>>=◌}
use remote_backup_m1_server.Core.Exec.Triple.{
  After, Triple, After-same, After-into, After-ComesBack, Triple-bind,
}
use remote_backup_m1_server.Core.RequestHandler.State.{Config}
use remote_backup_m1_server.Core.Connection.{Connection, Event, start, react}
use remote_backup_m1_server.Core.Connection.Logins.{AtDisk, react-Unmoved, start-Unmoved}
use remote_backup_m1_server.Core.Server.{
  Server, ServerEvent, accept_done, connection_event, signalled, too_late, remote_endpoint,
  make_server, lend, start_accept, start_connection, start_new, handle_accept, handle_stop,
  run_callback, handle, run,
}
use remote_backup_m1_server.Core.Server.Rules.{after_callback, after_start}

true-false : true ≡ false → ⊥
true-false e = cc

module _ (os : Platform) (auth_flag synced_flag : Bool) (config : Config os) (clock : List ℕ)
    (fuel : ℕ) where
  -- The callback leaves the session of its connection authenticated.
  unfoldable pub authenticates : ServerEvent → Server os → Bool
  authenticates (accept_done true address) s = false
  authenticates (accept_done false none) s = false
  authenticates (accept_done false (some ip)) s =
      (start os config clock fuel ip
        (lend os auth_flag synced_flag s s.new_connection)).1.user.is_auth
  authenticates (connection_event i event) s = elim (get_elem? s.accepted i) [
    | none ↦ false
    | some none ↦ false
    | some (some c) ↦
        (react os config clock fuel event (lend os auth_flag synced_flag s c)).1.user.is_auth
  ]
  authenticates signalled s = false

  -- What comes after a callback, if it returned.
  unfoldable pub then_also : Outcome (Unit {0}) → Bool → Bool
  then_also (ok a) b = b
  then_also (throws e) b = false
  then_also exits b = false
  then_also fault b = false
  then_also stuck b = false

  -- Some callback of the run leaves a session authenticated.
  unfoldable pub logs_in : List ServerEvent → Server os → Bool
  unfolding authenticates then_also
  logs_in [] s = false
  logs_in (event ∷ events) s =
      let after = handle os auth_flag synced_flag config clock fuel event s in
      let rest = logs_in events after.1 in
      if s.is_stopped then false else authenticates event s || then_also after.0 rest

  module _ (disk : os.Disk) where
    -- The disk is as it was and no stream is open.
    abbrev IsQuiet : Server os → Type 0
    IsQuiet s = (s.disk ≡ disk) × (s.streams ≡ [])

    abbrev IsStill : Connection os → Type 0
    IsStill c = (c.disk ≡ disk) × (c.streams ≡ [])

    still :
        (d : Connection os)
        → AtDisk os config clock fuel disk d
        → d.user.is_auth ≡ false
        → IsStill d
    still d (inl auth) e = absurd (true-false (sym auth ∙ e))
    still d (inr quiet) e = quiet

    After-IsStill :
        (x : Outcome (Unit {0}) × Connection os)
        → After (λ _. AtDisk os config clock fuel disk) (AtDisk os config clock fuel disk) x
        → x.1.user.is_auth ≡ false
        → After (λ _. IsStill) IsStill x
    After-IsStill (ok a, d) h e = still d h e
    After-IsStill (throws x, d) h e = still d h e
    After-IsStill (exits, d) h e = tt
    After-IsStill (fault, d) h e = tt
    After-IsStill (stuck, d) h e = tt

    -- A callback of a session that it does not leave authenticated.
    abbrev Quietly : ServerEvent → Type 0
    Quietly event =
        Triple (λ s. IsQuiet s × (authenticates event s ≡ false))
          (handle os auth_flag synced_flag config clock fuel event) (λ _. IsQuiet) IsQuiet

    callback-IsQuiet : (i : ℕ) (event : Event) → Quietly (connection_event i event)
    unfolding handle run_callback authenticates
    callback-IsQuiet i event = record {
      at = λ s (quiet, guest). elim (Option-cases (get_elem? s.accepted i)) [
        | inl e ↦ rw (run_callback, e) quiet
        | inr (none, e) ↦
            rw (run_callback, e)
              (After-same (λ _. IsQuiet) IsQuiet (too_late event) s (λ _. quiet) quiet)
        | inr (some c, e) ↦
            let c' = lend os auth_flag synced_flag s c in
            rw (run_callback, e)
              (After-into IsQuiet (after_callback os auth_flag synced_flag config clock fuel s i) _
                _
                (After-IsStill (react os config clock fuel event c')
                  (react-Unmoved os config clock fuel disk event c' (inr quiet))
                  (rw (authenticates, e) at guest)))
      ];
    }

    accept-IsQuiet : (e : Bool) (address : Option (List ℕ)) → Quietly (accept_done e address)
    unfolding handle handle_accept start_new start_connection start_accept remote_endpoint
        authenticates lift pure modify ◌>>=◌
    accept-IsQuiet true address = record { at = λ s (quiet, guest). quiet }
    accept-IsQuiet false none = record { at = λ s (quiet, guest). quiet }
    accept-IsQuiet false (some ip) =
        Triple-bind _ (λ _. IsQuiet) (λ _. IsQuiet) IsQuiet
          (start_connection os auth_flag synced_flag config clock fuel ip) _
          (record {
            at = λ s (quiet, guest).
                let c' = lend os auth_flag synced_flag s s.new_connection in
                After-into IsQuiet (after_start os auth_flag synced_flag config clock fuel s) _ _ (
                  After-IsStill (start os config clock fuel ip c')
                    (start-Unmoved os config clock fuel disk ip c' (inr quiet)) guest);
          })
          (λ _. record { at = λ s quiet. quiet })

    handle-IsQuiet : (event : ServerEvent) → Quietly event
    unfolding handle handle_stop modify
    handle-IsQuiet (accept_done e address) = accept-IsQuiet e address
    handle-IsQuiet (connection_event i event) = callback-IsQuiet i event
    handle-IsQuiet signalled = record { at = λ s (quiet, guest). quiet }

    or-false : (a b : Bool) → (a || b) ≡ false → (a ≡ false) × (b ≡ false)
    or-false false b e = (refl, e)
    or-false true b e = absurd (true-false e)

    abbrev QuietRun : List ServerEvent → Type 0
    QuietRun events =
        (s : Server os)
        → IsQuiet s
        → logs_in events s ≡ false
        → After (λ _. IsQuiet) IsQuiet (run os auth_flag synced_flag config clock fuel events s)

    goes_on :
        (events : List ServerEvent) (x : Outcome (Unit {0}) × Server os)
        → QuietRun events
        → After (λ _. IsQuiet) IsQuiet x
        → then_also x.0 (logs_in events x.1) ≡ false
        → After
            (λ _. IsQuiet)
            IsQuiet
            (continue x λ _. run os auth_flag synced_flag config clock fuel events)
    unfolding then_also
    goes_on events (ok a, s) rest quiet e = rest s quiet e
    goes_on events (throws x, s) rest quiet e = quiet
    goes_on events (exits, s) rest quiet e = tt
    goes_on events (fault, s) rest quiet e = tt
    goes_on events (stuck, s) rest quiet e = tt

    unless_over :
        (over b : Bool) (m : Exec (Server os) (Unit {0})) (s : Server os)
        → IsQuiet s
        → (if over then false else b) ≡ false
        → (b ≡ false → After (λ _. IsQuiet) IsQuiet (m s))
        → After (λ _. IsQuiet) IsQuiet ((if over then pure tt else m) s)
    unfolding pure
    unless_over true b m s quiet e next = quiet
    unless_over false b m s quiet e next = next e

    run-IsQuiet : (events : List ServerEvent) → QuietRun events
    unfolding run logs_in gets pure ◌>>=◌
    run-IsQuiet [] s quiet e = quiet
    run-IsQuiet (event ∷ events) s quiet e = unless_over s.is_stopped _ _ s quiet e λ all.
        let (guest, rest) = or-false _ _ all in
        goes_on events (handle os auth_flag synced_flag config clock fuel event s)
          (run-IsQuiet events) ((handle-IsQuiet event).at s (quiet, guest)) rest

  -- Whatever clients connect and send, in any order: when no callback of the run leaves the session of
  -- its connection authenticated, and the run returns or ends in an exception, the disk is as it was at
  -- the start, the text of the log left aside, and no stream is open.
  pub run-logs_in :
      (disk : os.Disk) (log : List ℕ) (events : List ServerEvent) (t : Server os)
      (r : Outcome (Unit {0}))
      → run os auth_flag synced_flag config clock fuel events
          (make_server os auth_flag synced_flag disk log)
        ≡ (r, t)
      → ComesBack r
      → logs_in events (make_server os auth_flag synced_flag disk log) ≡ false
      → (t.disk ≡ disk) × (t.streams ≡ [])
  unfolding make_server
  run-logs_in disk log events t r e back nobody =
      After-ComesBack (IsQuiet disk) r t back
        (rw e at (run-IsQuiet disk events _ (refl, refl) nobody))
