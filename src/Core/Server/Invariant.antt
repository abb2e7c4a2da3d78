-- ===== src/Core/Server/Invariant.antt =====
-- core/server.cpp: what holds of the streams and of all sessions in every run.
use remote_backup_m1_server.Prelude.{
  ℕ, zero, suc, ◌≡◌, subst, Bool, false, List, [], ◌∷◌, All, All-append, Option, none, some,
  get_elem?,
}
use remote_backup_m1_server.Outcome.{Outcome, ComesBack}
use remote_backup_m1_server.Platform.{Platform}
use remote_backup_m1_server.Core.User.{User, unset, set_ip}
use remote_backup_m1_server.Core.OpenStreams.Laws.{IsMap, get_stream-IsMap, erase_stream-IsMap}
use remote_backup_m1_server.Core.Exec.Triple.{After, After-weaken}
use remote_backup_m1_server.Core.RequestHandler.State.{Config}
use remote_backup_m1_server.Core.RequestHandler.Home.{HasHome, not_yet, at_home, home_rules}
use remote_backup_m1_server.Core.RequestHandler.Rules.Sessions.{CoreRules}
use remote_backup_m1_server.Core.Connection.{
  Connection, Event, Waiting, for_nothing, for_handshake, for_header, for_body, for_size_sent,
  for_message_sent, start, react,
}
use remote_backup_m1_server.Core.Connection.Rules.{
  SessionRules, session_rules, react-Keeps, start-Keeps,
}
use remote_backup_m1_server.Core.Server.{
  Server, ServerEvent, kept, put_at, make_connection, make_server, lend, run,
}
use remote_backup_m1_server.Core.Server.Rules.{ServerRules, after_callback, after_start, run-Holds}

pub All-get_elem? {ℓ κ} :
    {A : Type ℓ} (P : A → Type κ) (xs : List A) (i : ℕ) {a : A}
    → All P xs
    → get_elem? xs i ≡ some a
    → P a
All-get_elem? P [] i h e = cc
All-get_elem? P (x ∷ xs) zero {a} h e = let same : x ≡ a = cc in subst P same h.0
All-get_elem? P (x ∷ xs) (suc i) h e = All-get_elem? P xs i h.1 e

All-put_at {ℓ κ} :
    {A : Type ℓ} (P : A → Type κ) (xs : List A) (i : ℕ) (a : A)
    → All P xs
    → P a
    → All P (put_at i a xs)
unfolding put_at
All-put_at P [] i a h p = h
All-put_at P (x ∷ xs) zero a h p = (p, h.1)
All-put_at P (x ∷ xs) (suc i) a h p = (h.0, All-put_at P xs i a h.1 p)

module _ (os : Platform) (config : Config os) where
  core_rules : CoreRules os config
  unfolding home_rules
  core_rules =
      let home = home_rules os config in
      record {
        Holds = λ disk streams user. IsMap os streams × HasHome user;
        on_disk = λ disk d streams user h. h;
        on_get_stream =
            λ disk streams user path h. (get_stream-IsMap os user.id path streams disk h.0, h.1);
        on_erase_stream =
            λ disk streams user h. (erase_stream-IsMap os user.id streams disk h.0, h.1);
        on_dir = λ disk streams user dir h. (h.0, home.on_dir disk streams user dir h.1);
        on_login =
            λ disk streams user username h. (h.0, home.on_login disk streams user username h.1);
        on_synced = λ disk streams user h. (h.0, home.on_synced disk streams user h.1);
      }

  set_ip-HasHome : (u : User os.FsPath) (ip : List ℕ) → HasHome u → HasHome (set_ip u ip)
  unfolding set_ip
  set_ip-HasHome u ip (not_yet e) = not_yet e
  set_ip-HasHome u ip (at_home d e) = at_home d e

  sound_session : SessionRules os config
  unfolding core_rules
  sound_session =
      session_rules os config core_rules
        (λ disk streams user ip h. (h.0, set_ip-HasHome user ip h.1))

  module _ (auth_flag synced_flag : Bool) (clock : List ℕ) (fuel : ℕ) where
    -- Of every connection that is alive.
    abbrev pub IsHomed : Option (Connection os) → Type 0
    IsHomed none = Unit
    IsHomed (some c) = HasHome c.user

    kept-IsHomed : (d : Connection os) → HasHome d.user → IsHomed (kept d)
    unfolding kept
    kept-IsHomed d h = go d.waiting
      where
        go :
            (w : Waiting)
            → IsHomed (elim w [
              | for_nothing ↦ none
              | for_handshake ↦ some d
              | for_header ↦ some d
              | for_body ↦ some d
              | for_size_sent ↦ some d
              | for_message_sent last ↦ some d
            ])
        go for_nothing = tt
        go for_handshake = h
        go for_header = h
        go for_body = h
        go for_size_sent = h
        go (for_message_sent last) = h

    abbrev pub IsSound : Server os → Type 0
    IsSound s = IsMap os s.streams × All IsHomed s.accepted

    abbrev IsSafe : Server os → Type 0
    IsSafe s = IsSound s × HasHome s.new_connection.user

    abbrev IsFine : Connection os → Type 0
    IsFine c = IsMap os c.streams × HasHome c.user

    callback-IsSafe :
        (s : Server os) (i : ℕ) (c : Connection os) (event : Event)
        → get_elem? s.accepted i ≡ some (some c)
        → IsSafe s
        → let after = after_callback os auth_flag synced_flag config clock fuel s i in
          After
            (λ _ d. IsSafe (after d))
            (λ d. IsSafe (after d))
            (react os config clock fuel event (lend os auth_flag synced_flag s c))
    unfolding sound_session session_rules core_rules
    callback-IsSafe s i c event e ((map, homes), new) =
        let fits : (d : Connection os)
            → IsFine d
            → IsSafe (after_callback os auth_flag synced_flag config clock fuel s i d) =
          λ d h.
            ((h.0, All-put_at IsHomed s.accepted i (kept d) homes (kept-IsHomed d h.1)), new) in
        let home = All-get_elem? IsHomed s.accepted i homes e in
        After-weaken (λ _. IsFine) _ IsFine _ _
          ((react-Keeps os config sound_session clock fuel event).at
            (lend os auth_flag synced_flag s c) (map, home))
          (λ a. fits) fits

    start-IsSafe :
        (s : Server os) (ip : List ℕ)
        → IsSafe s
        → let after = after_start os auth_flag synced_flag config clock fuel s in
          After
            (λ _ d. IsSafe (after d))
            (λ d. IsSafe (after d))
            (start os config clock fuel ip (lend os auth_flag synced_flag s s.new_connection))
    unfolding sound_session session_rules core_rules
    start-IsSafe s ip ((map, homes), new) =
        let fits : (d : Connection os)
            → IsFine d
            → IsSafe (after_start os auth_flag synced_flag config clock fuel s d) =
          λ d h. (
            (h.0, All-append IsHomed s.accepted (kept d ∷ []) homes (kept-IsHomed d h.1, tt)),
            new,
          ) in
        After-weaken (λ _. IsFine) _ IsFine _ _
          ((start-Keeps os config sound_session clock fuel ip).at
            (lend os auth_flag synced_flag s s.new_connection) (map, new))
          (λ a. fits) fits

    sound_rules : auth_flag ≡ false → ServerRules os auth_flag synced_flag config clock fuel
    unfolding make_connection unset
    sound_rules unset_flag = record {
      Holds = IsSafe;
      on_callback = callback-IsSafe;
      on_start = start-IsSafe;
      on_accept = λ s (sound, new). (sound, not_yet unset_flag);
      on_stop = λ s h. h;
    }

    -- If the flag of a new session that has no initial value reads as false: whatever clients connect and
    -- send, in any order, when the run returns or ends in an exception, no user has two open streams, and
    -- every session that is authenticated and whose connection is alive has a directory.
    pub run-IsSound :
        (disk : os.Disk) (log : List ℕ) (events : List ServerEvent) (t : Server os)
        (r : Outcome (Unit {0}))
        → auth_flag ≡ false
        → run os auth_flag synced_flag config clock fuel events
            (make_server os auth_flag synced_flag disk log)
          ≡ (r, t)
        → ComesBack r
        → IsSound t
    unfolding sound_rules make_server make_connection unset IsMap
    run-IsSound disk log events t r unset_flag e back =
        (run-Holds os auth_flag synced_flag config clock fuel (sound_rules unset_flag) events _ t r
          ((tt, tt), not_yet unset_flag) e back).0
