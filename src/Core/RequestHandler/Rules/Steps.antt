-- ===== src/Core/RequestHandler/Rules/Steps.antt =====
-- The steps that the handlers are made of, under any rules: `reply_ok`, `reply_error` and
-- `close_response` lead from open to closed, and all other steps stay where they are.
use remote_backup_m1_server.Prelude.{
  ℕ, ◌≡◌, refl, ◌⊎◌, inl, inr, Bool, true, false, none, some, Option, ◌==◌,
}
use remote_backup_m1_server.Outcome.{Outcome}
use remote_backup_m1_server.Platform.{Platform}
use remote_backup_m1_server.Communication.Types.TlvType
use remote_backup_m1_server.Communication.Types.ErrType.{ErrType}
use remote_backup_m1_server.Core.Exec.{Exec, pure, lift, ◌>>◌, gets, modify, ◌>>=◌, exit_if}
use remote_backup_m1_server.Core.Exec.Triple.{
  Triple, After-same, Triple-pure, Triple-bind, Triple-if,
}
use remote_backup_m1_server.Core.RequestHandler.Rules.{ViewRules}
use remote_backup_m1_server.Core.RequestHandler.Files.{find_resource}
use remote_backup_m1_server.Core.RequestHandler.State.{
  Ctx, close_response, reply_error, reply_ok, view_type, view_value, view_end, view_next, next_is,
  get_dir,
}

module _ (os : Platform) (views : ViewRules os) where
  abbrev pub Open : Ctx os → Type 0
  Open = views.Open

  abbrev pub Closed : Ctx os → Type 0
  Closed = views.Closed

  -- A step that leaves the replies open, whatever it comes to.
  abbrev pub Keeps {κ} : {A : Type κ} → Exec (Ctx os) A → Type 0
  Keeps m = Triple Open m (λ _. Open) Open

  -- A handler that closes the replies, and throws only while they are open.
  abbrev pub Closes {κ} : {A : Type κ} → Exec (Ctx os) A → Type 0
  Closes m = Triple Open m (λ _. Closed) Open

  pub then_open {κ ν} :
      {A : Type κ} {B : Type ν} (R : B → Ctx os → Type 0) (m : Exec (Ctx os) A)
      (f : A → Exec (Ctx os) B)
      → Keeps m
      → ((a : A) → Triple Open (f a) R Open)
      → Triple Open (m >>= f) R Open
  then_open R m f = Triple-bind Open (λ _. Open) R Open m f

  pub pure-Keeps {κ} : {A : Type κ} (a : A) → Keeps (pure a)
  unfolding pure
  pure-Keeps a = record { at = λ c o. o }

  pub lift-Keeps {κ} : {A : Type κ} (r : Outcome A) → Keeps (lift r)
  unfolding lift
  lift-Keeps r = record { at = λ c o. After-same (λ _. Open) Open r c (λ _. o) o }

  pub view_type-Keeps : Keeps (view_type os)
  unfolding view_type lift
  view_type-Keeps = record { at = λ c o. (lift-Keeps _).at c o }

  pub view_value-Keeps : Keeps (view_value os)
  unfolding view_value lift
  view_value-Keeps = record { at = λ c o. (lift-Keeps _).at c o }

  pub view_end-Keeps : Keeps (view_end os)
  unfolding view_end lift
  view_end-Keeps = record { at = λ c o. (lift-Keeps _).at c o }

  pub get_dir-Keeps : Keeps (get_dir os)
  unfolding get_dir lift
  get_dir-Keeps = record { at = λ c o. (lift-Keeps _).at c o }

  pub gets-Keeps {κ} : {A : Type κ} (f : Ctx os → A) → Keeps (gets f)
  unfolding gets
  gets-Keeps f = record { at = λ c o. o }

  pub exit_if-Keeps : (ec : Bool) → Keeps (exit_if ec)
  unfolding exit_if
  exit_if-Keeps true = record { at = λ c o. tt }
  exit_if-Keeps false = record { at = λ c o. o }

  pub view_next-Keeps : Keeps (view_next os)
  unfolding view_next
  view_next-Keeps = record {
    at = λ c o. let o' = views.on_view c _ o in After-same (λ _. Open) Open _ _ (λ _. o') o';
  }

  pub next_is-Keeps : (tag : ℕ) → Keeps (next_is os tag)
  unfolding next_is
  next_is-Keeps tag = then_open _ _ _ view_next-Keeps λ more.
      Triple-if Open _ Open more _ _ (then_open _ _ _ view_type-Keeps (λ t. pure-Keeps (t == tag)))
        (pure-Keeps false)

  pub close_response-Closes :
      (tag : ℕ) (err_type : ErrType)
      → (tag ≡ TlvType.ok_tag) ⊎ (tag ≡ TlvType.error_tag)
      → Closes (close_response os tag err_type)
  unfolding close_response modify
  close_response-Closes tag err_type which =
      Triple-bind Open (λ _. Open) (λ _. Closed) Open _ _ (lift-Keeps _)
        λ text. record { at = λ c o. views.on_closing c tag text which o }

  pub reply_error-Closes : (err_type : ErrType) → Closes (reply_error os err_type)
  unfolding reply_error
  reply_error-Closes err_type = close_response-Closes _ err_type (inr refl)

  pub reply_ok-Closes : Closes (reply_ok os)
  unfolding reply_ok
  reply_ok-Closes = close_response-Closes _ _ (inl refl)

  -- `true` goes on with open replies; `false` is an early return, which closed them.
  abbrev pub Going : Bool → Ctx os → Type 0
  Going true = Open
  Going false = Closed

  abbrev pub Pending {ℓ} : {A : Type ℓ} → Option A → Ctx os → Type 0
  Pending none = Closed
  Pending (some a) = Open

  -- A handler's last reply, and then its result.
  pub closed_then {κ} :
      {A : Type κ} (R : A → Ctx os → Type 0) (err_type : ErrType) (a : A)
      → ((c : Ctx os) → Closed c → R a c)
      → Triple (Open) (do reply_error os err_type; pure a) R (Open)
  closed_then R err_type a h =
      Triple-bind (Open) (λ _. Closed) R (Open) _ _ (reply_error-Closes err_type)
        (λ _. Triple-pure _ R _ a h)

  pub find_resource-Keeps : (path : os.FsPath) → Keeps (find_resource os path)
  unfolding find_resource
  find_resource-Keeps path = then_open _ _ _ (get_dir-Keeps) λ d. pure-Keeps _
