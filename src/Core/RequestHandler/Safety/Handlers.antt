-- ===== src/Core/RequestHandler/Safety/Handlers.antt =====
-- core/request_handler.cpp: `handle_create` on a request of whole segments.
use remote_backup_m1_server.Prelude.{
  ℕ, refl, Bool, true, false, List, Option, none, some, Option-cases, inl, inr, if◌then◌else◌,
}
use remote_backup_m1_server.Outcome.{runtime_error}
use remote_backup_m1_server.Platform.{Platform}
use remote_backup_m1_server.Communication.Types.ErrType.{ErrType}
use remote_backup_m1_server.Core.Exec.{Exec, pure, lift, ◌>>=◌, ◌>>◌}
use remote_backup_m1_server.Core.Exec.Safety.{
  Safe, IsDefined, returned, thrown, Safe-if, Safe-bind, Safe-try, Safe-weaken,
}
use remote_backup_m1_server.Utilities.Tools
use remote_backup_m1_server.Utilities.Tools.Signs.{IsText, split_last, split_sign_lem}
use remote_backup_m1_server.Core.RequestHandler.State.{
  Ctx, reply_error, reply_ok, add_item, view_value, view_type, next_is,
}
use remote_backup_m1_server.Core.RequestHandler.Files.{
  is_ready, write_stream, flush_stream, close_stream,
}
use remote_backup_m1_server.Core.RequestHandler.Safety.{
  IsLenient, Homed, Stable, homed_stable, bind-Keeps, lift-Keeps, pure-Keeps, gets-Keeps, if-Keeps,
  reply_error-Keeps, reply_ok-Keeps, add_item-Keeps, get_dir-Keeps, on_disk-Keeps, get_stream-Keeps,
  erase_stream-Keeps, find_resource-Keeps, record_chunk-Keeps, check_digest-Keeps, Keeps,
}
use remote_backup_m1_server.Core.RequestHandler.Safety.Views.{
  Reading, Found, view_value-Safe, view_type-Safe, view_end-Safe, next_is-Safe,
}
use remote_backup_m1_server.Core.RequestHandler.Create.{
  create_finish, create_append, create_chunk, after_create_chunk, create_file, create_content,
  create_item, handle_create,
}

pub split_sign-IsDefined :
    (os : Platform) → IsText os → (text : List ℕ) → IsDefined (Tools.split_sign os text)
split_sign-IsDefined os laws text = elim (Option-cases (split_last text)) [
  | inl e ↦ rw (split_sign_lem os laws text, e) (thrown runtime_error)
  | inr ((a, b), e) ↦ rw (split_sign_lem os laws text, e) (returned _)
]

module _ (os : Platform) ⦃lenient : IsLenient os⦄ where
  -- The view is on a segment, and the directory is there.
  abbrev pub Serving : Ctx os → Type 0
  Serving c = Reading os c × Homed os c

  pub serving : Stable os Serving
  serving = record {
    homed = λ c p. p.1;
    on_disk = λ c disk p. p;
    on_streams = λ c streams p. p;
    on_replies = λ c q p. p;
    on_dir = λ c d p. (p.0, (d, refl));
  }

  pub home : Stable os (Homed os)
  home = homed_stable os

  -- From a state of the first kind to one of the second, and from `Serving` to the end of a handler.
  abbrev pub Leaves {κ} : {A : Type κ} → Exec (Ctx os) A → Type κ
  Leaves m = Safe Serving m (λ _. Homed os) (Homed os)

  pub then-Leaves {κ ν} :
      {A : Type κ} {B : Type ν} (m : Exec (Ctx os) A) (f : A → Exec (Ctx os) B)
      → Keeps os Serving serving m
      → ((a : A) → Leaves (f a))
      → Leaves (m >>= f)
  then-Leaves m f = Safe-bind Serving (λ _. Serving) (λ _. Homed os) (Homed os) m f

  pub last-Leaves {κ ν} :
      {A : Type κ} {B : Type ν} (m : Exec (Ctx os) A) (f : A → Exec (Ctx os) B)
      → Leaves m
      → ((a : A) → Keeps os (Homed os) home (f a))
      → Leaves (m >>= f)
  last-Leaves m f = Safe-bind Serving (λ _. Homed os) (λ _. Homed os) (Homed os) m f

  pub home-Leaves {κ} : {A : Type κ} (m : Exec (Ctx os) A) → Keeps os (Homed os) home m → Leaves m
  home-Leaves m h = Safe-weaken (Homed os) Serving (λ _. Homed os) (Homed os) m (λ c p. p.1) h

  pub if-Leaves {κ} :
      {A : Type κ} (b : Bool) (m n : Exec (Ctx os) A)
      → Leaves m
      → Leaves n
      → Leaves (if b then m else n)
  if-Leaves b m n = Safe-if Serving (λ _. Homed os) (Homed os) b m n

  pub value-Leaves {ν} :
      {B : Type ν} (f : List ℕ → Exec (Ctx os) B)
      → ((v : List ℕ) → Leaves (f v))
      → Leaves (view_value os >>= f)
  value-Leaves f =
      then-Leaves (view_value os) f (view_value-Safe os Serving (Homed os) (λ c p. p.0))

  -- After `next_tlv`, on the branch that has read the tag and on the other.
  pub next_is-Leaves :
      (tag : ℕ) (m n : Exec (Ctx os) (Unit {0}))
      → Leaves m
      → Keeps os (Homed os) home n
      → Leaves (next_is os tag >>= λ b. if b then m else n)
  next_is-Leaves tag m n hm hn =
      Safe-bind Serving (λ b c. Found os tag b c × Homed os c) (λ _. Homed os) (Homed os) _ _
        (next_is-Safe os Serving (Homed os) (λ c p. p.0) tag (Homed os) (λ c v p. p.1)) branch
    where
      branch :
          (b : Bool)
          → Safe
              (λ c. Found os tag b c × Homed os c)
              (if b then m else n)
              (λ _. Homed os)
              (Homed os)
      branch true =
          Safe-weaken Serving _ (λ _. Homed os) (Homed os) m
            (λ c ((t, ts, on, _), d). ((t, ts, on), d)) hm
      branch false = Safe-weaken (Homed os) _ (λ _. Homed os) (Homed os) n (λ c p. p.1) hn

  create_append-Leaves :
      (path : os.FsPath) (digest : List ℕ) (s : os.Stream) (is_first : Bool)
      → Leaves (create_append os path digest s is_first)
  unfolding create_append write_stream flush_stream
  create_append-Leaves path digest s is_first = value-Leaves _ λ bytes.
      then-Leaves _ _ (on_disk-Keeps os Serving serving _) λ _.
        then-Leaves _ _ (on_disk-Keeps os Serving serving _) λ _.
          then-Leaves _ _ (view_end-Safe os Serving (Homed os) (λ c p. p.0)) λ is_last.
            home-Leaves _ (
              bind-Keeps os (Homed os) home _ _ (record_chunk-Keeps os (Homed os) home _ _ _ _ _)
                λ _. pure-Keeps os (Homed os) home _)

  -- A reply and an early return.
  pub rejects {κ} :
      {A : Type κ} (err_type : ErrType) (a : A)
      → Keeps os (Homed os) home (reply_error os err_type >>= λ _. pure a)
  rejects err_type a =
      bind-Keeps os (Homed os) home _ _ (reply_error-Keeps os (Homed os) home err_type)
        λ _. pure-Keeps os (Homed os) home a

  create_chunk-Leaves :
      (path : os.FsPath) (digest : List ℕ) (absolute_path : os.FsPath)
      → Leaves (create_chunk os path digest absolute_path)
  unfolding create_chunk is_ready
  create_chunk-Leaves path digest absolute_path =
      Safe-try Serving (λ _. Homed os) (Homed os) _ _
        (then-Leaves _ _ (get_stream-Keeps os Serving serving _) λ (s, is_first).
          then-Leaves _ _ (gets-Keeps os Serving serving _) λ ready.
            if-Leaves ready _ _
              (last-Leaves _ _ (create_append-Leaves path digest s is_first)
                λ is_last. pure-Keeps os (Homed os) home _)
              (home-Leaves _ (rejects _ _)))
        (rejects _ _)

  pub settles :
      (matches : Bool) → Keeps os (Homed os) home (if matches then reply_ok os else pure tt)
  settles matches =
      if-Keeps os (Homed os) home matches _ _ (reply_ok-Keeps os (Homed os) home)
        (pure-Keeps os (Homed os) home tt)

  create_finish-Keeps :
      (path : os.FsPath) (digest : List ℕ) (absolute_path : os.FsPath) (s : os.Stream)
      → Keeps os (Homed os) home (create_finish os path digest absolute_path s)
  unfolding create_finish close_stream
  create_finish-Keeps path digest absolute_path s =
      bind-Keeps os (Homed os) home _ _ (on_disk-Keeps os (Homed os) home _) λ _.
        bind-Keeps os (Homed os) home _ _ (erase_stream-Keeps os (Homed os) home) λ _.
          bind-Keeps os (Homed os) home _ _ (check_digest-Keeps os path digest absolute_path _ _)
            settles

  after_create_chunk-Keeps :
      (path : os.FsPath) (digest : List ℕ) (absolute_path : os.FsPath)
      (chunk : Option (os.Stream × Bool))
      → Keeps os (Homed os) home (after_create_chunk os path digest absolute_path chunk)
  unfolding after_create_chunk
  after_create_chunk-Keeps path digest absolute_path none = pure-Keeps os (Homed os) home tt
  after_create_chunk-Keeps path digest absolute_path (some (s, is_last)) =
      if-Keeps os (Homed os) home is_last _ _ (create_finish-Keeps path digest absolute_path s)
        (reply_ok-Keeps os (Homed os) home)

  create_file-Leaves : (path : os.FsPath) (digest : List ℕ) → Leaves (create_file os path digest)
  unfolding create_file
  create_file-Leaves path digest = then-Leaves _ _ (get_dir-Keeps os Serving serving) λ d.
      then-Leaves _ _ (on_disk-Keeps os Serving serving _) λ ec.
        if-Leaves ec _ _ (home-Leaves _ (reply_error-Keeps os (Homed os) home _)) (
          last-Leaves _ _ (create_chunk-Leaves path digest _)
            λ chunk. after_create_chunk-Keeps path digest _ chunk)

  create_content-Leaves :
      (path : os.FsPath) (digest : List ℕ) → Leaves (create_content os path digest)
  unfolding create_content
  create_content-Leaves path digest =
      next_is-Leaves _ _ _
        (then-Leaves _ _ (find_resource-Keeps os Serving serving path) λ rsrc.
          if-Leaves _ _ _ (home-Leaves _ (reply_error-Keeps os (Homed os) home _))
            (create_file-Leaves path digest))
        (reply_error-Keeps os (Homed os) home _)

  -- The sign of a request is split, and put into the replies.
  pub signed-Leaves :
      (laws : IsText os) (f : os.FsPath → List ℕ → Exec (Ctx os) (Unit {0}))
      → ((path : os.FsPath) (digest : List ℕ) → Leaves (f path digest))
      → Leaves (do
        c_sign ← view_value os
        (path, c_digest) ← lift (Tools.split_sign os c_sign)
        add_item os c_sign
        f path c_digest)
  signed-Leaves laws f h = value-Leaves _ λ c_sign.
      then-Leaves _ _ (lift-Keeps os Serving serving _ (split_sign-IsDefined os laws c_sign))
        λ (path, digest).
          then-Leaves _ _ (add_item-Keeps os Serving serving c_sign) λ _. h path digest

  pub typed-Leaves :
      (f : ℕ → Exec (Ctx os) (Unit {0}))
      → ((tag : ℕ) → Leaves (f tag))
      → Leaves (view_type os >>= f)
  typed-Leaves f = then-Leaves (view_type os) f (view_type-Safe os Serving (Homed os) (λ c p. p.0))

  pub handle_create-Leaves : IsText os → Leaves (handle_create os)
  unfolding handle_create create_item
  handle_create-Leaves laws = typed-Leaves _ λ tag.
      if-Leaves _ _ _ (signed-Leaves laws _ create_content-Leaves)
        (home-Leaves _ (reply_error-Keeps os (Homed os) home _))
