-- ===== src/Core/RequestHandler/Safety.antt =====
-- core/request_handler.cpp: the steps of the handlers, on a request of whole segments.
pub mod Views
pub mod Handlers
pub mod Changes
pub mod Sessions
pub mod Requests
use remote_backup_m1_server.Prelude.{
  ℕ, ◌≡◌, refl, Bool, true, List, [], ◌∷◌, some, ◌==◌, to_string, Bool-cases, if◌then◌else◌,
  bytes_eq, Option-cases, inl, inr,
}
use remote_backup_m1_server.Outcome.{Outcome, ok, length_error}
use remote_backup_m1_server.Outcome
use remote_backup_m1_server.Platform.{Platform}
use remote_backup_m1_server.Communication.Types.ErrType.{ErrType, err_none, to_number}
use remote_backup_m1_server.Communication.MessageQueue.{MessageQueue}
use remote_backup_m1_server.Directory.Resource.{Resource}
use remote_backup_m1_server.Directory.Dir.{Dir}
use remote_backup_m1_server.Core.OpenStreams.{Streams}
use remote_backup_m1_server.Core.Exec.{
  Exec, pure, lift, gets, modify, exit_if, try_filesystem, ◌>>=◌, ◌>>◌,
}
use remote_backup_m1_server.Core.Exec.Safety.{
  Safe, IsDefined, returned, thrown, Safe-lift, Safe-pure, Safe-gets, Safe-if, Safe-modify,
  Safe-exit_if, Safe-bind, Safe-try,
}
use remote_backup_m1_server.Utilities.Tools
use remote_backup_m1_server.Core.RequestHandler.State.{
  Ctx, error_text, close_response, reply_error, reply_ok, add_item, get_dir, deref, set_dir_object,
  on_disk, get_stream, erase_stream,
}
use remote_backup_m1_server.Core.RequestHandler.Files.{
  find_resource, assign_resource, erase_resource, record_chunk, is_ready, write_stream,
  flush_stream, close_stream, remove_or_exit, reject_file, check_digest,
}

-- The two reads that the source has undefined, and that the program is taken to survive: of the
-- characters of a string that is destroyed, and of the first character of an empty vector.
pub record IsLenient (os : Platform) : Type 0 where
  pub freed_text : (text : List ℕ) → (read : List ℕ) × (os.freed text ≡ some read)
  pub no_content : os.empty_front ≡ true

pub error_text-IsDefined :
    (os : Platform) → IsLenient os → (err_type : ErrType) → IsDefined (error_text os err_type)
unfolding error_text
error_text-IsDefined os lenient err_type =
    let (text, e) = lenient.freed_text (to_string (to_number err_type)) in
    elim (Bool-cases (to_number err_type == to_number err_none)) [
      | inl h ↦ rw h (returned _)
      | inr h ↦ rw (h, e) (returned text)
    ]

-- The pointer to the directory can be followed.
abbrev pub Homed : (os : Platform) → Ctx os → Type 0
Homed os c = (d : Dir os.FsPath) × (c.user.dir_ptr ≡ some d)

-- What the steps of a handler keep that do not move the view.
pub record Stable (os : Platform) (P : Ctx os → Type 0) : Type 0 where
  pub homed : (c : Ctx os) → P c → Homed os c
  pub on_disk : (c : Ctx os) (disk : os.Disk) → P c → P (record c { disk = disk })
  pub on_streams : (c : Ctx os) (streams : Streams os) → P c → P (record c { streams = streams })
  pub on_replies : (c : Ctx os) (q : MessageQueue) → P c → P (record c { replies = q })
  pub on_dir :
      (c : Ctx os) (d : Dir os.FsPath)
      → P c
      → P (record c { user = record (c.user) { dir_ptr = some d } })

pub md5_hash_file-IsDefined :
    (os : Platform)
    → IsLenient os
    → (absolute_path path : os.FsPath) (disk : os.Disk)
    → IsDefined (Tools.md5_hash_file os absolute_path path disk)
unfolding Tools.md5_hash_file Tools.first_byte ◌>>=◌
md5_hash_file-IsDefined os lenient absolute_path path disk =
    elim (Option-cases (os.read_file absolute_path disk)) [
      | inl e ↦ rw (Tools.md5_hash_file, e) (thrown length_error)
      | inr ([], e) ↦ rw (Tools.md5_hash_file, e, Tools.first_byte, lenient.no_content) (returned _)
      | inr (x ∷ xs, e) ↦ rw (Tools.md5_hash_file, e) (returned _)
    ]

module _ (os : Platform) (P : Ctx os → Type 0) (stable : Stable os P) ⦃lenient : IsLenient os⦄ where
  -- A step that keeps it. An exception leaves the directory in place.
  abbrev pub Keeps {κ} : {A : Type κ} → Exec (Ctx os) A → Type κ
  Keeps m = Safe P m (λ _. P) (Homed os)

  pub bind-Keeps {κ ν} :
      {A : Type κ} {B : Type ν} (m : Exec (Ctx os) A) (f : A → Exec (Ctx os) B)
      → Keeps m
      → ((a : A) → Keeps (f a))
      → Keeps (m >>= f)
  bind-Keeps m f = Safe-bind P (λ _. P) (λ _. P) (Homed os) m f

  pub lift-Keeps {κ} : {A : Type κ} (r : Outcome A) → IsDefined r → Keeps (lift r)
  lift-Keeps r d = Safe-lift P (Homed os) r d stable.homed

  pub pure-Keeps {κ} : {A : Type κ} (a : A) → Keeps (pure a)
  pure-Keeps a = Safe-pure P (λ _. P) (Homed os) a (λ c p. p)

  pub gets-Keeps {κ} : {A : Type κ} (f : Ctx os → A) → Keeps (gets f)
  gets-Keeps f = Safe-gets P (Homed os) f

  pub if-Keeps {κ} :
      {A : Type κ} (b : Bool) (m n : Exec (Ctx os) A)
      → Keeps m
      → Keeps n
      → Keeps (if b then m else n)
  if-Keeps b m n = Safe-if P (λ _. P) (Homed os) b m n

  pub close_response-Keeps :
      (tlv_type : ℕ) (err_type : ErrType) → Keeps (close_response os tlv_type err_type)
  unfolding close_response
  close_response-Keeps tlv_type err_type =
      bind-Keeps _ _ (lift-Keeps _ (error_text-IsDefined os lenient err_type))
        λ text. Safe-modify P P (Homed os) _ (λ c p. stable.on_replies c _ p)

  pub reply_error-Keeps : (err_type : ErrType) → Keeps (reply_error os err_type)
  unfolding reply_error
  reply_error-Keeps err_type = close_response-Keeps _ err_type

  pub reply_ok-Keeps : Keeps (reply_ok os)
  unfolding reply_ok
  reply_ok-Keeps = close_response-Keeps _ _

  pub add_item-Keeps : (sign : List ℕ) → Keeps (add_item os sign)
  unfolding add_item
  add_item-Keeps sign = Safe-modify P P (Homed os) _ (λ c p. stable.on_replies c _ p)

  pub get_dir-Keeps : Keeps (get_dir os)
  unfolding get_dir deref lift
  get_dir-Keeps = record {
    at = λ c p.
        let (d, e) = stable.homed c p in
        let found : IsDefined (deref c.user.dir_ptr) = rw (deref, e) (returned d) in
        (lift-Keeps (deref c.user.dir_ptr) found).at c p;
  }

  pub set_dir_object-Keeps : (d : Dir os.FsPath) → Keeps (set_dir_object os d)
  unfolding set_dir_object
  set_dir_object-Keeps d = Safe-modify P P (Homed os) _ (λ c p. stable.on_dir c d p)

  pub on_disk-Keeps {κ} : {A : Type κ} (f : os.Disk → A × os.Disk) → Keeps (on_disk os f)
  unfolding on_disk
  on_disk-Keeps f = record { at = λ c p. stable.on_disk c _ p }

  pub get_stream-Keeps : (path : os.FsPath) → Keeps (get_stream os path)
  unfolding get_stream
  get_stream-Keeps path = record { at = λ c p. stable.on_disk _ _ (stable.on_streams c _ p) }

  pub erase_stream-Keeps : Keeps (erase_stream os)
  unfolding erase_stream
  erase_stream-Keeps = record { at = λ c p. stable.on_disk _ _ (stable.on_streams c _ p) }

  pub find_resource-Keeps : (path : os.FsPath) → Keeps (find_resource os path)
  unfolding find_resource
  find_resource-Keeps path = bind-Keeps _ _ get_dir-Keeps λ d. pure-Keeps _

  pub assign_resource-Keeps : (path : os.FsPath) (r : Resource) → Keeps (assign_resource os path r)
  unfolding assign_resource
  assign_resource-Keeps path r = bind-Keeps _ _ get_dir-Keeps λ d. set_dir_object-Keeps _

  pub erase_resource-Keeps : (path : os.FsPath) → Keeps (erase_resource os path)
  unfolding erase_resource
  erase_resource-Keeps path =
      bind-Keeps _ _ get_dir-Keeps λ d. bind-Keeps _ _ (set_dir_object-Keeps _) λ _. pure-Keeps _

  pub record_chunk-Keeps :
      (path : os.FsPath) (digest : List ℕ) (is_first is_last : Bool) (first : List ℕ)
      → Keeps (record_chunk os path digest is_first is_last first)
  unfolding record_chunk
  record_chunk-Keeps path digest is_first is_last first =
      if-Keeps is_first _ _
        (assign_resource-Keeps path
          (record { synced = is_last; digest = if is_last then digest else first }))
        (if-Keeps is_last _ _
          (assign_resource-Keeps path (record { synced = true; digest = digest })) (pure-Keeps tt))

  pub remove_or_exit-Keeps : (path : os.FsPath) → Keeps (remove_or_exit os path)
  unfolding remove_or_exit
  remove_or_exit-Keeps path = bind-Keeps _ _ (on_disk-Keeps _) λ ec. Safe-exit_if P (Homed os) ec

  pub reject_file-Keeps :
      (path absolute_path : os.FsPath) (err_type : ErrType)
      → Keeps (reject_file os path absolute_path err_type)
  unfolding reject_file
  reject_file-Keeps path absolute_path err_type = bind-Keeps _ _ (remove_or_exit-Keeps _) λ _.
      bind-Keeps _ _ (erase_resource-Keeps _)
        λ _. bind-Keeps _ _ (reply_error-Keeps _) λ _. pure-Keeps _

pub homed_stable : (os : Platform) → Stable os (Homed os)
homed_stable os = record {
  homed = λ c h. h;
  on_disk = λ c disk h. h;
  on_streams = λ c streams h. h;
  on_replies = λ c q h. h;
  on_dir = λ c d h. (d, refl);
}

pub check_digest-Keeps :
    (os : Platform) (path : os.FsPath) (digest : List ℕ) (absolute_path : os.FsPath)
    (no_match failed : ErrType) ⦃lenient : IsLenient os⦄
    → Keeps os
        (Homed os)
        (homed_stable os)
        (check_digest os path digest absolute_path no_match failed)
unfolding check_digest
check_digest-Keeps os path digest absolute_path no_match failed ⦃lenient⦄ =
    let home = homed_stable os in
    Safe-try (Homed os) (λ _. Homed os) (Homed os) _ _
      (bind-Keeps os (Homed os) home _ _ (gets-Keeps os (Homed os) home _) λ disk.
        bind-Keeps os (Homed os) home _ _
          (lift-Keeps os (Homed os) home _
            (md5_hash_file-IsDefined os lenient absolute_path path disk))
          λ s_digest.
            if-Keeps os (Homed os) home _ _ _ (pure-Keeps os (Homed os) home true)
              (reject_file-Keeps os (Homed os) home _ _ _))
      (reject_file-Keeps os (Homed os) home path absolute_path failed)
