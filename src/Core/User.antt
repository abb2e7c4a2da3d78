-- ===== src/Core/User.antt =====
-- core/user.h: the session information of one connection. `K` is the type of paths.
use remote_backup_m1_server.Prelude.{ℕ, Bool, false, List, [], Option, none, some, bytes_eq}
use remote_backup_m1_server.Directory.Dir.{Dir, get_instance}

-- The directory is behind a shared pointer, null at first, that no other object shares.
pub record User (K : Type 0) : Type 0 where
  pub id : List ℕ
  pub username : List ℕ
  pub ip : List ℕ
  pub is_auth : Bool
  pub is_synced : Bool
  pub dir_ptr : Option (Dir K)

-- A default-constructed user: the class gives its two flags no initial value, so they are arguments.
unfoldable pub unset : {K : Type 0} → Bool → Bool → User K
unset is_auth is_synced = record {
  id = [];
  username = [];
  ip = [];
  is_auth = is_auth;
  is_synced = is_synced;
  dir_ptr = none;
}

module _ {K : Type 0} (u : User K) where
  unfoldable pub set_id : List ℕ → User K
  set_id id = record u { id = id }

  unfoldable pub set_ip : List ℕ → User K
  set_ip ip = record u { ip = ip }

  unfoldable pub set_username : List ℕ → User K
  set_username username = record u { username = username }

  unfoldable pub set_auth : Bool → User K
  set_auth is_auth = record u { is_auth = is_auth }

  unfoldable pub set_synced : Bool → User K
  set_synced is_synced = record u { is_synced = is_synced }

  unfoldable pub set_dir : K → User K
  unfolding get_instance
  set_dir absolute_path = record u { dir_ptr = some (get_instance absolute_path false) }

-- `operator==` and `std::hash<user>` go by the id.
unfoldable pub same_user : {K : Type 0} → User K → User K → Bool
same_user u v = bytes_eq u.id v.id
