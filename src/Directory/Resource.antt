-- ===== src/Directory/Resource.antt =====
-- directory/resource.cpp and resource.h.
use remote_backup_m1_server.Prelude.{ℕ, Bool, List, [], ◌∷◌, ◌++◌, codes, if◌then◌else◌}

pub record Resource : Type 0 where
  pub synced : Bool
  pub digest : List ℕ

unfoldable pub set_synced : Resource → Bool → Resource
set_synced r synced = record r { synced = synced }

unfoldable pub set_digest : Resource → List ℕ → Resource
set_digest r digest = record r { digest = digest }

-- `operator<<`, with `std::boolalpha`.
unfoldable pub print : Resource → List ℕ
print r =
    codes "{ synced: "
    ++ ((if r.synced then codes "true" else codes "false")
        ++ (codes "; digest: " ++ (r.digest ++ (codes "}" ++ (10 ∷ [])))))
