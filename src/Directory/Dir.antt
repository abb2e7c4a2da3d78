-- ===== src/Directory/Dir.antt =====
-- directory/dir.cpp and dir.h: a map from paths to resources. The map looks for a key in the bucket of its
-- hash, among the entries of the same hash, by the `equal_to` that dir.h gives: `hash` and `eq`. Each method runs under the mutex or on an
-- object of one connection, and is one step.
pub mod Laws
use remote_backup_m1_server.Prelude.{
  ℕ, ◌==◌, ◌&&◌, Bool, true, false, List, [], ◌∷◌, Option, none, some, if◌then◌else◌,
}
use remote_backup_m1_server.Directory.Resource.{Resource}

pub record Dir (K : Type 0) : Type 0 where
  pub path : K
  pub content : List (K × Resource)
  pub concurrent_accessed : Bool

unfoldable pub get_instance : {K : Type 0} → K → Bool → Dir K
get_instance path concurrent = record {
  path = path;
  content = [];
  concurrent_accessed = concurrent;
}

unfoldable pub clear : {K : Type 0} → Dir K → Dir K
clear d = record d { content = [] }

-- `for_each`: the entries are handed over one by one.
unfoldable pub for_each {ℓ} :
    {K : Type 0} {S : Type ℓ} → (K × Resource → S → S) → List (K × Resource) → S → S
for_each fn [] s = s
for_each fn (e ∷ es) s = for_each fn es (fn e s)

module _ {K : Type 0} (hash : K → ℕ) (eq : K → K → Bool) where
  -- Two keys have one entry if they have the same hash and are equal.
  unfoldable pub same_key : K → K → Bool
  same_key j k = hash j == hash k && eq j k

  unfoldable pub find : K → List (K × Resource) → Option Resource
  find k [] = none
  find k ((j, r) ∷ es) = if same_key j k then some r else find k es

  unfoldable pub assign : K → Resource → List (K × Resource) → List (K × Resource)
  assign k r [] = (k, r) ∷ []
  assign k r ((j, s) ∷ es) = if same_key j k then (j, r) ∷ es else (j, s) ∷ assign k r es

  unfoldable pub without : K → List (K × Resource) → List (K × Resource)
  without k [] = []
  without k ((j, r) ∷ es) = if same_key j k then es else (j, r) ∷ without k es

  unfoldable pub is_found : Option Resource → Bool
  is_found none = false
  is_found (some r) = true

  unfoldable pub contains : Dir K → K → Bool
  unfolding find is_found
  contains d k = is_found (find k d.content)

  unfoldable pub rsrc : Dir K → K → Option Resource
  rsrc d k = find k d.content

  -- True for a new entry, false for an assignment.
  unfoldable pub insert_or_assign : Dir K → K → Resource → Bool × Dir K
  unfolding contains
  insert_or_assign d k r =
      (if contains d k then false else true, record d { content = assign k r d.content })

  -- True if an entry was there.
  unfoldable pub erase : Dir K → K → Bool × Dir K
  unfolding contains
  erase d k = (contains d k, record d { content = without k d.content })
