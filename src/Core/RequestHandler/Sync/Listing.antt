-- ===== src/Core/RequestHandler/Sync/Listing.antt =====
-- core/request_handler.cpp: what `handle_sync` lists.
use remote_backup_m1_server.Prelude.{
  ℕ, ◌≡◌, refl, sym, subst, Bool, true, false, List, [], ◌∷◌, ◌++◌, append_assoc, append-nil,
  Option, Option-cases, none, some, inl, inr, if◌then◌else◌,
}
use remote_backup_m1_server.Outcome.{Outcome, ok, throws, exits, fault, stuck}
use remote_backup_m1_server.Platform.{Platform}
use remote_backup_m1_server.Communication.Message.{Tlv}
use remote_backup_m1_server.Communication.MessageQueue.Segments.{Holds, add_tlv-Holds}
use remote_backup_m1_server.Communication.Types.TlvType
use remote_backup_m1_server.Communication.Types.ErrType.{err_sync_failed}
use remote_backup_m1_server.Directory.Resource.{Resource}
use remote_backup_m1_server.Utilities.Tools
use remote_backup_m1_server.Core.Exec.{Exec, pure, lift, gets, modify, ◌>>=◌, ◌>>◌}
use remote_backup_m1_server.Core.Exec.Triple.{After, Triple, After-weaken, Triple-pure, Triple-bind}
use remote_backup_m1_server.Core.RequestHandler.State.{
  Ctx, reply_error, add_item, get_dir, deref, set_dir_object,
}
use remote_backup_m1_server.Core.RequestHandler.Sync.{
  clear_dir, relative_to, put_resource, sync_file, sync_files,
}

module _ (os : Platform) (root : os.FsPath) where
  -- The segment of one file.
  abbrev pub listed_as : os.FsPath → List ℕ → Tlv
  listed_as path digest = record {
    tag = TlvType.item;
    value = Tools.create_sign os (relative_to os root path) digest;
  }

  add_listed : os.FsPath → Outcome (List ℕ) → Option (List Tlv) → Option (List Tlv)
  add_listed path (ok digest) (some ts) = some (listed_as path digest ∷ ts)
  add_listed path _ _ = none

  -- The segments of the regular files among the entries, in their order, with the digests of the files
  -- on the disk; none if a file cannot be read.
  unfoldable pub listing : os.Disk → List (os.FsPath × Bool) → Option (List Tlv)
  unfolding add_listed
  listing disk [] = some []
  listing disk ((path, false) ∷ rest) = listing disk rest
  listing disk ((path, true) ∷ rest) =
      add_listed path (Tools.md5_hash_file os path (relative_to os root path) disk)
        (listing disk rest)

  module _ (disk : os.Disk) where
    abbrev At : List Tlv → Ctx os → Type 0
    At ts s = (s.disk ≡ disk) × Holds s.replies ts

    Any : Ctx os → Type 0
    Any s = Unit

    put_resource-At :
        (ts : List Tlv) (path : os.FsPath) (r : Resource)
        → Triple (At ts) (put_resource os path r) (λ _. At ts) Any
    unfolding put_resource get_dir deref set_dir_object ◌>>=◌ Any
    put_resource-At ts path r = record {
      at = λ s o. elim (Option-cases s.user.dir_ptr) [ inl e ↦ simp e tt | inr (d, e) ↦ simp e o ];
    }

    add_item-At :
        (ts : List Tlv) (path : os.FsPath) (digest : List ℕ)
        → Triple
            (At ts)
            (add_item os (Tools.create_sign os (relative_to os root path) digest))
            (λ _. At (ts ++ (listed_as path digest ∷ [])))
            Any
    unfolding add_item modify Any
    add_item-At ts path digest = record {
      at = λ s o. (o.0, add_tlv-Holds s.replies ts (listed_as path digest) o.1);
    }

    -- A file that was listed.
    abbrev Listed : List Tlv → os.FsPath → Bool → Ctx os → Type 0
    Listed ts path go s =
        go ≡ true
        → (digest : List ℕ) × (Tools.md5_hash_file os path (relative_to os root path) disk
            ≡ ok digest)
          × At (ts ++ (listed_as path digest ∷ [])) s

    Any-Triple {κ} :
        {A : Type κ} (P : Ctx os → Type 0) (m : Exec (Ctx os) A) → Triple P m (λ _. Any) Any
    unfolding Any
    Any-Triple P m = record { at = λ s p. reached (m s) }
      where
        reached : {A : Type κ} (r : Outcome A × Ctx os) → After (λ _. Any) Any r
        reached (ok a, s) = tt
        reached (throws x, s) = tt
        reached (exits, s) = tt
        reached (fault, s) = tt
        reached (stuck, s) = tt

    never : false ≡ true → ⊥
    never e = cc

    lift-digest :
        (ts : List Tlv) (r : Outcome (List ℕ))
        → Triple (At ts) (lift r) (λ digest s. (r ≡ ok digest) × At ts s) Any
    unfolding lift Any
    lift-digest ts (ok digest) = record { at = λ s o. (refl, o) }
    lift-digest ts (throws x) = record { at = λ s o. tt }
    lift-digest ts exits = record { at = λ s o. tt }
    lift-digest ts fault = record { at = λ s o. tt }
    lift-digest ts stuck = record { at = λ s o. tt }

    recorded :
        (ts : List Tlv) (path : os.FsPath) (digest : List ℕ)
        → Tools.md5_hash_file os path (relative_to os root path) disk ≡ ok digest
        → (inserted : Bool)
        → Triple
            (At ts)
            (if inserted
              then (do
                add_item os (Tools.create_sign os (relative_to os root path) digest)
                pure true)
              else (do clear_dir os; reply_error os err_sync_failed; pure false))
            (Listed ts path)
            Any
    recorded ts path digest e true =
        Triple-bind _ (λ _. At (ts ++ (listed_as path digest ∷ []))) _ _ _ _
          (add_item-At ts path digest)
          λ _. Triple-pure _ (Listed ts path) _ true (λ s o t. (digest, e, o))
    recorded ts path digest e false =
        Triple-bind _ (λ _. Any) _ _ _ _ (Any-Triple _ _)
          λ _.
            Triple-bind _ (λ _. Any) _ _ _ _ (Any-Triple _ _)
              λ _. Triple-pure _ (Listed ts path) _ false (λ s o t. absurd (never t))

    -- `sync_file` after the disk is read.
    abbrev file_of : os.FsPath → os.Disk → Exec (Ctx os) Bool
    file_of path here = do
      digest ← lift (Tools.md5_hash_file os path (relative_to os root path) here)
      inserted ←
          put_resource os (relative_to os root path) (record { synced = true; digest = digest })
      if inserted
          then (do add_item os (Tools.create_sign os (relative_to os root path) digest); pure true)
          else (do clear_dir os; reply_error os err_sync_failed; pure false)

    file_of-Listed :
        (ts : List Tlv) (path : os.FsPath) → Triple (At ts) (file_of path disk) (Listed ts path) Any
    file_of-Listed ts path = Triple-bind _ _ _ _ _ _ (lift-digest ts _) λ digest. record {
      at = λ s (e, o).
          (Triple-bind _ (λ _. At ts) _ _ _ _ (put_resource-At ts _ _)
              (recorded ts path digest e)).at
            s o;
    }

    sync_file-Listed :
        (ts : List Tlv) (path : os.FsPath)
        → Triple (At ts) (sync_file os root path) (Listed ts path) Any
    unfolding sync_file gets
    sync_file-Listed ts path =
        Triple-bind _ (λ here s. (here ≡ disk) × At ts s) _ _ _ _ (record { at = λ s o. (o.0, o) })
          λ here. record {
            at = λ s (same, o).
                (subst (λ h. Triple (At ts) (file_of path h) (Listed ts path) Any) (sym same)
                    (file_of-Listed ts path)).at
                  s o;
          }

    -- After a whole listing: all its segments follow those that were there.
    pub record IsListed (ts : List Tlv) (entries : List (os.FsPath × Bool)) (s : Ctx os)
        : Type 0 where
      pub items : List Tlv
      pub from_disk : listing disk entries ≡ some items
      pub same_disk : s.disk ≡ disk
      pub holds : Holds s.replies (ts ++ items)

    abbrev Complete : List Tlv → List (os.FsPath × Bool) → Bool → Bool → Ctx os → Type 0
    Complete ts entries failed go s = go ≡ true → (failed ≡ false) × IsListed ts entries s

    after_file :
        (ts : List Tlv) (path : os.FsPath) (rest : List (os.FsPath × Bool)) (failed : Bool)
        → ((us : List Tlv)
            → Triple (At us) (sync_files os root rest failed) (Complete us rest failed) Any)
        → (go : Bool)
        → Triple
            (Listed ts path go)
            (if go then sync_files os root rest failed else pure false)
            (Complete ts ((path, true) ∷ rest) failed)
            Any
    unfolding listing add_listed
    after_file ts path rest failed next false =
        Triple-pure _ (Complete ts ((path, true) ∷ rest) failed) _ false (λ s o t. absurd (never t))
    after_file ts path rest failed next true = record {
      at = λ s o.
          let (digest, e, at) = o refl in
          After-weaken (Complete (ts ++ (listed_as path digest ∷ [])) rest failed)
            (Complete ts ((path, true) ∷ rest) failed) Any Any _
            ((next (ts ++ (listed_as path digest ∷ []))).at s at)
            (λ go d h t.
              let (f, l) = h t in
              (
                f,
                record {
                  items = listed_as path digest ∷ l.items;
                  from_disk = rw (e, l.from_disk) refl;
                  same_disk = l.same_disk;
                  holds = rw (append_assoc ts (listed_as path digest ∷ []) l.items) at l.holds;
                },
              ))
            (λ d h. h);
    }

    sync_files-IsListed :
        (entries : List (os.FsPath × Bool)) (failed : Bool) (ts : List Tlv)
        → Triple (At ts) (sync_files os root entries failed) (Complete ts entries failed) Any
    unfolding sync_files listing add_listed lift Any
    sync_files-IsListed [] true ts = record { at = λ s o. tt }
    sync_files-IsListed [] false ts = Triple-pure _ (Complete ts [] false) _ true λ s o t.
        (refl, record { items = []; from_disk = refl; same_disk = o.0; holds = rw append-nil o.1 })
    sync_files-IsListed ((path, false) ∷ rest) failed ts = record {
      at = λ s o.
          After-weaken (Complete ts rest failed) (Complete ts ((path, false) ∷ rest) failed) Any Any
            _ ((sync_files-IsListed rest failed ts).at s o)
            (λ go e h t.
              let (f, l) = h t in
              (
                f,
                record {
                  items = l.items;
                  from_disk = l.from_disk;
                  same_disk = l.same_disk;
                  holds = l.holds;
                },
              ))
            (λ e h. h);
    }
    sync_files-IsListed ((path, true) ∷ rest) failed ts =
        Triple-bind _ (Listed ts path) _ _ _ _ (sync_file-Listed ts path)
          (after_file ts path rest failed (λ us. sync_files-IsListed rest failed us))

    -- When the loop of `handle_sync` over the entries of the user's directory comes to its end, the
    -- iteration did not fail, every regular file could be read, and the replies hold, behind what they
    -- held, one ITEM for each regular file, in order, with the sign of its relative path and its digest.
    pub sync_files_lem :
        (entries : List (os.FsPath × Bool)) (failed : Bool) (ts : List Tlv) (c d : Ctx os)
        → c.disk ≡ disk
        → Holds c.replies ts
        → sync_files os root entries failed c ≡ (ok true, d)
        → (failed ≡ false) × IsListed ts entries d
    sync_files_lem entries failed ts c d same holds run =
        (rw run at ((sync_files-IsListed entries failed ts).at c (same, holds))) refl
