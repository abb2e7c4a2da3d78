-- ===== src/Core/OpenStreams/Laws.antt =====
-- core/open_streams.cpp: the streams of a user, and those of the others.
use remote_backup_m1_server.Prelude.{
  ℕ, ◌≡◌, refl, ◌⊎◌, inl, inr, true, false, List, [], ◌∷◌, none, some, bytes_eq, bytes_eq_iff,
  bytes_eq_refl, Bool-cases, Option-cases, if◌then◌else◌, ap,
}
use remote_backup_m1_server.Platform.{Platform}
use remote_backup_m1_server.Core.OpenStreams.{
  Streams, find_stream, remove_stream, get_stream, erase_stream,
}

module _ (os : Platform) where
  -- No user has two streams.
  unfoldable pub IsMap : Streams os → Type 0
  IsMap [] = Unit
  IsMap ((id, s) ∷ rest) = (find_stream os id rest ≡ none) × IsMap rest

  find-remove_other :
      (id other : List ℕ) (streams : Streams os)
      → bytes_eq id other ≡ false
      → find_stream os other (remove_stream os id streams) ≡ find_stream os other streams
  unfolding find_stream remove_stream
  find-remove_other id other [] e = refl
  find-remove_other id other ((j, s) ∷ rest) e = elim (Bool-cases (bytes_eq j id)) [
    | inl same ↦ rw same (rw ((bytes_eq_iff j id).0 same) (rw e refl))
    | inr differs ↦
        rw differs
          (ap (λ r. if bytes_eq j other then some s else r) (find-remove_other id other rest e))
  ]

  find_stream-skip :
      (id other : List ℕ) (s : os.Stream) (streams : Streams os)
      → bytes_eq id other ≡ false
      → find_stream os other ((id, s) ∷ streams) ≡ find_stream os other streams
  unfolding find_stream
  find_stream-skip id other s streams e = rw e refl

  -- Getting a stream for one user leaves those of the others.
  pub get_stream-others :
      (id other : List ℕ) (path : os.FsPath) (streams : Streams os) (disk : os.Disk)
      → bytes_eq id other ≡ false
      → find_stream os other ((get_stream os id path streams disk).1) ≡ find_stream os other streams
  unfolding get_stream
  get_stream-others id other path streams disk e = elim (Option-cases (find_stream os id streams)) [
    | inl n ↦ rw (get_stream, n) (find_stream-skip id other _ streams e)
    | inr (s, n) ↦ rw (get_stream, n) refl
  ]

  pub erase_stream-others :
      (id other : List ℕ) (streams : Streams os) (disk : os.Disk)
      → bytes_eq id other ≡ false
      → find_stream os other ((erase_stream os id streams disk).0) ≡ find_stream os other streams
  unfolding erase_stream
  erase_stream-others id other streams disk e = elim (Option-cases (find_stream os id streams)) [
    | inl n ↦ rw (erase_stream, n) refl
    | inr (s, n) ↦ rw (erase_stream, n) (find-remove_other id other streams e)
  ]

  find-remove_same :
      (id : List ℕ) (streams : Streams os)
      → IsMap streams
      → find_stream os id (remove_stream os id streams) ≡ none
  unfolding IsMap find_stream remove_stream
  find-remove_same id [] m = refl
  find-remove_same id ((j, s) ∷ rest) m = elim (Bool-cases (bytes_eq j id)) [
    | inl same ↦ rw same (rw ((bytes_eq_iff j id).0 same) at m.0)
    | inr differs ↦ rw differs (rw differs (find-remove_same id rest m.1))
  ]

  find-remove_none :
      (id other : List ℕ) (streams : Streams os)
      → find_stream os other streams ≡ none
      → find_stream os other (remove_stream os id streams) ≡ none
  unfolding find_stream remove_stream
  find-remove_none id other [] e = e
  find-remove_none id other ((j, s) ∷ rest) e = elim (Bool-cases (bytes_eq j other)) [
    | inl same ↦ let h : some s ≡ none = rw same at e in cc
    | inr differs ↦ elim (Bool-cases (bytes_eq j id)) [
      | inl same ↦ rw same (rw differs at e)
      | inr other' ↦ rw other' (rw differs (find-remove_none id other rest (rw differs at e)))
    ]
  ]

  remove-IsMap :
      (id : List ℕ) (streams : Streams os) → IsMap streams → IsMap (remove_stream os id streams)
  unfolding IsMap remove_stream
  remove-IsMap id [] m = tt
  remove-IsMap id ((j, s) ∷ rest) m = elim (Bool-cases (bytes_eq j id)) [
    | inl same ↦ rw same (m.1)
    | inr differs ↦ rw differs (find-remove_none id j rest m.0, remove-IsMap id rest m.1)
  ]

  -- Both operations keep one stream for each user.
  pub get_stream-IsMap :
      (id : List ℕ) (path : os.FsPath) (streams : Streams os) (disk : os.Disk)
      → IsMap streams
      → IsMap ((get_stream os id path streams disk).1)
  unfolding IsMap get_stream
  get_stream-IsMap id path streams disk m = elim (Option-cases (find_stream os id streams)) [
    | inl n ↦ rw (get_stream, n) (n, m)
    | inr (s, n) ↦ rw (get_stream, n) m
  ]

  pub erase_stream-IsMap :
      (id : List ℕ) (streams : Streams os) (disk : os.Disk)
      → IsMap streams
      → IsMap ((erase_stream os id streams disk).0)
  unfolding erase_stream
  erase_stream-IsMap id streams disk m = elim (Option-cases (find_stream os id streams)) [
    | inl n ↦ rw (erase_stream, n) m
    | inr (s, n) ↦ rw (erase_stream, n) (remove-IsMap id streams m)
  ]

  -- After `erase_stream` the user has no stream.
  pub erase_stream-gone :
      (id : List ℕ) (streams : Streams os) (disk : os.Disk)
      → IsMap streams
      → find_stream os id ((erase_stream os id streams disk).0) ≡ none
  unfolding erase_stream
  erase_stream-gone id streams disk m = elim (Option-cases (find_stream os id streams)) [
    | inl n ↦ rw (erase_stream, n) n
    | inr (s, n) ↦ rw (erase_stream, n) (find-remove_same id streams m)
  ]

  found-head :
      (id : List ℕ) (s : os.Stream) (streams : Streams os)
      → find_stream os id ((id, s) ∷ streams) ≡ some s
  unfolding find_stream
  found-head id s streams = rw (bytes_eq_refl id) refl

  -- After `get_stream` the user's stream is the one that was returned. It was stored just when the user
  -- had none, and then it is the one opened at the path.
  pub get_stream_lem :
      (id : List ℕ) (path : os.FsPath) (streams : Streams os) (disk : os.Disk)
      → let ((s, is_new), after, _) = get_stream os id path streams disk in
        (find_stream os id after ≡ some s)
        × (((is_new ≡ true)
              × (find_stream os id streams ≡ none)
              × (s ≡ (os.open_append path disk).0))
            ⊎ ((is_new ≡ false) × (find_stream os id streams ≡ some s) × (after ≡ streams)))
  unfolding get_stream
  get_stream_lem id path streams disk = elim (Option-cases (find_stream os id streams)) [
    | inl n ↦ rw (get_stream, n) (found-head id _ streams, inl (refl, refl, refl))
    | inr (s, n) ↦ rw (get_stream, n) (n, inr (refl, refl, refl))
  ]

  pub get_stream-none :
      (id : List ℕ) (path : os.FsPath) (streams : Streams os) (disk : os.Disk)
      → find_stream os id streams ≡ none
      → get_stream os id path streams disk ≡ (
        ((os.open_append path disk).0, true),
        (id, (os.open_append path disk).0) ∷ streams,
        (os.open_append path disk).1,
      )
  unfolding get_stream
  get_stream-none id path streams disk n = rw (get_stream, n) refl

  pub get_stream-head :
      (id : List ℕ) (path : os.FsPath) (s : os.Stream) (streams : Streams os) (disk : os.Disk)
      → get_stream os id path ((id, s) ∷ streams) disk ≡ (
        (s, false),
        (id, s) ∷ streams,
        os.close (os.open_append path disk).0 (os.open_append path disk).1,
      )
  unfolding get_stream
  get_stream-head id path s streams disk = rw (get_stream, found-head id s streams) refl

  remove-head :
      (id : List ℕ) (s : os.Stream) (streams : Streams os)
      → remove_stream os id ((id, s) ∷ streams) ≡ streams
  unfolding remove_stream
  remove-head id s streams = rw (bytes_eq_refl id) refl

  pub erase_stream-head :
      (id : List ℕ) (s : os.Stream) (streams : Streams os) (disk : os.Disk)
      → erase_stream os id ((id, s) ∷ streams) disk ≡ (streams, os.close s disk)
  unfolding erase_stream
  erase_stream-head id s streams disk =
      rw (erase_stream, found-head id s streams)
        (ap (λ left. (left, os.close s disk)) (remove-head id s streams))
