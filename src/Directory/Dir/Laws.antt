-- ===== src/Directory/Dir/Laws.antt =====
-- directory/dir.cpp: the entries as a map from paths to resources.
use remote_backup_m1_server.Prelude.{
  ◌≡◌, refl, sym, ◌∙◌, inl, inr, Bool, true, false, not, List, [], ◌∷◌, Option, none, some,
  if◌then◌else◌, Bool-cases, ==_refl, ==_iff, ℕ, ◌==◌,
}
use remote_backup_m1_server.Directory.Resource.{Resource}
use remote_backup_m1_server.Directory.Dir.{
  Dir, same_key, find, assign, without, contains, rsrc, insert_or_assign, erase,
}

-- A test of keys that is an equivalence, as `operator==` on paths is.
pub record IsEquality {K : Type 0} (eq : K → K → Bool) : Type 0 where
  pub same : (a : K) → eq a a ≡ true
  pub agrees : (a b c : K) → eq a b ≡ true → eq a c ≡ eq b c

module _ {K : Type 0} (hash : K → ℕ) (eq : K → K → Bool) (laws : IsEquality eq) where
  -- Equal keys of one hash.
  same_key-IsEquality : IsEquality (same_key hash eq)
  unfolding same_key
  same_key-IsEquality = record {
    same = λ a. rw (==_refl (hash a)) (laws.same a);
    agrees = λ a b c h. elim (Bool-cases (hash a == hash b)) [
      | inl e ↦ rw (laws.agrees a b c (rw e at h), (==_iff (hash a) (hash b)).0 e) refl
      | inr e ↦ let clash : false ≡ true = rw e at h in cc
    ];
  }

  abbrev keys : IsEquality (same_key hash eq)
  keys = same_key-IsEquality

  abbrev near : K → K → Bool
  near = same_key hash eq

  -- No two keys are equal.
  unfoldable pub HasKeys : List (K × Resource) → Type 0
  HasKeys [] = Unit
  HasKeys ((j, r) ∷ es) = (find hash eq j es ≡ none) × HasKeys es

  meet : (i k j : K) → near i j ≡ true → near k j ≡ true → near i k ≡ true
  meet i k j h g = keys.agrees i j k h ∙ sym (keys.agrees k j k g) ∙ keys.same k

  -- A key that is not `k` but equal to `j` keeps `j` and `k` apart.
  apart : (i k j : K) → near i k ≡ false → near i j ≡ true → near k j ≡ false
  apart i k j e h = elim (Bool-cases (near k j)) [
    | inl g ↦ let together : near i k ≡ true = meet i k j h g in cc
    | inr g ↦ g
  ]

  find-assign :
      (k j : K) (r : Resource) (es : List (K × Resource))
      → find hash eq j (assign hash eq k r es) ≡ (if near k j then some r else find hash eq j es)
  unfolding find assign
  find-assign k j r [] = refl
  find-assign k j r ((i, s) ∷ es) = elim (Bool-cases (near i k)) [
    | inl e ↦
        rw (e, keys.agrees i k j e)
          (elim (Bool-cases (near k j)) [ inl h ↦ rw h refl | inr h ↦ rw h refl ])
    | inr e ↦ rw e (elim (Bool-cases (near i j)) [
      | inl h ↦ rw (h, apart i k j e h) refl
      | inr h ↦ rw h (find-assign k j r es)
    ])
  ]

  find-same :
      (k j : K) (es : List (K × Resource)) → near k j ≡ true → find hash eq k es ≡ find hash eq j es
  unfolding find
  find-same k j [] e = refl
  find-same k j ((i, s) ∷ es) e =
      let next = find-same k j es e in
      elim (Bool-cases (near i k)) [
        | inl h ↦ rw (h, keys.agrees i k j h ∙ e) refl
        | inr h ↦ elim (Bool-cases (near i j)) [
          | inl g ↦ let clash : near i k ≡ true = meet i k j g e in cc
          | inr g ↦ rw (h, g) next
        ]
      ]

  find-without :
      (k j : K) (es : List (K × Resource))
      → HasKeys es
      → find hash eq j (without hash eq k es) ≡ (if near k j then none else find hash eq j es)
  unfolding find without HasKeys
  find-without k j [] m = elim (Bool-cases (near k j)) [ inl e ↦ rw e refl | inr e ↦ rw e refl ]
  find-without k j ((i, s) ∷ es) m = elim (Bool-cases (near i k)) [
    | inl e ↦
        rw (e, keys.agrees i k j e)
          (elim (Bool-cases (near k j)) [
            | inl h ↦ rw h (sym (find-same i j es (keys.agrees i k j e ∙ h)) ∙ m.0)
            | inr h ↦ rw h refl
          ])
    | inr e ↦ rw e (elim (Bool-cases (near i j)) [
      | inl h ↦ rw (h, apart i k j e h) refl
      | inr h ↦ rw h (find-without k j es m.1)
    ])
  ]

  assign-HasKeys :
      (k : K) (r : Resource) (es : List (K × Resource))
      → HasKeys es
      → HasKeys (assign hash eq k r es)
  unfolding HasKeys assign find
  assign-HasKeys k r [] m = (refl, tt)
  assign-HasKeys k r ((i, s) ∷ es) m = elim (Bool-cases (near i k)) [
    | inl e ↦ rw e m
    | inr e ↦
        rw e
          (find-assign k i r es ∙ skipped i k (find hash eq i es) e m.0, assign-HasKeys k r es m.1)
  ]
    where
      skipped :
          (i k : K) (o : Option Resource)
          → near i k ≡ false
          → o ≡ none
          → (if near k i then some r else o) ≡ none
      skipped i k o e n = elim (Bool-cases (near k i)) [
        | inl g ↦ let clash : near i k ≡ true = sym (keys.agrees k i k g) ∙ keys.same k in cc
        | inr g ↦ rw g n
      ]

  without-HasKeys : (k : K) (es : List (K × Resource)) → HasKeys es → HasKeys (without hash eq k es)
  unfolding HasKeys without
  without-HasKeys k [] m = tt
  without-HasKeys k ((i, s) ∷ es) m = elim (Bool-cases (near i k)) [
    | inl e ↦ rw e m.1
    | inr e ↦ rw e (
      find-without k i es m.1 ∙ dropped (near k i) (find hash eq i es) m.0,
      without-HasKeys k es m.1,
    )
  ]
    where
      dropped : (b : Bool) (o : Option Resource) → o ≡ none → (if b then none else o) ≡ none
      dropped true o n = refl
      dropped false o n = n

  -- A directory holds one entry for each path and hash.
  abbrev pub IsDir : Dir K → Type 0
  IsDir d = HasKeys d.content

  -- After `insert_or_assign` the path, and every equal path of the same hash, has the new resource, every
  -- other path what it had, and the result says whether the path is new. The directory keeps one entry
  -- for each path and hash.
  pub insert_or_assign_lem :
      (d : Dir K) (k : K) (r : Resource)
      → IsDir d
      → let (is_new, after) = insert_or_assign hash eq d k r in
        IsDir after
        × ((j : K)
            → rsrc hash eq after j ≡ (if same_key hash eq k j then some r else rsrc hash eq d j))
        × (is_new ≡ not (contains hash eq d k))
        × (after.path ≡ d.path)
  unfolding insert_or_assign rsrc
  insert_or_assign_lem d k r m = (
    assign-HasKeys k r d.content m,
    λ j. find-assign k j r d.content,
    negated (contains hash eq d k),
    refl,
  )
    where
      negated : (b : Bool) → (if b then false else true) ≡ not b
      negated true = refl
      negated false = refl

  -- After `erase` the path, and every equal path of the same hash, has no entry and every other path what
  -- it had, and the result says whether there was one. The directory keeps one entry for each path and
  -- hash.
  pub erase_lem :
      (d : Dir K) (k : K)
      → IsDir d
      → let (was_there, after) = erase hash eq d k in
        IsDir after
        × ((j : K)
            → rsrc hash eq after j ≡ (if same_key hash eq k j then none else rsrc hash eq d j))
        × (was_there ≡ contains hash eq d k)
        × (after.path ≡ d.path)
  unfolding erase rsrc
  erase_lem d k m = (without-HasKeys k d.content m, λ j. find-without k j d.content m, refl, refl)
