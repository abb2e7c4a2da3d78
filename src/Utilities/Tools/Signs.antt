-- ===== src/Utilities/Tools/Signs.antt =====
-- utilities/tools.cpp: the signs that the client and the server exchange, and digests of files.
use remote_backup_m1_server.Prelude.{
  ℕ, Bool, ◌≡◌, refl, ap, ◌∙◌, true, false, List, [], ◌∷◌, ◌++◌, Option, none, some, Option-cases,
  inl, inr, All, length, replicate, take-length_append, if◌then◌else◌, ◌==◌,
}
use remote_backup_m1_server.Outcome.{Outcome, ok, throws, runtime_error, length_error, ◌>>=◌}
use remote_backup_m1_server.Platform.{Platform}
use remote_backup_m1_server.Utilities.Tools.{
  sign_regex, create_sign, match_and_parse, first_two, split_sign, md5_to_string, md5_hash_content,
  md5_hash_file, first_byte,
}

-- The text before and behind the last NUL.
unfoldable pub split_last : List ℕ → Option (List ℕ × List ℕ)
split_last [] = none
split_last (c ∷ cs) = elim (split_last cs) [
  | some (a, b) ↦ some (c ∷ a, b)
  | none ↦ if c == 0 then some ([], cs) else none
]

unfoldable pub groups_of : List ℕ → Option (List ℕ × List ℕ) → Option (List (List ℕ))
groups_of text none = none
groups_of text (some (a, b)) = some (text ∷ a ∷ b ∷ [])

-- What is documented of the regular expression and of paths: `.` matches every character, the first
-- group is as long as it can be, and a path is its text.
pub record IsText (os : Platform) : Type 0 where
  pub greedy : (text : List ℕ) → os.regex_match sign_regex text ≡ groups_of text (split_last text)
  pub same_path : (p : os.FsPath) → os.to_path (os.generic_string p) ≡ p

abbrev pub HasNoNul : List ℕ → Type 0
HasNoNul text = All (λ c. (c == 0) ≡ false) text

split_last-HasNoNul : (text : List ℕ) → HasNoNul text → split_last text ≡ none
unfolding split_last
split_last-HasNoNul [] h = refl
split_last-HasNoNul (c ∷ cs) h = rw (split_last-HasNoNul cs h.1) (rw (h.0) refl)

split_last-append : (a b : List ℕ) → HasNoNul b → split_last (a ++ (0 ∷ b)) ≡ some (a, b)
unfolding split_last
split_last-append [] b h = rw (split_last-HasNoNul b h) refl
split_last-append (c ∷ cs) b h = rw (split_last-append cs b h) refl

module _ (os : Platform) (laws : IsText os) where
  -- `split_sign` on every text: it splits at the last NUL, throws a `runtime_error` where there is none,
  -- and never reads a group that is not there.
  pub split_sign_lem :
      (text : List ℕ)
      → split_sign os text ≡ elim (split_last text) [
        | none ↦ throws runtime_error
        | some (a, b) ↦ ok (os.to_path a, b)
      ]
  unfolding split_sign match_and_parse first_two groups_of
  split_sign_lem text = ap taken (laws.greedy text) ∙ by_cases (split_last text)
    where
      taken : Option (List (List ℕ)) → Outcome (os.FsPath × List ℕ)
      taken m =
          let (matched, groups) : Bool × List (List ℕ) = elim m [
            | none ↦ (false, [])
            | some [] ↦ (true, [])
            | some (whole ∷ groups) ↦ (true, groups)
          ] in
          if matched then first_two os groups else throws runtime_error

      by_cases :
          (o : Option (List ℕ × List ℕ))
          → taken (groups_of text o)
            ≡ elim o [ none ↦ throws runtime_error | some (a, b) ↦ ok (os.to_path a, b) ]
      by_cases none = refl
      by_cases (some (a, b)) = refl

  -- `split_sign` gives back what `create_sign` put together, for a digest without NUL.
  pub split_sign-create_sign :
      (path : os.FsPath) (digest : List ℕ)
      → HasNoNul digest
      → split_sign os (create_sign os path digest) ≡ ok (path, digest)
  unfolding create_sign
  split_sign-create_sign path digest h =
      split_sign_lem _
      ∙ rw (split_last-append (os.generic_string path) digest h, laws.same_path path) refl

-- The digest of a file that can be read is the MD5 of the relative path and all of the content, no more,
-- once the address of the first character of the content has been taken, as it has on an empty content
-- where the program survives that; a file that cannot be read gives a `length_error`.
pub md5_hash_file_lem :
    (os : Platform) (absolute_path relative_path : os.FsPath) (disk : os.Disk)
    → md5_hash_file os absolute_path relative_path disk ≡ elim (os.read_file absolute_path disk) [
      | none ↦ throws length_error
      | some read ↦ first_byte os read >>= λ _.
          ok (os.hex_words (os.md5 (os.generic_string relative_path ++ read)))
    ]
unfolding md5_hash_file md5_hash_content md5_to_string
md5_hash_file_lem os absolute_path relative_path disk =
    elim (Option-cases (os.read_file absolute_path disk)) [
      | inl e ↦ rw (md5_hash_file, e) refl
      | inr (read, e) ↦
          rw (md5_hash_file, e)
            (ap
              (λ text. first_byte os read >>= λ _.
                ok (os.hex_words (os.md5 (os.generic_string relative_path ++ text))))
              (take-length_append read (replicate (length read) 0)))
    ]
