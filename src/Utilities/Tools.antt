-- ===== src/Utilities/Tools.antt =====
-- utilities/tools.cpp and tools.h.
pub mod Text
pub mod Signs
pub mod Passwords
use remote_backup_m1_server.Prelude.{
  ℕ, ◌-◌, Bool, true, false, List, [], ◌∷◌, ◌++◌, Option, none, some, length, take, replicate,
  codes, bytes_eq, if◌then◌else◌,
}
use remote_backup_m1_server.Outcome.{
  Outcome, ok, throws, exits, fault, stuck, length_error, runtime_error, ◌>>=◌,
}
use remote_backup_m1_server.Platform.{Platform}
use Text.{lines, contains_text, after_tab}

-- The text of the C++ literal "(.*)\\x00(.*)".
abbrev pub sign_regex : List ℕ
sign_regex = codes "(.*)" ++ (92 ∷ codes "x00(.*)")

-- The loop over the lines of the credentials file: the first line with the name in it decides.
unfoldable pub verify_lines : List ℕ → List ℕ → List (List ℕ) → Bool
verify_lines username digest [] = false
verify_lines username digest (line ∷ rest) =
    if contains_text line username
    then elim (after_tab line) [ none ↦ false | some s_digest ↦ bytes_eq s_digest digest ]
    else verify_lines username digest rest

module _ (os : Platform) where
  open os use {
    FsPath, Disk, to_path, generic_string, read_file, md5, hex_words, sha512, hex_bytes,
    regex_match, empty_front,
  }

  unfoldable pub create_sign : FsPath → List ℕ → List ℕ
  create_sign relative_path digest = generic_string relative_path ++ (0 ∷ digest)

  -- The groups are the sub-matches from the second on.
  unfoldable pub match_and_parse : List ℕ → List ℕ → Bool × List (List ℕ)
  match_and_parse regex line = elim (regex_match regex line) [
    | none ↦ (false, [])
    | some [] ↦ (true, [])
    | some (whole ∷ groups) ↦ (true, groups)
  ]

  -- `{pair.second[0], pair.second[1]}`
  unfoldable pub first_two : List (List ℕ) → Outcome (FsPath × List ℕ)
  first_two (a ∷ b ∷ _) = ok (to_path a, b)
  first_two _ = fault

  unfoldable pub split_sign : List ℕ → Outcome (FsPath × List ℕ)
  unfolding match_and_parse first_two
  split_sign sign =
      let (matched, groups) = match_and_parse sign_regex sign in
      if matched then first_two groups else throws runtime_error

  unfoldable pub md5_to_string : List ℕ → List ℕ
  md5_to_string digest = hex_words digest

  -- `MD5_hash(std::string)`
  unfoldable pub md5_hash : List ℕ → List ℕ
  unfolding md5_to_string
  md5_hash str = md5_to_string (md5 str)

  -- The rest of `MD5_hash(path, path)` once the file is read: a vector of `length` zeros, with what was
  -- read inserted in front, of which the first `length` characters are hashed.
  unfoldable pub md5_hash_content : List ℕ → FsPath → List ℕ
  unfolding md5_to_string
  md5_hash_content read relative_path =
      let n : ℕ = length read in
      let file_buffer : List ℕ = read ++ replicate n 0 in
      md5_to_string (md5 (generic_string relative_path ++ take n file_buffer))

  -- `&*file_buffer.cbegin()`: on an empty vector there is no character to point to.
  unfoldable pub first_byte : List ℕ → Outcome (Unit {0})
  first_byte [] = if empty_front then ok tt else fault
  first_byte (c ∷ cs) = ok tt

  -- `MD5_hash(path, path)`. If the file cannot be opened `tellg` is -1, and a vector of that length is
  -- a `std::length_error`.
  unfoldable pub md5_hash_file : FsPath → FsPath → Disk → Outcome (List ℕ)
  unfolding first_byte
  md5_hash_file absolute_path relative_path disk = elim (read_file absolute_path disk) [
    | none ↦ throws length_error
    | some read ↦ (do _ ← first_byte read; ok (md5_hash_content read relative_path))
  ]

  -- `str.size() - 1` wraps to 2 ^ 64 - 1 on the empty string: a read far out of bounds.
  unfoldable pub sha512_hash : List ℕ → Outcome (List ℕ)
  sha512_hash [] = fault
  sha512_hash (c ∷ cs) = ok (hex_bytes (sha512 (take (length (c ∷ cs) - 1) (c ∷ cs))))

  unfoldable pub verify_password : FsPath → List ℕ → List ℕ → Disk → Outcome Bool
  verify_password credentials_path username password disk = do
    c_digest ← sha512_hash password
    elim (read_file credentials_path disk) [
      | none ↦ ok false
      | some content ↦ ok (verify_lines username c_digest (lines content))
    ]
