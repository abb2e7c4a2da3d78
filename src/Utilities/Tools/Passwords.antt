-- ===== src/Utilities/Tools/Passwords.antt =====
-- utilities/tools.cpp: the credentials file and passwords.
use remote_backup_m1_server.Prelude.{
  ℕ, ◌≡◌, refl, sym, ap, ◌∙◌, true, false, Bool, List, [], ◌∷◌, ◌++◌, append_assoc, append-nil,
  Option, none, some, Option-cases, inl, inr, All, length, length-append, ◌-◌, take,
  take-length_append, ◌==◌, bytes_eq, arith,
}
use remote_backup_m1_server.Outcome.{ok}
use remote_backup_m1_server.Platform.{Platform}
use remote_backup_m1_server.Utilities.Tools.Text.{lines, lines_from, contains_text, after_tab}
use remote_backup_m1_server.Utilities.Tools.{verify_lines, sha512_hash, verify_password}

-- A file of lines, each ended by a newline.
unfoldable pub unlines : List (List ℕ) → List ℕ
unlines [] = []
unlines (line ∷ rest) = line ++ (10 ∷ unlines rest)

abbrev pub IsLine : List ℕ → Type 0
IsLine line = All (λ c. (c == 10) ≡ false) line

lines_from-line :
    (start line rest : List ℕ)
    → IsLine line
    → lines_from start (line ++ (10 ∷ rest)) ≡ (start ++ line) ∷ lines_from [] rest
unfolding lines_from
lines_from-line start [] rest h = ap (λ l. l ∷ lines_from [] rest) (sym (append-nil start))
lines_from-line start (c ∷ cs) rest h = rw (h.0) (
    lines_from-line (start ++ (c ∷ [])) cs rest h.1
    ∙ ap (λ l. l ∷ lines_from [] rest) (append_assoc start (c ∷ []) cs))

-- Reading a file line by line gives the lines that it was written from.
lines-unlines : (ls : List (List ℕ)) → All IsLine ls → lines (unlines ls) ≡ ls
unfolding lines lines_from unlines
lines-unlines [] h = refl
lines-unlines (line ∷ rest) h =
    lines_from-line [] line (unlines rest) h.0 ∙ ap (◌∷◌ line) (lines-unlines rest h.1)

-- The digest behind the first tab of a line is the one that is asked for.
unfoldable pub is_digest_of : Option (List ℕ) → List ℕ → Bool
is_digest_of none digest = false
is_digest_of (some s_digest) digest = bytes_eq s_digest digest

verify_lines-first :
    (username digest line : List ℕ) (before after : List (List ℕ))
    → All (λ l. contains_text l username ≡ false) before
    → contains_text line username ≡ true
    → verify_lines username digest (before ++ (line ∷ after)) ≡ is_digest_of (after_tab line) digest
unfolding verify_lines is_digest_of
verify_lines-first username digest line [] after h e =
    rw e (elim (Option-cases (after_tab line)) [ inl t ↦ rw t refl | inr (s, t) ↦ rw t refl ])
verify_lines-first username digest line (l ∷ before) after h e =
    rw (h.0) (verify_lines-first username digest line before after h.1 e)

take-last : (p : List ℕ) (c : ℕ) → take (length (p ++ (c ∷ [])) - 1) (p ++ (c ∷ [])) ≡ p
take-last p c = rw (short p c) (take-length_append p (c ∷ []))
  where
    short : (p : List ℕ) (c : ℕ) → length (p ++ (c ∷ [])) - 1 ≡ length p
    short p c = omega (arith, length-append p (c ∷ []))

sha512_hash-snoc :
    (os : Platform) (p : List ℕ) (c : ℕ)
    → sha512_hash os (p ++ (c ∷ [])) ≡ ok (os.hex_bytes (os.sha512 p))
unfolding sha512_hash
sha512_hash-snoc os [] c = refl
sha512_hash-snoc os (d ∷ p) c =
    ap (λ text. ok (os.hex_bytes (os.sha512 text))) (take-last (d ∷ p) c)

-- A password of at least one byte, against a credentials file of lines: the first line that has the
-- user's name anywhere in it decides, by the text behind its first tab, and the digest that is asked for
-- is that of the password without its last byte.
pub verify_password_lem :
    (os : Platform) (credentials_path : os.FsPath) (disk : os.Disk)
    (username password line : List ℕ) (last : ℕ) (before after : List (List ℕ))
    → os.read_file credentials_path disk ≡ some (unlines (before ++ (line ∷ after)))
    → All IsLine (before ++ (line ∷ after))
    → All (λ l. contains_text l username ≡ false) before
    → contains_text line username ≡ true
    → verify_password os credentials_path username (password ++ (last ∷ [])) disk
      ≡ ok (is_digest_of (after_tab line) (os.hex_bytes (os.sha512 password)))
unfolding verify_password
verify_password_lem os credentials_path disk username password line last before after read h
      none_before found =
    rw (sha512_hash-snoc os password last, read, lines-unlines (before ++ (line ∷ after)) h)
      (ap ok (verify_lines-first username _ line before after none_before found))
