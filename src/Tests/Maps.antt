-- ===== src/Tests/Maps.antt =====
-- directory/, core/open_streams.cpp and utilities/tools.cpp: maps, signs and passwords.
use remote_backup_m1_server.Prelude.{
  ℕ, ◌≡◌, refl, true, false, not, ◌⊎◌, List, [], ◌∷◌, ◌++◌, codes, none, some, bytes_eq,
  bytes_eq_iff, length, bytes_eq_refl, if◌then◌else◌,
}
use remote_backup_m1_server.Outcome.{ok, throws, runtime_error}
use remote_backup_m1_server.Directory.Resource.{Resource}
use remote_backup_m1_server.Directory.Dir.{
  same_key, Dir, find, rsrc, contains, insert_or_assign, erase,
}
use remote_backup_m1_server.Directory.Dir.Laws.{
  IsEquality, IsDir, HasKeys, insert_or_assign_lem, erase_lem,
}
use remote_backup_m1_server.Core.OpenStreams.{Streams, find_stream, get_stream, erase_stream}
use remote_backup_m1_server.Core.OpenStreams.Laws.{IsMap, get_stream_lem, erase_stream-gone}
use remote_backup_m1_server.Utilities.Tools.{
  create_sign, split_sign, verify_password, md5_hash_file, first_byte,
}
use remote_backup_m1_server.Utilities.Tools.Text.{after_tab, contains_text, starts_with}
use remote_backup_m1_server.Utilities.Tools.Signs.{
  IsText, split_last, split_sign_lem, split_sign-create_sign, md5_hash_file_lem,
}
use remote_backup_m1_server.Utilities.Tools.Passwords.{unlines, is_digest_of, verify_password_lem}
use remote_backup_m1_server.Tests.{memory, file_at, disk}

bytes_eq-IsEquality : IsEquality bytes_eq
bytes_eq-IsEquality = record {
  same = bytes_eq_refl;
  agrees = λ a b c e. rw ((bytes_eq_iff a b).0 e) refl;
}

abbrev fresh : Resource
fresh = record { synced = true; digest = codes "d" }

abbrev folder : Dir (List ℕ)
folder = record {
  path = codes "root";
  content = (codes "f", fresh) ∷ [];
  concurrent_accessed = false;
}

folder-IsDir : IsDir length bytes_eq bytes_eq-IsEquality folder
unfolding HasKeys find same_key
folder-IsDir = (refl, tt)

insert_or_assign_lem_example :
    let (is_new, after) = insert_or_assign length bytes_eq folder (codes "g") fresh in
    IsDir length bytes_eq bytes_eq-IsEquality after
    × ((j : List ℕ)
        → rsrc length bytes_eq after j ≡ (
            if same_key length bytes_eq (codes "g") j
            then some fresh
            else rsrc length bytes_eq folder j))
    × (is_new ≡ not (contains length bytes_eq folder (codes "g")))
    × (after.path ≡ folder.path)
insert_or_assign_lem_example =
    insert_or_assign_lem length bytes_eq bytes_eq-IsEquality folder (codes "g") fresh folder-IsDir

erase_lem_example :
    let (was_there, after) = erase length bytes_eq folder (codes "f") in
    IsDir length bytes_eq bytes_eq-IsEquality after
    × ((j : List ℕ)
        → rsrc length bytes_eq after j ≡ (
            if same_key length bytes_eq (codes "f") j then none else rsrc length bytes_eq folder j))
    × (was_there ≡ contains length bytes_eq folder (codes "f"))
    × (after.path ≡ folder.path)
erase_lem_example = erase_lem length bytes_eq bytes_eq-IsEquality folder (codes "f") folder-IsDir

abbrev streams : Streams memory
streams = (codes "a", codes "root/a/f") ∷ []

streams-IsMap : IsMap memory streams
unfolding IsMap find_stream
streams-IsMap = (refl, tt)

get_stream_lem_example :
    let ((s, is_new), after, _) = get_stream memory (codes "b") (codes "root/b/g") streams disk in
    (find_stream memory (codes "b") after ≡ some s)
    × (((is_new ≡ true)
          × (find_stream memory (codes "b") streams ≡ none)
          × (s ≡ (memory.open_append (codes "root/b/g") disk).0))
        ⊎ ((is_new ≡ false)
            × (find_stream memory (codes "b") streams ≡ some s)
            × (after ≡ streams)))
get_stream_lem_example = get_stream_lem memory (codes "b") (codes "root/b/g") streams disk

erase_stream-gone_example :
    find_stream memory (codes "a") (erase_stream memory (codes "a") streams disk).0 ≡ none
erase_stream-gone_example = erase_stream-gone memory (codes "a") streams disk streams-IsMap

pub memory-IsText : IsText memory
memory-IsText = record { greedy = λ text. refl; same_path = λ p. refl }

split_sign_lem_example : split_sign memory (codes "f") ≡ throws runtime_error
unfolding split_last
split_sign_lem_example = split_sign_lem memory memory-IsText (codes "f")

split_sign-create_sign_example :
    split_sign memory (create_sign memory (codes "f") (codes "d")) ≡ ok (codes "f", codes "d")
split_sign-create_sign_example =
    split_sign-create_sign memory memory-IsText (codes "f") (codes "d") (refl, tt)

md5_hash_file_lem_example :
    md5_hash_file memory (codes "keys") (codes "k") disk ≡ ok (codes "ka" ++ (9 ∷ 120 ∷ 10 ∷ []))
unfolding file_at bytes_eq first_byte
md5_hash_file_lem_example = md5_hash_file_lem memory (codes "keys") (codes "k") disk

abbrev line_of_a : List ℕ
line_of_a = 97 ∷ 9 ∷ 120 ∷ []

verify_password_lem_example :
    verify_password memory (codes "keys") (codes "a") (codes "xy") disk
    ≡ ok (is_digest_of (after_tab line_of_a) (codes "x"))
unfolding file_at bytes_eq unlines contains_text starts_with
verify_password_lem_example =
    verify_password_lem memory (codes "keys") disk (codes "a") (codes "x") line_of_a 121 [] [] refl
      ((refl, (refl, (refl, tt))), tt) tt refl
