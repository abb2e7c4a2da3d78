-- ===== src/Tests/Transfers.antt =====
-- core/request_handler.cpp: a file in two chunks, and a file that is updated and erased.
use remote_backup_m1_server.Prelude.{
  ℕ, ◌+◌, ◌≡◌, refl, ap, ◌∙◌, true, false, some, Bool-cases, inl, inr, List, [], ◌∷◌, ◌++◌,
  append_assoc, codes, length, bytes_eq, bytes_eq_refl,
}
use remote_backup_m1_server.Outcome.{ok}
use remote_backup_m1_server.Communication.TlvView.{
  TlvView, view, next_tlv, read_tlv, get_type, get_value, verify_end, zeros_before, read_before,
  read,
}
use remote_backup_m1_server.Directory.Dir.{Dir, rsrc, find, assign, same_key}
use remote_backup_m1_server.Communication.Message
use remote_backup_m1_server.Communication.Message.{of_buffer}
use remote_backup_m1_server.Utilities.Tools.{
  split_sign, create_sign, md5_hash_file, first_byte, md5_hash_content, md5_to_string,
}
use remote_backup_m1_server.Utilities.Tools.Signs.{split_sign-create_sign}
use remote_backup_m1_server.Core.OpenStreams.{find_stream}
use remote_backup_m1_server.Core.RequestHandler.State.{Ctx}
use remote_backup_m1_server.Core.RequestHandler.Receiving.{Chunk}
use remote_backup_m1_server.Core.RequestHandler.{handle_request}
use remote_backup_m1_server.Core.RequestHandler.Create.{is_complete}
use remote_backup_m1_server.Core.RequestHandler.Create.Transfer.{received}
use remote_backup_m1_server.Core.RequestHandler.Create.Uploads.{
  Upload, IsUpload, begun, upload_all, upload_all-upload,
}
use remote_backup_m1_server.Core.RequestHandler.Update.{update_file}
use remote_backup_m1_server.Core.RequestHandler.Update.Whole.{settled, update_file_lem}
use remote_backup_m1_server.Tests.Maps.{memory-IsText}
use remote_backup_m1_server.Tests.Files.{memory-HasParents}
use remote_backup_m1_server.Core.RequestHandler.Erase.Whole.{Erases, erase_file_lem}
use remote_backup_m1_server.Tests.{
  memory, config, Files, file_at, put, take_out, content_of, state, synced,
}

-- What was put is found, and to put twice is to put once.
file_at-put : (p a : List ℕ) (fs : Files) → file_at p (put p a fs) ≡ some a
unfolding file_at put
file_at-put p a [] = rw (bytes_eq_refl p) refl
file_at-put p a ((q, old) ∷ rest) = elim (Bool-cases (bytes_eq q p)) [
  | inl e ↦ simp e refl
  | inr e ↦ simp e (file_at-put p a rest)
]

content_of-put : (p a : List ℕ) (fs : Files) → content_of p (put p a fs) ≡ a
unfolding content_of
content_of-put p a fs = rw (content_of, file_at-put p a fs) refl

put-put : (p a b : List ℕ) (fs : Files) → put p b (put p a fs) ≡ put p b fs
unfolding put
put-put p a b [] = rw (bytes_eq_refl p) refl
put-put p a b ((q, old) ∷ rest) = elim (Bool-cases (bytes_eq q p)) [
  | inl e ↦ simp e refl
  | inr e ↦ simp e (ap (◌∷◌ (q, old)) (put-put p a b rest))
]

memory-joins :
    (p : List ℕ) (fs : Files) (a b : List ℕ)
    → memory.write p b (memory.write p a fs) ≡ memory.write p (a ++ b) fs
memory-joins p fs a b =
    ap (λ x. put p (x ++ b) (memory.write p a fs)) (content_of-put p (content_of p fs ++ a) fs)
    ∙ put-put p (content_of p fs ++ a) ((content_of p fs ++ a) ++ b) fs
    ∙ ap (λ x. put p x fs) (append_assoc (content_of p fs) a b)

abbrev view_of : ℕ → List ℕ → TlvView
view_of n raw = record {
  tlv_type = 6;
  tlv_length = n;
  raw_msg = raw;
  data_begin = 6;
  data_end = 6 + n;
  valid = true;
  finished = false;
}

-- The CONTENT `z` and END.
abbrev last : Chunk
last = record {
  seen = view_of 1 (1 ∷ 6 ∷ 0 ∷ 0 ∷ 0 ∷ 1 ∷ 122 ∷ 3 ∷ 0 ∷ 0 ∷ 0 ∷ 0 ∷ []);
  bytes = codes "z";
}

abbrev home : Dir (List ℕ)
home = record { path = codes "root/a"; content = []; concurrent_accessed = false }

abbrev file : List ℕ
file = codes "root/a/f"

-- The disk with the empty file, and with its first byte.
abbrev opened : Files
opened = (codes "keys", 97 ∷ 9 ∷ 120 ∷ 10 ∷ []) ∷ (file, []) ∷ []

abbrev written : Files
written = (codes "keys", 97 ∷ 9 ∷ 120 ∷ 10 ∷ []) ∷ (file, codes "yz") ∷ []

abbrev sign : List ℕ
sign = codes "f" ++ (0 ∷ codes "fyz")

abbrev item_view : List ℕ → TlvView
item_view raw = record {
  tlv_type = 2;
  tlv_length = 5;
  raw_msg = raw;
  data_begin = 6;
  data_end = 11;
  valid = true;
  finished = false;
}

abbrev content_view : ℕ → List ℕ → TlvView
content_view n raw = record {
  tlv_type = 6;
  tlv_length = n;
  raw_msg = raw;
  data_begin = 16;
  data_end = 16 + n;
  valid = true;
  finished = false;
}

-- A CREATE request with the sign and these bytes, and what follows them.
abbrev upload_of : List ℕ → List ℕ → Upload
upload_of bytes more =
    let n : ℕ = length bytes in
    let raw : List ℕ = 1 ∷ 2 ∷ 0 ∷ 0 ∷ 0 ∷ 5 ∷ (sign ++ (6 ∷ 0 ∷ 0 ∷ 0 ∷ n ∷ (bytes ++ more))) in
    record {
      request = of_buffer raw;
      item = item_view raw;
      chunk = record { seen = content_view n raw; bytes = bytes };
    }

abbrev end_segment : List ℕ
end_segment = 3 ∷ 0 ∷ 0 ∷ 0 ∷ 0 ∷ []

abbrev first_upload : Upload
first_upload = upload_of (codes "y") []

abbrev last_upload : Upload
last_upload = upload_of (codes "z") end_segment

abbrev whole_upload : Upload
whole_upload = upload_of (codes "yz") end_segment

sign-split : split_sign memory sign ≡ ok (codes "f", codes "fyz")
unfolding create_sign
sign-split =
    split_sign-create_sign memory memory-IsText (codes "f") (codes "fyz") (refl, (refl, (refl, tt)))

first-IsUpload : IsUpload sign first_upload
unfolding view next_tlv read_tlv read get_type get_value Message.msg_type
first-IsUpload = record {
  named = refl;
  to_item = refl;
  item_type = refl;
  item_value = refl;
  to_content = refl;
  content_type = refl;
}

last-IsUpload : IsUpload sign last_upload
unfolding view next_tlv read_tlv read get_type get_value Message.msg_type
last-IsUpload = record {
  named = refl;
  to_item = refl;
  item_type = refl;
  item_value = refl;
  to_content = refl;
  content_type = refl;
}

whole-IsUpload : IsUpload sign whole_upload
unfolding view next_tlv read_tlv read get_type get_value Message.msg_type
whole-IsUpload = record {
  named = refl;
  to_item = refl;
  item_type = refl;
  item_value = refl;
  to_content = refl;
  content_type = refl;
}

upload_all-upload_example :
    (upload_all memory config sign
        (codes "f")
        (codes "fyz")
        sign-split
        (first_upload ∷ last_upload ∷ [])
        (state synced)
      ≡ (
        ok tt,
        received memory
            (state synced)
            home
            (codes "f")
            (codes "fyz")
            file
            (begun sign)
            written
            last_upload.chunk,
      ))
    × (handle_request memory config whole_upload.request (state synced) ≡ (
      ok tt,
      received memory
          (state synced)
          home
          (codes "f")
          (codes "fyz")
          file
          (begun sign)
          written
          whole_upload.chunk,
    ))
unfolding bytes_eq find_stream put content_of file_at take_out get_value verify_end zeros_before
    read_before read md5_hash_file md5_hash_content md5_to_string first_byte is_complete rsrc find
upload_all-upload_example =
    upload_all-upload memory config sign (codes "f") (codes "fyz") sign-split (state synced) home
      file refl refl first_upload [] last_upload whole_upload opened refl refl refl
      (memory-joins file) refl refl refl refl
      (record { made = refl; reopened = refl; good = refl }, tt)
      (record { value = refl; last = refl }) tt (record { value = refl; last = refl })
      (record { value = refl; last = refl }) (first-IsUpload, (last-IsUpload, tt)) whole-IsUpload
      refl refl

-- The user has the file `f` with the content `w`, and sends `z` for it.
abbrev stored_file : Files
stored_file = (file, codes "w") ∷ []

abbrev known : Dir (List ℕ)
known = record home { content = (codes "f", record { synced = true; digest = codes "fw" }) ∷ [] }

abbrev updating : Ctx memory
updating = record (state (record synced { dir_ptr = some known })) {
  disk = stored_file;
  msg_view = last.seen;
}

update_file_lem_example :
    update_file memory (codes "f") (codes "fz") (codes "fw") updating
    ≡ settled memory updating known
        (codes "f")
        (codes "fz")
        (codes "fw")
        (file ++ codes ".temp")
        ((codes "f", record { synced = true; digest = codes "fz" }) ∷ [])
        ((file, codes "z") ∷ [])
        []
        last.seen
        updating.replies
        true
unfolding bytes_eq find_stream put content_of file_at take_out get_value verify_end zeros_before
    read_before read md5_hash_file md5_hash_content md5_to_string assign first_byte same_key
update_file_lem_example =
    update_file_lem memory updating known (codes "f") (codes "fz") (codes "fw")
      (file ++ codes ".temp") (codes "z") _ _ _ _ _ refl refl refl refl
      (record { value = refl; last = refl }) refl refl refl refl

erase_file_lem_example : Erases memory memory-HasParents updating known (codes "f") updating
erase_file_lem_example = erase_file_lem memory memory-HasParents updating known (codes "f") refl
