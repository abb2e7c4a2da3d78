-- ===== src/Tests/Files.antt =====
-- core/request_handler.cpp: a file in one chunk, and the directories above an erased file.
use remote_backup_m1_server.Prelude.{
  Bool, ℕ, ◌≡◌, refl, true, false, List, [], ◌∷◌, codes, bytes_eq,
}
use remote_backup_m1_server.Outcome.{Outcome, ok}
use remote_backup_m1_server.Communication.MessageQueue
use remote_backup_m1_server.Communication.MessageQueue.Segments.{new-Holds}
use remote_backup_m1_server.Core.Exec.{pure, gets, lift, modify, ◌>>=◌}
use remote_backup_m1_server.Core.RequestHandler.Sync.{
  relative_to, put_resource, sync_file, sync_files,
}
use remote_backup_m1_server.Core.RequestHandler.Sync.Listing.{IsListed, sync_files_lem}
use remote_backup_m1_server.Communication.TlvView.{
  TlvView, get_value, verify_end, zeros_before, read_before, read,
}
use remote_backup_m1_server.Directory.Dir.{Dir, find, is_found, contains, insert_or_assign}
use remote_backup_m1_server.Utilities.Tools.{md5_hash_file, md5_hash_content, md5_to_string}
use remote_backup_m1_server.Core.OpenStreams.{find_stream}
use remote_backup_m1_server.Core.RequestHandler.State.{
  Ctx, get_dir, deref, set_dir_object, add_item,
}
use remote_backup_m1_server.Core.RequestHandler.Create.{create_file}
use remote_backup_m1_server.Core.RequestHandler.Create.Whole.{stored, create_file_lem}
use remote_backup_m1_server.Core.RequestHandler.Erase.{prune, prune_fuel}
use remote_backup_m1_server.Core.RequestHandler.Erase.Pruning.{HasParents, SameButDisk, prune_lem}
use remote_backup_m1_server.Tests.{
  memory, file_at, put, take_out, content_of, state, synced, unsynced, disk,
}

-- The view on the CONTENT `z` of a request that ends there.
abbrev content : TlvView
content = record {
  tlv_type = 6;
  tlv_length = 1;
  raw_msg = 1 ∷ 6 ∷ 0 ∷ 0 ∷ 0 ∷ 1 ∷ 122 ∷ 3 ∷ 0 ∷ 0 ∷ 0 ∷ 0 ∷ [];
  data_begin = 6;
  data_end = 7;
  valid = true;
  finished = false;
}

abbrev home : Dir (List ℕ)
home = record { path = codes "root/a"; content = []; concurrent_accessed = false }

abbrev receiving : Ctx memory
receiving = record (state synced) { msg_view = content }

create_file_lem_example :
    create_file memory (codes "f") (codes "fz") receiving
    ≡ (ok tt, stored memory receiving home (codes "f") (codes "fz") (codes "z"))
unfolding find_stream get_value verify_end zeros_before read_before read md5_hash_file
    md5_hash_content md5_to_string file_at put take_out content_of bytes_eq
create_file_lem_example =
    create_file_lem memory receiving home (codes "f") (codes "fz") (codes "z") refl refl refl refl
      refl refl refl

pub memory-HasParents : HasParents memory
memory-HasParents = record { shorter = λ p h. h; no_directory = λ p disk e. refl }

prune_lem_example :
    (d : Ctx memory) × (prune memory
        (prune_fuel memory (codes "root/a/b"))
        (codes "root/a")
        (codes "root/a/b")
        false
        receiving
      ≡ (ok tt, d))
    × SameButDisk memory memory-HasParents receiving d
prune_lem_example =
    prune_lem memory memory-HasParents (codes "root/a") (codes "root/a/b") false receiving

abbrev before : Ctx memory
before = record (state unsynced) { replies = MessageQueue.new 4 }

abbrev listed : Outcome Bool × Ctx memory
listed = sync_files memory [] ((codes "keys", true) ∷ []) false before

sync_files_lem_example :
    (false ≡ false) × IsListed memory [] disk [] ((codes "keys", true) ∷ []) listed.1
unfolding sync_files sync_file put_resource relative_to get_dir deref set_dir_object add_item
    md5_hash_file md5_hash_content md5_to_string file_at bytes_eq insert_or_assign contains is_found
    find pure gets lift modify ◌>>=◌
sync_files_lem_example =
    sync_files_lem memory [] disk ((codes "keys", true) ∷ []) false [] before _ refl (new-Holds 4)
      refl
