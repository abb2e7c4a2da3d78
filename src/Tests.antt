-- ===== src/Tests.antt =====
-- A platform in memory for the tests: a path is its text, a file its path and bytes, a stream the path
-- that it writes to, and a digest the text itself.
mod Wire
mod Sessions
mod Maps
mod Files
mod Connections
mod Servers
mod Cycles
mod Programs
mod Transfers
mod Requests
use remote_backup_m1_server.Prelude.{
  ℕ, Bool, true, false, List, [], ◌∷◌, ◌++◌, Option, none, some, length, map, bytes_eq,
  if◌then◌else◌, codes,
}
use remote_backup_m1_server.Platform.{Platform}
use remote_backup_m1_server.Core.User.{User}
use remote_backup_m1_server.Core.RequestHandler.State.{Config, Ctx}
use remote_backup_m1_server.Communication.MessageQueue.{MessageQueue}
use remote_backup_m1_server.Communication.TlvView.{TlvView}
use remote_backup_m1_server.Utilities.Tools.Signs.{split_last, groups_of}

abbrev pub Files : Type 0
Files = List (List ℕ × List ℕ)

unfoldable pub file_at : List ℕ → Files → Option (List ℕ)
file_at path [] = none
file_at path ((p, bytes) ∷ rest) = if bytes_eq p path then some bytes else file_at path rest

unfoldable pub put : List ℕ → List ℕ → Files → Files
put path bytes [] = (path, bytes) ∷ []
put path bytes ((p, old) ∷ rest) =
    if bytes_eq p path then (p, bytes) ∷ rest else (p, old) ∷ put path bytes rest

unfoldable pub take_out : List ℕ → Files → Files
take_out path [] = []
take_out path ((p, old) ∷ rest) = if bytes_eq p path then rest else (p, old) ∷ take_out path rest

unfoldable pub content_of : List ℕ → Files → List ℕ
unfolding file_at
content_of path files = elim (file_at path files) [ none ↦ [] | some bytes ↦ bytes ]

abbrev pub memory : Platform
memory = record {
  FsPath = List ℕ;
  path_eq = bytes_eq;
  to_path = λ text. text;
  generic_string = λ p. p;
  path_size = length;
  join = λ p q. p ++ (47 ∷ q);
  parent_path = λ p. [];
  concat_path = ◌++◌;
  Disk = Files;
  Stream = List ℕ;
  create_directories = λ p d. (false, d);
  remove = λ p d. (false, take_out p d);
  rename = λ p q d. (false, put q (content_of p d) (take_out p d));
  is_empty = λ p d. false;
  walk = λ p d. (map (λ (q, bytes). (q, true)) d, false);
  read_file = file_at;
  open_append = λ p d. (p, put p (content_of p d) d);
  is_good = λ s d. true;
  write = λ s bytes d. put s (content_of s d ++ bytes) d;
  flush = λ s d. d;
  close = λ s d. d;
  md5 = λ text. text;
  hex_words = λ text. text;
  sha512 = λ text. text;
  hex_bytes = λ text. text;
  regex_match = λ regex text. groups_of text (split_last text);
  freed = some;
  empty_front = true;
  path_hash = length;
}

-- The credentials of one user `a`, whose password is any byte behind `x`.
abbrev pub config : Config memory
config = record { backup_root = codes "root"; credentials_path = codes "keys" }

abbrev pub disk : Files
disk = (codes "keys", 97 ∷ 9 ∷ 120 ∷ 10 ∷ []) ∷ []

abbrev pub state : User (List ℕ) → Ctx memory
state user = record {
  disk = disk;
  streams = [];
  user = user;
  msg_view = record {
    tlv_type = 0;
    tlv_length = 0;
    raw_msg = [];
    data_begin = 0;
    data_end = 0;
    valid = false;
    finished = false;
  };
  replies = record { msgs_queue = []; queue_type = 0; error = false };
}

abbrev pub guest : User (List ℕ)
guest = record {
  id = [];
  username = [];
  ip = [];
  is_auth = false;
  is_synced = false;
  dir_ptr = none;
}

abbrev pub unsynced : User (List ℕ)
unsynced = record {
  id = codes "a";
  username = codes "a";
  ip = [];
  is_auth = true;
  is_synced = false;
  dir_ptr = some (record { path = codes "root/a"; content = []; concurrent_accessed = false });
}

abbrev pub synced : User (List ℕ)
synced = record unsynced { is_synced = true }
