-- ===== src/Platform.antt =====
-- What the repository calls and does not contain: Boost.Filesystem, the MD5 and hex of Boost, the
-- SHA512 of OpenSSL, Boost.Regex, and what is on the disk.
use remote_backup_m1_server.Prelude.{ℕ, Bool, List, Option}

-- A stream is a handle; its state and the files are in `Disk`. A `Bool` beside a `Disk` is the test of
-- the `error_code` that the call sets.
pub record Platform : Type 1 where
  pub FsPath : Type 0
  -- `operator==`, `path{string}`, `generic_path().string()`, `size()`, `operator/`, `parent_path`, `+=`
  pub path_eq : FsPath → FsPath → Bool
  pub to_path : List ℕ → FsPath
  pub generic_string : FsPath → List ℕ
  pub path_size : FsPath → ℕ
  pub join : FsPath → FsPath → FsPath
  pub parent_path : FsPath → FsPath
  pub concat_path : FsPath → List ℕ → FsPath
  pub Disk : Type 0
  pub Stream : Type 0
  pub create_directories : FsPath → Disk → Bool × Disk
  pub remove : FsPath → Disk → Bool × Disk
  pub rename : FsPath → FsPath → Disk → Bool × Disk
  -- `is_empty(path, ec)`, which is false when it sets `ec`
  pub is_empty : FsPath → Disk → Bool
  -- the paths below a directory with `is_regular_file` of each, and whether the iteration ended in a
  -- `filesystem_error`
  pub walk : FsPath → Disk → List (FsPath × Bool) × Bool
  -- `none` is a file that cannot be opened
  pub read_file : FsPath → Disk → Option (List ℕ)
  -- `fs::ofstream(path, binary | app)`, its `operator!`, writes through its buffer, `flush`, `close`
  pub open_append : FsPath → Disk → Stream × Disk
  pub is_good : Stream → Disk → Bool
  pub write : Stream → List ℕ → Disk → Disk
  pub flush : Stream → Disk → Disk
  pub close : Stream → Disk → Disk
  -- digests as words and bytes, and `boost::algorithm::hex` of them
  pub md5 : List ℕ → List ℕ
  pub hex_words : List ℕ → List ℕ
  pub sha512 : List ℕ → List ℕ
  pub hex_bytes : List ℕ → List ℕ
  -- `boost::regex_match(line, results, regex)`: the whole match and the groups
  pub regex_match : List ℕ → List ℕ → Option (List (List ℕ))
  -- what the characters of a destroyed `std::string` read as (see `close_response`); `none` is where
  -- the program does not survive the read
  pub freed : List ℕ → Option (List ℕ)
  -- whether it survives `&*v.cbegin()` on an empty vector (see `MD5_hash`)
  pub empty_front : Bool
  -- `std::hash<std::string>` of `path.string()`
  pub path_hash : FsPath → ℕ
