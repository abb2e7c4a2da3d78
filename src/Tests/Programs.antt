-- ===== src/Tests/Programs.antt =====
-- main.cpp: a run with default options, and what the note on the log file looks at.
use remote_backup_m1_server.Prelude.{
  ℕ, ◌≡◌, refl, true, false, List, [], ◌∷◌, Option, none, some, codes, bytes_eq,
}
use remote_backup_m1_server.Core.Exec.{◌>>=◌}
use remote_backup_m1_server.Program.{
  Setting, backup_root, credentials_file, logger_file, Library, Parsing, default_path,
  default_threads, parse_options,
}
use remote_backup_m1_server.Tests.{file_at, memory, Files}

-- The path of each option.
record Options : Type 0 where
  root : List ℕ
  credentials : List ℕ
  log : List ℕ

abbrev path_in : Setting → Options → Option (List ℕ)
path_in backup_root o = some o.root
path_in credentials_file o = some o.credentials
path_in logger_file o = some o.log

abbrev put_in : Setting → List ℕ → Options → Options
put_in backup_root p o = record o { root = p }
put_in credentials_file p o = record o { credentials = p }
put_in logger_file p o = record o { log = p }

abbrev library : Library memory
library = record {
  Values = Options;
  nothing_stored = record { root = codes "."; credentials = codes "keys"; log = codes "log" };
  store_command_line = λ arguments o. elim arguments [ [] ↦ some o | _ ↦ none ];
  store_config_file = λ text o. some o;
  notify = λ o. some tt;
  has_help = λ o. bytes_eq o.root (codes "help");
  path_of = path_in;
  set_path = put_in;
  defaulted = λ s o. elim s [ credentials_file ↦ true | _ ↦ false ];
  threads_defaulted = λ o. true;
  canonical = λ p disk. some p;
  is_directory = λ p disk. some (bytes_eq p (codes "."));
  is_regular_file = λ p disk. some true;
  set_up = λ o. some tt;
}

abbrev files : Files
files = (codes "./CONFIG.txt", []) ∷ []

abbrev started : Parsing library
started = record { vm = library.nothing_stored; printed = [] }

-- The log file was given, and the note says that it has its default value.
test_note :
    (parse_options library files [] started).1.printed
    ≡ default_path credentials_file (codes "keys")
      ∷ default_path logger_file (codes "log")
      ∷ default_threads
      ∷ []
unfolding parse_options ◌>>=◌ file_at bytes_eq
test_note = refl
