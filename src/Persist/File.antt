-- ===== src/Persist/File.antt =====
-- `FilePersist` of src/persist.rs, over the operations of `std::fs` that it calls.
use acme_lib.Prelude.{String, Option, none, some, Bytes, ◌⊎◌, inl, inr}
use acme_lib.Std.{push, set_extension}
use acme_lib.Crates.{Crates}
use acme_lib.Outcome.{Outcome, ok, or_io, map_ok}
use acme_lib.Persist.{Persist}
use acme_lib.Persist.Key.{PersistKey, kind_name, key_to_string}

-- `std::fs` on paths given as text. A file is closed when it goes out of scope.
pub record FileSystem (C : Crates) : Type 1 where
  pub Files : Type 0
  pub Handle : Type 0
  pub create : String → Files → (C.IoError ⊎ Handle) × Files
  pub write_all : Handle → Bytes → Files → (C.IoError ⊎ Unit {0}) × Files
  pub open_file : String → Files → (C.IoError ⊎ Handle) × Files
  pub read_to_end : Handle → Files → (C.IoError ⊎ Bytes) × Files

unfoldable pub file_name_of : String → PersistKey → String
file_name_of dir key = set_extension (push dir (key_to_string key)) (kind_name key.kind)

module _ (C : Crates) (fs : FileSystem C) where
  abbrev written : Bytes → (C.IoError ⊎ fs.Handle) × fs.Files → Outcome C Unit × fs.Files
  written value (inl e, s) = (or_io (inl e), s)
  written value (inr file, s) = let (r, after) = fs.write_all file value s in (or_io r, after)

  -- The body of `put`, on a path.
  abbrev pub write_file : String → Bytes → fs.Files → Outcome C Unit × fs.Files
  write_file path value s = written value (fs.create path s)

  abbrev loaded : (C.IoError ⊎ fs.Handle) × fs.Files → Outcome C (Option Bytes) × fs.Files
  loaded (inl e, s) = (ok none, s)
  loaded (inr file, s) = let (r, after) = fs.read_to_end file s in (map_ok some (or_io r), after)

  -- The body of `get`, on a path.
  abbrev pub read_file : String → fs.Files → Outcome C (Option Bytes) × fs.Files
  read_file path s = loaded (fs.open_file path s)

  -- `FilePersist { dir }`
  abbrev pub file_persist : String → Persist C
  file_persist dir = record {
    Store = fs.Files;
    put = λ key value. write_file (file_name_of dir key) value;
    get = λ key. read_file (file_name_of dir key);
  }
