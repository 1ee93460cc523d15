-- ===== src/Tests/Files.antt =====
-- Runs of the file persistence, on files that are a list of paths with their bytes.
use acme_lib.Prelude.{arith, String, ◌<>◌, ◌≡◌, refl, some, none, inl, inr, Bytes, [], Option, ◌⊎◌}
use acme_lib.Std.{decimal, digits, replace_char, push, set_extension}
use acme_lib.Std.Extension.{IsPlainName, entry}
use acme_lib.Persist.{PersistKind, PersistKey, kind_name, key_to_string, sanitize}
use acme_lib.Persist.Memory.{Entries, insert, lookup}
use acme_lib.Persist.File.{FileSystem, file_name_of}
use acme_lib.Persist.Files.{file_name_of-entry}
use acme_lib.Tests.Fixtures.{test_crates}

abbrev open_entry : String → Entries → Option Bytes → (test_crates.IoError ⊎ String) × Entries
open_entry path s none = (inl "none", s)
open_entry path s (some v) = (inr path, s)

abbrev bytes_of : Option Bytes → Bytes
bytes_of none = []
bytes_of (some v) = v

abbrev test_fs : FileSystem test_crates
test_fs = record {
  Files = Entries;
  Handle = String;
  create = λ path s. (inr path, insert path [] s);
  write_all = λ path v s. (inr tt, insert path v s);
  open_file = λ path s. open_entry path s (lookup path s);
  read_to_end = λ path s. (inr (bytes_of (lookup path s)), s);
}

abbrev star_key : PersistKey
star_key = record { realm = 7; kind = PersistKind.certificate; key = "*.a" }

-- The files of a key, in a directory with and without a separator at the end.
paths :
    (file_name_of "certs" star_key ≡ "certs/7_crt_STAR_a.crt")
    × (file_name_of "certs/" star_key ≡ "certs/7_crt_STAR_a.crt")
    × (file_name_of "" star_key ≡ "7_crt_STAR_a.crt")
unfolding file_name_of push set_extension key_to_string sanitize decimal digits replace_char
paths = (refl, refl, refl)

file_name_of-entry_example :
    (file_name_of "certs" star_key
      ≡ entry "certs" (key_to_string star_key <> "." <> kind_name star_key.kind))
    × IsPlainName (key_to_string star_key)
    × IsPlainName (kind_name star_key.kind)
file_name_of-entry_example = file_name_of-entry "certs" star_key (omega arith)
