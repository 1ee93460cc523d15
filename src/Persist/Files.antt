-- ===== src/Persist/Files.antt =====
-- On the files of `FilePersist` of src/persist.rs.
use acme_lib.Std.Chars.{AllChars-mono, AllChars, AllChars-append, AllChars-replace_char}
use acme_lib.Prelude.{
  ℕ, Option, none, [], ◌++◌, length, String, ◌<>◌, ◌≡◌, ◌≢◌, inl, inr, refl, ap, ◌∙◌, some, Bytes,
  arith, eq_iff, true, false,
}
use acme_lib.Crates.{Crates}
use acme_lib.Outcome.{Outcome, ok}
use acme_lib.Std.{decimal}
use acme_lib.Std.Decimal.{decimal-AllChars}
use text.Mathlib.TextLemmas.{append_assoc}
use acme_lib.Std.Extension.{IsPlainCode, IsPlainName, entry, set_extension-push}
use acme_lib.Std.Marks.{mark-nonempty}
use acme_lib.Persist.Key.{
  PersistKind, account_private_key, private_key, certificate, kind_name, PersistKey, sanitize,
  key_to_string,
}
use acme_lib.Persist.File.{FileSystem, file_name_of, read_file}

-- No path separator.
abbrev pub NoSlash : String → Type 0
NoSlash = AllChars (λ n. n ≢ 47)

kind_name-IsPlainName : (k : PersistKind) → IsPlainName (kind_name k)
kind_name-IsPlainName account_private_key = omega arith
kind_name-IsPlainName private_key = omega arith
kind_name-IsPlainName certificate = omega arith

kind_name-nonempty : (k : PersistKind) → kind_name k ≢ ""
kind_name-nonempty account_private_key e = let h : false ≡ true = (eq_iff "key" "").1 e in cc
kind_name-nonempty private_key e = let h : false ≡ true = (eq_iff "key" "").1 e in cc
kind_name-nonempty certificate e = let h : false ≡ true = (eq_iff "crt" "").1 e in cc

sanitize-IsPlainName : (s : String) → NoSlash s → IsPlainName (sanitize s)
unfolding sanitize
sanitize-IsPlainName s h = AllChars-replace_char IsPlainCode "*" "STAR" _ (omega arith) (
    AllChars-mono IsPlainCode (λ n. n ≢ 42 → IsPlainCode n) (λ n p d. p) _
      (AllChars-replace_char IsPlainCode "." "_" s (omega arith)
        (AllChars-mono (λ n. n ≢ 47) (λ n. n ≢ 46 → IsPlainCode n) (λ n p d. (p, d)) s h)))

key_to_string-IsPlainName : (k : PersistKey) → NoSlash k.key → IsPlainName (key_to_string k)
unfolding key_to_string
key_to_string-IsPlainName k h =
    AllChars-append IsPlainCode (decimal k.realm) _
      (decimal-AllChars IsPlainCode (λ d l. (λ e. omega arith, λ e. omega arith)) k.realm)
      (AllChars-append IsPlainCode "_" _ (omega arith) (
        AllChars-append IsPlainCode (kind_name k.kind) _ (kind_name-IsPlainName k.kind)
          (AllChars-append IsPlainCode "_" _ (omega arith) (sanitize-IsPlainName k.key h))))

key_to_string-nonempty : (k : PersistKey) → key_to_string k ≢ ""
unfolding key_to_string
key_to_string-nonempty k = mark-nonempty "_" (decimal k.realm) _

-- The file of a key without path separators lies in the directory itself: its path is the directory's,
-- a separator where that does not end in one, and one component, which is the key's name, of no dot
-- and no separator, then a dot and the kind's extension.
pub file_name_of-entry :
    (dir : String) (k : PersistKey)
    → NoSlash k.key
    → (file_name_of dir k ≡ entry dir (key_to_string k <> "." <> kind_name k.kind))
      × IsPlainName (key_to_string k)
      × IsPlainName (kind_name k.kind)
unfolding file_name_of
file_name_of-entry dir k h = (
  set_extension-push dir (key_to_string k) (kind_name k.kind) (key_to_string-IsPlainName k h)
        (key_to_string-nonempty k) (kind_name-nonempty k.kind)
      ∙ append_assoc _ (key_to_string k) ("." <> kind_name k.kind),
  key_to_string-IsPlainName k h,
  kind_name-IsPlainName k.kind,
)

-- A path of a name with an extension in the directory.
abbrev pub IsIn : String → String → Type 0
IsIn dir path =
    (name : String) × (ext : String) × IsPlainName name
    × IsPlainName ext
    × (path ≡ entry dir (name <> "." <> ext))

-- What `std::fs` says of its operations, for a directory in which what is there under a name with an
-- extension is a file that can be read, and no two such paths are one file. A handle stands at an offset
-- of its file. Nothing is said of a step that fails.
pub record IsFileSystem {C : Crates} (fs : FileSystem C) (dir : String) : Type 0 where
  pub contents : fs.Files → String → Option Bytes
  pub path_of : fs.Handle → String
  pub offset : fs.Handle → ℕ
  pub create_empties :
      (path : String) (s t : fs.Files) (file : fs.Handle)
      → fs.create path s ≡ (inr file, t)
      → (path_of file ≡ path) × (offset file ≡ 0) × (contents t path ≡ some [])
  pub create_other :
      (path other : String) (s t : fs.Files) (file : fs.Handle)
      → IsIn dir path
      → IsIn dir other
      → path ≢ other
      → fs.create path s ≡ (inr file, t)
      → contents t other ≡ contents s other
  pub write_appends :
      (file : fs.Handle) (old v : Bytes) (s t : fs.Files)
      → contents s (path_of file) ≡ some old
      → offset file ≡ length old
      → fs.write_all file v s ≡ (inr tt, t)
      → contents t (path_of file) ≡ some (old ++ v)
  pub write_other :
      (file : fs.Handle) (other : String) (v : Bytes) (s t : fs.Files)
      → IsIn dir (path_of file)
      → IsIn dir other
      → path_of file ≢ other
      → fs.write_all file v s ≡ (inr tt, t)
      → contents t other ≡ contents s other
  pub open_missing :
      (path : String) (s : fs.Files)
      → contents s path ≡ none
      → (e : C.IoError) × (fs.open_file path s ≡ (inl e, s))
  pub open_found :
      (path : String) (v : Bytes) (s : fs.Files)
      → contents s path ≡ some v
      → (file : fs.Handle) × (fs.open_file path s ≡ (inr file, s))
        × (path_of file ≡ path)
        × (offset file ≡ 0)
  pub read_all :
      (file : fs.Handle) (v : Bytes) (s : fs.Files)
      → contents s (path_of file) ≡ some v
      → offset file ≡ 0
      → fs.read_to_end file s ≡ (inr v, s)

module _ {C : Crates} (fs : FileSystem C) (dir : String) (files : IsFileSystem fs dir) where
  -- The body of `get` gives what the file holds, and changes nothing.
  pub read_file-contents :
      (path : String) (s : fs.Files) → read_file C fs path s ≡ (ok (files.contents s path), s)
  read_file-contents path s = go (files.contents s path) refl
    where
      go :
          (o : Option Bytes)
          → files.contents s path ≡ o
          → read_file C fs path s ≡ (ok (files.contents s path), s)
      go none e = let (error, missing) = files.open_missing path s e in rw missing (rw e refl)
      go (some v) e =
          let (file, found, at, start) = files.open_found path v s e in
          let reads = files.read_all file v s (ap (files.contents s) at ∙ e) start in
          rw found (rw reads (rw e refl))
