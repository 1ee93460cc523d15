-- ===== src/Std/Path.antt =====
-- `PathBuf::push` and `PathBuf::set_extension` of Rust's standard library, on Unix.
use acme_lib.Prelude.{
  ◌&&◌, String, ◌<>◌, Bool, true, false, List, [], ◌∷◌, ◌++◌, Option, none, some, ◌=ᵇ◌, ◌==◌,
  if◌then◌else◌,
}
use Prim.Native.Char.{Char, code}
use mathlib.Core.List.{reverse}

abbrev pub chars : String → List Char
chars String.[] = []
chars (String.◌∷◌ c s) = c ∷ chars s

abbrev pub of_chars : List Char → String
of_chars [] = String.[]
of_chars (c ∷ l) = String.◌∷◌ c (of_chars l)

abbrev pub is_slash : Char → Bool
is_slash c = code c =ᵇ 47

abbrev pub is_dot : Char → Bool
is_dot c = code c =ᵇ 46

abbrev starts_at_root : String → Bool
starts_at_root String.[] = false
starts_at_root (String.◌∷◌ c s) = is_slash c

-- Whether `push` puts a separator behind the path: it is not empty and does not end in one.
abbrev pub needs_slash : List Char → Bool
needs_slash [] = false
needs_slash (c ∷ l) = if is_slash c then false else true

unfoldable pub push : String → String → String
push path name =
    if starts_at_root name
    then name
    else path <> (if needs_slash (reverse (chars path)) then "/" else "") <> name

-- Paths from here on are read from their end. What the last component is followed by: separators, and
-- components that are a single dot.
abbrev pub skip_end : List Char → List Char
skip_end [] = []
skip_end (c ∷ []) = if is_slash c then [] else c ∷ []
skip_end (c ∷ d ∷ l) =
    let rest = skip_end (d ∷ l) in
    if is_slash c then rest else if is_dot c && is_slash d then rest else c ∷ d ∷ l

-- The component, and what is before it.
abbrev pub component : List Char → List Char × List Char
component [] = ([], [])
component (c ∷ l) =
    let (name, before) = component l in if is_slash c then ([], c ∷ l) else (c ∷ name, before)

-- The part before the last dot.
abbrev pub before_dot : List Char → Option (List Char)
before_dot [] = none
before_dot (c ∷ l) = if is_dot c then some l else before_dot l

abbrev stem_or : List Char → Option (List Char) → List Char
stem_or name none = name
stem_or name (some []) = name
stem_or name (some (c ∷ l)) = c ∷ l

-- `file_stem` of a file name; a name that begins with its only dot is all stem.
abbrev pub stem : List Char → List Char
stem name = stem_or name (before_dot name)

-- No file name: the path is a root or empty, or its last component is `.` or `..`.
abbrev pub is_no_name : List Char → Bool
is_no_name [] = true
is_no_name (c ∷ []) = is_dot c
is_no_name (c ∷ d ∷ []) = is_dot c && is_dot d
is_no_name _ = false

abbrev pub with_stem : List Char × List Char → String → String → String
with_stem (name, before) path extension =
    if is_no_name name
    then path
    else of_chars (reverse (stem name ++ before))
      <> (if extension == "" then "" else "." <> extension)

unfoldable pub set_extension : String → String → String
set_extension path extension =
    with_stem (component (skip_end (reverse (chars path)))) path extension
