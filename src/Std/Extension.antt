-- ===== src/Std/Extension.antt =====
-- Lemmas on `push` and `set_extension`, as `file_name_of` of src/persist.rs uses them.
use acme_lib.Prelude.{
  ne-eq_false, ℕ, String, ◌<>◌, true, false, List, [], ◌∷◌, ◌++◌, none, ◌==◌, if◌then◌else◌, ◌≡◌,
  ◌≢◌, refl, sym, ap, ◌∙◌, subst, arith, Bool-cases, inl, inr,
}
use Prim.Native.Char.{Char}
use mathlib.Core.List.{reverse, reverse-cons, reverse-append, reverse-reverse}
use text.Mathlib.TextLemmas.{nil-append, cons-append, append-nil, append_assoc}
use acme_lib.Std.Path.{
  chars, is_slash, is_dot, of_chars, needs_slash, push, skip_end, component, before_dot, stem,
  is_no_name, with_stem, set_extension,
}
use acme_lib.Std.Chars.{AllChars}

of_chars-chars : (s : String) → of_chars (chars s) ≡ s
of_chars-chars String.[] = refl
of_chars-chars (String.◌∷◌ c s) = ap (String.◌∷◌ c) (of_chars-chars s)

chars-append : (s t : String) → chars (s <> t) ≡ chars s ++ chars t
chars-append String.[] t = ap chars (nil-append t)
chars-append (String.◌∷◌ c s) t = ap chars (cons-append c s t) ∙ ap (λ l. c ∷ l) (chars-append s t)

-- Neither a separator nor a dot.
abbrev IsPlain : List Char → Type 0
IsPlain [] = Unit
IsPlain (c ∷ l) = (is_slash c ≡ false) × (is_dot c ≡ false) × IsPlain l

IsPlain-append : (l r : List Char) → IsPlain l → IsPlain r → IsPlain (l ++ r)
IsPlain-append [] r hl hr = hr
IsPlain-append (c ∷ l) r (s, d, hl) hr = (s, d, IsPlain-append l r hl hr)

IsPlain-reverse : (l : List Char) → IsPlain l → IsPlain (reverse l)
IsPlain-reverse [] h = tt
IsPlain-reverse (c ∷ l) (s, d, h) =
    subst IsPlain (sym (reverse-cons c l))
      (IsPlain-append (reverse l) (c ∷ []) (IsPlain-reverse l h) (s, d, tt))

-- The name of a file: no separator and no dot.
abbrev pub IsPlainCode : ℕ → Type 0
IsPlainCode n = (n ≢ 47) × (n ≢ 46)

abbrev pub IsPlainName : String → Type 0
IsPlainName = AllChars IsPlainCode

chars-IsPlain : (s : String) → IsPlainName s → IsPlain (chars s)
chars-IsPlain String.[] h = tt
chars-IsPlain (String.◌∷◌ c s) ((a, b), h) = (ground arith, ground arith, chars-IsPlain s h)

-- The end of a path, or a separator.
abbrev IsBoundary : List Char → Type 0
IsBoundary [] = Unit
IsBoundary (c ∷ l) = is_slash c ≡ true

component-plain :
    (name before : List Char)
    → IsPlain name
    → IsBoundary before
    → component (name ++ before) ≡ (name, before)
component-plain [] [] h b = refl
component-plain [] (c ∷ l) h b = rw b refl
component-plain (c ∷ l) before (s, d, h) b = rw s (rw (component-plain l before h b) refl)

skip_end-plain :
    (c : Char) (l : List Char) → is_slash c ≡ false → is_dot c ≡ false → skip_end (c ∷ l) ≡ c ∷ l
skip_end-plain c [] s d = rw s refl
skip_end-plain c (e ∷ l) s d = rw s (rw d refl)

before_dot-plain : (name : List Char) → IsPlain name → before_dot name ≡ none
before_dot-plain [] h = refl
before_dot-plain (c ∷ l) (s, d, h) = rw d (before_dot-plain l h)

stem-plain : (name : List Char) → IsPlain name → stem name ≡ name
stem-plain name h = rw (before_dot-plain name h) refl

is_no_name-plain : (c : Char) (l : List Char) → IsPlain (c ∷ l) → is_no_name (c ∷ l) ≡ false
is_no_name-plain c [] (s, d, h) = d
is_no_name-plain c (e ∷ []) (s, d, h) = rw d refl
is_no_name-plain c (e ∷ f ∷ l) h = refl

before_end-IsBoundary :
    (path : String)
    → IsBoundary
        (reverse (chars (path <> (if needs_slash (reverse (chars path)) then "/" else ""))))
before_end-IsBoundary path = elim (Bool-cases (needs_slash (reverse (chars path)))) [
  | inl needed ↦ rw needed (
      subst (λ l. IsBoundary (reverse l)) (sym (chars-append path "/"))
        (subst IsBoundary (sym (reverse-append (chars path) (chars "/"))) refl))
  | inr ends ↦ rw ends (
      subst (λ s. IsBoundary (reverse (chars s))) (sym (append-nil path))
        (ended (reverse (chars path)) ends))
]
  where
    ended : (l : List Char) → needs_slash l ≡ false → IsBoundary l
    ended [] e = tt
    ended (c ∷ l) e = ground arith

with_stem-plain :
    (r before : List Char) (path extension : String)
    → r ≢ []
    → IsPlain r
    → IsBoundary before
    → with_stem (component (skip_end (r ++ before))) path extension
      ≡ of_chars (reverse (r ++ before)) <> (if extension == "" then "" else "." <> extension)
with_stem-plain [] before path extension some_name h b = absurd (some_name refl)
with_stem-plain (c ∷ l) before path extension some_name (s, d, h) b =
    rw (skip_end-plain c (l ++ before) s d) (
      rw (component-plain (c ∷ l) before (s, d, h) b)
        (rw (is_no_name-plain c l (s, d, h)) (rw (stem-plain (c ∷ l) (s, d, h)) refl)))

-- Appended to a path as one more component.
abbrev pub entry : String → String → String
entry dir name = (dir <> (if needs_slash (reverse (chars dir)) then "/" else "")) <> name

push-plain : (dir name : String) → IsPlain (chars name) → push dir name ≡ entry dir name
unfolding push
push-plain dir String.[] h = sym (append_assoc dir _ _)
push-plain dir (String.◌∷◌ c s) (no_slash, no_dot, h) =
    rw no_slash (sym (append_assoc dir _ (String.◌∷◌ c s)))

-- The name of a file in a directory, with an extension.
pub set_extension-push :
    (dir name extension : String)
    → IsPlainName name
    → name ≢ ""
    → extension ≢ ""
    → set_extension (push dir name) extension ≡ entry dir name <> "." <> extension
unfolding set_extension
set_extension-push dir name extension plain some_name some_extension =
    rw (push-plain dir name (chars-IsPlain name plain)) (
      rw reversed (
        with_stem-plain (reverse (chars name)) (reverse (chars before)) (entry dir name) extension
          non_empty (IsPlain-reverse (chars name) (chars-IsPlain name plain))
          (before_end-IsBoundary dir)
        ∙ rw (sym reversed) (
            rw (reverse-reverse (chars (entry dir name))) (
              rw (of_chars-chars (entry dir name))
                (rw (ne-eq_false extension "" some_extension) refl)))))
  where
    before : String
    before = dir <> (if needs_slash (reverse (chars dir)) then "/" else "")

    reversed : reverse (chars (entry dir name)) ≡ reverse (chars name) ++ reverse (chars before)
    reversed = ap reverse (chars-append before name) ∙ reverse-append (chars before) (chars name)

    non_empty : reverse (chars name) ≢ []
    non_empty e = some_name (
        sym (of_chars-chars name) ∙ ap of_chars (sym (reverse-reverse (chars name)) ∙ ap reverse e))
