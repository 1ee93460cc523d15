-- ===== src/Cert/Names.antt =====
-- The alternative names of a signing request: `create_csr` of src/cert.rs.
use Prim.Native.String.{len}
use text.Mathlib.Text.{get?}
use text.Mathlib.TextPositions.{get?-append_middle, len-append}
use text.Mathlib.TextLemmas.{append-nil, append_assoc}
use acme_lib.Prelude.{String, ◌<>◌, List, [], ◌∷◌, map, ◌+◌, ◌≡◌, refl, sym, ap, subst, ◌∙◌, some}
use acme_lib.Std.{join}
use acme_lib.Crates.{Crates}
use acme_lib.Outcome.{ok}
use acme_lib.Cert.{alt_names_text}

join-map :
    (name : String) (names : List String)
    → join ", " (map (λ e. "DNS:" <> e) (name ∷ names)) ≡ "DNS:" <> join ", DNS:" (name ∷ names)
unfolding join
join-map name [] = refl
join-map name (next ∷ names) = rw (join-map next names) (
    append_assoc "DNS:" name (", " <> "DNS:" <> join ", DNS:" (next ∷ names))
    ∙ ap (λ t. "DNS:" <> name <> t) (sym (append_assoc ", " "DNS:" (join ", DNS:" (next ∷ names)))))

after_dns : (t : String) → get? ("DNS:" <> t) 4 (len ("DNS:" <> t)) ≡ some t
after_dns t = rw (len-append "DNS:" t) (
    subst (λ u. get? ("DNS:" <> u) 4 (4 + len t) ≡ some t) (append-nil t)
      (get?-append_middle "DNS:" t ""))

-- For one name or more: cutting `DNS:` off the joined list does not panic, and what a signing request
-- gives the builder is the names, each as it was, with `, DNS:` between any two that follow each other.
pub alt_names_text-join :
    {C : Crates} (name : String) (names : List String)
    → alt_names_text {C = C} (name ∷ names) ≡ ok (join ", DNS:" (name ∷ names))
unfolding alt_names_text
alt_names_text-join name names =
    rw (join-map name names) (rw (after_dns (join ", DNS:" (name ∷ names))) refl)
