-- ===== src/Std/Marks.antt =====
-- Texts that a character separates, as the names of keys in src/persist.rs are.
use Prim.Native.Char.{Char, code}
use text.Mathlib.TextLemmas.{nil-append, cons-append, head-eq_of_cons-eq, tail-eq_of_cons-eq}
use acme_lib.Prelude.{◌≡◌, ◌≢◌, refl, sym, ap, ◌∙◌, String, ◌<>◌}
use acme_lib.Std.Chars.{AllChars}

mark_cons : (m : Char) (s : String) → String.◌∷◌ m "" <> s ≡ String.◌∷◌ m s
mark_cons m s = cons-append m "" s ∙ ap (String.◌∷◌ m) (nil-append s)

-- Two texts that are equal up to their ends are equal before and after their first mark.
pub split_at_mark :
    (m : Char) (x y u v : String)
    → AllChars (λ n. n ≢ code m) x
    → AllChars (λ n. n ≢ code m) y
    → x <> String.◌∷◌ m "" <> u ≡ y <> String.◌∷◌ m "" <> v
    → (x ≡ y) × (u ≡ v)
split_at_mark m String.[] String.[] u v hx hy e =
    (refl, tail-eq_of_cons-eq (sym (front u) ∙ e ∙ front v))
  where
    front : (s : String) → "" <> String.◌∷◌ m "" <> s ≡ String.◌∷◌ m s
    front s = nil-append (String.◌∷◌ m "" <> s) ∙ mark_cons m s
split_at_mark m String.[] (String.◌∷◌ d y) u v hx (hd, hy) e = absurd (hd (ap code (sym same)))
  where
    same : ◌≡◌ {A = Char} m d
    same = head-eq_of_cons-eq (
        sym (nil-append (String.◌∷◌ m "" <> u) ∙ mark_cons m u)
        ∙ e
        ∙ cons-append d y (String.◌∷◌ m "" <> v))
split_at_mark m (String.◌∷◌ c x) String.[] u v (hc, hx) hy e = absurd (hc (ap code same))
  where
    same : ◌≡◌ {A = Char} c m
    same = head-eq_of_cons-eq (
        sym (cons-append c x (String.◌∷◌ m "" <> u))
        ∙ e
        ∙ nil-append (String.◌∷◌ m "" <> v)
        ∙ mark_cons m v)
split_at_mark m (String.◌∷◌ c x) (String.◌∷◌ d y) u v (hc, hx) (hd, hy) e =
    let (xy, uv) = split_at_mark m x y u v hx hy (tail-eq_of_cons-eq fronts) in
    (join (head-eq_of_cons-eq fronts) xy, uv)
  where
    fronts :
        ◌≡◌ {A = String}
          (String.◌∷◌ c (x <> String.◌∷◌ m "" <> u))
          (String.◌∷◌ d (y <> String.◌∷◌ m "" <> v))
    fronts =
        sym (cons-append c x (String.◌∷◌ m "" <> u)) ∙ e ∙ cons-append d y (String.◌∷◌ m "" <> v)

    join : c ≡ d → x ≡ y → ◌≡◌ {A = String} (String.◌∷◌ c x) (String.◌∷◌ d y)
    join p q = cc

-- A text with a mark in it is not empty.
pub mark-nonempty : (m : Char) (x u : String) → x <> String.◌∷◌ m "" <> u ≢ ""
mark-nonempty m String.[] u e = cons_empty m u (sym (nil-append _ ∙ mark_cons m u) ∙ e)
  where
    cons_empty : (c : Char) (s : String) → ◌≢◌ {A = String} (String.◌∷◌ c s) ""
    cons_empty c s e = cc
mark-nonempty m (String.◌∷◌ c x) u e = absurd (cons_empty c _ (sym (cons-append c x _) ∙ e))
  where
    cons_empty : (c : Char) (s : String) → ◌≢◌ {A = String} (String.◌∷◌ c s) ""
    cons_empty c s e = cc
