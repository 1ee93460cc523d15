-- ===== src/Std/Chars.antt =====
-- Texts whose characters all have a property, on their codes.
use Prim.Native.Char.{Char, code}
use text.Mathlib.TextLemmas.{nil-append, cons-append}
use acme_lib.Prelude.{ℕ, String, ◌<>◌, ◌≢◌, sym, subst, inl, inr, Bool-cases, arith, ◌=ᵇ◌}
use acme_lib.Std.Text.{replace_char}

abbrev pub AllChars : (ℕ → Type 0) → String → Type 0
AllChars Q String.[] = Unit
AllChars Q (String.◌∷◌ c s) = Q (code c) × AllChars Q s

pub AllChars-mono :
    (Q R : ℕ → Type 0) → ((n : ℕ) → Q n → R n) → (s : String) → AllChars Q s → AllChars R s
AllChars-mono Q R f String.[] h = tt
AllChars-mono Q R f (String.◌∷◌ c s) (hc, h) = (f (code c) hc, AllChars-mono Q R f s h)

module _ (Q : ℕ → Type 0) where
  pub AllChars-append : (s t : String) → AllChars Q s → AllChars Q t → AllChars Q (s <> t)
  AllChars-append String.[] t hs ht = subst (AllChars Q) (sym (nil-append t)) ht
  AllChars-append (String.◌∷◌ c s) t (hc, hs) ht =
      subst (AllChars Q) (sym (cons-append c s t)) (hc, AllChars-append s t hs ht)

  -- After a replacement: the characters that stay, and those of the text that is put in.
  pub AllChars-replace_char :
      (from : Char) (to s : String)
      → AllChars Q to
      → AllChars (λ n. n ≢ code from → Q n) s
      → AllChars Q (replace_char from to s)
  unfolding replace_char
  AllChars-replace_char from to String.[] ht hs = tt
  AllChars-replace_char from to (String.◌∷◌ c s) ht (hc, hs) =
      elim (Bool-cases (code c =ᵇ code from)) [
        | inl same ↦ rw same (AllChars-append to _ ht (AllChars-replace_char from to s ht hs))
        | inr other ↦ rw other (hc (ground arith), AllChars-replace_char from to s ht hs)
      ]
