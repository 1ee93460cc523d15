-- ===== src/Std/Decimal.antt =====
-- Lemmas on `decimal`, as the names of keys in src/persist.rs use it.
use acme_lib.Prelude.{
  subst, ℕ, zero, suc, ◌+◌, ◌-◌, ◌*◌, ◌/◌, ◌%◌, ◌^◌, ◌≤◌, ◌<◌, String, ◌≡◌, ◌≢◌, refl, sym, ap, ◌∙◌,
  inl, inr, Bool-cases, ltb, ltb→lt, ltb→le, arith,
}
use Prim.Native.Char.{code}
use native.Mathlib.Nat.{pow-suc}
use acme_lib.Std.Chars.{AllChars}
use acme_lib.Std.Text.{digit_char, digits, decimal}

-- No character of the text is an underscore.
abbrev pub NoUnderscore : String → Type 0
NoUnderscore = AllChars (λ n. n ≢ 95)

-- The number that a text of digits is read as, after `acc`.
read_digits : ℕ → String → ℕ
read_digits acc String.[] = acc
read_digits acc (String.◌∷◌ c s) = read_digits (acc * 10 + (code c - 48)) s

code-digit_char : (n : ℕ) → n < 10 → code (digit_char n) ≡ 48 + n
code-digit_char zero h = refl
code-digit_char (suc zero) h = refl
code-digit_char (suc (suc zero)) h = refl
code-digit_char (suc (suc (suc zero))) h = refl
code-digit_char (suc (suc (suc (suc zero)))) h = refl
code-digit_char (suc (suc (suc (suc (suc zero))))) h = refl
code-digit_char (suc (suc (suc (suc (suc (suc zero)))))) h = refl
code-digit_char (suc (suc (suc (suc (suc (suc (suc zero))))))) h = refl
code-digit_char (suc (suc (suc (suc (suc (suc (suc (suc zero)))))))) h = refl
code-digit_char (suc (suc (suc (suc (suc (suc (suc (suc (suc zero))))))))) h = refl
code-digit_char (suc (suc (suc (suc (suc (suc (suc (suc (suc (suc n)))))))))) h =
    absurd (omega arith)

module _ (Q : ℕ → Type 0) (of_digit : (d : ℕ) → d < 10 → Q (48 + d)) where
  digits-AllChars : (f n : ℕ) (acc : String) → AllChars Q acc → AllChars Q (digits f n acc)
  unfolding digits
  digits-AllChars zero n acc h = h
  digits-AllChars (suc f) n acc h = elim (Bool-cases (ltb n 10)) [
    | inl low ↦ rw low (digit n (ltb→lt n 10 low), h)
    | inr high ↦ rw high (digits-AllChars f (n / 10) _ (digit (n % 10) (omega arith), h))
  ]
    where
      digit : (d : ℕ) → d < 10 → Q (code (digit_char d))
      digit d l = subst Q (sym (code-digit_char d l)) (of_digit d l)

  pub decimal-AllChars : (n : ℕ) → AllChars Q (decimal n)
  unfolding decimal
  decimal-AllChars n = digits-AllChars 20 n "" tt

pub decimal-NoUnderscore : (n : ℕ) → NoUnderscore (decimal n)
decimal-NoUnderscore = decimal-AllChars (λ c. c ≢ 95) (λ d h e. omega arith)

read_digits-digits :
    (f n : ℕ) (acc : String)
    → n < 10 ^ f
    → 0 < f
    → read_digits 0 (digits f n acc) ≡ read_digits n acc
unfolding digits read_digits
read_digits-digits zero n acc h k = absurd (omega arith)
read_digits-digits (suc f) n acc h k = elim (Bool-cases (ltb n 10)) [
  | inl low ↦ rw low (
      ap (λ d. read_digits d acc)
        (one_digit (ltb→lt n 10 low) (code-digit_char n (ltb→lt n 10 low))))
  | inr high ↦ rw high (
      read_digits-digits f (n / 10) _ (shorter (pow-suc 10 f)) (more f h (ltb→le n 10 high))
      ∙ ap (λ d. read_digits d acc) (digits_join (code-digit_char (n % 10) (omega arith))))
]
  where
    one_digit : n < 10 → code (digit_char n) ≡ 48 + n → 0 + (code (digit_char n) - 48) ≡ n
    one_digit l e = omega arith

    shorter : 10 ^ suc f ≡ 10 ^ f * 10 → n / 10 < 10 ^ f
    shorter e = omega arith

    more : (g : ℕ) → n < 10 ^ suc g → 10 ≤ n → 0 < g
    more zero l m = absurd (omega arith)
    more (suc g) l m = omega arith

    digits_join :
        code (digit_char (n % 10)) ≡ 48 + n % 10
        → n / 10 * 10 + (code (digit_char (n % 10)) - 48) ≡ n
    digits_join e = omega arith

read_digits-decimal : (n : ℕ) → n < 10 ^ 20 → read_digits 0 (decimal n) ≡ n
unfolding decimal
read_digits-decimal n h = unfold read_digits in read_digits-digits 20 n "" h (omega arith)

pub decimal-injective : (m n : ℕ) → m < 10 ^ 20 → n < 10 ^ 20 → decimal m ≡ decimal n → m ≡ n
decimal-injective m n h k e =
    sym (read_digits-decimal m h) ∙ ap (read_digits 0) e ∙ read_digits-decimal n k
