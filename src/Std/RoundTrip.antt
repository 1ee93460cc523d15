-- ===== src/Std/RoundTrip.antt =====
-- On src/persist.rs's values as text: `as_bytes`, `from_utf8` and `from_utf8_lossy` of Std/Utf8.
use Prim.Native.Nat.{Ordering, compare}
use Prim.Native.Char.{Char, char, code, IsScalar}
use mathlib.Core.Option.{some-injective}
use mathlib.Core.Option
use native.Mathlib.Omega.{compare-lt}
use acme_lib.Prelude.{
  ℕ, zero, suc, ◌+◌, ◌/◌, ◌%◌, ◌≤◌, ◌<◌, ◌≡◌, refl, ap, ◌∙◌, String, Option, none, some, [], ◌∷◌,
  ◌++◌, arith, length, length-append, Bytes, inl, inr, ◌⊎◌,
}
use acme_lib.Std.Utf8.{
  from_u32, ScalarOrder, scalar?, encode_char, as_bytes, Decoded, decode_char, cons?,
  or_replacement, from_utf8_fuel, from_utf8, from_utf8_lossy_fuel, from_utf8_lossy,
}

scalar?-complete : (o p q : Ordering) → (s : ScalarOrder o p q) → scalar? o p q ≡ some s
scalar?-complete Ordering.lt p q tt = refl
scalar?-complete Ordering.eq Ordering.lt Ordering.lt tt = refl
scalar?-complete Ordering.eq Ordering.lt Ordering.eq s = absurd s
scalar?-complete Ordering.eq Ordering.lt Ordering.gt s = absurd s
scalar?-complete Ordering.eq Ordering.eq q s = absurd s
scalar?-complete Ordering.eq Ordering.gt q s = absurd s
scalar?-complete Ordering.gt Ordering.lt Ordering.lt tt = refl
scalar?-complete Ordering.gt Ordering.lt Ordering.eq s = absurd s
scalar?-complete Ordering.gt Ordering.lt Ordering.gt s = absurd s
scalar?-complete Ordering.gt Ordering.eq q s = absurd s
scalar?-complete Ordering.gt Ordering.gt q s = absurd s

from_u32-code : (c : Char) → from_u32 (code c) ≡ some c
unfolding from_u32
from_u32-code (char n p) =
    ap (Option.map (λ (q : IsScalar n). char n q))
      (scalar?-complete (compare n 55296) (compare 57343 n) (compare n 1114112) p)

decode_two :
    (n : ℕ) (r : Bytes)
    → 128 ≤ n
    → n < 2048
    → decode_char (192 + n / 64) ((128 + n % 64) ∷ r) ≡ (from_u32 n, r)
unfolding decode_char
decode_two n r h k = ground arith

decode_three :
    (n : ℕ) (r : Bytes)
    → 2048 ≤ n
    → n < 65536
    → (n < 55296) ⊎ (57343 < n)
    → decode_char (224 + n / 4096) ((128 + n / 64 % 64) ∷ (128 + n % 64) ∷ r) ≡ (from_u32 n, r)
unfolding decode_char
decode_three n r h k s = ground arith

decode_four :
    (n : ℕ) (r : Bytes)
    → 65536 ≤ n
    → n < 1114112
    → decode_char
        (240 + n / 262144)
        ((128 + n / 4096 % 64) ∷ (128 + n / 64 % 64) ∷ (128 + n % 64) ∷ r)
      ≡ (from_u32 n, r)
unfolding decode_char
decode_four n r h k = ground arith

abbrev Scalar : ℕ → Type 0
Scalar n = (n < 55296) ⊎ ((57343 < n) × (n < 1114112))

bounds_of_comparisons :
    (n : ℕ) (o p q : Ordering)
    → compare n 55296 ≡ o
    → compare 57343 n ≡ p
    → compare n 1114112 ≡ q
    → ScalarOrder o p q
    → Scalar n
bounds_of_comparisons n Ordering.lt p q e1 e2 e3 s = inl (compare-lt n 55296 e1)
bounds_of_comparisons n Ordering.eq Ordering.lt Ordering.lt e1 e2 e3 s =
    inr (compare-lt 57343 n e2, compare-lt n 1114112 e3)
bounds_of_comparisons n Ordering.eq Ordering.lt Ordering.eq e1 e2 e3 s = absurd s
bounds_of_comparisons n Ordering.eq Ordering.lt Ordering.gt e1 e2 e3 s = absurd s
bounds_of_comparisons n Ordering.eq Ordering.eq q e1 e2 e3 s = absurd s
bounds_of_comparisons n Ordering.eq Ordering.gt q e1 e2 e3 s = absurd s
bounds_of_comparisons n Ordering.gt Ordering.lt Ordering.lt e1 e2 e3 s =
    inr (compare-lt 57343 n e2, compare-lt n 1114112 e3)
bounds_of_comparisons n Ordering.gt Ordering.lt Ordering.eq e1 e2 e3 s = absurd s
bounds_of_comparisons n Ordering.gt Ordering.lt Ordering.gt e1 e2 e3 s = absurd s
bounds_of_comparisons n Ordering.gt Ordering.eq q e1 e2 e3 s = absurd s
bounds_of_comparisons n Ordering.gt Ordering.gt q e1 e2 e3 s = absurd s

code-Scalar : (c : Char) → Scalar (code c)
code-Scalar (char n p) =
    bounds_of_comparisons n (compare n 55296) (compare 57343 n) (compare n 1114112) refl refl refl p

-- The code of a character, as its first byte and the bytes after it.
abbrev Encoded : ℕ → Type 0
Encoded n =
    (b : ℕ) × (t : Bytes) × (encode_char n ≡ b ∷ t)
    × ((r : Bytes) → decode_char b (t ++ r) ≡ (from_u32 n, r))

decode_one : (n : ℕ) (r : Bytes) → n < 128 → decode_char n r ≡ (from_u32 n, r)
unfolding decode_char
decode_one n r h = ground arith

four_ranges :
    (n : ℕ)
    → Scalar n
    → (n < 128)
      ⊎ ((128 ≤ n) × (n < 2048))
      ⊎ ((2048 ≤ n) × (n < 65536) × ((n < 55296) ⊎ (57343 < n)))
      ⊎ ((65536 ≤ n) × (n < 1114112))
four_ranges n s = ground arith

encoded : (n : ℕ) → Scalar n → Encoded n
unfolding encode_char
encoded n s = elim (four_ranges n s) [
  | inl h ↦ (n, [], ground arith, λ r. decode_one n r h)
  | inr rest ↦ elim rest [
    | inl h ↦ (192 + n / 64, (128 + n % 64) ∷ [], ground arith, λ r. decode_two n r h.0 h.1)
    | inr rest ↦ elim rest [
      | inl h ↦ (
        224 + n / 4096,
        (128 + n / 64 % 64) ∷ (128 + n % 64) ∷ [],
        ground arith,
        λ r. decode_three n r h.0 h.1 h.2,
      )
      | inr h ↦ (
        240 + n / 262144,
        (128 + n / 4096 % 64) ∷ (128 + n / 64 % 64) ∷ (128 + n % 64) ∷ [],
        ground arith,
        λ r. decode_four n r h.0 h.1,
      )
    ]
  ]
]

from_utf8-step :
    (f : ℕ) (c : Char) (r : Bytes)
    → from_utf8_fuel (suc f) (encode_char (code c) ++ r) ≡ cons? (some c) (from_utf8_fuel f r)
unfolding from_utf8_fuel
from_utf8-step f c r =
    let (b, t, e, d) = encoded (code c) (code-Scalar c) in
    ap (λ bs. from_utf8_fuel (suc f) (bs ++ r)) e
    ∙ ap (λ (p : Decoded). cons? (p.0) (from_utf8_fuel f p.1)) (d r)
    ∙ ap (λ o. cons? o (from_utf8_fuel f r)) (from_u32-code c)

length-encode_char : (c : Char) → (k : ℕ) × (length (encode_char (code c)) ≡ suc k)
length-encode_char c =
    let (b, t, e, d) = encoded (code c) (code-Scalar c) in (length t, ap length e)

from_utf8_fuel-as_bytes :
    (f : ℕ) (s : String) → length (as_bytes s) ≤ f → from_utf8_fuel f (as_bytes s) ≡ some s
unfolding as_bytes from_utf8_fuel
from_utf8_fuel-as_bytes f String.[] h = refl
from_utf8_fuel-as_bytes zero (String.◌∷◌ c s) h =
    let (k, e) = length-encode_char c in
    let both = length-append (encode_char (code c)) (as_bytes s) in absurd (omega arith)
from_utf8_fuel-as_bytes (suc f) (String.◌∷◌ c s) h =
    from_utf8-step f c (as_bytes s) ∙ ap (cons? (some c)) (from_utf8_fuel-as_bytes f s rest)
  where
    rest : length (as_bytes s) ≤ f
    rest =
        let (k, e) = length-encode_char c in
        let both = length-append (encode_char (code c)) (as_bytes s) in omega arith

pub from_utf8-as_bytes : (s : String) → from_utf8 (as_bytes s) ≡ some s
unfolding from_utf8
from_utf8-as_bytes s = from_utf8_fuel-as_bytes (length (as_bytes s)) s (omega arith)

joined :
    (c : Option Char) (rest : Option String) (lossy s : String)
    → ((t : String) → rest ≡ some t → lossy ≡ t)
    → cons? c rest ≡ some s
    → or_replacement c lossy ≡ s
joined none rest lossy s h e = absurd (ground arith)
joined (some c) none lossy s h e = absurd (ground arith)
joined (some c) (some t) lossy s h e = rw (h t refl) (some-injective _ _ e)

lossy_fuel-agrees :
    (f : ℕ) (bs : Bytes) (s : String) → from_utf8_fuel f bs ≡ some s → from_utf8_lossy_fuel f bs ≡ s
unfolding from_utf8_fuel from_utf8_lossy_fuel
lossy_fuel-agrees f [] s e = some-injective _ _ e
lossy_fuel-agrees zero (b ∷ r) s e = absurd (ground arith)
lossy_fuel-agrees (suc f) (b ∷ r) s e =
    joined ((decode_char b r).0) (from_utf8_fuel f ((decode_char b r).1))
      (from_utf8_lossy_fuel f ((decode_char b r).1)) s (lossy_fuel-agrees f ((decode_char b r).1)) e

pub from_utf8_lossy-agrees :
    (bs : Bytes) (s : String) → from_utf8 bs ≡ some s → from_utf8_lossy bs ≡ s
unfolding from_utf8 from_utf8_lossy
from_utf8_lossy-agrees bs s e = lossy_fuel-agrees (length bs) bs s e
