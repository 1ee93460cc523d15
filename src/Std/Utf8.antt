-- ===== src/Std/Utf8.antt =====
-- `str::as_bytes`, `String::from_utf8` and `String::from_utf8_lossy` of Rust's standard library.
use Prim.Native.Nat.{Ordering, compare}
use Prim.Native.Char.{Char, char, code, IsLt, IsScalar}
use mathlib.Core.Option
use acme_lib.Prelude.{
  ℕ, zero, suc, ◌+◌, ◌-◌, ◌*◌, ◌/◌, ◌%◌, String, Bool, ◌&&◌, Option, none, some, [], ◌∷◌, ◌++◌, ltb,
  leb, ◌=ᵇ◌, if◌then◌else◌, Bytes, length,
}

abbrev IsBelow : Ordering → Ordering → Type 0
IsBelow Ordering.lt o = IsLt o
IsBelow Ordering.eq _ = ⊥
IsBelow Ordering.gt _ = ⊥

abbrev pub ScalarOrder : Ordering → Ordering → Ordering → Type 0
ScalarOrder Ordering.lt _ _ = Unit
ScalarOrder Ordering.eq o p = IsBelow o p
ScalarOrder Ordering.gt o p = IsBelow o p

abbrev pub scalar? : (o p q : Ordering) → Option (ScalarOrder o p q)
scalar? Ordering.lt p q = some tt
scalar? Ordering.eq Ordering.lt Ordering.lt = some tt
scalar? Ordering.gt Ordering.lt Ordering.lt = some tt
scalar? _ _ _ = none

-- `char::from_u32`
unfoldable pub from_u32 : ℕ → Option Char
from_u32 n =
    Option.map (λ (p : IsScalar n). char n p)
      (scalar? (compare n 55296) (compare 57343 n) (compare n 1114112))

unfoldable pub encode_char : ℕ → Bytes
encode_char n =
    if ltb n 128
    then n ∷ []
    else if ltb n 2048
    then (192 + n / 64) ∷ (128 + n % 64) ∷ []
    else if ltb n 65536
    then (224 + n / 4096) ∷ (128 + n / 64 % 64) ∷ (128 + n % 64) ∷ []
    else (240 + n / 262144) ∷ (128 + n / 4096 % 64) ∷ (128 + n / 64 % 64) ∷ (128 + n % 64) ∷ []

-- `str::as_bytes`
unfoldable pub as_bytes : String → Bytes
unfolding encode_char
as_bytes String.[] = []
as_bytes (String.◌∷◌ c s) = encode_char (code c) ++ as_bytes s

abbrev pub between : ℕ → ℕ → ℕ → Bool
between lo hi b = leb lo b && leb b hi

-- The second byte after a lead byte of three, and of four: no overlong form, no surrogate, nothing
-- past U+10FFFF.
abbrev pub second_of_three : ℕ → ℕ → Bool
second_of_three b c = between (if b =ᵇ 224 then 160 else 128) (if b =ᵇ 237 then 159 else 191) c

abbrev pub second_of_four : ℕ → ℕ → Bool
second_of_four b c = between (if b =ᵇ 240 then 144 else 128) (if b =ᵇ 244 then 143 else 191) c

-- A character, or `none` for a malformed sequence of which the longest valid beginning is skipped.
abbrev pub Decoded : Type 0
Decoded = Option Char × Bytes

abbrev last_byte : ℕ → Bytes → Decoded
last_byte acc [] = (none, [])
last_byte acc (c ∷ r) =
    if between 128 191 c then (from_u32 (acc * 64 + (c - 128)), r) else (none, c ∷ r)

abbrev last_two : ℕ → Bytes → Decoded
last_two acc [] = (none, [])
last_two acc (c ∷ r) =
    if between 128 191 c then last_byte (acc * 64 + (c - 128)) r else (none, c ∷ r)

abbrev after_lead_of_three : ℕ → Bytes → Decoded
after_lead_of_three b [] = (none, [])
after_lead_of_three b (c ∷ r) =
    if second_of_three b c then last_byte ((b - 224) * 64 + (c - 128)) r else (none, c ∷ r)

abbrev after_lead_of_four : ℕ → Bytes → Decoded
after_lead_of_four b [] = (none, [])
after_lead_of_four b (c ∷ r) =
    if second_of_four b c then last_two ((b - 240) * 64 + (c - 128)) r else (none, c ∷ r)

unfoldable pub decode_char : ℕ → Bytes → Decoded
decode_char b r =
    if ltb b 128
    then (from_u32 b, r)
    else if between 194 223 b
    then last_byte (b - 192) r
    else if between 224 239 b
    then after_lead_of_three b r
    else if between 240 244 b
    then after_lead_of_four b r
    else (none, r)

abbrev pub cons? : Option Char → Option String → Option String
cons? (some c) (some s) = some (String.◌∷◌ c s)
cons? _ _ = none

-- Every character takes a byte at least, so the number of bytes is fuel enough.
unfoldable pub from_utf8_fuel : ℕ → Bytes → Option String
from_utf8_fuel f [] = some String.[]
from_utf8_fuel zero (b ∷ r) = none
from_utf8_fuel (suc f) (b ∷ r) = let (c, rest) = decode_char b r in cons? c (from_utf8_fuel f rest)

-- `String::from_utf8`, with the error forgotten.
unfoldable pub from_utf8 : Bytes → Option String
from_utf8 bs = from_utf8_fuel (length bs) bs

abbrev pub or_replacement : Option Char → String → String
or_replacement (some c) s = String.◌∷◌ c s
or_replacement none s = String.◌∷◌ "�" s

unfoldable pub from_utf8_lossy_fuel : ℕ → Bytes → String
from_utf8_lossy_fuel f [] = String.[]
from_utf8_lossy_fuel zero (b ∷ r) = String.[]
from_utf8_lossy_fuel (suc f) (b ∷ r) =
    let (c, rest) = decode_char b r in or_replacement c (from_utf8_lossy_fuel f rest)

-- `String::from_utf8_lossy`
unfoldable pub from_utf8_lossy : Bytes → String
from_utf8_lossy bs = from_utf8_lossy_fuel (length bs) bs
