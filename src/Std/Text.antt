-- ===== src/Std/Text.antt =====
-- Decimal numbers, `str::replace` of a character and `[String]::join` of Rust's standard library.
use Prim.Native.Char.{Char, code}
use acme_lib.Prelude.{ℕ, zero, suc, ◌/◌, ◌%◌, String, ◌<>◌, List, [], ◌∷◌, ltb, ◌=ᵇ◌, if◌then◌else◌}

-- The digit of a number below ten.
abbrev pub digit_char : ℕ → Char
digit_char zero = "0"
digit_char (suc zero) = "1"
digit_char (suc (suc zero)) = "2"
digit_char (suc (suc (suc zero))) = "3"
digit_char (suc (suc (suc (suc zero)))) = "4"
digit_char (suc (suc (suc (suc (suc zero))))) = "5"
digit_char (suc (suc (suc (suc (suc (suc zero)))))) = "6"
digit_char (suc (suc (suc (suc (suc (suc (suc zero))))))) = "7"
digit_char (suc (suc (suc (suc (suc (suc (suc (suc zero)))))))) = "8"
digit_char _ = "9"

-- The digits of `n` in front of `acc`; the fuel is a bound on their number.
unfoldable pub digits : ℕ → ℕ → String → String
digits zero n acc = acc
digits (suc f) n acc =
    let rest = digits f (n / 10) (String.◌∷◌ (digit_char (n % 10)) acc) in
    if ltb n 10 then String.◌∷◌ (digit_char n) acc else rest

-- `{}` of an integer; a `u64` has twenty digits at most.
unfoldable pub decimal : ℕ → String
decimal n = digits 20 n ""

-- `s.replace(from, to)` for a character `from`
unfoldable pub replace_char : Char → String → String → String
replace_char from to String.[] = ""
replace_char from to (String.◌∷◌ c s) =
    if code c =ᵇ code from
    then to <> replace_char from to s
    else String.◌∷◌ c (replace_char from to s)

-- `parts.join(sep)`
unfoldable pub join : String → List String → String
join sep [] = ""
join sep (s ∷ []) = s
join sep (s ∷ t ∷ rest) = s <> sep <> join sep (t ∷ rest)
