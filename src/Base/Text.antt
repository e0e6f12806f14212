-- ===== src/Base/Text.antt =====
-- Native texts: equality, `format!` as concatenation, and numbers in decimal.
use Prim.Native.Char.{Char}
use Prim.Native.Nat.{ℕ, zero, suc, ◌+◌, ◌/◌, ◌%◌}
use Prim.Native.String
use Prim.Native.String.{String}
use mathlib.Core.List.{List, [], ◌∷◌, foldr}
use mathlib.Core.Bool.{Bool}
use text.Mathlib.Text.{◌==◌ as str_eq'}
use lambda_durable_execution.Base.Tests.{ltb, if◌then◌else◌}

abbrev pub str_eq : String → String → Bool
str_eq s t = str_eq' s t

-- The number of bytes of the UTF-8 form: `str::len`.
abbrev pub str_len : String → ℕ
str_len s = String.len s

-- `format!`: the parts of the text in order.
abbrev pub concat : List String → String
concat [] = ""
concat (s ∷ ss) = String.◌++◌ s (concat ss)

-- The decimal digits of a number, before those in `out`. Fuel above the number is enough.
unfoldable pub digits : ℕ → ℕ → List ℕ → List ℕ
digits zero n out = out
digits (suc f) n out =
    let rest = digits f (n / 10) ((b'0' + n % 10) ∷ out) in
    if ltb n 10 then (b'0' + n) ∷ out else rest

-- `{}` of an unsigned number, as code points.
unfoldable pub decimal : ℕ → List ℕ
unfolding digits
decimal n = digits (suc n) n []

-- The character of a decimal digit.
digit_char : ℕ → Char
digit_char c =
    if ltb c 49
    then "0"
    else if ltb c 50
    then "1"
    else if ltb c 51
    then "2"
    else if ltb c 52
    then "3"
    else if ltb c 53
    then "4"
    else if ltb c 54
    then "5"
    else if ltb c 55
    then "6"
    else if ltb c 56
    then "7"
    else if ltb c 57
    then "8"
    else "9"

-- `{}` of an unsigned number, as a text.
unfoldable pub show : ℕ → String
unfolding decimal digit_char
show n = foldr (λ c s. String.◌∷◌ (digit_char c) s) "" (decimal n)
