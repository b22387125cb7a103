-- ===== src/Common/Text.antt =====
-- Text as native strings: equality, substrings, the `||` default, and decimal numerals.
use Prim.Native.Nat.{ℕ, zero, suc, ◌/◌, ◌%◌}
use Prim.Native.String
use Prim.Native.String.{String}
use mathlib.Core.Bool.{Bool, true, false, ◌||◌}
use mathlib.Core.Option.{Option, none, some}
use mathlib.Core.List.{List, [], ◌∷◌}
use text.Mathlib.Text.{◌==◌ as eq_text, starts_with}
use nats_demo.Common.Tests.{ltb, if◌then◌else◌}

-- `s === t`
abbrev pub str_eq : String → String → Bool
str_eq s t = eq_text s t

infixr 65 ◌+s◌
-- `s + t`
abbrev pub ◌+s◌ : String → String → String
s +s t = String.◌++◌ s t

-- `s || d` for a text: the empty text counts as missing.
abbrev pub or_text : String → String → String
or_text s d = if str_eq s "" then d else s

-- `s || d` for an optional text.
abbrev pub or_default : Option String → String → String
or_default none d = d
or_default (some s) d = or_text s d

-- `s.includes(q)`
unfoldable pub includes : String → String → Bool
includes String.[] q = str_eq q ""
includes (String.◌∷◌ c s) q = starts_with (String.◌∷◌ c s) q || includes s q

-- `list.includes(s)`
unfoldable pub mem_text : String → List String → Bool
mem_text s [] = false
mem_text s (t ∷ ts) = str_eq t s || mem_text s ts

abbrev pub digit : ℕ → String
digit zero = "0"
digit (suc zero) = "1"
digit (suc (suc zero)) = "2"
digit (suc (suc (suc zero))) = "3"
digit (suc (suc (suc (suc zero)))) = "4"
digit (suc (suc (suc (suc (suc zero))))) = "5"
digit (suc (suc (suc (suc (suc (suc zero)))))) = "6"
digit (suc (suc (suc (suc (suc (suc (suc zero))))))) = "7"
digit (suc (suc (suc (suc (suc (suc (suc (suc zero)))))))) = "8"
digit n = "9"

unfoldable pub decimal_from : ℕ → ℕ → String → String
decimal_from zero n rest = digit (n % 10) +s rest
decimal_from (suc fuel) n rest =
    let more = decimal_from fuel (n / 10) (digit (n % 10) +s rest) in
    if ltb n 10 then digit n +s rest else more

-- `String(n)` for a natural number. A number has at most as many digits as its value.
unfoldable pub decimal : ℕ → String
unfolding decimal_from
decimal n = decimal_from n n ""

-- `s.slice(n)` and `s.slice(0, n)`
abbrev text_drop : ℕ → String → String
text_drop zero s = s
text_drop (suc n) String.[] = ""
text_drop (suc n) (String.◌∷◌ c s) = text_drop n s

abbrev text_take : ℕ → String → String
text_take zero s = ""
text_take (suc n) String.[] = ""
text_take (suc n) (String.◌∷◌ c s) = String.◌∷◌ c (text_take n s)

-- `s.substring(a, a + n)`, for a text of code units
abbrev pub substring : (a n : ℕ) → String → String
substring a n s = text_take n (text_drop a s)

-- Whether an optional text counts as true: the empty one does not.
abbrev pub is_set : Option String → Bool
is_set none = false
is_set (some s) = if str_eq s "" then false else true

abbrev pub is_some {ℓ} : {A : Type ℓ} → Option A → Bool
is_some none = false
is_some (some a) = true
