-- ===== src/Publisher/NextId.antt =====
-- The numbering of consecutive runs in frontend/src/components/CoreFlow/CoreFlowPublisher.tsx and
-- frontend/src/components/JobPanel.tsx: `id.match(/^(.*?)-(\d+)$/)` and the next number.
use Prim.Native.Char.{code}
use Prim.Native.String.{String}
use mathlib.Core.Option
use nats_demo.Common.{
  ℕ, ◌+◌, ◌-◌, ◌*◌, Bool, ◌&&◌, ◌||◌, Option, none, some, leb, ltb, ◌==◌, ◌+s◌, decimal,
  if◌then◌else◌,
}
use nats_demo.Platform.{Platform}

abbrev pub is_digit : ℕ → Bool
is_digit c = leb b'0' c && leb c b'9'

-- What `.` does not match
abbrev pub is_line_end : ℕ → Bool
is_line_end c = c == 10 || c == 13 || c == 0x2028 || c == 0x2029

-- `parseInt(s, 10)` of digits, after the number `acc` that was read; none at any other character.
unfoldable pub digits_from : ℕ → String → Option ℕ
digits_from acc String.[] = some acc
digits_from acc (String.◌∷◌ c s) =
    if is_digit (code c) then digits_from (acc * 10 + (code c - b'0')) s else none

-- `\d+$`
unfoldable pub digits : String → Option ℕ
unfolding digits_from
digits String.[] = none
digits (String.◌∷◌ c s) = digits_from 0 (String.◌∷◌ c s)

-- `^(.*?)-(\d+)$`: the shortest prefix after which a dash and nothing but digits follow.
unfoldable pub match_suffix : String → Option (String × ℕ)
unfolding digits
match_suffix String.[] = none
match_suffix (String.◌∷◌ c s) =
    let longer =
      if is_line_end (code c)
      then none
      else Option.map (λ (p, n). (String.◌∷◌ c p, n)) (match_suffix s) in
    if code c == b'-' then elim (digits s) [ none ↦ longer | some n ↦ some ("", n) ] else longer

abbrev pub numbered : String → ℕ → String
numbered prefix n = prefix +s "-" +s decimal n

-- 2^53, below which JavaScript's numbers are exact
unfoldable pub exact_limit : ℕ
exact_limit = 9007199254740992

-- `${parseInt(digits, 10) + 1}`, where the digits are those of `n`
unfoldable pub successor_text : Platform → ℕ → String
successor_text js n = if ltb n exact_limit then decimal (n + 1) else js.rounded_successor n

-- `${match[1]}-${parseInt(match[2], 10) + 1}`
abbrev pub following : Platform → String × ℕ → String
following js (prefix, n) = prefix +s "-" +s successor_text js n

-- None where the text does not match
unfoldable pub next_id : Platform → String → Option String
next_id js id = Option.map (following js) (match_suffix id)
