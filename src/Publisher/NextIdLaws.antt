-- ===== src/Publisher/NextIdLaws.antt =====
-- The numbering of consecutive runs counts upwards and never repeats an identifier.
use Prim.Native.Char.{code}
use Prim.Native.String.{String}
use nats_demo.Common.{
  ℕ, zero, suc, ◌≡◌, ◌≢◌, refl, ap, ◌∙◌, ◌+◌, ◌-◌, ◌*◌, ◌/◌, ◌%◌, ◌≤◌, ◌<◌, false, none, some,
  arith, ltb, ltb→lt, lt→ltb, decimal, decimal_from, digit, ◌+s◌, inl, inr, Bool-cases,
}
use text.Mathlib.TextLemmas.{nil-append, cons-append}
use nats_demo.Publisher.NextId.{
  is_line_end, digits_from, digits, match_suffix, numbered, exact_limit, successor_text, next_id,
}
use nats_demo.Platform.{Platform}

digits_from-digit :
    (d acc : ℕ) (rest : String)
    → d < 10
    → digits_from acc (digit d +s rest) ≡ digits_from (acc * 10 + d) rest
unfolding digits_from
digits_from-digit zero acc rest h = rw (cons-append, nil-append) refl
digits_from-digit (suc zero) acc rest h = rw (cons-append, nil-append) refl
digits_from-digit (suc (suc zero)) acc rest h = rw (cons-append, nil-append) refl
digits_from-digit (suc (suc (suc zero))) acc rest h = rw (cons-append, nil-append) refl
digits_from-digit (suc (suc (suc (suc zero)))) acc rest h = rw (cons-append, nil-append) refl
digits_from-digit (suc (suc (suc (suc (suc zero))))) acc rest h = rw (cons-append, nil-append) refl
digits_from-digit (suc (suc (suc (suc (suc (suc zero)))))) acc rest h =
    rw (cons-append, nil-append) refl
digits_from-digit (suc (suc (suc (suc (suc (suc (suc zero))))))) acc rest h =
    rw (cons-append, nil-append) refl
digits_from-digit (suc (suc (suc (suc (suc (suc (suc (suc zero)))))))) acc rest h =
    rw (cons-append, nil-append) refl
digits_from-digit (suc (suc (suc (suc (suc (suc (suc (suc (suc zero))))))))) acc rest h =
    rw (cons-append, nil-append) refl
digits_from-digit (suc (suc (suc (suc (suc (suc (suc (suc (suc (suc d)))))))))) acc rest h =
    absurd (omega arith)

digits-digit : (d : ℕ) (rest : String) → d < 10 → digits (digit d +s rest) ≡ digits_from d rest
unfolding digits
digits-digit zero rest h = rw (cons-append, nil-append) refl
digits-digit (suc zero) rest h = rw (cons-append, nil-append) refl
digits-digit (suc (suc zero)) rest h = rw (cons-append, nil-append) refl
digits-digit (suc (suc (suc zero))) rest h = rw (cons-append, nil-append) refl
digits-digit (suc (suc (suc (suc zero)))) rest h = rw (cons-append, nil-append) refl
digits-digit (suc (suc (suc (suc (suc zero))))) rest h = rw (cons-append, nil-append) refl
digits-digit (suc (suc (suc (suc (suc (suc zero)))))) rest h = rw (cons-append, nil-append) refl
digits-digit (suc (suc (suc (suc (suc (suc (suc zero))))))) rest h =
    rw (cons-append, nil-append) refl
digits-digit (suc (suc (suc (suc (suc (suc (suc (suc zero)))))))) rest h =
    rw (cons-append, nil-append) refl
digits-digit (suc (suc (suc (suc (suc (suc (suc (suc (suc zero))))))))) rest h =
    rw (cons-append, nil-append) refl
digits-digit (suc (suc (suc (suc (suc (suc (suc (suc (suc (suc d)))))))))) rest h =
    absurd (omega arith)

-- Reading the printed digits of a number gives the number, and goes on with the rest.
digits-decimal_from :
    (fuel n : ℕ) (rest : String) → n ≤ fuel → digits (decimal_from fuel n rest) ≡ digits_from n rest
unfolding decimal_from
digits-decimal_from zero n rest h =
    digits-digit (n % 10) rest (omega arith) ∙ ap (λ m. digits_from m rest) (omega arith)
digits-decimal_from (suc fuel) n rest h = elim (Bool-cases (ltb n 10)) [
  | inl small ↦ rw small (digits-digit n rest (ltb→lt n 10 small))
  | inr large ↦ rw large (
      digits-decimal_from fuel (n / 10) (digit (n % 10) +s rest) (ground arith)
      ∙ digits_from-digit (n % 10) (n / 10) rest (omega arith)
      ∙ ap (λ m. digits_from m rest) (omega arith))
]

pub digits-decimal : (n : ℕ) → digits (decimal n) ≡ some n
unfolding decimal digits_from
digits-decimal n = digits-decimal_from n n "" (omega arith)

-- A text with a dash in it is no number.
pub digits_from-dash : (acc : ℕ) (q t : String) → digits_from acc (q +s ("-" +s t)) ≡ none
unfolding digits_from
digits_from-dash acc String.[] t = rw nil-append (rw cons-append refl)
digits_from-dash acc (String.◌∷◌ c q) t =
    rw cons-append (ground (arith, digits_from-dash (acc * 10 + (code c - b'0')) q t))

pub digits-dash : (q t : String) → digits (q +s ("-" +s t)) ≡ none
unfolding digits
digits-dash String.[] t = rw nil-append (rw cons-append refl)
digits-dash (String.◌∷◌ c q) t =
    rw cons-append (ground (arith, digits_from-dash (0 * 10 + (code c - b'0')) q t))

-- No character of the text ends a line, as in a one-line input.
abbrev pub IsOneLine : String → Type 0
IsOneLine String.[] = Unit
IsOneLine (String.◌∷◌ c s) = (is_line_end (code c) ≡ false) × IsOneLine s

-- The prefix and the number of a numbered identifier are found again, also where the prefix itself
-- holds dashes and digits.
pub match_suffix-numbered :
    (prefix : String) (n : ℕ)
    → IsOneLine prefix
    → match_suffix (numbered prefix n) ≡ some (prefix, n)
unfolding match_suffix
match_suffix-numbered String.[] n h =
    rw nil-append (rw (cons-append, nil-append) (rw (digits-decimal n) refl))
match_suffix-numbered (String.◌∷◌ c p) n h =
    rw cons-append
      (rw (digits-dash p (decimal n)) (rw h.0 (rw (match_suffix-numbered p n h.1) (ground arith))))

-- A number that JavaScript has exactly is counted up by 1.
pub successor_text-exact :
    (js : Platform) (n : ℕ) → n < exact_limit → successor_text js n ≡ decimal (n + 1)
unfolding successor_text
successor_text-exact js n h = rw (lt→ltb n exact_limit h) refl

-- From an identifier that ends in a dash and a number below 2^53, the next one has the next number,
-- whatever one-line text stands before it.
pub next_id-numbered :
    (js : Platform) (prefix : String) (n : ℕ)
    → IsOneLine prefix
    → n < exact_limit
    → next_id js (numbered prefix n) ≡ some (numbered prefix (n + 1))
unfolding next_id
next_id-numbered js prefix n line exact =
    rw (match_suffix-numbered prefix n line, successor_text-exact js n exact) refl

-- Identifiers with one one-line prefix differ where their numbers do: a run of submissions repeats
-- none.
pub numbered-distinct :
    (prefix : String) (m n : ℕ) → IsOneLine prefix → m ≢ n → numbered prefix m ≢ numbered prefix n
numbered-distinct prefix m n h differ same =
    differ (cc (match_suffix-numbered prefix m h, match_suffix-numbered prefix n h))
