-- ===== src/Publisher/SuffixLaws.antt =====
-- `id.match(/^(.*?)-(\d+)$/)` of frontend/src/components/CoreFlow/CoreFlowPublisher.tsx finds what the
-- expression describes, and nothing else.
use Prim.Native.Char.{Char, char, code}
use Prim.Native.String.{String}
use mathlib.Core.Option
use nats_demo.Common.{
  ℕ, ◌≡◌, ◌↔◌, refl, sym, ap, ◌∙◌, Bool, true, false, Option, none, some, arith, ◌+s◌, ◌==◌, ==_iff,
  if◌then◌else◌,
}
use text.Mathlib.TextEquality.{Char-path}
use text.Mathlib.TextLemmas.{nil-append, cons-append}
use nats_demo.Publisher.NextId.{is_line_end, digits, match_suffix}
use nats_demo.Publisher.NextIdLaws.{IsOneLine, digits-dash}

-- The text is a one-line prefix, a dash and a numeral.
pub record Splits (s prefix : String) (n : ℕ) : Type 0 where
  pub numeral : String
  pub whole : s ≡ prefix +s "-" +s numeral
  pub value : digits numeral ≡ some n
  pub one_line : IsOneLine prefix

match_suffix_complete :
    (prefix numeral : String) (n : ℕ)
    → digits numeral ≡ some n
    → IsOneLine prefix
    → match_suffix (prefix +s "-" +s numeral) ≡ some (prefix, n)
unfolding match_suffix
match_suffix_complete String.[] numeral n e h =
    rw nil-append (rw (cons-append, nil-append) (rw e refl))
match_suffix_complete (String.◌∷◌ c p) numeral n e h = rw cons-append (
    rw (digits-dash p numeral)
      (rw h.0 (rw (match_suffix_complete p numeral n e h.1) (ground arith))))

dash : (c : Char) → (code c == 45) ≡ true → c ≡ char 45 tt
dash c e = Char-path c (char 45 tt) ((==_iff (code c) 45).0 e)

Splits-cons :
    (c : Char) (s q : String) (m : ℕ)
    → is_line_end (code c) ≡ false
    → Splits s q m
    → Splits (String.◌∷◌ c s) (String.◌∷◌ c q) m
Splits-cons c s q m inside splits = record {
  numeral = splits.numeral;
  whole = ap (String.◌∷◌ c) splits.whole ∙ sym (cons-append c q _);
  value = splits.value;
  one_line = (inside, splits.one_line);
}

abbrev extend : Char → Option (String × ℕ) → Option (String × ℕ)
extend c o = Option.map (λ (p, n). (String.◌∷◌ c p, n)) o

-- The match that goes on behind the character
longer_sound :
    (c : Char) (s : String) (b : Bool) (o : Option (String × ℕ))
    → is_line_end (code c) ≡ b
    → ((q : String) (m : ℕ) → o ≡ some (q, m) → Splits s q m)
    → (p : String) (n : ℕ) → (if b then none else extend c o) ≡ some (p, n)
    → Splits (String.◌∷◌ c s) p n
longer_sound c s true o eb rest p n e = cc
longer_sound c s false none eb rest p n e = cc
longer_sound c s false (some (q, m)) eb rest p n e = same (cc) (cc)
  where
    same : String.◌∷◌ c q ≡ p → m ≡ n → Splits (String.◌∷◌ c s) p n
    same ep en = rw (← ep, ← en) (Splits-cons c s q m eb (rest q m refl))

dash-append : (s : String) → String.◌∷◌ (char 45 tt) s ≡ "" +s "-" +s s
dash-append s = rw nil-append (rw (cons-append, nil-append) refl)

-- The match at the character, if it is a dash and the rest a numeral
here_sound :
    (c : Char) (s : String) (longer : Option (String × ℕ)) (b : Bool) (o : Option ℕ)
    → (code c == 45) ≡ b
    → digits s ≡ o
    → (p : String) (n : ℕ) → (longer ≡ some (p, n) → Splits (String.◌∷◌ c s) p n)
    → (if b then elim o [ none ↦ longer | some m ↦ some ("", m) ] else longer) ≡ some (p, n)
    → Splits (String.◌∷◌ c s) p n
here_sound c s longer false o eb eo p n rest e = rest e
here_sound c s longer true none eb eo p n rest e = rest e
here_sound c s longer true (some m) eb eo p n rest e = same (cc) (cc)
  where
    same : "" ≡ p → m ≡ n → Splits (String.◌∷◌ c s) p n
    same ep en =
        rw (← ep, ← en)
          record {
            numeral = s;
            whole = ap (λ x. String.◌∷◌ x s) (dash c eb) ∙ dash-append s;
            value = eo;
            one_line = tt;
          }

match_suffix_sound :
    (s prefix : String) (n : ℕ) → match_suffix s ≡ some (prefix, n) → Splits s prefix n
unfolding match_suffix
match_suffix_sound String.[] p n e = cc
match_suffix_sound (String.◌∷◌ c s) p n e =
    here_sound c s _ _ _ refl refl p n (longer_sound c s _ _ refl (match_suffix_sound s) p n) e

-- The expression's match is exactly the split of the text into a one-line prefix, a dash and a numeral:
-- where there is such a split it is found, with that prefix and that number, and nothing else is.
pub match_suffix-Splits :
    (s prefix : String) (n : ℕ) → (match_suffix s ≡ some (prefix, n)) ↔ Splits s prefix n
match_suffix-Splits s prefix n = (match_suffix_sound s prefix n, found)
  where
    found : Splits s prefix n → match_suffix s ≡ some (prefix, n)
    found splits =
        rw (splits.whole)
          (match_suffix_complete prefix splits.numeral n splits.value splits.one_line)
