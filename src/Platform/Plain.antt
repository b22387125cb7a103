-- ===== src/Platform/Plain.antt =====
-- A platform for plain texts, which are lower-case and have no blank at either end, so that nothing
-- is left to lower or to trim. Texts are ordered by their characters. A large number stays as it
-- is when 1 is added.
use Prim.Native.Char.{code}
use Prim.Native.String.{String}
use nats_demo.Common.{◌≡◌, refl, Bool, true, false, ltb, decimal, ◌==◌, arith, if◌then◌else◌}
use nats_demo.Platform.{Platform}

unfoldable pub before_text : String → String → Bool
before_text String.[] t = true
before_text (String.◌∷◌ c s) String.[] = false
before_text (String.◌∷◌ c s) (String.◌∷◌ d t) =
    if code c == code d then before_text s t else ltb (code c) (code d)

pub before_text_total : (s t : String) → before_text s t ≡ false → before_text t s ≡ true
unfolding before_text
before_text_total String.[] t h = ground arith
before_text_total (String.◌∷◌ c s) String.[] h = refl
before_text_total (String.◌∷◌ c s) (String.◌∷◌ d t) h = ground (arith, before_text_total s t)

abbrev pub plain : Platform
plain = record {
  to_lower_case = λ s. s;
  to_upper_case = λ s. s;
  trim = λ s. s;
  before = before_text;
  rounded_successor = decimal;
}
