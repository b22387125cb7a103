-- ===== src/Activity/CompactId.antt =====
-- The shortened identifiers of frontend/src/components/ActivityPanel.tsx, over UTF-16 code units.
use nats_demo.Common.{
  ap, false, zero, suc, ℕ, ◌≡◌, refl, ◌-◌, ◌≤◌, ◌<◌, ◌++◌, List, [], ◌∷◌, Option, none, some, arith,
  length, take, drop, leb, length-append, length-take, if◌then◌else◌,
}

-- `id.slice(-n)`
abbrev pub take_end : ℕ → List ℕ → List ℕ
take_end n id = drop (length id - n) id

abbrev dots : List ℕ
dots = b'.' ∷ b'.' ∷ b'.' ∷ []

unfoldable pub format_compact_id : Option (List ℕ) → List ℕ
format_compact_id none = b'-' ∷ []
format_compact_id (some []) = b'-' ∷ []
format_compact_id (some (c ∷ rest)) =
    let id = c ∷ rest in if leb (length id) 13 then id else take 7 id ++ (dots ++ take_end 4 id)

length-drop : (n : ℕ) (xs : List ℕ) → length (drop n xs) ≡ length xs - n
length-drop zero xs = omega arith
length-drop (suc n) [] = omega arith
length-drop (suc n) (x ∷ xs) = omega (arith, length-drop n xs)

-- What is shown is never longer than 14 code units, and never empty.
pub format_compact_id_bounds :
    (id : Option (List ℕ))
    → (length (format_compact_id id) ≤ 14) × (0 < length (format_compact_id id))
unfolding format_compact_id
format_compact_id_bounds none = omega arith
format_compact_id_bounds (some []) = omega arith
format_compact_id_bounds (some (c ∷ rest)) = ground (
  arith,
  length-append (take 6 rest) (dots ++ take_end 4 (c ∷ rest)),
  length-take 6 rest,
  length-drop (length (c ∷ rest) - 4) (c ∷ rest),
)

take_of_take : (n : ℕ) (xs ys : List ℕ) → n ≤ length xs → take n (take n xs ++ ys) ≡ take n xs
take_of_take zero xs ys h = refl
take_of_take (suc n) [] ys h = elim h [ ]
take_of_take (suc n) (x ∷ xs) ys h = ap (λ l. x ∷ l) (take_of_take n xs ys (omega arith))

drop-dots :
    (n : ℕ) (xs ys : List ℕ)
    → n ≤ length xs
    → drop (suc (suc (suc n))) (take n xs ++ (dots ++ ys)) ≡ ys
drop-dots zero xs ys h = refl
drop-dots (suc n) [] ys h = elim h [ ]
drop-dots (suc n) (x ∷ xs) ys h = drop-dots n xs ys (omega arith)

-- An identifier of more than 13 code units keeps its first 7 and, after the dots, its last 4.
pub format_compact_id_keeps :
    (id : List ℕ)
    → 13 < length id
    → (take 7 (format_compact_id (some id)) ≡ take 7 id)
      × (drop 10 (format_compact_id (some id)) ≡ take_end 4 id)
unfolding format_compact_id
format_compact_id_keeps [] h = elim h [ ]
format_compact_id_keeps (c ∷ rest) h =
    let long : leb (length (c ∷ rest)) 13 ≡ false = ground arith in
    rw long (
      take_of_take 7 (c ∷ rest) (dots ++ take_end 4 (c ∷ rest)) (omega arith),
      drop-dots 7 (c ∷ rest) (take_end 4 (c ∷ rest)) (omega arith),
    )
