-- ===== src/Common/Picking.antt =====
-- Taking the i-th element out of a list.
use Prim.Native.Nat.{ℕ, zero, suc}
use mathlib.Core.List.{List, [], ◌∷◌}
use mathlib.Core.Option.{Option, none, some}
use nats_demo.Common.Lists.{All}

-- The i-th of a list, and the others
abbrev pub take_out : {A : Type 0} → ℕ → List A → Option (A × List A)
take_out i [] = none
take_out zero (x ∷ l) = some (x, l)
take_out (suc i) (x ∷ l) = elim (take_out i l) [ none ↦ none | some (y, r) ↦ some (y, x ∷ r) ]

abbrev pub TakenOut : {A : Type 0} → (A → Type 0) → Option (A × List A) → Type 0
TakenOut P none = Unit
TakenOut P (some taken) = P taken.0 × All P taken.1

-- What is taken out has what all have, and so have the others.
pub take_out-All :
    {A : Type 0} (P : A → Type 0) (i : ℕ) (l : List A) → All P l → TakenOut P (take_out i l)
take_out-All P i [] h = tt
take_out-All P zero (y ∷ l) h = h
take_out-All {A} P (suc i) (y ∷ l) h = put_back (take_out i l) (take_out-All P i l h.1)
  where
    put_back :
        (o : Option (A × List A))
        → TakenOut P o
        → TakenOut P (elim o [ none ↦ none | some (x, r) ↦ some (x, y ∷ r) ])
    put_back none g = tt
    put_back (some (x, r)) g = (g.0, (h.0, g.1))
