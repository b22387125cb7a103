-- ===== src/Task/Together/Laws.antt =====
-- Rules for a wait on one request, or on two at once.
use nats_demo.Task.{Task, call, settle, Result, ok, err, Failure, Ends, Ensures, ◌>>=◌}
use nats_demo.Task.Keeping.{Keeps, Maintains, Free}
use nats_demo.Task.Together.{Together, TogetherReply, alone, both, all}

module _ {S Q : Type 0} {R : Q → Type 0} {C : Type 0} {Rely : S → S → Type 0}
    {P : S → Result C → Type 0} {s : S} where
  pub Ensures-alone :
      {A : Type 0} (q : Q) (f : R q → Result A) (k : A → Task S (Together Q) (TogetherReply R) C)
      → ((a : A) (s' : S) → Rely s s' → Ensures Rely P (k a) s')
      → ((e : Failure) (s' : S) → Rely s s' → P s' (err e))
      → Ensures Rely P (alone (call q (λ r. settle (f r))) >>= k) s
  unfolding alone Ends ◌>>=◌ settle
  Ensures-alone {A} q f k good bad = record { ends = λ r s' rel. settled (f r) s' rel }
    where
      settled :
          (x : Result A) (s' : S)
          → Rely s s'
          → Ends Rely P (alone {Q = Q} {R = R} (settle x) >>= k) s'
      settled (ok a) s' rel = (good a s' rel).ends
      settled (err e) s' rel = bad e s' rel

  pub Ensures-all :
      {A B : Type 0} (p q : Q) (f : R p → Result A) (g : R q → Result B)
      (k : A × B → Task S (Together Q) (TogetherReply R) C)
      → ((a : A) (b : B) (s' : S) → Rely s s' → Ensures Rely P (k (a, b)) s')
      → ((e : Failure) (s' : S) → Rely s s' → P s' (err e))
      → Ensures Rely P (all (call p (λ r. settle (f r))) (call q (λ r. settle (g r))) >>= k) s
  unfolding all alone Ends ◌>>=◌ settle
  Ensures-all {A} {B} p q f g k good bad = record {
    ends = λ r s' rel. settled (f r.0) (g r.1) s' rel;
  }
    where
      settled :
          (x : Result A) (y : Result B) (s' : S)
          → Rely s s'
          → Ends Rely P (both {Q = Q} {R = R} (settle x) (settle y) >>= k) s'
      settled (ok a) (ok b) s' rel = (good a b s' rel).ends
      settled (ok a) (err e) s' rel = bad e s' rel
      settled (err e) y s' rel = bad e s' rel

module _ {S Q : Type 0} {R : Q → Type 0} {I : S → Type 0} where
  pub Maintains-alone :
      {A : Type 0} (q : Q) (f : R q → Result A)
      → Maintains I Free (alone {S = S} {R = R} (call q (λ r. settle (f r))))
  unfolding alone settle Keeps
  Maintains-alone {A} q f = record { keeps = λ r. settled (f r) }
    where
      settled : (x : Result A) → Keeps I Free (alone {S = S} {Q = Q} {R = R} (settle x))
      settled (ok a) = tt
      settled (err e) = tt

  pub Maintains-all :
      {A B : Type 0} (p q : Q) (f : R p → Result A) (g : R q → Result B)
      → Maintains I Free
          (all {S = S} {R = R} (call p (λ r. settle (f r))) (call q (λ r. settle (g r))))
  unfolding all alone settle Keeps ◌>>=◌
  Maintains-all {A} {B} p q f g = record { keeps = λ r. settled (f r.0) (g r.1) }
    where
      settled :
          (x : Result A) (y : Result B)
          → Keeps I Free (both {S = S} {Q = Q} {R = R} (settle x) (settle y))
      settled (ok a) (ok b) = tt
      settled (ok a) (err e) = tt
      settled (err e) y = tt
