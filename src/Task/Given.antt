-- ===== src/Task/Given.antt =====
-- `Ensures` for the replies that `net` gives: how a task ends can then be told from the replies.
use nats_demo.Common.{◌≡◌, refl, ◌∙◌}
use nats_demo.Task.{
  Task, done, fail, set, call, Result, ok, err, Failure, run, settle, update, catching, finally,
  ◌>>=◌,
}

-- What a task that reads no state gives back
abbrev pub outcome :
    {Q : Type 0} {R : Q → Type 0} {A : Type 0} → ((q : Q) → R q) → Task (Unit {0}) Q R A → Result A
outcome net t = (run (λ n. net) 0 t tt).1

module _ {S Q : Type 0} {R : Q → Type 0} (net : (q : Q) → R q) (Rely : S → S → Type 0) where
  -- Other handlers may change the state within `Rely` before each reply.
  unfoldable pub EndsGiven : {A : Type 0} → (S → Result A → Type 0) → Task S Q R A → S → Type 0
  EndsGiven P (done a) s = P s (ok a)
  EndsGiven P (fail e) s = P s (err e)
  EndsGiven P (set f t) s = EndsGiven P t (f s)
  EndsGiven P (call q k) s = (s' : S) → Rely s s' → EndsGiven P (k (net q)) s'

  pub record EnsuresGiven {A : Type 0} (P : S → Result A → Type 0) (t : Task S Q R A) (s : S)
      : Type 0 where
    pub ends : EndsGiven P t s

  module _ {A : Type 0} (P : S → Result A → Type 0) where
    abbrev pub AfterGiven : {B : Type 0} → (B → Task S Q R A) → S → Result B → Type 0
    AfterGiven k s (ok b) = EnsuresGiven P (k b) s
    AfterGiven k s (err e) = P s (err e)

    abbrev pub CaughtGiven : (Failure → Task S Q R A) → S → Result A → Type 0
    CaughtGiven h s (ok a) = P s (ok a)
    CaughtGiven h s (err e) = EnsuresGiven P (h e) s

    EndsGiven-bind :
        {B : Type 0} (t : Task S Q R B) (k : B → Task S Q R A) (s : S)
        → EndsGiven (AfterGiven k) t s
        → EndsGiven P (t >>= k) s
    unfolding EndsGiven ◌>>=◌
    EndsGiven-bind (done b) k s h = h.ends
    EndsGiven-bind (fail e) k s h = h
    EndsGiven-bind (set f t) k s h = EndsGiven-bind t k (f s) h
    EndsGiven-bind (call q c) k s h = λ s' rel. EndsGiven-bind (c (net q)) k s' (h s' rel)

    EndsGiven-catching :
        (t : Task S Q R A) (c : Failure → Task S Q R A) (s : S)
        → EndsGiven (CaughtGiven c) t s
        → EndsGiven P (catching t c) s
    unfolding EndsGiven catching
    EndsGiven-catching (done b) c s h = h
    EndsGiven-catching (fail e) c s h = h.ends
    EndsGiven-catching (set f t) c s h = EndsGiven-catching t c (f s) h
    EndsGiven-catching (call q k) c s h = λ s' rel. EndsGiven-catching (k (net q)) c s' (h s' rel)

    EndsGiven-finally :
        (t : Task S Q R A) (f : S → S) (s : S)
        → EndsGiven (λ s' out. P (f s') out) t s
        → EndsGiven P (finally t f) s
    unfolding EndsGiven finally
    EndsGiven-finally (done b) f s h = h
    EndsGiven-finally (fail e) f s h = h
    EndsGiven-finally (set g t) f s h = EndsGiven-finally t f (g s) h
    EndsGiven-finally (call q k) f s h = λ s' rel. EndsGiven-finally (k (net q)) f s' (h s' rel)

    EndsGiven-settle : (x : Result A) (s : S) → P s x → EndsGiven P (settle x) s
    unfolding EndsGiven settle
    EndsGiven-settle (ok a) s h = h
    EndsGiven-settle (err e) s h = h

-- The request gives what `f` makes of the reply.
outcome-call :
    {Q : Type 0} {R : Q → Type 0} {A : Type 0} (net : (q : Q) → R q) (q : Q) (f : R q → Result A)
    → outcome net (call q (λ r. settle (f r))) ≡ f (net q)
unfolding run settle
outcome-call {Q} {R} {A} net q f = settled (f (net q))
  where
    settled : (x : Result A) → (run {Q = Q} {R = R} (λ n. net) 1 (settle x) tt).1 ≡ x
    settled (ok a) = refl
    settled (err e) = refl

-- The rules. A part that a rule takes explicitly is found from the goal: write `_`.
module _ {S Q : Type 0} {R : Q → Type 0} {net : (q : Q) → R q} {Rely : S → S → Type 0} {A : Type 0}
    {P : S → Result A → Type 0} {s : S} where
  pub Given-done : (a : A) → P s (ok a) → EnsuresGiven net Rely P (done a) s
  unfolding EndsGiven
  Given-done a h = record { ends = h }

  pub Given-catching :
      (t : Task S Q R A) (c : Failure → Task S Q R A)
      → EnsuresGiven net Rely (CaughtGiven net Rely P c) t s
      → EnsuresGiven net Rely P (catching t c) s
  Given-catching t c h = record { ends = EndsGiven-catching net Rely P t c s h.ends }

  pub Given-finally :
      (t : Task S Q R A) (f : S → S)
      → EnsuresGiven net Rely (λ s' out. P (f s') out) t s
      → EnsuresGiven net Rely P (finally t f) s
  Given-finally t f h = record { ends = EndsGiven-finally net Rely P t f s h.ends }

  pub Given-step :
      (f : S → S) (k : Unit {0} → Task S Q R A)
      → EnsuresGiven net Rely P (k tt) (f s)
      → EnsuresGiven net Rely P (update f >>= k) s
  unfolding EndsGiven update ◌>>=◌
  Given-step f k h = record { ends = h.ends }

  pub Given-await :
      {B : Type 0} (q : Q) (f : R q → Result B) (k : B → Task S Q R A)
      → ((b : B)
          → outcome net (call q (λ r. settle (f r))) ≡ ok b
          → (s' : S) → Rely s s'
          → EnsuresGiven net Rely P (k b) s')
      → ((e : Failure)
          → outcome net (call q (λ r. settle (f r))) ≡ err e
          → (s' : S) → Rely s s'
          → P s' (err e))
      → EnsuresGiven net Rely P (call q (λ r. settle (f r)) >>= k) s
  unfolding EndsGiven
  Given-await {B} q f k good bad = record {
    ends = EndsGiven-bind net Rely P _ k s (λ s' rel.
        EndsGiven-settle net Rely (AfterGiven net Rely P k) (f (net q)) s'
          (settled (f (net q)) refl s' rel));
  }
    where
      settled : (x : Result B) → f (net q) ≡ x → (s' : S) → Rely s s' → AfterGiven net Rely P k s' x
      settled (ok b) e s' rel = good b (outcome-call net q f ∙ e) s' rel
      settled (err failure) e s' rel = bad failure (outcome-call net q f ∙ e) s' rel

module _ {S Q : Type 0} {R : Q → Type 0} {net : (q : Q) → R q} {Rely : S → S → Type 0} where
  pub Given-update :
      {P : S → Result (Unit {0}) → Type 0} {s : S} (f : S → S)
      → P (f s) (ok tt)
      → EnsuresGiven {R = R} net Rely P (update f) s
  unfolding EndsGiven update
  Given-update f h = record { ends = h }
