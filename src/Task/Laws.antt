-- ===== src/Task/Laws.antt =====
-- Reasoning about handlers: a rule of `Ensures` for each construct, and what it says of a run.
use nats_demo.Common.{ℕ, suc}
use nats_demo.Task.{
  Task, done, fail, set, call, Result, ok, err, Failure, run, Ends, Ensures, settle, update,
  catching, finally, ◌>>=◌,
}

-- No assumption on what other handlers do.
abbrev pub Anything : {S : Type 0} → S → S → Type 0
Anything s s' = Unit {0}

module _ {S Q : Type 0} {R : Q → Type 0} {A : Type 0} where
  run-Ends :
      (Rely : S → S → Type 0) (P : S → Result A → Type 0)
      → ((s : S) → Rely s s)
      → (net : ℕ → (q : Q) → R q) (n : ℕ) (t : Task S Q R A) (s : S) → Ends Rely P t s
      → P (run net n t s).0 (run net n t s).1
  unfolding Ends run
  run-Ends Rely P still net n (done a) s h = h
  run-Ends Rely P still net n (fail e) s h = h
  run-Ends Rely P still net n (set f t) s h = run-Ends Rely P still net n t (f s) h
  run-Ends Rely P still net n (call q k) s h =
      run-Ends Rely P still net (suc n) (k (net n q)) s (h (net n q) s (still s))

  -- A run on its own is one of the behaviours that `Ensures` ranges over.
  pub run-Ensures :
      {Rely : S → S → Type 0} {P : S → Result A → Type 0} {t : Task S Q R A} {s : S}
      → ((s : S) → Rely s s)
      → (net : ℕ → (q : Q) → R q) (n : ℕ) → Ensures Rely P t s
      → P (run net n t s).0 (run net n t s).1
  run-Ensures still net n h = run-Ends _ _ still net n _ _ h.ends

module _ {S Q : Type 0} {R : Q → Type 0} {A : Type 0} (Rely : S → S → Type 0) where
  -- What a first part has to ensure for the whole to ensure `P`.
  abbrev pub After :
      {B : Type 0} → (S → Result A → Type 0) → (B → Task S Q R A) → S → Result B → Type 0
  After P k s (ok b) = Ensures Rely P (k b) s
  After P k s (err e) = P s (err e)

  abbrev pub Caught : (S → Result A → Type 0) → (Failure → Task S Q R A) → S → Result A → Type 0
  Caught P h s (ok a) = P s (ok a)
  Caught P h s (err e) = Ensures Rely P (h e) s

Ends-settle :
    {S Q : Type 0} (R : Q → Type 0) {A : Type 0} (Rely : S → S → Type 0) (P : S → Result A → Type 0)
    (x : Result A) (s : S)
    → P s x
    → Ends {Q = Q} {R = R} Rely P (settle x) s
unfolding Ends settle
Ends-settle R Rely P (ok a) s h = h
Ends-settle R Rely P (err e) s h = h

module _ {S Q : Type 0} {R : Q → Type 0} {A : Type 0} (Rely : S → S → Type 0)
    (P : S → Result A → Type 0) where
  Ends-bind :
      {B : Type 0} (t : Task S Q R B) (k : B → Task S Q R A) (s : S)
      → Ends Rely (After Rely P k) t s
      → Ends Rely P (t >>= k) s
  unfolding Ends ◌>>=◌
  Ends-bind (done b) k s h = h.ends
  Ends-bind (fail e) k s h = h
  Ends-bind (set f t) k s h = Ends-bind t k (f s) h
  Ends-bind (call q c) k s h = λ r s' rel. Ends-bind (c r) k s' (h r s' rel)

  Ends-catching :
      (t : Task S Q R A) (c : Failure → Task S Q R A) (s : S)
      → Ends Rely (Caught Rely P c) t s
      → Ends Rely P (catching t c) s
  unfolding Ends catching
  Ends-catching (done b) c s h = h
  Ends-catching (fail e) c s h = h.ends
  Ends-catching (set f t) c s h = Ends-catching t c (f s) h
  Ends-catching (call q k) c s h = λ r s' rel. Ends-catching (k r) c s' (h r s' rel)

  Ends-finally :
      (t : Task S Q R A) (f : S → S) (s : S)
      → Ends Rely (λ s' out. P (f s') out) t s
      → Ends Rely P (finally t f) s
  unfolding Ends finally
  Ends-finally (done b) f s h = h
  Ends-finally (fail e) f s h = h
  Ends-finally (set g t) f s h = Ends-finally t f (g s) h
  Ends-finally (call q k) f s h = λ r s' rel. Ends-finally (k r) f s' (h r s' rel)

-- The rules. A part that a rule takes explicitly is found from the goal: write `_`.
module _ {S Q : Type 0} {R : Q → Type 0} {A : Type 0} {Rely : S → S → Type 0}
    {P : S → Result A → Type 0} {s : S} where
  pub Ensures-done : (a : A) → P s (ok a) → Ensures {Q = Q} {R = R} Rely P (done a) s
  unfolding Ends
  Ensures-done a h = record { ends = h }

  pub Ensures-fail : (e : Failure) → P s (err e) → Ensures {Q = Q} {R = R} Rely P (fail e) s
  unfolding Ends
  Ensures-fail e h = record { ends = h }

  pub Ensures-bind :
      {B : Type 0} (t : Task S Q R B) (k : B → Task S Q R A)
      → Ensures Rely (After Rely P k) t s
      → Ensures Rely P (t >>= k) s
  Ensures-bind t k h = record { ends = Ends-bind Rely P t k s h.ends }

  pub Ensures-catching :
      (t : Task S Q R A) (c : Failure → Task S Q R A)
      → Ensures Rely (Caught Rely P c) t s
      → Ensures Rely P (catching t c) s
  Ensures-catching t c h = record { ends = Ends-catching Rely P t c s h.ends }

  pub Ensures-finally :
      (t : Task S Q R A) (f : S → S)
      → Ensures Rely (λ s' out. P (f s') out) t s
      → Ensures Rely P (finally t f) s
  Ensures-finally t f h = record { ends = Ends-finally Rely P t f s h.ends }

  -- An await whose reply settles as `f` says: both outcomes are to be met, in any state that the
  -- other handlers may have made meanwhile.
  pub Ensures-call :
      (q : Q) (f : R q → Result A)
      → ((x : Result A) (s' : S) → Rely s s' → P s' x)
      → Ensures {R = R} Rely P (call q (λ r. settle (f r))) s
  unfolding Ends
  Ensures-call q f h = record { ends = λ r s' rel. Ends-settle R Rely P (f r) s' (h (f r) s' rel) }

module _ {S Q : Type 0} {R : Q → Type 0} {Rely : S → S → Type 0} where
  pub Ensures-update :
      {P : S → Result (Unit {0}) → Type 0} {s : S} (f : S → S)
      → P (f s) (ok tt)
      → Ensures {Q = Q} {R = R} Rely P (update f) s
  unfolding Ends update
  Ensures-update f h = record { ends = h }

-- The two commonest steps of a handler: a state update, and an await.
module _ {S Q : Type 0} {R : Q → Type 0} {A : Type 0} {Rely : S → S → Type 0}
    {P : S → Result A → Type 0} {s : S} where
  pub Ensures-step :
      (f : S → S) (k : Unit {0} → Task S Q R A)
      → Ensures Rely P (k tt) (f s)
      → Ensures Rely P (update f >>= k) s
  Ensures-step f k h = Ensures-bind (update f) k (Ensures-update f h)

  pub Ensures-await :
      {B : Type 0} (q : Q) (f : R q → Result B) (k : B → Task S Q R A)
      → ((b : B) (s' : S) → Rely s s' → Ensures Rely P (k b) s')
      → ((e : Failure) (s' : S) → Rely s s' → P s' (err e))
      → Ensures Rely P (call q (λ r. settle (f r)) >>= k) s
  Ensures-await q f k good bad =
      Ensures-bind (call q (λ r. settle (f r))) k
        (Ensures-call q f (elim [ ok b ↦ good b | err e ↦ bad e ]))

module _ {S Q : Type 0} {R : Q → Type 0} {A : Type 0} (Rely : S → S → Type 0)
    {P P' : S → Result A → Type 0} (weaker : (s : S) (out : Result A) → P s out → P' s out) where
  Ends-mono : (t : Task S Q R A) (s : S) → Ends Rely P t s → Ends Rely P' t s
  unfolding Ends
  Ends-mono (done a) s h = weaker s (ok a) h
  Ends-mono (fail e) s h = weaker s (err e) h
  Ends-mono (set f t) s h = Ends-mono t (f s) h
  Ends-mono (call q k) s h = λ r s' rel. Ends-mono (k r) s' (h r s' rel)

  pub Ensures-mono : {t : Task S Q R A} {s : S} → Ensures Rely P t s → Ensures Rely P' t s
  Ensures-mono {t} {s} h = record { ends = Ends-mono t s h.ends }

module _ {S Q : Type 0} {R : Q → Type 0} (Rely : S → S → Type 0) where
  Ends-whatever : {A : Type 0} (t : Task S Q R A) (s : S) → Ends Rely (λ _ _. Unit {0}) t s
  unfolding Ends
  Ends-whatever (done a) s = tt
  Ends-whatever (fail e) s = tt
  Ends-whatever (set f t) s = Ends-whatever t (f s)
  Ends-whatever (call q k) s = λ r s' rel. Ends-whatever (k r) s'

  -- A property of all states is so in the end.
  pub Ensures-whatever :
      {A : Type 0} {P : S → Result A → Type 0} (t : Task S Q R A) (s : S)
      → ((s' : S) (out : Result A) → P s' out)
      → Ensures Rely P t s
  Ensures-whatever t s h =
      Ensures-mono Rely (λ s' out w. h s' out) (record { ends = Ends-whatever t s })

  -- A body whose `catch` only updates the state ends without an exception, whatever it does.
  pub Ensures-caught :
      {P : S → Result (Unit {0}) → Type 0} {s : S} (t : Task S Q R (Unit {0})) (c : Failure → S → S)
      → ((s' : S) → P s' (ok tt))
      → Ensures Rely P (catching t (λ e. update (c e))) s
  Ensures-caught {s = s} t c h = Ensures-catching t _ (
      Ensures-mono Rely
        (λ s'. elim [ ok a ↦ λ _. h s' | err e ↦ λ _. Ensures-update _ (h (c e s')) ])
        (record { ends = Ends-whatever t s }))

  -- A task whose exception is ignored, where any state will do.
  pub Ensures-ignored :
      {P : S → Result (Unit {0}) → Type 0} {s : S} (t : Task S Q R (Unit {0}))
      → ((s' : S) → P s' (ok tt))
      → Ensures Rely P (catching t (λ e. done tt)) s
  Ensures-ignored {s = s} t h = Ensures-catching t _ (
      Ensures-mono Rely (λ s'. elim [ ok a ↦ λ _. h s' | err e ↦ λ _. Ensures-done _ (h s') ])
        (record { ends = Ends-whatever t s }))
