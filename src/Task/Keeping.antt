-- ===== src/Task/Keeping.antt =====
-- What a task does to an invariant: each of its updates keeps it, whatever the replies are, and its
-- value is as promised. An invariant that all handlers keep survives every interleaving.
use nats_demo.Common.{◌≡◌, refl}
use nats_demo.Task.{
  Failure, Result, ok, err, Task, done, fail, set, call, update, settle, catching, finally, advance,
  resume, ◌>>=◌, ◌>>◌,
}

unfoldable pub Keeps :
    {S Q : Type 0} {R : Q → Type 0} {A : Type 0}
    → (S → Type 0)
    → (A → Type 0)
    → Task S Q R A
    → Type 0
Keeps I V (done a) = V a
Keeps I V (fail e) = Unit
Keeps {S} I V (set f t) = ((s : S) → I s → I (f s)) × Keeps I V t
Keeps {R} I V (call q k) = (r : R q) → Keeps I V (k r)

-- The same as a type of its own, by which the rules are matched.
pub record Maintains {S Q : Type 0} {R : Q → Type 0} {A : Type 0} (I : S → Type 0) (V : A → Type 0)
    (t : Task S Q R A) : Type 0 where
  pub keeps : Keeps I V t

-- Any value will do.
abbrev pub Free : {A : Type 0} → A → Type 0
Free a = Unit

module _ {S Q : Type 0} {R : Q → Type 0} (I : S → Type 0) where
  Keeps-bind :
      {A B : Type 0} (V : A → Type 0) (W : B → Type 0) (t : Task S Q R A) (f : A → Task S Q R B)
      → Keeps I V t
      → ((a : A) → V a → Keeps I W (f a))
      → Keeps I W (t >>= f)
  unfolding Keeps ◌>>=◌
  Keeps-bind V W (done a) f h k = k a h
  Keeps-bind V W (fail e) f h k = tt
  Keeps-bind V W (set g t) f h k = (h.0, Keeps-bind V W t f h.1 k)
  Keeps-bind V W (call q c) f h k = λ r. Keeps-bind V W (c r) f (h r) k

  Keeps-catching :
      {A : Type 0} (V : A → Type 0) (t : Task S Q R A) (c : Failure → Task S Q R A)
      → Keeps I V t
      → ((e : Failure) → Keeps I V (c e))
      → Keeps I V (catching t c)
  unfolding Keeps catching
  Keeps-catching V (done a) c h k = h
  Keeps-catching V (fail e) c h k = k e
  Keeps-catching V (set g t) c h k = (h.0, Keeps-catching V t c h.1 k)
  Keeps-catching V (call q d) c h k = λ r. Keeps-catching V (d r) c (h r) k

  Keeps-finally :
      {A : Type 0} (V : A → Type 0) (t : Task S Q R A) (f : S → S)
      → Keeps I V t
      → ((s : S) → I s → I (f s))
      → Keeps I V (finally t f)
  unfolding Keeps finally
  Keeps-finally V (done a) f h k = (k, h)
  Keeps-finally V (fail e) f h k = (k, tt)
  Keeps-finally V (set g t) f h k = (h.0, Keeps-finally V t f h.1 k)
  Keeps-finally V (call q d) f h k = λ r. Keeps-finally V (d r) f (h r) k

  Keeps-rest :
      {A : Type 0} (V : A → Type 0) (t : Task S Q R A) (s : S)
      → Keeps I V t
      → Keeps I V (advance t s).1
  unfolding Keeps advance
  Keeps-rest V (done a) s h = h
  Keeps-rest V (fail e) s h = h
  Keeps-rest V (set f t) s h = Keeps-rest V t (f s) h.1
  Keeps-rest V (call q k) s h = h

  Keeps-advance :
      {A : Type 0} (V : A → Type 0) (t : Task S Q R A) (s : S)
      → Keeps I V t
      → I s
      → I (advance t s).0 × Keeps I V (advance t s).1
  unfolding Keeps advance
  Keeps-advance V (done a) s h i = (i, h)
  Keeps-advance V (fail e) s h i = (i, tt)
  Keeps-advance V (set f t) s h i = Keeps-advance V t (f s) h.1 (h.0 s i)
  Keeps-advance V (call q k) s h i = (i, h)

module _ {S Q : Type 0} {R : Q → Type 0} {I : S → Type 0} where
  pub Maintains-done :
      {A : Type 0} {V : A → Type 0} (a : A) → V a → Maintains {Q = Q} {R = R} I V (done a)
  unfolding Keeps
  Maintains-done a h = record { keeps = h }

  pub Maintains-fail :
      {A : Type 0} {V : A → Type 0} (e : Failure) → Maintains {Q = Q} {R = R} {A = A} I V (fail e)
  unfolding Keeps
  Maintains-fail e = record { keeps = tt }

  pub Maintains-update :
      (f : S → S) → ((s : S) → I s → I (f s)) → Maintains {Q = Q} {R = R} I Free (update f)
  unfolding Keeps update
  Maintains-update f h = record { keeps = (h, tt) }

  pub Maintains-settle :
      {A : Type 0} {V : A → Type 0} (r : Result A)
      → ((a : A) → r ≡ ok a → V a)
      → Maintains {Q = Q} {R = R} I V (settle r)
  unfolding Keeps settle
  Maintains-settle (ok a) h = record { keeps = h a refl }
  Maintains-settle (err e) h = record { keeps = tt }

  pub Maintains-call :
      {A : Type 0} {V : A → Type 0} (q : Q) (k : R q → Task S Q R A)
      → ((r : R q) → Maintains I V (k r))
      → Maintains I V (call q k)
  unfolding Keeps
  Maintains-call q k h = record { keeps = λ r. (h r).keeps }

  pub Maintains-bind :
      {A B : Type 0} {V : A → Type 0} {W : B → Type 0} (t : Task S Q R A) (f : A → Task S Q R B)
      → Maintains I V t
      → ((a : A) → V a → Maintains I W (f a))
      → Maintains I W (t >>= f)
  Maintains-bind t f h k = record { keeps = Keeps-bind I _ _ t f h.keeps (λ a v. (k a v).keeps) }

  -- A first update, and what comes after it.
  pub Maintains-step :
      {A : Type 0} {V : A → Type 0} (f : S → S) (t : Task S Q R A)
      → ((s : S) → I s → I (f s))
      → Maintains I V t
      → Maintains I V (update f >> t)
  Maintains-step f t h k = Maintains-bind (update f) _ (Maintains-update f h) (λ a v. k)

  pub Maintains-catching :
      {A : Type 0} {V : A → Type 0} (t : Task S Q R A) (c : Failure → Task S Q R A)
      → Maintains I V t
      → ((e : Failure) → Maintains I V (c e))
      → Maintains I V (catching t c)
  Maintains-catching t c h k = record { keeps = Keeps-catching I _ t c h.keeps (λ e. (k e).keeps) }

  -- One request in a `try`
  pub Maintains-asked :
      {A B : Type 0} (q : Q) (f : R q → Result A) (k : A → Task S Q R B)
      (c : Failure → Task S Q R B)
      → ((a : A) → Maintains I Free (k a))
      → ((e : Failure) → Maintains I Free (c e))
      → Maintains I Free (catching (call q (λ r. settle (f r)) >>= k) c)
  Maintains-asked q f k c h j =
      Maintains-catching _ c
        (Maintains-bind {V = Free} _ k
          (Maintains-call q _ (λ r. Maintains-settle (f r) (λ a e. tt))) (λ a v. h a))
        j

  pub Maintains-finally :
      {A : Type 0} {V : A → Type 0} (t : Task S Q R A) (f : S → S)
      → Maintains I V t
      → ((s : S) → I s → I (f s))
      → Maintains I V (finally t f)
  Maintains-finally t f h k = record { keeps = Keeps-finally I _ t f h.keeps k }

  -- Up to its next wait, a task keeps the invariant, and what is left of it will.
  pub Maintains-advance :
      {A : Type 0} {V : A → Type 0} (t : Task S Q R A) (s : S)
      → Maintains I V t
      → I s
      → I (advance t s).0 × Maintains I V (advance t s).1
  Maintains-advance t s h i =
      let next = Keeps-advance I _ t s h.keeps i in (next.0, record { keeps = next.1 })

  pub Maintains-rest :
      {A : Type 0} {V : A → Type 0} (t : Task S Q R A) (s : S)
      → Maintains I V t
      → Maintains I V (advance t s).1
  Maintains-rest t s h = record { keeps = Keeps-rest I _ t s h.keeps }

  pub Maintains-resume :
      {A : Type 0} {V : A → Type 0} (net : (q : Q) → R q) (t : Task S Q R A)
      → Maintains I V t
      → Maintains I V (resume net t)
  unfolding Keeps resume
  Maintains-resume net (done a) h = h
  Maintains-resume net (fail e) h = h
  Maintains-resume net (set f t) h = h
  Maintains-resume net (call q k) h = record { keeps = h.keeps (net q) }
