-- ===== src/Task/Asking.antt =====
-- Rules for what a task asks for, by its parts.
use nats_demo.Task.{
  Failure, Result, ok, err, Task, done, fail, set, call, settle, catching, finally, Asks, ◌>>=◌,
}

module _ {S Q : Type 0} {R : Q → Type 0} (P : Q → Type 0) where
  pub Asks-bind :
      {A B : Type 0} (t : Task S Q R A) (f : A → Task S Q R B)
      → Asks P t
      → ((a : A) → Asks P (f a))
      → Asks P (t >>= f)
  unfolding Asks ◌>>=◌
  Asks-bind (done a) f h k = k a
  Asks-bind (fail e) f h k = tt
  Asks-bind (set g t) f h k = Asks-bind t f h k
  Asks-bind (call q c) f h k = (h.0, λ r. Asks-bind (c r) f (h.1 r) k)

  pub Asks-catching :
      {A : Type 0} (t : Task S Q R A) (c : Failure → Task S Q R A)
      → Asks P t
      → ((e : Failure) → Asks P (c e))
      → Asks P (catching t c)
  unfolding Asks catching
  Asks-catching (done a) c h k = tt
  Asks-catching (fail e) c h k = k e
  Asks-catching (set g t) c h k = Asks-catching t c h k
  Asks-catching (call q d) c h k = (h.0, λ r. Asks-catching (d r) c (h.1 r) k)

  pub Asks-finally : {A : Type 0} (t : Task S Q R A) (f : S → S) → Asks P t → Asks P (finally t f)
  unfolding Asks finally
  Asks-finally (done a) f h = tt
  Asks-finally (fail e) f h = tt
  Asks-finally (set g t) f h = Asks-finally t f h
  Asks-finally (call q d) f h = (h.0, λ r. Asks-finally (d r) f (h.1 r))

pub Asks-settle :
    {A : Type 0} (S Q : Type 0) (R : Q → Type 0) (P : Q → Type 0) (r : Result A)
    → Asks P (settle {S = S} {R = R} r)
unfolding Asks settle
Asks-settle S Q R P (ok a) = tt
Asks-settle S Q R P (err e) = tt
