-- ===== src/Panel/Holding.antt =====
-- Handlers that keep a flag on while they wait, and those that do not touch it.
use nats_demo.Common.{◌≡◌, Bool, true, false, if◌then◌else◌}
use nats_demo.Task.{Task, done, fail, set, call, update, finally, resume, ◌>>=◌, ◌>>◌}
use nats_demo.Task.Keeping.{Keeps, Maintains, Free}

module _ {S Q : Type 0} {R : Q → Type 0} (flag : S → Bool) where
  -- While it waits the flag is on, and when it ends the flag is off, whatever the replies are and
  -- whatever others do to the rest of the state.
  unfoldable pub Holds : {A : Type 0} → Task S Q R A → S → Type 0
  Holds (done a) s = flag s ≡ false
  Holds (fail e) s = flag s ≡ false
  Holds (set f t) s = Holds t (f s)
  Holds (call q k) s = (flag s ≡ true) × ((r : R q) (s' : S) → flag s' ≡ true → Holds (k r) s')

  -- The handler does not touch the flag.
  abbrev pub Leaves : Task S Q R (Unit {0}) → Type 0
  Leaves t = (b : Bool) → Maintains (λ s. flag s ≡ b) Free t

  Holds-Keeps :
      {A : Type 0} (t : Task S Q R A) (off : S → S) (s : S)
      → Keeps (λ s'. flag s' ≡ true) Free t
      → flag s ≡ true
      → ((s' : S) → flag (off s') ≡ false)
      → Holds (finally t off) s
  unfolding Holds finally Keeps
  Holds-Keeps (done a) off s k h o = o s
  Holds-Keeps (fail e) off s k h o = o s
  Holds-Keeps (set f t) off s k h o = Holds-Keeps t off (f s) k.1 (k.0 s h) o
  Holds-Keeps (call q c) off s k h o = (h, λ r s' h'. Holds-Keeps (c r) off s' (k r) h' o)

  pub Holds-finally :
      {A : Type 0} (t : Task S Q R A) (off : S → S) (s : S)
      → ((b : Bool) → Maintains (λ s'. flag s' ≡ b) Free t)
      → flag s ≡ true
      → ((s' : S) → flag (off s') ≡ false)
      → Holds (finally t off) s
  Holds-finally t off s k h o = Holds-Keeps t off s ((k true).keeps) h o

  pub Holds-if :
      {A : Type 0} (b : Bool) (t u : Task S Q R A) (s : S)
      → Holds t s
      → Holds u s
      → Holds (if b then t else u) s
  Holds-if true t u s h k = h
  Holds-if false t u s h k = k

  -- A handler that turns the flag on, and off in its `finally` block
  pub Holds-raised :
      {A : Type 0} (on : S → S) (t : Task S Q R A) (off : S → S) (s : S)
      → ((s' : S) → flag (on s') ≡ true)
      → ((b : Bool) → Maintains (λ s'. flag s' ≡ b) Free t)
      → ((s' : S) → flag (off s') ≡ false)
      → Holds (update on >> finally t off) s
  unfolding Holds update ◌>>=◌
  Holds-raised on t off s i k o = Holds-Keeps t off (on s) ((k true).keeps) (i s) o

  unfoldable pub Waits : Task S Q R (Unit {0}) → Type 0
  Waits t = (s : S) → flag s ≡ true → Holds t s

  pub Waits-resume :
      (net : (q : Q) → R q) (t : Task S Q R (Unit {0})) → Waits t → Waits (resume net t)
  unfolding Waits Holds resume
  Waits-resume net (call q k) w = λ s h. (w s h).1 (net q) s h
  Waits-resume net (done a) w = w
  Waits-resume net (fail e) w = w
  Waits-resume net (set f t) w = w
