-- ===== src/Task.antt =====
-- Asynchronous handlers as resumptions: an `async` function of the dashboard runs synchronously
-- up to its next `await`, and resumes with the reply. `S` is the component's state, `Q` what can be
-- awaited, `R q` the replies to `q`. A call `setX(v)` of React is a `set` node.
pub mod Laws
pub mod Given
pub mod Asking
pub mod Keeping
pub mod Together
use nats_demo.Common.{ℕ, suc, ◌+◌, ◌≡◌, String, str_eq, Bool, or_text}

-- What a JavaScript `catch` receives: an `Error` or a `SyntaxError`, with its message.
pub data Failure : Type 0 where
  error : String → Failure
  syntax_error : String → Failure

pub data Result (A : Type 0) : Type 0 where
  ok : A → Result A
  err : Failure → Result A

-- `e.message`
abbrev pub message : Failure → String
message (error m) = m
message (syntax_error m) = m

-- `e.message || d`
abbrev pub message_or : Failure → String → String
message_or e d = or_text (message e) d

pub data Task (S Q : Type 0) (R : Q → Type 0) (A : Type 0) : Type 0 where
  done : A → Task S Q R A
  fail : Failure → Task S Q R A
  set : (S → S) → Task S Q R A → Task S Q R A
  call : (q : Q) → (R q → Task S Q R A) → Task S Q R A

module _ {S Q : Type 0} {R : Q → Type 0} where
  infixl 5 ◌>>=◌ ◌>>◌
  unfoldable pub ◌>>=◌ : {A B : Type 0} → Task S Q R A → (A → Task S Q R B) → Task S Q R B
  done a >>= f = f a
  fail e >>= f = fail e
  set g t >>= f = set g (t >>= f)
  call q k >>= f = call q (λ r. k r >>= f)

  abbrev pub ◌>>◌ : {B : Type 0} → Task S Q R (Unit {0}) → Task S Q R B → Task S Q R B
  m >> k = m >>= λ _. k

  -- A synchronous state update.
  unfoldable pub update : (S → S) → Task S Q R (Unit {0})
  update f = set f (done tt)

  -- A settled promise: its value or the exception it throws.
  unfoldable pub settle : {A : Type 0} → Result A → Task S Q R A
  settle (ok a) = done a
  settle (err e) = fail e

  -- `try { t } catch (e) { h(e) }`
  unfoldable pub catching : {A : Type 0} → Task S Q R A → (Failure → Task S Q R A) → Task S Q R A
  catching (done a) h = done a
  catching (fail e) h = h e
  catching (set g t) h = set g (catching t h)
  catching (call q k) h = call q (λ r. catching (k r) h)

  -- `try { t } finally { f }`, for a block `f` that only updates state
  unfoldable pub finally : {A : Type 0} → Task S Q R A → (S → S) → Task S Q R A
  finally (done a) f = set f (done a)
  finally (fail e) f = set f (fail e)
  finally (set g t) f = set g (finally t f)
  finally (call q k) f = call q (λ r. finally (k r) f)

  -- A run in which the n-th reply is given by `net n`.
  unfoldable pub run : {A : Type 0} → (ℕ → (q : Q) → R q) → ℕ → Task S Q R A → S → S × Result A
  run net n (done a) s = (s, ok a)
  run net n (fail e) s = (s, err e)
  run net n (set f t) s = run net n t (f s)
  run net n (call q k) s = run net (suc n) (k (net n q)) s

  -- A handler up to its next `await`: the state it leaves, and what is still to do.
  unfoldable pub advance : {A : Type 0} → Task S Q R A → S → S × Task S Q R A
  advance (set f t) s = advance t (f s)
  advance (done a) s = (s, done a)
  advance (fail e) s = (s, fail e)
  advance (call q k) s = (s, call q k)

  -- A waiting handler is given its reply.
  unfoldable pub resume : {A : Type 0} → ((q : Q) → R q) → Task S Q R A → Task S Q R A
  resume net (call q k) = k (net q)
  resume net (set f t) = set f t
  resume net (done a) = done a
  resume net (fail e) = fail e

  -- Whatever the replies are, and whatever other handlers do to the state within `Rely` while
  -- this one waits, the task ends in `P`.
  unfoldable pub Ends :
      {A : Type 0} → (S → S → Type 0) → (S → Result A → Type 0) → Task S Q R A → S → Type 0
  Ends Rely P (done a) s = P s (ok a)
  Ends Rely P (fail e) s = P s (err e)
  Ends Rely P (set f t) s = Ends Rely P t (f s)
  Ends Rely P (call q k) s = (r : R q) (s' : S) → Rely s s' → Ends Rely P (k r) s'

  -- Whatever the replies are, everything that the task asks for satisfies `P`.
  unfoldable pub Asks : {A : Type 0} → (Q → Type 0) → Task S Q R A → Type 0
  Asks P (done a) = Unit
  Asks P (fail e) = Unit
  Asks P (set f t) = Asks P t
  Asks P (call q k) = P q × ((r : R q) → Asks P (k r))

-- `Ends` as a type of its own, by which the rules of Task/Laws.antt are matched.
pub record Ensures {S Q : Type 0} {R : Q → Type 0} {A : Type 0} (Rely : S → S → Type 0)
    (P : S → Result A → Type 0) (t : Task S Q R A) (s : S) : Type 0 where
  pub ends : Ends Rely P t s
