-- ===== src/Panel.antt =====
-- A panel at work, for those that keep flags of their own: what the user starts by the elements that
-- it shows, what its timers start, and how the handlers that wait are interleaved. `S` is the panel's
-- state, `E` its events, `X` what its parent passes, `view` what it shows, `react` the handler of an
-- event, with the random number that it draws, and `Background` what comes without the user.
pub mod Holding
pub mod Exclusive
pub mod Kinds
pub mod Taking
use nats_demo.Common.{ℕ, List, [], ◌∷◌, ◌++◌, none, some, take_out}
use nats_demo.Task.{Task, done, fail, set, call, advance, resume}
use nats_demo.Html.{Html, Offers}

-- A handler in progress, with the event that started it
abbrev pub Pending : (S Q : Type 0) → (Q → Type 0) → Type 0 → Type 0
Pending S Q R E = E × Task S Q R (Unit {0})

-- The state, and the handlers that wait for a reply, the oldest first.
pub record Live (S Q : Type 0) (R : Q → Type 0) (E : Type 0) : Type 0 where
  pub state : S
  pub waiting : List (Pending S Q R E)

module _ {S Q : Type 0} {R : Q → Type 0} {E : Type 0} where
  unfoldable pub park : E → Task S Q R (Unit {0}) → List (Pending S Q R E) → List (Pending S Q R E)
  park e (call q k) l = l ++ ((e, call q k) ∷ [])
  park e (done a) l = l
  park e (fail x) l = l
  park e (set f t) l = l

  -- A handler runs up to its next wait.
  unfoldable pub start : E → Task S Q R (Unit {0}) → Live S Q R E → Live S Q R E
  start e t d =
      let next = advance t d.state in record { state = next.0; waiting = park e next.1 d.waiting }

  -- The i-th of the waiting handlers gets its reply.
  unfoldable pub answer : ℕ → ((q : Q) → R q) → Live S Q R E → Live S Q R E
  answer i net d = elim (take_out i d.waiting) [
    | none ↦ d
    | some (w, rest) ↦ start (w.0) (resume net w.1) (record { state = d.state; waiting = rest })
  ]

  module _ {X : Type 0} (view : X → S → Html E) (react : E → ℕ → S → Task S Q R (Unit {0}))
      (Background : E → Type 0) where
    pub data Step (d : Live S Q R E) : Live S Q R E → Type 0 where
      press :
          (x : X) (e : E) (draw : ℕ)
          → Offers (view x d.state) e
          → Step d (start e (react e draw d.state) d)
      elapse : (e : E) (draw : ℕ) → Background e → Step d (start e (react e draw d.state) d)
      reply : (i : ℕ) (net : (q : Q) → R q) → Step d (answer i net d)

    pub data Reach (s : S) : Live S Q R E → Type 0 where
      mount : Reach s (record { state = s; waiting = [] })
      later : {d e : Live S Q R E} → Reach s d → Step d e → Reach s e
