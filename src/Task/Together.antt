-- ===== src/Task/Together.antt =====
-- `Promise.all` of two calls that each wait once: both requests are sent, and one wait is for both.
-- Where both fail, the failure thrown is the first call's; the program does not look at it.
pub mod Laws
use nats_demo.Task.{Task, done, fail, set, call, ◌>>=◌}

pub data Together (Q : Type 0) : Type 0 where
  one : Q → Together Q
  two : Q → Q → Together Q

abbrev pub TogetherReply : {Q : Type 0} → (Q → Type 0) → Together Q → Type 0
TogetherReply R (one q) = R q
TogetherReply R (two p q) = R p × R q

module _ {S Q : Type 0} {R : Q → Type 0} where
  -- A call on its own
  unfoldable pub alone : {A : Type 0} → Task S Q R A → Task S (Together Q) (TogetherReply R) A
  alone (done a) = done a
  alone (fail e) = fail e
  alone (set f t) = set f (alone t)
  alone (call q k) = call (one q) (λ r. alone (k r))

  abbrev pub both :
      {A B : Type 0} → Task S Q R A → Task S Q R B → Task S (Together Q) (TogetherReply R) (A × B)
  both t u = do a ← alone t; b ← alone u; done (a, b)

  unfoldable pub all :
      {A B : Type 0} → Task S Q R A → Task S Q R B → Task S (Together Q) (TogetherReply R) (A × B)
  all (call p k) (call q h) = call (two p q) (λ r. both (k r.0) (h r.1))
  all (call p k) (done b) = both (call p k) (done b)
  all (call p k) (fail e) = both (call p k) (fail e)
  all (call p k) (set f u) = both (call p k) (set f u)
  all (done a) u = both (done a) u
  all (fail e) u = both (fail e) u
  all (set f t) u = both (set f t) u
