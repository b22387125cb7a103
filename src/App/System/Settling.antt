-- ===== src/App/System/Settling.antt =====
-- The waiting handlers of frontend/src/App.tsx are answered one after the other, the oldest first.
use nats_demo.Common.{ℕ, zero, suc, ◌+◌, ◌≤◌, ◌≡◌, refl, List, [], ◌∷◌, ◌++◌, arith}
use nats_demo.Task.{done, fail, set, call, advance, resume}
use nats_demo.Api.{Fetch, Reply}
use nats_demo.App.State.{State}
use nats_demo.App.System.{AppHandler, Dashboard, park, start, answer, Reach, later, reply}

module _ (net : (q : Fetch) → Reply q) where
  -- How many steps a handler still takes, updates and requests, when `net` answers it.
  unfoldable pub steps : AppHandler → ℕ
  steps (done a) = 0
  steps (fail e) = 0
  steps (set f t) = suc (steps t)
  steps (call q k) = suc (steps (k (net q)))

  unfoldable pub all_steps : List AppHandler → ℕ
  all_steps [] = 0
  all_steps (t ∷ l) = suc (steps t) + all_steps l

  -- The oldest of the waiting handlers is answered, n times.
  unfoldable pub drain : ℕ → Dashboard → Dashboard
  drain zero d = d
  drain (suc n) d = drain n (answer 0 net d)

  all_steps-append : (l r : List AppHandler) → all_steps (l ++ r) ≡ all_steps l + all_steps r
  unfolding all_steps
  all_steps-append [] r = omega arith
  all_steps-append (t ∷ l) r = omega (arith, all_steps-append l r)

  all_steps-park :
      (t : AppHandler) (s : State) (l : List AppHandler)
      → all_steps (park (advance t s).1 l) ≤ all_steps l + suc (steps t)
  unfolding all_steps steps advance
  all_steps-park (done a) s l = omega arith
  all_steps-park (fail e) s l = omega arith
  all_steps-park (set f t) s l = omega (arith, all_steps-park t (f s) l)
  all_steps-park (call q k) s l = omega (arith, all_steps-append l (call q k ∷ []))

  -- The handler that goes on has one step less to take.
  all_steps-resume :
      (t : AppHandler) (s : State) (l : List AppHandler)
      → all_steps (park (advance (resume net t) s).1 l) ≤ all_steps l + steps t
  unfolding all_steps steps advance resume
  all_steps-resume (done a) s l = omega arith
  all_steps-resume (fail e) s l = omega arith
  all_steps-resume (set f t) s l = all_steps-park t (f s) l
  all_steps-resume (call q k) s l = all_steps-park (k (net q)) s l

  drain-waiting :
      (n : ℕ) (state : State) (waiting : List AppHandler)
      → all_steps waiting ≤ n
      → (drain n (record { state = state; waiting = waiting })).waiting ≡ []
  unfolding drain all_steps answer start
  drain-waiting zero s [] h = refl
  drain-waiting zero s (t ∷ l) h = elim none_left [ ]
    where
      none_left : ⊥
      none_left = omega (arith, h)
  drain-waiting (suc n) s [] h = drain-waiting n s [] (omega arith)
  drain-waiting (suc n) s (t ∷ l) h = drain-waiting n _ _ (omega (arith, all_steps-resume t s l))

  -- A handler is a finite task: within as many replies of `net` as the waiting handlers have steps left,
  -- the oldest first, none of them waits any more.
  pub drained : (d : Dashboard) → (drain (all_steps d.waiting) d).waiting ≡ []
  drained d = drain-waiting (all_steps d.waiting) d.state d.waiting (omega arith)

  pub Reach-drain : (n : ℕ) (d : Dashboard) → Reach d → Reach (drain n d)
  unfolding drain
  Reach-drain zero d r = r
  Reach-drain (suc n) d r = Reach-drain n (answer 0 net d) (later r (reply 0 net))
