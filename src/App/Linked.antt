-- ===== src/App/Linked.antt =====
-- A form of frontend/src/components at work in frontend/src/App.tsx: what the form asks for through
-- its properties is done by the root component's handlers, on the root component's state.
pub mod Laws
mod Tests
use nats_demo.Common.{String}
use nats_demo.Task.{Task, done, fail, set, call, Result, ok, err, ◌>>=◌}
use nats_demo.Props.{Ask, submit, validate, Answer}
use nats_demo.Api.{Fetch, Reply}
use nats_demo.App.State.{State, Handler}
use nats_demo.App.Jobs.{handle_job_submit, handle_job_validate}

-- A handler of the second of two components, with its outcome as a value
unfoldable pub serving :
    {F S Q : Type 0} {R : Q → Type 0} {A : Type 0} → Task S Q R A → Task (F × S) Q R (Result A)
serving (done a) = done (ok a)
serving (fail e) = done (err e)
serving (set f t) = set (λ p. (p.0, f p.1)) (serving t)
serving (call q k) = call q (λ r. serving (k r))

-- `now` is the local time that a submission is stamped with.
module _ (now : String) where
  -- `onPublish={handleJobSubmit}`, `onSubmitJob={handleJobSubmit}`, `onValidateJob={handleJobValidate}`
  unfoldable pub served : Ask → Handler (Unit {0})
  served (submit job) = handle_job_submit job now
  served (validate job) = handle_job_validate job

  unfoldable pub linked : {F A : Type 0} → Task F Ask Answer A → Task (F × State) Fetch Reply A
  linked (done a) = done a
  linked (fail e) = fail e
  linked (set f t) = set (λ p. (f p.0, p.1)) (linked t)
  linked (call q k) = serving (served q) >>= λ r. linked (k r)
