-- ===== src/Props.antt =====
-- What the forms ask of the root component: `onPublish` and `onSubmitJob` (a job to submit) and
-- `onValidateJob`, as frontend/src/App.tsx passes them down. Each settles or throws.
use nats_demo.Task.{Task, Result, call, settle}
use nats_demo.Api.{Job}

pub data Ask : Type 0 where
  submit validate : Job → Ask

abbrev pub Answer : Ask → Type 0
Answer q = Result (Unit {0})

module _ {S : Type 0} where
  -- `await onSubmitJob(job)`
  abbrev pub await_submit : Job → Task S Ask Answer (Unit {0})
  await_submit job = call (submit job) (λ r. settle r)

  -- `await onValidateJob(job)`
  abbrev pub await_validate : Job → Task S Ask Answer (Unit {0})
  await_validate job = call (validate job) (λ r. settle r)
