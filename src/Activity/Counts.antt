-- ===== src/Activity/Counts.antt =====
-- The two counters of the panel, and the classification behind them.
use nats_demo.Common.{◌≡◌, refl, ◌+◌, not, List, [], ◌∷◌, arith, length, filter}
use nats_demo.Api.{Activity}
use nats_demo.Platform.{Platform}
use nats_demo.Activity.Classify.{is_lifecycle_activity, is_business_activity}
use nats_demo.Activity.Filter.{business_count, lifecycle_count}

module _ (js : Platform) where
  -- Every record is of exactly one of the two kinds, also where its category says nothing.
  pub is_business_complement :
      (act : Activity) → is_business_activity js act ≡ not (is_lifecycle_activity js act)
  unfolding is_business_activity is_lifecycle_activity
  is_business_complement act = ground arith

  kinds_split :
      (l : List Activity)
      → length (filter (is_business_activity js) l) + length (filter (is_lifecycle_activity js) l)
        ≡ length l
  kinds_split [] = refl
  kinds_split (a ∷ l) = ground (arith, kinds_split l, is_business_complement a)

  -- The badge beside "Telemetry", computed by a subtraction, is the number of lifecycle records,
  -- and the two badges add up to the number of all records.
  pub lifecycle_count_exact :
      (l : List Activity)
      → (lifecycle_count js l ≡ length (filter (is_lifecycle_activity js) l))
        × (business_count js l + lifecycle_count js l ≡ length l)
  unfolding lifecycle_count business_count
  lifecycle_count_exact l = omega (arith, kinds_split l)
