-- ===== src/Activity/Shown.antt =====
-- Which records the panel shows, of those that pass the filters.
use nats_demo.Common.{
  ◌≡◌, refl, ◌+◌, ◌<◌, ◌++◌, ◌&&◌, Bool, true, false, not, List, [], ◌∷◌, min, arith, length, take,
  drop, filter, length-take, take-append-drop, ap, eq_iff, Bool-cases, inl, inr, ◌==◌,
  if◌then◌else◌,
}
use nats_demo.Api.{Activity}
use nats_demo.Platform.{Platform}
use nats_demo.Activity.Filter.{
  ActivityCategory, all_messages, business_only, lifecycle_only, Filters, passes_others, passes,
  filtered_activities, displayed_activities, has_active_filters, handle_clear_filters,
}
use nats_demo.Activity.Classify.{is_business_activity}

abbrev pub with_category : ActivityCategory → Filters → Filters
with_category c f = record f { message_category = c }

module _ (js : Platform) where
  -- With a cap other than 0, the panel shows the first records that pass the filters, as many as
  -- the cap allows, in the order of the log.
  pub displayed_activities_bounds :
      (f : Filters) (l : List Activity)
      → 0 < f.event_limit
      → (length (displayed_activities js f l)
          ≡ min f.event_limit (length (filtered_activities js f l)))
        × (displayed_activities js f l ++ drop f.event_limit (filtered_activities js f l)
            ≡ filtered_activities js f l)
  unfolding displayed_activities
  displayed_activities_bounds f l h =
      let capped : (f.event_limit == 0) ≡ false = ground arith in
      rw capped (
        length-take f.event_limit (filtered_activities js f l),
        take-append-drop f.event_limit (filtered_activities js f l),
      )

  -- The other tests do not look at the tab.
  passes_of_tab :
      (f : Filters) (a : Activity)
      → (passes js (with_category business_only f) a
          ≡ is_business_activity js a && passes_others js f a)
        × (passes js (with_category lifecycle_only f) a
            ≡ not (is_business_activity js a) && passes_others js f a)
        × (passes js (with_category all_messages f) a ≡ passes_others js f a)
  unfolding passes passes_others
  passes_of_tab f a = elim (Bool-cases (is_business_activity js a)) [
    | inl business ↦ rw business (refl, refl, refl)
    | inr telemetry ↦ rw telemetry (refl, refl, refl)
  ]

  -- Whatever the other filters are, the Messages tab and the Telemetry tab share out the records of
  -- the All tab: their numbers add up.
  pub filtered_activities_partition :
      (f : Filters) (l : List Activity)
      → length (filtered_activities js (with_category business_only f) l)
          + length (filtered_activities js (with_category lifecycle_only f) l)
        ≡ length (filtered_activities js (with_category all_messages f) l)
  unfolding filtered_activities
  filtered_activities_partition f [] = refl
  filtered_activities_partition f (a ∷ l) =
      ground (arith, filtered_activities_partition f l, passes_of_tab f a)

  filter_all :
      (p : Activity → Bool) (l : List Activity) → ((a : Activity) → p a ≡ true) → filter p l ≡ l
  filter_all p [] h = refl
  filter_all p (a ∷ l) h = rw (h a) (ap (λ r. a ∷ r) (filter_all p l h))

  module _ (trim_empty : js.trim "" ≡ "") where
    passes_unfiltered :
        (f : Filters) (a : Activity) → has_active_filters f ≡ false → passes js f a ≡ true
    unfolding has_active_filters passes passes_others
    passes_unfiltered f a h =
        ground (arith, trim_empty, eq_iff f.search_query "", eq_iff (js.trim f.search_query) "")

    -- With no filter set every record is shown up to the cap.
    filtered_activities_unfiltered :
        (f : Filters) (l : List Activity)
        → has_active_filters f ≡ false
        → filtered_activities js f l ≡ l
    unfolding filtered_activities
    filtered_activities_unfiltered f l h = filter_all (passes js f) l (λ a. passes_unfiltered f a h)

    -- "Clear Filters" resets every filter and keeps the cap: the button goes away, and the panel
    -- shows the first records of the whole log.
    pub handle_clear_filters-shows_all :
        (f : Filters) (l : List Activity)
        → (has_active_filters (handle_clear_filters f) ≡ false)
          × (filtered_activities js (handle_clear_filters f) l ≡ l)
          × (displayed_activities js (handle_clear_filters f) l
              ≡ (if f.event_limit == 0 then l else take f.event_limit l))
    unfolding handle_clear_filters displayed_activities has_active_filters
    handle_clear_filters-shows_all f l =
        let whole = filtered_activities_unfiltered (handle_clear_filters f) l refl in
        (refl, whole, rw whole)
