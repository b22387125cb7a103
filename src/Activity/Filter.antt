-- ===== src/Activity/Filter.antt =====
-- The panel's state and what it shows: frontend/src/components/ActivityPanel.tsx.
use nats_demo.Common.{
  ℕ, Bool, true, false, not, ◌&&◌, ◌||◌, String, List, reverse, Option, none, some, ◌==◌, length,
  take, filter, str_eq, or_text, or_default, includes, ◌-◌, if◌then◌else◌,
}
use nats_demo.Api.{Activity}
use nats_demo.Platform.{Platform}
use nats_demo.Activity.Classify.{is_lifecycle_activity, is_business_activity}

pub data ActivityCategory : Type 0 where
  all_messages business_only lifecycle_only : ActivityCategory

-- The filters and the cap, as `useState` holds them; "ALL" is the choice that filters nothing.
pub record Filters : Type 0 where
  pub message_category : ActivityCategory
  pub search_query : String
  pub selected_event : String
  pub selected_mode : String
  pub selected_worker : String
  pub event_limit : ℕ

abbrev pub initial_filters : Filters
initial_filters = record {
  message_category = all_messages;
  search_query = "";
  selected_event = "ALL";
  selected_mode = "ALL";
  selected_worker = "ALL";
  event_limit = 15;
}

-- `selected !== 'ALL' && value !== selected`
abbrev pub rejects : String → String → Bool
rejects selected value = not (str_eq selected "ALL") && not (str_eq value selected)

-- The same for a field that may be missing.
abbrev pub rejects_optional : String → Option String → Bool
rejects_optional selected none = not (str_eq selected "ALL")
rejects_optional selected (some value) = rejects selected value

module _ (js : Platform) where
  abbrev lower_includes : String → String → Bool
  lower_includes text q = includes (js.to_lower_case text) q

  -- The search over the seven text fields, for a query that is lowered and trimmed.
  abbrev pub matches_query : String → Activity → Bool
  matches_query q act =
      lower_includes act.job_id q
      || lower_includes (or_default act.msg_id "") q
      || lower_includes (or_default act.job_type "") q
      || lower_includes act.subject q
      || lower_includes (or_text act.worker "") q
      || lower_includes act.event q
      || lower_includes (or_default act.action "") q

  abbrev pub rejects_category : ActivityCategory → Activity → Bool
  rejects_category all_messages act = false
  rejects_category business_only act = not (is_business_activity js act)
  rejects_category lifecycle_only act = is_business_activity js act

  -- The tests after the category's, in the order of their early returns.
  unfoldable pub passes_others : Filters → Activity → Bool
  passes_others f act =
      if rejects f.selected_event act.event
      then false
      else if rejects_optional f.selected_mode act.delivery_mode
      then false
      else if rejects f.selected_worker act.worker
      then false
      else if not (str_eq (js.trim f.search_query) "")
      then matches_query (js.trim (js.to_lower_case f.search_query)) act
      else true

  unfoldable pub passes : Filters → Activity → Bool
  passes f act = if rejects_category f.message_category act then false else passes_others f act

  unfoldable pub filtered_activities : Filters → List Activity → List Activity
  filtered_activities f activities = filter (passes f) activities

  unfoldable pub displayed_activities : Filters → List Activity → List Activity
  displayed_activities f activities =
      if f.event_limit == 0
      then filtered_activities f activities
      else take f.event_limit (filtered_activities f activities)

  unfoldable pub business_count : List Activity → ℕ
  business_count activities = length (filter (is_business_activity js) activities)

  unfoldable pub lifecycle_count : List Activity → ℕ
  lifecycle_count activities = length activities - business_count activities

  unfoldable pub get_job_timeline : List Activity → String → List Activity
  get_job_timeline activities job_id =
      reverse (filter (λ a. str_eq a.job_id job_id && is_lifecycle_activity js a) activities)

unfoldable pub has_active_filters : Filters → Bool
has_active_filters f =
    not (str_eq f.search_query "")
    || not (str_eq f.selected_event "ALL")
    || not (str_eq f.selected_mode "ALL")
    || not (str_eq f.selected_worker "ALL")
    || elim (f.message_category) [ all_messages ↦ false | _ ↦ true ]

unfoldable pub handle_clear_filters : Filters → Filters
handle_clear_filters f = record f {
  search_query = "";
  selected_event = "ALL";
  selected_mode = "ALL";
  selected_worker = "ALL";
  message_category = all_messages;
}

-- `expandedJourneys`: a job that has no entry is collapsed.
unfoldable pub toggle_journey : String → (String → Bool) → String → Bool
toggle_journey job_id expanded j = if str_eq j job_id then not (expanded job_id) else expanded j
