-- ===== src/JobForm/Busy.antt =====
-- What can be pressed in frontend/src/components/JobPanel.tsx while a job is submitted or validated.
use mathlib.Core.Path.{subst}
use nats_demo.Common.{◌↔◌, sym, inl, ◌≡◌, refl, Bool, true, ◌||◌, arith}
use nats_demo.Html.{Offers, Fires, is_disabled, is_submitter}
use nats_demo.Html.Guarded.{Guarded, Guarded-Offers, Held, Posted, Sound}
use nats_demo.Html.Offering.{Way-Offers, first, rest, inside, shown, use_it}
use nats_demo.JobForm.{JobForm}
use nats_demo.JobForm.View.{
  JobEvent, show_info, submit, JobProps, view, heading, mode_field, buttons,
}

-- The button marked (i), where there is one
abbrev pub OnlyInfo : JobProps → JobEvent → Type 0
OnlyInfo props e = (props.informs ≡ true) × (e ≡ show_info "submit-job")

abbrev pub busy : JobProps → Bool
busy props = props.is_submitting || props.is_validating

module _ (props : JobProps) (s : JobForm) (h : busy props ≡ true) where
  heading-Guarded : Guarded (OnlyInfo props) (heading props)
  unfolding Guarded heading is_disabled Sound Posted
  heading-Guarded = search depth 20

  mode_field-Guarded : Guarded (OnlyInfo props) (mode_field props s)
  unfolding Guarded mode_field is_disabled Sound Posted
  mode_field-Guarded = ground arith

  mode_field-Held : Held (OnlyInfo props) (OnlyInfo props submit) (mode_field props s)
  unfolding Held mode_field is_disabled is_submitter
  mode_field-Held = ground arith

  buttons-Guarded : Guarded (OnlyInfo props) (buttons props)
  unfolding Guarded buttons is_disabled Sound Posted
  buttons-Guarded = ground arith

  buttons-Held : Held (OnlyInfo props) (OnlyInfo props submit) (buttons props)
  unfolding Held buttons is_disabled is_submitter
  buttons-Held = ground arith

  view-Guarded : Guarded (OnlyInfo props) (view props s)
  unfolding Guarded view is_disabled is_submitter Sound Posted Held
  view-Guarded =
      ground
        (arith, heading-Guarded, mode_field-Guarded, mode_field-Held, buttons-Guarded, buttons-Held)

  Offers-info : props.informs ≡ true → Offers (view props s) (show_info "submit-job")
  unfolding view heading Fires is_disabled
  Offers-info i =
      Way-Offers (inside (first (inside (inside (rest (shown i (use_it refl (inl refl))))))))

-- While a job is submitted or validated, the form offers nothing but the button marked (i), where it
-- has one: no field can be changed, and nothing can be submitted or validated, by Enter in a field
-- either.
pub view-OnlyInfo :
    (props : JobProps) (s : JobForm) (e : JobEvent)
    → busy props ≡ true
    → Offers (view props s) e ↔ OnlyInfo props e
view-OnlyInfo props s e h = (
  Guarded-Offers (OnlyInfo props) (view props s) e (view-Guarded props s h),
  λ (i, p). subst (Offers (view props s)) (sym p) (Offers-info props s h i),
)
