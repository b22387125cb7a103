-- ===== src/Deduplication/Busy.antt =====
-- What can be pressed in frontend/src/components/DeduplicationPanel.tsx while a message is published.
use mathlib.Core.Path.{subst}
use nats_demo.Common.{◌↔◌, sym, inl, ◌≡◌, refl, true, arith}
use nats_demo.Html.{Offers, Fires, is_disabled, is_submitter}
use nats_demo.Html.Guarded.{Guarded, Guarded-Offers, Held, Posted, Sound}
use nats_demo.Html.Offering.{Way-Offers, first, rest, inside, shown, use_it}
use nats_demo.Deduplication.{Deduplication}
use nats_demo.Deduplication.View.{DedupEvent, show_info, DedupProps, view, heading, settings, form}

-- The button marked (i), where there is one
abbrev pub JustInfo : DedupProps → DedupEvent → Type 0
JustInfo props e = (props.informs ≡ true) × (e ≡ show_info "message-deduplication")

module _ (props : DedupProps) (s : Deduplication) (h : props.is_submitting ≡ true) where
  heading-Guarded : Guarded (JustInfo props) (heading props)
  unfolding Guarded heading is_disabled Sound Posted
  heading-Guarded = search depth 20

  settings-Guarded : Guarded (JustInfo props) settings
  unfolding Guarded settings is_disabled Sound Posted
  settings-Guarded = search depth 30

  form-Guarded : Guarded (JustInfo props) (form props s)
  unfolding Guarded form is_disabled is_submitter Sound Posted Held
  form-Guarded = ground arith

  view-Guarded : Guarded (JustInfo props) (view props s)
  unfolding Guarded view is_disabled Sound Posted
  view-Guarded = ground (arith, heading-Guarded, settings-Guarded, form-Guarded)

  Offers-info : props.informs ≡ true → Offers (view props s) (show_info "message-deduplication")
  unfolding view heading Fires is_disabled
  Offers-info i =
      Way-Offers (inside (first (inside (inside (rest (shown i (use_it refl (inl refl))))))))

-- While a message is published, the panel offers nothing but the button marked (i), where it has one:
-- the identifier cannot be changed, and nothing can be published, by Enter in the field either.
pub view-JustInfo :
    (props : DedupProps) (s : Deduplication) (e : DedupEvent)
    → props.is_submitting ≡ true
    → Offers (view props s) e ↔ JustInfo props e
view-JustInfo props s e h = (
  Guarded-Offers (JustInfo props) (view props s) e (view-Guarded props s h),
  λ (i, p). subst (Offers (view props s)) (sym p) (Offers-info props s h i),
)
