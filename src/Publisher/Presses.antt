-- ===== src/Publisher/Presses.antt =====
-- What can be pressed in frontend/src/components/CoreFlow/CoreFlowPublisher.tsx while a batch is
-- published.
use nats_demo.Common.{ℕ, ◌≡◌, refl, arith}
use nats_demo.Publisher.Headers.{CustomHeader}
use nats_demo.Html.{is_disabled, is_submitter}
use nats_demo.Html.Guarded.{Guarded, Guarded-each, Guarded-form, Posted, Sound}
use nats_demo.Panel.{Live, Reach}
use nats_demo.Panel.Exclusive.{owners, one_if}
use nats_demo.Panel.Kinds.{owns, IsFree, owners_of_kind}
use nats_demo.Props.{Ask, Answer}
use nats_demo.Publisher.Form.{PublishedReceipt, Form}
use nats_demo.Publisher.Acting.{PublishEvent, send, Given, react, initial}
use nats_demo.Publisher.Fields.{
  msg_id_field, header_row, custom_headers, job_fields, type_field, payload_field,
}
use nats_demo.Publisher.View.{
  PublisherProps, view, heading, transport, actions, receipt_row, history,
}
use nats_demo.Publisher.Kinds.{batching, kinds, react-Acts}

module _ (props : PublisherProps) (s : Form) where
  fixed-Guarded : Guarded (IsFree kinds s) (heading props) × Guarded (IsFree kinds s) transport
  unfolding Guarded heading transport is_disabled Sound Posted
  fixed-Guarded = search depth 20

  fields-Guarded :
      Guarded (IsFree kinds s) (msg_id_field s)
      × Guarded (IsFree kinds s) (job_fields s)
      × Guarded (IsFree kinds s) (type_field s)
      × Guarded (IsFree kinds s) (payload_field s)
  unfolding Guarded msg_id_field job_fields type_field payload_field is_disabled Sound Posted
  fields-Guarded = ground arith

  header_row-Guarded : (hdr : CustomHeader) → Guarded (IsFree kinds s) (header_row hdr)
  unfolding Guarded header_row is_disabled Sound Posted
  header_row-Guarded hdr = search depth 20

  custom_headers-Guarded : Guarded (IsFree kinds s) (custom_headers s)
  unfolding Guarded custom_headers is_disabled Sound Posted
  custom_headers-Guarded =
      let rows = Guarded-each (IsFree kinds s) header_row s.custom_headers header_row-Guarded in
      ground arith

  receipt_row-Guarded : (item : PublishedReceipt) → Guarded (IsFree kinds s) (receipt_row item)
  unfolding Guarded receipt_row is_disabled Sound Posted
  receipt_row-Guarded item = search depth 20

  history-Guarded : Guarded (IsFree kinds s) (history s)
  unfolding Guarded history is_disabled Sound Posted
  history-Guarded =
      let rows =
        Guarded-each (IsFree kinds s) receipt_row s.published_history receipt_row-Guarded in
      ground arith

  actions-Guarded : Guarded (IsFree kinds s) (actions props s)
  unfolding Guarded actions is_disabled Sound Posted
  actions-Guarded = ground arith

  view-Guarded : Guarded (IsFree kinds s) (view props s)
  unfolding Guarded view is_disabled is_submitter Sound Posted
  view-Guarded =
      let fixed = fixed-Guarded in
      let fields = fields-Guarded in
      (
        tt,
        tt,
        (
          fixed.0,
          (
            fixed.1,
            (
              Guarded-form (IsFree kinds s) send _ tt (
                  search (fields.0, fields.1, fields.2, custom_headers-Guarded, actions-Guarded)
                    depth 30),
              history-Guarded,
            ),
          ),
        ),
      )

abbrev pub PublisherLive : Type 0
PublisherLive = Live Form Ask Answer PublishEvent

-- Nothing comes without the user.
pub data Background : PublishEvent → Type 0 where

-- Whatever is typed and pressed while a batch is published, and whatever the replies are, no second
-- batch is started: one is under way exactly while the form shows it.
pub Reach-one_batch :
    (w : Given) (drawn : ℕ) (d : PublisherLive)
    → Reach view (react w) Background (initial drawn w.default_payload) d
    → owners (λ s. s.is_batch_publishing) (owns kinds batching) d.waiting
      ≡ one_if d.state.is_batch_publishing
Reach-one_batch w drawn d r =
    owners_of_kind kinds
      (record { acts = react-Acts w; guarded = view-Guarded; idle = λ e b. elim b [ ] }) batching
      refl r
