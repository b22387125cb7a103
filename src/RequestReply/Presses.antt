-- ===== src/RequestReply/Presses.antt =====
-- What can be pressed in frontend/src/components/RequestReplyPanel.tsx while its request is under way.
use nats_demo.Common.{ℕ, ◌≡◌, refl, true, String, Option, none, some}
use nats_demo.Task.{Result, ok, err}
use nats_demo.Task.Keeping.{Maintains-done, Maintains-update, Maintains-step, Maintains-asked}
use nats_demo.Html.{is_disabled}
use nats_demo.Html.Guarded.{Guarded, Posted, Sound, Guarded-each}
use nats_demo.Html.JsonViewer.{Guarded-json_viewer}
use nats_demo.Panel.{Live, Reach}
use nats_demo.Panel.Exclusive.{owners, one_if}
use nats_demo.Panel.Kinds.{Kinds, Takes, Acts, owns, IsFree, owners_of_kind}
use nats_demo.Panel.Taking.{raised_then-Takes, step-Takes, update-Takes}
use nats_demo.Api.{Fetch, Reply, Json, Activity, ValidationResult}
use nats_demo.Api.Jobs.{validate_job}
use nats_demo.RequestReply.{RequestReply, timeline_events, handle_send, send_parsed}
use nats_demo.RequestReply.View.{
  RequestProps, RequestEvent, show_info, set_job_id, set_job_type, set_payload_str, send, react,
  initial, view, heading, outcome, timeline, timeline_row,
}

-- The one kind of handlers, which send a request
pub data Sending : Type 0 where
  sending : Sending

abbrev kind : RequestEvent → Option Sending
kind send = some sending
kind _ = none

pub same_eq : (κ μ : Sending) → true ≡ true → κ ≡ μ
same_eq sending sending h = refl

abbrev pub kinds : Kinds RequestReply RequestEvent
kinds = record {
  Kind = Sending;
  same = λ κ μ. true;
  flag = λ κ s. s.is_sending;
  set_flag = λ κ b s. record s { is_sending = b };
  kind = kind;
  same_eq = same_eq;
  flag-set_flag = λ κ μ b s. refl;
}

send_parsed-Takes :
    (f s : RequestReply) (n : ℕ) (x : Result Json) → Takes kinds sending s (send_parsed f n x)
unfolding send_parsed validate_job
send_parsed-Takes f s n (err e) = update-Takes kinds sending s _ (λ κ s'. refl)
send_parsed-Takes f s n (ok payload) =
    raised_then-Takes kinds sending s _ _ _ refl (λ κ s'. refl) (λ s'. refl, λ μ s' d. cc)
      (λ κ b.
        Maintains-asked _ _ _ _
          (λ res. Maintains-step _ _ (λ s' i. i) (Maintains-update _ (λ s' i. i)))
          (λ e. Maintains-update _ (λ s' i. i)))

react-Acts :
    (parse : String → Result Json) (e : RequestEvent) (draw : ℕ) (s : RequestReply)
    → Acts kinds (kind e) s (react parse e draw s)
unfolding react handle_send
react-Acts parse (show_info topic) draw s = λ κ b. Maintains-done _ tt
react-Acts parse (set_job_id value) draw s = λ κ b. Maintains-update _ (λ s' i. i)
react-Acts parse (set_job_type value) draw s = λ κ b. Maintains-update _ (λ s' i. i)
react-Acts parse (set_payload_str value) draw s = λ κ b. Maintains-update _ (λ s' i. i)
react-Acts parse send draw s =
    step-Takes kinds sending s _ _ (λ κ s'. refl)
      (step-Takes kinds sending _ _ _ (λ κ s'. refl) (send_parsed-Takes s _ draw _))

module _ (print_result : ValidationResult → String) (props : RequestProps) (s : RequestReply) where
  outcome-Guarded : Guarded (IsFree kinds s) (outcome print_result s)
  unfolding Guarded outcome is_disabled Sound Posted
  outcome-Guarded = search Guarded-json_viewer depth 20

  timeline_row-Guarded : (ev : Activity) → Guarded (IsFree kinds s) (timeline_row ev)
  unfolding Guarded timeline_row is_disabled Sound Posted
  timeline_row-Guarded ev = search depth 20

  timeline-Guarded : Guarded (IsFree kinds s) (timeline props.activities s)
  unfolding Guarded timeline is_disabled Sound Posted
  timeline-Guarded =
      let rows =
        Guarded-each (IsFree kinds s) timeline_row (timeline_events props.activities s)
          timeline_row-Guarded in
      search depth 20

  view-Guarded : Guarded (IsFree kinds s) (view print_result props s)
  unfolding Guarded view heading is_disabled Sound Posted
  view-Guarded = search (outcome-Guarded, timeline-Guarded) depth 20

abbrev pub RequestLive : Type 0
RequestLive = Live RequestReply Fetch Reply RequestEvent

-- Nothing comes without the user.
pub data Background : RequestEvent → Type 0 where

-- Whatever is typed and pressed while a request is under way, and whatever
-- the activity log holds by then, no second one is started: there is one
-- exactly while the panel shows that it sends.
pub Reach-one_request :
    (parse : String → Result Json) (print_result : ValidationResult → String) (draw : ℕ)
    (printed : String) (d : RequestLive)
    → Reach (view print_result) (react parse) Background (initial draw printed) d
    → owners (λ s. s.is_sending) (owns kinds sending) d.waiting ≡ one_if d.state.is_sending
Reach-one_request parse print_result draw printed d r =
    owners_of_kind kinds
      (record {
        acts = react-Acts parse;
        guarded = λ props s. view-Guarded print_result props s;
        idle = λ e b. elim b [ ];
      })
      sending refl r
