-- ===== src/RequestReply/Tests.antt =====
-- The theorem of the panel of requests and replies at a payload that can be parsed.
use nats_demo.Common.{◌≡◌, [], inl}
use nats_demo.Html.Offering.{Way, Way-Offers, inside, first, rest, use_it}
use nats_demo.Html.{is_disabled, Fires}
use nats_demo.Panel.{start, mount, later, press}
use nats_demo.Panel.Exclusive.{owners, one_if}
use nats_demo.Panel.Kinds.{owns}
use nats_demo.RequestReply.View.{RequestProps, send, react, initial, view}
use nats_demo.RequestReply.Presses.{RequestLive, sending, kinds, Reach-one_request}
use nats_demo.Common.{refl, false, none, String}
use nats_demo.Task.{ok, Result}
use nats_demo.Api.{Json, null}
use nats_demo.RequestReply.{RequestReply}

abbrev panel : RequestReply
panel = record {
  job_id = "job-val-101";
  job_type = "image-processing";
  payload_str = "null";
  json_error = none;
  is_sending = false;
  result = none;
  last_job_id = "";
  validated = 0;
}

abbrev parse : String → Result Json
parse text = ok null

abbrev shown : RequestProps
shown = record { informs = false; activities = [] }

-- A request is sent, and its reply is still to come.
abbrev pressed : RequestLive
pressed =
    start send (react parse send 102 (initial 101 "null"))
      (record { state = initial 101 "null"; waiting = [] })

send_offered : Way send (view (λ r. "") shown (initial 101 "null"))
unfolding view is_disabled Fires
send_offered =
    inside (rest (rest (rest (rest (rest (rest (first (inside (use_it refl (inl refl))))))))))

Reach-one_request_example :
    owners (λ s. s.is_sending) (owns kinds sending) pressed.waiting
    ≡ one_if pressed.state.is_sending
Reach-one_request_example =
    Reach-one_request parse (λ r. "") 101 "null" pressed
      (later mount (press shown send 102 (Way-Offers send_offered)))
