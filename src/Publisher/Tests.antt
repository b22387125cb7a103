-- ===== src/Publisher/Tests.antt =====
-- The publisher's theorems at concrete identifiers and headers.
use nats_demo.Common.{◌≢◌, inl, false}
use nats_demo.Html.Offering.{Way, Way-Offers, inside, first, rest, use_it}
use nats_demo.Html.{is_disabled, Fires}
use nats_demo.Panel.{start, mount, later, press}
use nats_demo.Panel.Exclusive.{owners, one_if}
use nats_demo.Panel.Kinds.{owns}
use nats_demo.Publisher.Acting.{Given, batch, react, initial}
use nats_demo.Publisher.Kinds.{batching, kinds}
use nats_demo.Publisher.View.{PublisherProps, view, actions}
use nats_demo.Publisher.Presses.{PublisherLive, Reach-one_batch}
use nats_demo.Task.{Asks}
use nats_demo.Publisher.Send.{batch_job}
use nats_demo.Publisher.BatchLaws.{IsNumbered, handle_batch_publish-IsNumbered}
use nats_demo.Common.{◌↔◌}
use nats_demo.Publisher.NextId.{match_suffix}
use nats_demo.Publisher.SuffixLaws.{Splits, match_suffix-Splits}
use nats_demo.Common.{
  ℕ, false, ◌==◌, decimal, str_eq, if◌then◌else◌, arith, ◌≡◌, refl, String, List, [], ◌∷◌, none,
  some,
}
use nats_demo.Platform.Plain.{plain}
use nats_demo.Publisher.NextId.{exact_limit, numbered, next_id}
use nats_demo.Publisher.NextIdLaws.{next_id-numbered}
use nats_demo.Task.{Result, ok, err, Failure, error, syntax_error, run}
use nats_demo.Api.{Json, null}
use nats_demo.Props.{Ask, Answer}
use nats_demo.Publisher.Form.{Form}
use nats_demo.Publisher.Send.{handle_send, handle_batch_publish}
use nats_demo.Publisher.SendLaws.{Batched, handle_send_refused, handle_batch_publish-Batched}
use nats_demo.Publisher.Headers.{
  CustomHeader, lookup, headers_map, last_value, is_lost, headers_map_last,
}

-- The prefix itself ends in a dash and a number.
match_suffix-Splits_example : (match_suffix "job-10" ≡ some ("job", 10)) ↔ Splits "job-10" "job" 10
match_suffix-Splits_example = match_suffix-Splits "job-10" "job" 10

next_id-numbered_example : next_id plain (numbered "job-10" 9) ≡ some (numbered "job-10" 10)
unfolding exact_limit
next_id-numbered_example =
    next_id-numbered plain "job-10" 9 (refl, (refl, (refl, (refl, (refl, (refl, tt))))))
      (omega arith)

abbrev header : String → String → CustomHeader
header key value = record { id = key; key = key; value = value }

abbrev headers : List CustomHeader
headers = header "tenant" "a" ∷ header "" "b" ∷ header "tenant" "c" ∷ []

headers_map_last_example :
    lookup "tenant" (headers_map plain headers)
    ≡ (if is_lost "tenant" then none else last_value plain none "tenant" headers)
headers_map_last_example = headers_map_last plain "tenant" headers

abbrev form : Form
form = record {
  job_id = numbered "job" 41;
  job_type = "image-processing";
  nats_msg_id = "";
  source = "job-service";
  content_type = "application/json";
  custom_headers = headers;
  payload_str = "null";
  json_error = none;
  published_history = [];
  show_advanced_headers = false;
  is_batch_publishing = false;
}

-- A parser that knows one text
abbrev parse_null : String → Result Json
parse_null s = if str_eq s "null" then ok null else err (syntax_error "Unexpected token")

-- The third request is refused.
abbrev refusing_third : ℕ → (q : Ask) → Answer q
refusing_third n q = if n == 2 then err (error "Failed to fetch") else ok tt

abbrev unreadable_reply : Failure
unreadable_reply = syntax_error "Unexpected end of JSON input"

abbrev replying_badly : ℕ → (q : Ask) → Answer q
replying_badly n q = err unreadable_reply

-- The payload is read, and the reply is not: the form calls the JSON invalid.
handle_send_refused_example :
    run replying_badly 0 (handle_send plain parse_null form 500 "10:00") form
    ≡ (record form { json_error = some "Invalid JSON: Unexpected end of JSON input" }, ok tt)
unfolding decimal
handle_send_refused_example =
    handle_send_refused plain parse_null replying_badly form 500 0 "10:00" null unreadable_reply
      form refl refl refl

handle_batch_publish-Batched_example :
    Batched plain parse_null refusing_third form 1234
      (λ i. "10:00")
      null
      0
      6
      1
      []
      (run refusing_third 0 (handle_batch_publish plain parse_null form 6 1234 (λ i. "10:00")) form)
handle_batch_publish-Batched_example =
    handle_batch_publish-Batched plain parse_null refusing_third form 1234 (λ i. "10:00") null 0 6
      form refl (omega arith)

handle_batch_publish-IsNumbered_example :
    Asks
      (IsNumbered plain parse_null form 1234 (λ i. "10:00") 6)
      (handle_batch_publish plain parse_null form 6 1234 (λ i. "10:00"))
    × ((batch_job plain parse_null form null 1234 2).job_id
        ≢ (batch_job plain parse_null form null 1234 5).job_id)
handle_batch_publish-IsNumbered_example =
    handle_batch_publish-IsNumbered plain parse_null form 1234 (λ i. "10:00") 6 2 5 null
      (λ e. absurd (omega (arith, e)))

abbrev given : Given
given = record {
  js = plain;
  parse_json = parse_null;
  print_json = λ v. "null";
  default_payload = "null";
  moments = record { drawn = λ n. n; row_id = decimal; time = λ n i. decimal i };
}

abbrev idle : PublisherProps
idle = record { informs = false; is_submitting = false }

-- A batch is started, and the reply to its first job is still to come.
abbrev pressed : PublisherLive
pressed =
    start (batch 3) (react given (batch 3) 1000 (initial 101 "null"))
      (record { state = initial 101 "null"; waiting = [] })

batch_offered : Way (batch 3) (view idle (initial 101 "null"))
unfolding view actions is_disabled Fires
batch_offered = inside (
    rest (
      rest (
        first (
          inside (
            rest (
              rest (
                rest (
                  rest (
                    rest (
                      rest (
                        rest (
                          rest (
                            rest (
                              rest (
                                rest (inside (rest (first (use_it refl (inl refl))))))))))))))))))))

Reach-one_batch_example :
    owners (λ s. s.is_batch_publishing) (owns kinds batching) pressed.waiting
    ≡ one_if pressed.state.is_batch_publishing
Reach-one_batch_example =
    Reach-one_batch given 101 pressed
      (later mount (press idle (batch 3) 1000 (Way-Offers batch_offered)))
