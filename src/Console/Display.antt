-- ===== src/Console/Display.antt =====
-- What the processor console of frontend/src/components/CoreFlow/CoreFlowProcessor.tsx shows of the
-- processor and of its consumer, and what the buttons of the failure lab ask for.
use nats_demo.Common.{
  ℕ, Bool, true, false, String, Option, none, some, str_eq, or_default, decimal, ◌+s◌,
  if◌then◌else◌,
}
use nats_demo.Platform.{Platform}
use nats_demo.Api.{
  ProcessorDirectStatus, ConsumerStatus, FailureScenario, normal, crash_before_ack, exceed_ack_wait,
  out_of_order_ack, nak_message, term_message,
}
use nats_demo.Console.{Console, ConsoleHandler, active_scenario, handle_set_scenario}

-- `consumerType`, where a missing or empty type counts as durable
unfoldable pub consumer_type : Platform → Option ConsumerStatus → String
consumer_type js none = "DURABLE"
consumer_type js (some c) = if str_eq c.type "" then "DURABLE" else js.to_upper_case c.type

abbrev reported_name : Option ConsumerStatus → Option String
reported_name none = none
reported_name (some c) = some c.name

-- `consumerName`
unfoldable pub consumer_name : Option ConsumerStatus → Console → String
consumer_name consumer s =
    let fallback = or_default (reported_name consumer) "job-processor" in
    elim (s.direct_status) [ none ↦ fallback | some d ↦ or_default (some d.consumer) fallback ]

-- `streamName`, from the stream that the broker's figures name
unfoldable pub stream_name : (jetstream_stream : Option String) → Console → String
stream_name jetstream_stream s =
    let fallback = or_default jetstream_stream "JOBS" in
    elim (s.direct_status) [ none ↦ fallback | some d ↦ or_default (some d.stream) fallback ]

-- `crashedWorker`
unfoldable pub crashed_worker : Console → String
crashed_worker s = elim (s.direct_status) [ none ↦ "" | some d ↦ or_default d.crashed_worker "" ]

abbrev shown_seq : Option ℕ → Option ℕ → String
shown_seq (some n) consumer = "Stream Seq " +s decimal n
shown_seq none (some n) = "Stream Seq " +s decimal n
shown_seq none none = "Stream Seq 0"

abbrev direct_seq : (ProcessorDirectStatus → Option ℕ) → Console → Option ℕ
direct_seq field s = elim (s.direct_status) [ none ↦ none | some d ↦ field d ]

abbrev consumer_seq : (ConsumerStatus → Option ℕ) → Option ConsumerStatus → Option ℕ
consumer_seq field none = none
consumer_seq field (some c) = field c

-- The fields of the ack floor and of the delivered sequence
unfoldable pub ack_floor_text : Option ConsumerStatus → Console → String
ack_floor_text consumer s =
    shown_seq (direct_seq (λ d. d.ack_floor) s) (consumer_seq (λ c. c.ack_floor) consumer)

unfoldable pub delivered_text : Option ConsumerStatus → Console → String
delivered_text consumer s =
    shown_seq (direct_seq (λ d. d.delivered_seq) s) (consumer_seq (λ c. c.delivered_seq) consumer)

-- The command that `handleCopyCli` copies
unfoldable pub copied_command :
    Option ConsumerStatus → (jetstream_stream : Option String) → Console → String
copied_command consumer jetstream_stream s =
    "nats consumer info " +s stream_name jetstream_stream s +s " " +s consumer_name consumer s

-- `a === b`
abbrev pub is_scenario : FailureScenario → FailureScenario → Bool
is_scenario normal normal = true
is_scenario crash_before_ack crash_before_ack = true
is_scenario exceed_ack_wait exceed_ack_wait = true
is_scenario out_of_order_ack out_of_order_ack = true
is_scenario nak_message nak_message = true
is_scenario term_message term_message = true
is_scenario a b = false

-- What the button of a scenario asks for: the scenario, or the normal mode if it is armed already
abbrev pub next_scenario : FailureScenario → FailureScenario → FailureScenario
next_scenario active sc = if is_scenario active sc then normal else sc

unfoldable pub press_scenario : FailureScenario → Console → ConsoleHandler
press_scenario sc f = handle_set_scenario (next_scenario (active_scenario f) sc)
