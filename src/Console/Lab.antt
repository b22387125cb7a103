-- ===== src/Console/Lab.antt =====
-- The failure lab in the markup of frontend/src/components/CoreFlow/CoreFlowProcessor.tsx.
use nats_demo.Common.{Bool, true, false, not, ◌||◌, String, [], ◌∷◌, ◌+s◌, if◌then◌else◌}
use nats_demo.Html.{Html, nothing, text, element, ◌<>◌, when, label, attr, disabled, on_click}
use nats_demo.Platform.{Platform}
use nats_demo.Api.{
  FailureScenario, normal, crash_before_ack, exceed_ack_wait, out_of_order_ack, nak_message,
  term_message,
}
use nats_demo.Console.{Console, LabTab, part_a, part_b, active_scenario}
use nats_demo.Console.Display.{is_scenario, next_scenario, stream_name, consumer_name}
use nats_demo.Console.Acting.{
  ConsoleEvent, toggle_lab, show_tab, set_scenario, copy_cli, ConsoleProps,
}

-- The scenario as it is written
abbrev scenario_text : FailureScenario → String
scenario_text normal = "normal"
scenario_text crash_before_ack = "crash_before_ack"
scenario_text exceed_ack_wait = "exceed_ack_wait"
scenario_text out_of_order_ack = "out_of_order_ack"
scenario_text nak_message = "nak_message"
scenario_text term_message = "term_message"

abbrev is_tab : LabTab → LabTab → Bool
is_tab part_a part_a = true
is_tab part_b part_b = true
is_tab a b = false

-- The title of a step and what it says; `badge` stands beside the title.
unfoldable pub step_text : String → Html ConsoleEvent → Html ConsoleEvent → Html ConsoleEvent
step_text title badge body =
    element "div" []
      ((element "div" [] ((label "strong" title) <> badge)) <> (element "div" [] body))

-- A step that the user takes elsewhere
unfoldable pub action_step : String → Html ConsoleEvent → Html ConsoleEvent
action_step title body = element "div" [] (step_text title (label "span" "OPERATOR ACTION") body)

-- A step with a scenario of its own; `arm` is what its button says while it is not armed.
unfoldable pub armed_step : FailureScenario → String → String → String → Console → Html ConsoleEvent
armed_step sc title body arm s =
    let active = active_scenario s in
    element "div" [] (
      (step_text title (when (is_scenario active sc) (label "span" "ARMED")) (text body))
      <> (element "button"
          (attr "type" "button"
            ∷ disabled s.is_setting_scenario
            ∷ on_click (set_scenario (next_scenario active sc))
            ∷ [])
          (text (if is_scenario active sc then "Disarm" else arm))))

-- The steps for one worker
unfoldable pub single_worker : Console → Html ConsoleEvent
single_worker s = element "div" [] (
    (action_step "1. Baseline Ingestion & Storage" (
      (text "Click ")
      <> (label "strong" "Publish Message")
      <> (text " in Stage 1. Commits record to disk under ")
      <> (label "code" "JOBS")
      <> (text " stream; routes to ")
      <> (label "code" "job-processor")
      <> (text " consumer.")))
    <> (action_step "2. Server Deduplication (Nats-Msg-Id)" (
        (text "Keep same ")
        <> (label "code" "Nats-Msg-Id")
        <> (text " and click ")
        <> (label "strong" "Publish Message")
        <> (text " again. Checks 2-min cache; broker suppresses duplicate disk write.")))
    <> (action_step "3. Decoupled Ingestion & Buffering" (
        (text "Toggle Worker Pull Loop to ")
        <> (label "strong" "OFF")
        <> (text " above, then click ")
        <> (label "strong" "Publish Message")
        <> (text " 3 times. Messages buffer safely on disk in broker.")))
    <> (action_step "4. Sequential Catch-up Drain" (
        (text "Toggle Worker Pull Loop back to ")
        <> (label "strong" "ON")
        <> (text " above. Fetches unacknowledged messages sequentially starting from ")
        <> (label "code" "AckFloor + 1")
        <> (text ".")))
    <> (armed_step out_of_order_ack "5. Out-of-Order ACK & Hole Safety"
        "Pulls 3 messages. Msg 1 & 3 ACKed immediately while Msg 2 delays 10s. AckFloor stays pinned at 1 until Msg 2 resolves."
        "Arm Out-of-Order" s))

-- The steps on the distribution over several workers
unfoldable pub distribution_steps : Html ConsoleEvent
distribution_steps =
    (action_step "6. Demand Work Distribution (Competing Pull)" (
      (text "Set workers to ")
      <> (label "strong" "3W")
      <> (text ", click ")
      <> (label "strong" "Batch (6 Jobs)")
      <> (text ". Delivers reactively based on worker pull requests.")))
    <> (action_step "7. Dynamic Scale-Out (Scenario 10)" (
        (text "Set ")
        <> (label "strong" "1W")
        <> (text ", toggle ")
        <> (label "strong" "OFF")
        <> (text ", click ")
        <> (label "strong" "Batch (6 Jobs)")
        <> (text ", switch to ")
        <> (label "strong" "3W")
        <> (text ", toggle ")
        <> (label "strong" "ON")
        <> (text ". Spawns workers without repartitioning pauses.")))
    <> (action_step "8. Dynamic Scale-In (Scenario 9)" (
        (text "Set ")
        <> (label "strong" "3W")
        <> (text ", click ")
        <> (label "strong" "Batch (6 Jobs)")
        <> (text ", then immediately click ")
        <> (label "strong" "1W")
        <> (text ". Retiring workers finish in-flight jobs gracefully.")))

-- The steps on failing workers
unfoldable pub failure_steps : Console → Html ConsoleEvent
failure_steps s =
    (armed_step crash_before_ack "9. Worker Crash Failover (Scenario 7)"
      "Simulates panic in 1 worker before ACK. Surviving workers continue; broker redelivers to healthy peer after 5s AckWait."
      "Arm Crash" s)
    <> (armed_step exceed_ack_wait "10. Slow Worker Timeout (Scenario 8)"
        "One worker delays 7s (>5s AckWait). Broker redelivers to healthy peer at 5s; original worker sends late ACK at 7s."
        "Arm Exceed" s)
    <> (armed_step nak_message "11. Fast Retry via NAK (msg.Nak())"
        "Worker sends explicit NAK. Broker immediately requeues message for redelivery without waiting 5s."
        "Arm NAK" s)
    <> (armed_step term_message "12. Poison Pill Termination (msg.Term())"
        "Worker sends msg.Term(). Broker marks permanently terminated; no redelivery; ACK floor advances."
        "Arm TERM" s)

-- The steps for several workers
unfoldable pub several_workers : Console → Html ConsoleEvent
several_workers s = element "div" [] (distribution_steps <> (failure_steps s))

-- The two tabs; a dot marks the one whose scenario is armed.
unfoldable pub tabs : Console → Html ConsoleEvent
tabs s =
    let active = active_scenario s in
    element "div" [] (
      (element "button" (attr "type" "button" ∷ on_click (show_tab part_a) ∷ []) (
        (label "span" "Part A: Single-Worker (Steps 1-5)")
        <> (when (is_scenario active out_of_order_ack) (element "span" [] nothing))))
      <> (element "button" (attr "type" "button" ∷ on_click (show_tab part_b) ∷ []) (
          (label "span" "Part B: Multi-Worker (Steps 6-12)")
          <> (when
              (is_scenario active crash_before_ack
                || is_scenario active exceed_ack_wait
                || is_scenario active nak_message
                || is_scenario active term_message)
              (element "span" [] nothing)))))

-- The command that can be copied
unfoldable pub cli_check : ConsoleProps → Console → Html ConsoleEvent
cli_check props s = element "div" [] (
    (element "span" [] (
      (text "CLI Check: ")
      <> (element "code" [] (
          (text "nats consumer info ")
          <> (text (stream_name props.jetstream_stream s))
          <> (text " ")
          <> (text (consumer_name props.consumer s))))))
    <> (element "button" (attr "type" "button" ∷ on_click copy_cli ∷ [])
        (text (if s.copied_cli then "Copied!" else "Copy"))))

unfoldable pub failure_lab : Platform → ConsoleProps → Console → Html ConsoleEvent
failure_lab js props s =
    let active = active_scenario s in
    element "div" [] (
      (element "div" (on_click toggle_lab ∷ []) (
        (element "div" [] (label "span" "FAILURE LAB"))
        <> (element "div" [] (
            label "span" (
              if is_scenario active normal
              then "MODE: NORMAL"
              else "ARMED: " +s js.to_upper_case (scenario_text active))))))
      <> (when s.is_failure_lab_open (
          element "div" [] (
            (tabs s)
            <> (when (is_tab s.failure_lab_tab part_a) (single_worker s))
            <> (when (is_tab s.failure_lab_tab part_b) (several_workers s))
            <> (when (not (is_scenario active normal)) (
                element "div" [] (
                  element "button"
                    (attr "type" "button"
                      ∷ disabled s.is_setting_scenario
                      ∷ on_click (set_scenario normal)
                      ∷ [])
                    (text "Reset to Normal Mode"))))
            <> (cli_check props s)))))
