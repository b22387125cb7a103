-- ===== src/Console/View.antt =====
-- The markup of frontend/src/components/CoreFlow/CoreFlowProcessor.tsx but for the failure lab.
use nats_demo.Common.{ℕ, not, ◌||◌, String, [], ◌∷◌, ◌+s◌, decimal, str_eq, if◌then◌else◌}
use nats_demo.Html.{
  Html, nothing, text, element, ◌<>◌, when, each, within, label, attr, disabled, on_click,
}
use nats_demo.Platform.{Platform}
use nats_demo.Console.{Console, worker_count, goroutine_status, active_goroutines, ack_wait_seconds}
use nats_demo.Console.Display.{
  consumer_type, consumer_name, stream_name, crashed_worker, ack_floor_text, delivered_text,
}
use nats_demo.Console.Acting.{
  ConsoleEvent, show_info, toggle_on, toggle_off, scale, restart, ConsoleProps,
}
use nats_demo.Console.Lab.{failure_lab}

-- The title, and the button marked (i)
unfoldable pub heading : ConsoleProps → Html ConsoleEvent
heading props = within "div" "panel-header" (
    (element "div" []
      ((label "span" "STAGE 3") <> (within "h2" "panel-title" (text "Processor View"))))
    <> (element "div" [] (
        when props.informs (
          element "button"
            (attr "type" "button"
              ∷ attr "class" "node-info-btn"
              ∷ on_click (show_info "processor-service")
              ∷ attr "title" "Learn about Processor Service"
              ∷ [])
            (text "(i)")))))

-- A field that cannot be edited
unfoldable pub fixed_field : String → String → Html ConsoleEvent
fixed_field name value = element "div" [] (
    (within "label" "form-label" (text name))
    <> (element "input" (attr "type" "text" ∷ attr "readOnly" "" ∷ attr "value" value ∷ [])
        nothing))

-- The consumer
unfoldable pub consumer_card : Platform → ConsoleProps → Console → Html ConsoleEvent
consumer_card js props s = element "div" [] (
    (element "div" [] (
      (element "div" [] (
        (element "span" [] nothing)
        <> (element "strong" [] ((text "Consumer: ") <> (text (consumer_name props.consumer s))))))
      <> (element "span" [] ((text (consumer_type js props.consumer)) <> (text " CONSUMER")))))
    <> (element "div" [] (
        (fixed_field "Stream:" (stream_name props.jetstream_stream s))
        <> (fixed_field "Filter Subject:" "jobs.submitted")
        <> (fixed_field "Ack Policy:" "Explicit (msg.Ack())")
        <> (fixed_field "AckWait:" (decimal (ack_wait_seconds s) +s "s (Redelivery Timer)"))
        <> (fixed_field "Ack Floor:" (ack_floor_text props.consumer s))
        <> (fixed_field "Delivered Seq:" (delivered_text props.consumer s)))))

-- The switch of the pull loop
unfoldable pub pull_loop : Console → Html ConsoleEvent
pull_loop s = element "div" [] (
    (within "label" "form-label" (text "Pull Loop:"))
    <> (element "div" [] (
        (element "div" [] (
          (element "span" [] nothing)
          <> (label "span" (if s.is_processing then "ACTIVE (Pulling)" else "PAUSED (Buffering)"))))
        <> (element "div" [] (
            (element "button"
              (attr "type" "button"
                ∷ disabled (s.is_toggling || not s.is_connected)
                ∷ on_click toggle_on
                ∷ [])
              (text "ON"))
            <> (element "button"
                (attr "type" "button"
                  ∷ disabled (s.is_toggling || not s.is_connected)
                  ∷ on_click toggle_off
                  ∷ [])
                (text "OFF")))))))

-- The button for a number of workers
unfoldable pub worker_button : ConsoleProps → Console → ℕ → Html ConsoleEvent
worker_button props s count =
    element "button"
      (attr "type" "button"
        ∷ disabled s.is_scaling
        ∷ on_click (scale props.consumer count)
        ∷ attr "title" ("Scale JetStream worker pool to " +s decimal count +s " worker goroutines")
        ∷ [])
      ((text (decimal count)) <> (text "W"))

-- The number of workers
unfoldable pub worker_pool : ConsoleProps → Console → Html ConsoleEvent
worker_pool props s = element "div" [] (
    (within "label" "form-label" (text "Worker Pool:"))
    <> (element "div" [] (
        (element "span" []
          ((text (decimal (worker_count props.consumer s))) <> (text " Concurrent Worker(s)")))
        <> (element "div" [] (each (worker_button props s) (1 ∷ 2 ∷ 3 ∷ 5 ∷ []))))))

-- `crashedWorker ? … : …`
unfoldable pub goroutines_text : ConsoleProps → Console → String
goroutines_text props s =
    let figures =
      goroutine_status s
      +s " ("
      +s decimal (active_goroutines props.consumer s)
      +s "/"
      +s decimal (worker_count props.consumer s)
      +s " active" in
    if str_eq (crashed_worker s) ""
    then figures +s ")"
    else figures +s " - " +s crashed_worker s +s " crashed)"

-- The goroutines, and the button that revives a crashed one
unfoldable pub goroutines : ConsoleProps → Console → Html ConsoleEvent
goroutines props s = element "div" [] (
    (within "label" "form-label" (text "Goroutines:"))
    <> (element "div" [] (
        (element "input"
          (attr "type" "text" ∷ attr "readOnly" "" ∷ attr "value" (goroutines_text props s) ∷ [])
          nothing)
        <> (when (str_eq (goroutine_status s) "CRASHED" || str_eq (goroutine_status s) "DEGRADED") (
            element "button"
              (attr "type" "button"
                ∷ on_click restart
                ∷ attr "title" "Manually respawn crashed worker goroutine"
                ∷ [])
              (text "Revive"))))))

-- The workers
unfoldable pub daemon_card : ConsoleProps → Console → Html ConsoleEvent
daemon_card props s = element "div" [] (
    (element "div" [] (
      (element "div" []
        ((element "span" [] nothing) <> (label "strong" "Worker Daemon (processor-service)")))
      <> (label "span" ":8082")))
    <> (element "div" [] ((pull_loop s) <> (worker_pool props s) <> (goroutines props s))))

-- The console
unfoldable pub view : Platform → ConsoleProps → Console → Html ConsoleEvent
view js props s = within "div" "panel" (
    (heading props)
    <> (element "div" []
        ((consumer_card js props s) <> (daemon_card props s) <> (failure_lab js props s)))
    <> (element "div" [] (
        (label "span" "Worker daemon (:8082). Showing authentic stdout logs in shell console.")
        <> (element "span" [] ((text "Consumer: ") <> (text (consumer_name props.consumer s)))))))
