-- ===== src/QueueGroup/View.antt =====
-- The markup of frontend/src/components/QueueGroupPanel.tsx. `percent n total` is
-- `Math.round((n / total) * 100)`, a calculation on floating-point numbers.
use nats_demo.Common.{
  ℕ, zero, suc, ◌+◌, ◌%◌, Bool, ◌||◌, not, ◌&&◌, String, List, [], ◌∷◌, Option, none, some, ◌==◌,
  ◌+s◌, decimal, str_eq, ltb, length, head?, or_default, if◌then◌else◌,
}
use nats_demo.Html.{
  Html, nothing, text, element, ◌<>◌, when, each, within, attr, disabled, on_click, on_change,
}
use nats_demo.QueueGroup.{QueueGroup, total_delivered, max_workers_to_display}
use nats_demo.QueueGroup.Acting.{
  QueueEvent, show_info, type_count, change_workers, pick_count, reset, send,
}

-- The properties that the markup reads
pub record QueueProps : Type 0 where
  pub is_embedded : Bool

-- `Array.from({ length: n }, (_, i) => …)`: the numbers from `i` on, `n` of them
unfoldable pub range_from : ℕ → ℕ → List ℕ
range_from i zero = []
range_from i (suc n) = i ∷ range_from (suc i) n

unfoldable pub worker_name : ℕ → String
worker_name i = "processor-" +s decimal (i + 1)

abbrev lookup : String → List (String × ℕ) → ℕ
lookup name [] = 0
lookup name ((worker, n) ∷ l) = if str_eq worker name then n else lookup name l

-- `distribution[wName] || 0`
unfoldable pub delivered : QueueGroup → ℕ → ℕ
delivered s i = elim (s.status) [ none ↦ 0 | some d ↦ lookup (worker_name i) d.distribution ]

-- `pct`
unfoldable pub share : (ℕ → ℕ → ℕ) → QueueGroup → ℕ → ℕ
share percent s i =
    if ltb 0 (total_delivered s) then percent (delivered s i) (total_delivered s) else 0

-- `WORKER_COLORS[i % WORKER_COLORS.length].fillClass`
unfoldable pub fill_class : ℕ → String
fill_class i = "fill-p" +s decimal (i % 5 + 1)

-- `list[list.length - 1]`
unfoldable pub last? : List String → Option String
last? [] = none
last? (x ∷ []) = some x
last? (x ∷ y ∷ l) = last? (y ∷ l)

-- The title, and the button marked (i)
unfoldable pub heading : QueueProps → Html QueueEvent
heading props =
    element "div"
      (attr "class" (if props.is_embedded then "summary-header" else "panel-header") ∷ [])
      (element "div" [] (
        (element "h2" [] (text "CORE NATS QUEUE GROUP"))
        <> (element "button"
            (attr "type" "button"
              ∷ attr "class" "node-info-btn"
              ∷ on_click (show_info "queue-groups")
              ∷ attr "title" "Learn about Core NATS Queue Groups"
              ∷ [])
            (text "(i)"))))

-- What the group is
unfoldable pub chips : Html QueueEvent
chips = within "div" "queue-meta-row" (
    (within "div" "queue-meta-chip" (
      (within "span" "queue-meta-label" (text "Subject"))
      <> (within "span" "queue-meta-value mono" (text "jobs.queue"))))
    <> (within "div" "queue-meta-chip" (
        (within "span" "queue-meta-label" (text "Queue Group"))
        <> (within "span" "queue-meta-value mono" (text "job-workers"))))
    <> (within "div" "queue-meta-chip" (
        (within "span" "queue-meta-label" (text "Delivery Mode"))
        <> (within "span" "queue-meta-value" (text "Load-Balanced (1 of N)"))))
    <> (within "div" "queue-meta-chip" (
        (within "span" "queue-meta-label" (text "Guarantees"))
        <> (within "span" "queue-meta-value" (text "At-Most-Once (Best-Effort)"))))
    <> (within "div" "queue-meta-chip" (
        (within "span" "queue-meta-label" (text "State"))
        <> (within "span" "queue-meta-value" (text "Stateless (No ACK/NAK)"))))
    <> (within "div" "queue-meta-chip" (
        (within "span" "queue-meta-label" (text "Delivery Type"))
        <> (within "span" "queue-meta-value" (text "Push (Server-Dispatched)")))))

-- The button for a number of workers
unfoldable pub worker_button : QueueGroup → ℕ → Html QueueEvent
worker_button s w =
    element "button"
      (attr "type" "button"
        ∷ attr "class" ("btn-worker-toggle " +s (if (s.workers == w) then "active" else ""))
        ∷ on_click (change_workers w)
        ∷ disabled s.is_updating_workers
        ∷ [])
      ((within "span" "worker-count-pill" (text (decimal w)))
        <> (element "span" [] (text (if (w == 1) then "1 Worker" else (decimal w) +s " Workers"))))

-- The numbers of workers, and what the present one means
unfoldable pub worker_choice : QueueGroup → Html QueueEvent
worker_choice s = within "div" "form-group" (
    (within "label" "form-label" (text "Active Queue Group Subscribers:"))
    <> (within "div" "queue-worker-selector-grid"
        (each (λ w. worker_button s w) (1 ∷ 2 ∷ 3 ∷ 4 ∷ 5 ∷ [])))
    <> (within "p" "form-hint" (
        text (
          if (s.workers == 1)
          then "All messages on jobs.queue are delivered exclusively to processor-1."
          else "Messages on jobs.queue are randomly load-balanced across processor-1 through processor-"
            +s (decimal s.workers)
            +s "."))))

-- The button for a number of messages
unfoldable pub count_button : QueueGroup → ℕ → Html QueueEvent
count_button s count =
    element "button"
      (attr "type" "button"
        ∷ attr "class"
            ("btn btn-secondary " +s (if (s.message_count == count) then "btn-selected" else ""))
        ∷ on_click (pick_count count)
        ∷ [])
      (text (decimal count))

-- The number of messages
unfoldable pub count_choice : QueueGroup → Html QueueEvent
count_choice s = within "div" "form-group" (
    (within "label" "form-label" (text "Messages to Publish:"))
    <> (element "div" [] (
        (each (λ count. count_button s count) (5 ∷ 10 ∷ 20 ∷ []))
        <> (element "input"
            (attr "type" "number"
              ∷ attr "min" "1"
              ∷ attr "max" "100"
              ∷ attr "class" "form-input"
              ∷ attr "value" (decimal s.message_count)
              ∷ on_change type_count
              ∷ [])
            nothing))))

-- One worker's share
unfoldable pub worker_bar : (ℕ → ℕ → ℕ) → QueueGroup → ℕ → Html QueueEvent
worker_bar percent s i = within "div" "worker-stat-row" (
    (element "div" [] (
      (within "span" "mono" (
        (text (worker_name i))
        <> (text " ")
        <> (text (if not (ltb i s.workers) then "(Offline)" else ""))))
      <> (within "span" "mono" (
          (text (decimal (delivered s i)))
          <> (text " ")
          <> (text (
              if (ltb 0 (total_delivered s)) && (ltb i s.workers)
              then "(" +s (decimal (share percent s i)) +s "%)"
              else ""))))))
    <> (within "div" "distribution-progress-track" (
        element "div" (attr "class" ("distribution-progress-fill " +s (fill_class i)) ∷ [])
          nothing)))

-- The shares of the workers, and the button that resets them
unfoldable pub distribution : (ℕ → ℕ → ℕ) → QueueGroup → Html QueueEvent
distribution percent s = within "div" "queue-distribution-box" (
    (element "div" [] (
      (element "span" [] (text "Worker Distribution"))
      <> (element "div" [] (
          (element "span" [] ((text "Total: ") <> (text (decimal (total_delivered s)))))
          <> (element "button"
              (attr "type" "button"
                ∷ attr "class" "btn btn-secondary"
                ∷ on_click reset
                ∷ disabled ((s.is_resetting) || (((total_delivered s) == 0)))
                ∷ attr "title" "Reset worker distribution counters to zero"
                ∷ [])
              (text (if s.is_resetting then "Resetting..." else "Reset Counters")))))))
    <> (each (λ i. worker_bar percent s i) (range_from 0 (max_workers_to_display s))))

-- The panel
unfoldable pub view : (ℕ → ℕ → ℕ) → QueueProps → QueueGroup → Html QueueEvent
view percent props s =
    element "div"
      (attr "class" (if props.is_embedded then "queue-group-embedded" else "queue-group-panel")
        ∷ [])
      ((heading props)
        <> chips
        <> (worker_choice s)
        <> (count_choice s)
        <> (distribution percent s)
        <> (element "button"
            (attr "type" "button"
              ∷ attr "class" "btn btn-primary"
              ∷ on_click send
              ∷ disabled s.is_sending
              ∷ [])
            (text (
              if s.is_sending
              then "Publishing " +s (decimal s.message_count) +s " Messages..."
              else "Send " +s (decimal s.message_count) +s " Test Messages")))
        <> (when (ltb 0 (length s.last_batch)) (
            element "div" [] (
              (element "span" [] (text "Last batch: "))
              <> (within "span" "mono" (
                  (text (or_default (head? s.last_batch) ""))
                  <> (text " ... ")
                  <> (text (or_default (last? s.last_batch) ""))
                  <> (text " (")
                  <> (text (decimal (length s.last_batch)))
                  <> (text " messages)")))))))
