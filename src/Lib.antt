-- ===== src/Lib.antt =====
-- The dashboard of nats-demo: frontend/src, a single-page program that drives three Go services over
-- HTTP and shows what a NATS broker does with the jobs that it submits.
--
-- The parts and where they are modelled:
--   Api (Api/*.antt): frontend/src/api/demoApi.ts. Types.antt has its interfaces, Http.antt the
--     requests and replies, and Processor, Jobs, Control and Queue one function for each exported
--     function, named as there in snake case (getDLQStatus is fetch_dlq_status). Status.antt is
--     getServiceStatus, with the mapping of the gateway's report and the fallback on the processor. Endpoint.antt
--     has the method and the address of each request.
--   App (App/*.antt): frontend/src/App.tsx. State.antt has the useState hooks as one record,
--     Refresh.antt the polling handlers, Jobs.antt the handlers of jobs, stream and processor,
--     Inspector.antt the job inspector, Health.antt the derived values of the header and of
--     frontend/src/components/StatusPanel.tsx. System.antt (App/System/*.antt) is the whole of it at
--     work: what mounting, the poll, the timers and the user start, and how the handlers that wait are
--     interleaved, as a step relation in which a timer may fire at any time. Linked.antt runs a form's
--     handler with what it asks for done by App's.
--   Activity (Activity/*.antt): frontend/src/components/ActivityPanel.tsx, the log's classification,
--     filters, counters, options and shortened identifiers.
--   Publisher (Publisher/*.antt): frontend/src/components/CoreFlow/CoreFlowPublisher.tsx. Headers
--     has the custom headers, NextId the numbering of consecutive runs, Form the state, Send the
--     single and the batch publication.
--   JobForm, Console, Replay: frontend/src/components/JobPanel.tsx, CoreFlow/CoreFlowProcessor.tsx
--     and ReplayPanel.tsx, each with its state, its handlers and the values derived for display
--     (Console/Display.antt).
--   QueueGroup, DelayedRetry, RequestReply, Deduplication: the panels of that name under
--     frontend/src/components, their state and their handlers, and so is DeadLetters
--     for DLQPanel.tsx. Their callbacks are taken as given, as CapabilityStudio.tsx passes them.
--     Each has its markup (View), and so have JobForm, Publisher and Console (whose failure lab is
--     Console/Lab.antt). Those that keep flags of their own, and Replay, also have what their elements
--     start (Acting), the kinds of their handlers (Kinds) and how the user may press them (Presses);
--     JobForm and Deduplication have what can be pressed while they are busy (Busy). Fields has the fields
--     of the longer markups, and DeadLetters/Handling.antt what its handlers do to the flags.
--   Html: what a component renders, as elements with the events that they call, and which events that
--     offers to the user. Html/JsonViewer.antt is frontend/src/components/JsonViewer.tsx. Panel: a panel
--     at work, driven by what it offers, by its timers and by replies, and the rules by which a flag
--     keeps a second handler of the same kind from being started.
--   NatsCli: frontend/src/components/CoreFlow/CoreFlowNatsCli.tsx, its snippets and the mark of the one
--     that was copied. Badges: the tables of the colours and names of states in ActivityPanel.tsx,
--     JobInspectorPanel.tsx and StatusIndicator.tsx.
--   Addressing: frontend/src/components/AddressingPanel.tsx. Views: the views and tabs of Header.tsx,
--     CapabilityStudio.tsx and ObservabilityPanelContainer.tsx.
--   Info (Info/*.antt): frontend/src/content/natsInfo.ts, entry by entry, the keys that the buttons
--     marked (i) pass, and what frontend/src/components/InfoPopover.tsx is given to show.
--   Props (Props.antt): what the forms ask of the root component through their properties.
--   Platform (Platform.antt): the functions of JavaScript's strings that depend on Unicode's tables
--     the order of `sort` and the rounding of large numbers, as a parameter. Platform/Plain.antt is a concrete one.
--   Task (Task.antt): asynchronous functions. Task/Laws.antt has the rules by which the handlers are
--     proved, Task/Keeping.antt what a task does to an invariant, Task/Asking.antt what it asks for, and
--     Task/Together.antt is Promise.all of two requests. Common: shared names, text, lists and numbers.
--
-- How it is modelled. An async function is a `Task`: it updates the component's state, waits for the
-- reply to a request and goes on with it, returns or throws. `run net n t s` runs a task alone, with
-- the n-th reply given by `net`. `advance` and `resume` run it up to its next wait and go on with a
-- reply, so that handlers can be interleaved. `Ensures Rely P t s` says that from `s` the task ends
-- in `P` whatever the replies are and whatever other handlers do to the state within `Rely` while it
-- waits; `EnsuresGiven net Rely P t s` that it does where the replies are those of `net`, so that `P` can
-- tell the outcome from the reply (Task/Given.antt). `Maintains I V t` says that each of its updates keeps the invariant `I`. `Asks P t` says that
-- all that it asks for satisfies `P`. A task is a finite tree, over which functions recur. On fuel are
-- only the printing of a number, which has at most as many digits as its value, and, in a
-- test, the answering of the handlers that wait (`drain`), whose fuel is the number of steps that they
-- have left.
-- A handler of a form reads the fields of the render that made it, which are an argument of its own,
-- beside the state that it sets. Random numbers, times, JSON.parse, parseInt and Date are arguments.
--
-- Bounds: numbers that count are naturals, without JavaScript's limit of 2^53. The numbering of
-- consecutive runs, whose numbers a user types, is exact below 2^53 and a parameter from there on
-- (`rounded_successor`). Texts are native
-- strings; the shortened identifiers are over code units. The head and the body of a response are
-- one wait, since no code of the client runs between them but the reading of the body.
--
-- Markup is modelled by its elements, texts, attributes and handlers; inline styles, React's keys and
-- drawn icons are left out. An event is offered where its element is shown and not disabled, and a form's
-- where something in it that is not disabled can submit it: its button, or a field by Enter. A browser
-- may offer less: it does not submit by Enter where the button is disabled or a required field is empty.
-- A panel's interval and timers may fire at any time, and what its parent passes may be anything at each
-- press.
--
-- Not modelled: the services behind the requests (backend), whose replies are a parameter; styles; the
-- markup of the other components; ObservabilityDock.tsx, which no other file uses.
pub mod Common
pub mod Task
pub mod Html
pub mod Panel
pub mod Api
pub mod Platform
pub mod Activity
pub mod App
pub mod Props
pub mod Console
pub mod Replay
pub mod JobForm
pub mod QueueGroup
pub mod DelayedRetry
pub mod DeadLetters
pub mod RequestReply
pub mod Deduplication
pub mod Info
pub mod NatsCli
pub mod Addressing
pub mod Views
pub mod Badges
pub mod Publisher
