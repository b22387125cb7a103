-- ===== src/Info/Panels.antt =====
-- The entries of frontend/src/content/natsInfo.ts on the other panels.
use nats_demo.Common.{[], ◌∷◌, none, some}
use nats_demo.Info.Types.{NatsComponentInfo}

abbrev pub jetstream_replay_info : NatsComponentInfo
jetstream_replay_info = record {
  id = "jetstream-replay";
  title = "Stream Replay";
  role =
      "Reads previously stored JetStream messages again by starting a consumer from a historical stream position.";
  concepts =
      "Replay: Re-consumption of messages already stored in a Stream."
      ∷ "Deliver Policy: Determines the starting position, including DeliverByStartSequence and DeliverByStartTime."
      ∷ "Stream Sequence: Historical position assigned to each stored message."
      ∷ "Replay Policy: Controls delivery timing. Instant replays as quickly as possible; Original attempts to preserve original message timing."
      ∷ "Ephemeral Replay Consumer: Temporary consumer can be created specifically for historical replay without changing the existing processing consumer."
      ∷ [];
  demo_usage =
      "Select a historical sequence or time and replay stored JOBS messages using a temporary consumer while leaving the active processing consumer unchanged.";
  trivia = none;
  diagram = none;
  qna = [];
}

abbrev pub activity_log_info : NatsComponentInfo
activity_log_info = record {
  id = "activity-log";
  title = "Activity Log";
  role = "Application-level view of message lifecycle events observed from NATS subjects.";
  concepts =
      "Event Observation: Monitoring subscribers can observe matching NATS subjects without becoming the business consumer."
      ∷ "Subject Wildcard: jobs.> matches the jobs subject hierarchy and allows related events to be observed together."
      ∷ "Lifecycle Events: Shows application-published events such as submitted, delivered, processed, completed, failed, and DLQ transitions."
      ∷ "Delivery Metadata: Events can include identifiers, timestamps, and sequence information useful for correlating processing activity."
      ∷ [];
  demo_usage =
      "Watch jobs.> activity in real time and follow individual jobs as they move through publishing, processing, retry, and completion.";
  trivia = none;
  diagram = none;
  qna = [];
}

abbrev pub job_details_info : NatsComponentInfo
job_details_info = record {
  id = "job-details";
  title = "Job Details Inspector";
  role =
      "Detailed view of a selected job's application payload, processing state, and delivery history.";
  concepts =
      "Message Metadata: Subject, identifiers, timestamps, and other message attributes."
      ∷ "Delivery Attempts: Number of observed processing attempts, useful for identifying retries and failures."
      ∷ "Processing Timeline: Chronological application events associated with the job."
      ∷ "Payload Inspection: Displays the message payload used by the demo."
      ∷ "Trace Context: If the application is OpenTelemetry-instrumented, trace identifiers can correlate the job with application traces."
      ∷ [];
  demo_usage =
      "Select a job from the Activity Log to inspect its payload, lifecycle, delivery attempts, and associated application telemetry.";
  trivia = none;
  diagram = none;
  qna = [];
}

abbrev pub subject_addressing_info : NatsComponentInfo
subject_addressing_info = record {
  id = "subject-addressing";
  title = "NATS Subject Addressing";
  role = "Explorer for NATS subjects, hierarchical tokens, and wildcard matching.";
  concepts =
      "Subject: Dot-separated address used for routing NATS messages, for example jobs.submitted."
      ∷ "Token: Individual section of a subject separated by a dot. jobs.submitted contains two tokens."
      ∷ "Exact Match: Subscription receives only the specified subject."
      ∷ "Single-Token Wildcard (*): Matches exactly one subject token. jobs.* matches jobs.submitted but not jobs.order.created."
      ∷ "Multi-Token Wildcard (>): Matches one or more remaining tokens. jobs.> matches jobs.submitted and jobs.order.created."
      ∷ "Subject-Based Routing: Publishers do not need to know which subscribers or services will receive a message."
      ∷ [];
  demo_usage =
      "Publish subjects and observe which exact or wildcard subscriptions receive each message.";
  trivia = none;
  diagram = none;
  qna = [];
}

abbrev pub metrics_observability_info : NatsComponentInfo
metrics_observability_info = record {
  id = "metrics-observability";
  title = "Metrics & Observability";
  role =
      "NATS-centric observability view covering server metrics, logs, system events, and application telemetry integration.";
  concepts =
      "NATS Metrics: Server, connection, subscription, cluster, account, and JetStream operational information can be exposed through NATS monitoring interfaces."
      ∷ "Prometheus Exporter: nats-prometheus-exporter collects NATS monitoring information and exposes it as Prometheus metrics."
      ∷ "NATS Logs: Server logs can be collected by Fluent Bit or OpenTelemetry Collector and sent to Loki."
      ∷ "$SYS: NATS system subject namespace used for system-level requests, responses, and events."
      ∷ "JetStream Advisories: Structured events published under JetStream advisory subjects provide information about JetStream operations and activity."
      ∷ "Tracing: NATS Server is not a native OTLP span producer. Application OpenTelemetry instrumentation can create traces around operations that use NATS."
      ∷ [];
  demo_usage =
      "Use the LGTM stack to view NATS metrics in Prometheus/Grafana, NATS logs in Loki, and selected NATS system/JetStream events through the event pipeline.";
  trivia = none;
  diagram = none;
  qna = [];
}

abbrev pub queue_groups_info : NatsComponentInfo
queue_groups_info = record {
  id = "queue-groups";
  title = "Core NATS Queue Groups";
  role =
      "Core NATS mechanism for load-balancing messages across multiple subscribers in the same queue group.";
  concepts =
      "Subject: jobs.queue is the message destination to which the publisher sends jobs."
      ∷ "Queue Group: job-workers is a shared group name supplied when subscribers join the queue."
      ∷ "Competing Consumers: Subscribers in the same queue group compete for messages; a given message is delivered to one eligible subscriber in that group."
      ∷ "1-of-N Delivery: With N workers in the same queue group, each message is delivered to one worker rather than all N workers."
      ∷ "At-Most-Once: Core NATS does not persist messages or provide ACK/NAK-based redelivery semantics."
      ∷ "Multi-Group Fanout: Multiple distinct queue groups can subscribe to the same subject. Each group receives its own delivery while load-balancing within that group."
      ∷ "Dynamic Membership: Subscribers can join or leave a queue group while the system is running."
      ∷ [];
  demo_usage =
      "Publish jobs to jobs.queue and observe messages distributed across processor workers sharing the job-workers queue group. Add or remove workers to observe changing distribution.";
  trivia =
      some
        "Core NATS queue groups are useful for lightweight work distribution where transient, at-most-once delivery is acceptable. Use JetStream when persistence, acknowledgements, or redelivery are required.";
  diagram = none;
  qna = [];
}

abbrev pub delayed_retry_delivery_info : NatsComponentInfo
delayed_retry_delivery_info = record {
  id = "delayed-retry-delivery";
  title = "Delayed & Retry Delivery";
  role =
      "Demonstrates explicit retry delay, acknowledgement timeout, and application-level scheduled publishing.";
  concepts =
      "NAK with Delay: Worker explicitly rejects a message and requests redelivery after a specified delay. Used for controlled retry/backoff."
      ∷ "AckWait: Timer starts after message delivery. If the consumer does not receive an ACK within AckWait, the message becomes eligible for redelivery."
      ∷ "Scheduled Delivery: JetStream does not provide a general-purpose native 'deliver at timestamp' scheduler; delayed initial publishing can be implemented using an application scheduler/timer."
      ∷ "Retry vs Scheduling: NAK with Delay and AckWait concern messages that have already been delivered; scheduling delays when a message is published or released for consumption."
      ∷ [];
  demo_usage =
      "Run three scenarios: NAK a message with a delay, intentionally omit an ACK until AckWait expires, and use an application timer to publish a message at a future time.";
  trivia =
      some
        "NAK with Delay is useful for transient failures such as rate limits or temporary downstream outages because retry timing can be controlled explicitly.";
  diagram = none;
  qna = [];
}
