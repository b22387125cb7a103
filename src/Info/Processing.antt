-- ===== src/Info/Processing.antt =====
-- The entries of frontend/src/content/natsInfo.ts on the consumer_info, the processor and the panels of the stream.
use nats_demo.Common.{[], ◌∷◌, none, some}
use nats_demo.Info.Types.{NatsComponentInfo}

abbrev pub jobs_dlq_info : NatsComponentInfo
jobs_dlq_info = record {
  id = "dead-letter-queue";
  title = "Dead Letter Queue (JOBS_DLQ)";
  role =
      "Application-level pattern for isolating messages that cannot be successfully processed after repeated delivery attempts.";
  concepts =
      "Dead Letter Queue (DLQ): Destination where messages requiring manual investigation or special handling are moved."
      ∷ "MaxDeliver: JetStream consumer setting that limits the number of delivery attempts for a message."
      ∷ "Poison Message: Message that repeatedly fails processing and should no longer continue through normal processing."
      ∷ "DLQ Routing: Application republishes the failed message to a dedicated DLQ subject/Stream after retry exhaustion."
      ∷ "Original Message: Application acknowledges the original message after successfully routing it to the DLQ."
      ∷ [];
  demo_usage =
      "Force a job to fail repeatedly, reach the configured delivery limit, and observe it being routed to jobs.dlq in the JOBS_DLQ Stream.";
  trivia =
      some
        "A DLQ is an architectural pattern rather than a separate NATS messaging primitive. JetStream Streams and Consumers provide the building blocks for implementing it.";
  diagram = none;
  qna = [];
}

abbrev pub consumer_info : NatsComponentInfo
consumer_info = record {
  id = "consumer";
  title = "JetStream Consumer";
  role =
      "Stateful JetStream resource that defines how messages are delivered from a Stream and tracks consumer progress.";
  concepts =
      "Consumer: Stateful view over a Stream that tracks delivery position, acknowledgements, and redelivery state."
      ∷ "Durable Consumer: Consumer whose identity and state are retained for reuse after a client disconnects."
      ∷ "Ephemeral Consumer: Temporary consumer intended for short-lived consumption; its state is not retained as a durable consumer."
      ∷ "Pull Consumer: Worker explicitly requests messages, optionally in batches. Useful for worker pools and controlled concurrency."
      ∷ "Push Consumer: JetStream delivers messages to a configured subscriber subject."
      ∷ "ACK: Consumer confirms successful processing of a delivered message."
      ∷ "NAK: Consumer explicitly indicates processing failure and requests redelivery."
      ∷ "AckWait: Time JetStream waits for an ACK after delivery before the message becomes eligible for redelivery."
      ∷ "MaxAckPending: Maximum number of delivered but unacknowledged messages allowed for the consumer; provides backpressure."
      ∷ "Deliver Policy: Defines where consumption starts, such as all, new, last, a sequence, or a time."
      ∷ [];
  demo_usage =
      "Configure the job-processor consumer and observe how durability, pull delivery, acknowledgements, retries, and consumer state affect processing.";
  trivia = none;
  diagram = none;
  qna = [];
}

abbrev pub processor_service_info : NatsComponentInfo
processor_service_info = record {
  id = "processor-service";
  title = "Processor Service";
  role = "Worker application that consumes NATS messages and performs the actual job processing.";
  concepts =
      "Worker: Application execution unit responsible for processing messages."
      ∷ "Worker Pool: Multiple workers processing jobs concurrently."
      ∷ "Competing Consumers: Multiple workers share available messages so each message is processed by one available worker."
      ∷ "ACK: Worker confirms successful processing to JetStream."
      ∷ "NAK: Worker reports processing failure and requests redelivery."
      ∷ "Redelivery: JetStream delivers an unacknowledged or negatively acknowledged message again according to consumer configuration."
      ∷ [];
  demo_usage =
      "Run multiple processor workers, pause or fail workers, and observe distribution, acknowledgement, retry, and redelivery behavior.";
  trivia = none;
  diagram = none;
  qna = [];
}

abbrev pub platform_status_info : NatsComponentInfo
platform_status_info = record {
  id = "platform-status";
  title = "Platform Status";
  role = "Runtime status view for NATS, JetStream, and the demo services.";
  concepts =
      "NATS Connectivity: Indicates whether application clients can connect to the NATS Server."
      ∷ "JetStream Health: Indicates availability of the JetStream subsystem used by Streams and Consumers."
      ∷ "Service Health: Shows availability of the demo services participating in the messaging flow."
      ∷ "Processing Control: Allows demo worker processing to be paused or resumed." ∷ [];
  demo_usage =
      "Use this panel to verify the demo environment before running messaging scenarios and to intentionally pause processing for durability and retry demonstrations.";
  trivia = none;
  diagram = none;
  qna = [];
}

abbrev pub submit_job_info : NatsComponentInfo
submit_job_info = record {
  id = "submit-job";
  title = "Pub / Sub & Stream Publishing";
  role =
      "Demonstrates the difference between transient Core NATS publishing and persistent JetStream publishing.";
  concepts =
      "Core NATS Publish: Message is delivered to currently matching subscribers and is not persisted by Core NATS."
      ∷ "JetStream Publish: Message is stored in a matching Stream and receives a publish acknowledgement (PubAck)."
      ∷ "Subject: Message destination used by both Core NATS and JetStream."
      ∷ "At-Most-Once: Core NATS provides best-effort delivery without persistent message storage or consumer redelivery."
      ∷ "At-Least-Once: JetStream consumers can redeliver messages that are not successfully acknowledged."
      ∷ "Message ID: Nats-Msg-Id can be used by JetStream for publish deduplication." ∷ [];
  demo_usage =
      "Publish the same job through Core NATS and JetStream, then pause workers to observe the difference between transient delivery and persistent storage.";
  trivia = none;
  diagram = none;
  qna = [];
}

abbrev pub message_deduplication_info : NatsComponentInfo
message_deduplication_info = record {
  id = "message-deduplication";
  title = "Message Deduplication";
  role =
      "JetStream protection against storing duplicate publishes with the same message ID within the configured duplicate window.";
  concepts =
      "Nats-Msg-Id: Publisher-supplied identifier used by JetStream to detect duplicate publishes."
      ∷ "Duplicate Window: Time window during which JetStream remembers message IDs for deduplication."
      ∷ "Duplicate Publish: A publish using an already-seen message ID within the window is treated as a duplicate."
      ∷ "PubAck: JetStream publish acknowledgement indicates whether the publish was accepted as a new message or identified as a duplicate."
      ∷ "Not Exactly-Once Processing: Publish deduplication does not guarantee exactly-once business processing; idempotent application handling may still be required."
      ∷ [];
  demo_usage =
      "Publish two messages with the same Nats-Msg-Id and observe that JetStream detects the duplicate instead of storing another copy.";
  trivia = none;
  diagram = none;
  qna = [];
}

abbrev pub request_reply_info : NatsComponentInfo
request_reply_info = record {
  id = "request-reply";
  title = "Request / Reply";
  role = "Synchronous communication pattern built directly into NATS subject-based messaging.";
  concepts =
      "Request: Client publishes a request to a service subject and provides a reply subject."
      ∷ "Reply: Responder publishes the result to the supplied reply subject."
      ∷ "Inbox (_INBOX.*): NATS convention for temporary reply subjects used by requesters."
      ∷ "Timeout: Requester waits for a configured period; no response results in a timeout."
      ∷ "Synchronous Semantics: Caller waits for the response even though the underlying transport is asynchronous messaging."
      ∷ [];
  demo_usage =
      "Send a validation request to jobs.validate and observe the response. Pause the responder to demonstrate requester timeout behavior.";
  trivia = none;
  diagram = none;
  qna = [];
}
