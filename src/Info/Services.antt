-- ===== src/Info/Services.antt =====
-- The entries of frontend/src/content/natsInfo.ts on the services, the broker and its streams.
use nats_demo.Common.{[], ◌∷◌, none, some}
use nats_demo.Info.Types.{NatsComponentInfo, join_lines}

abbrev pub react_ui_info : NatsComponentInfo
react_ui_info = record {
  id = "react-ui";
  title = "React UI";
  role = "Web interface for interacting with the NATS demo and observing its runtime behavior.";
  concepts =
      "Frontend: Browser-based UI used to submit jobs, control demos, and inspect NATS behavior."
      ∷ "Demo Control API: The UI communicates with backend demo services over HTTP rather than connecting directly to NATS."
      ∷ "Observability: Displays message activity, consumer state, worker behavior, and monitoring information."
      ∷ [];
  demo_usage =
      "Use the UI to trigger NATS operations, change demo configuration, observe message flow, and inspect runtime state.";
  trivia = none;
  diagram = none;
  qna = [];
}

abbrev pub job_service_info : NatsComponentInfo
job_service_info = record {
  id = "job-service";
  title = "Job Service";
  role =
      "Business service that publishes job messages and performs request/reply operations over NATS.";
  concepts =
      "NATS Client: Application uses the NATS Go client (nats.go) to connect and communicate with NATS."
      ∷ "Publisher: Sends messages to NATS subjects without knowing which consumers will process them."
      ∷ "Request / Reply: Sends a request to a subject and receives the response through a reply subject."
      ∷ [];
  demo_usage =
      "Submit jobs through the REST API and observe the Job Service publish messages to NATS or perform synchronous validation through request/reply.";
  trivia = none;
  diagram = none;
  qna = [];
}

abbrev pub demo_control_service_info : NatsComponentInfo
demo_control_service_info = record {
  id = "demo-control-service";
  title = "Demo Control Service";
  role =
      "Backend service that controls the demo and observes NATS activity without being part of the business processing path.";
  concepts =
      "Observer: Subscribes to NATS subjects to observe activity without becoming the business consumer."
      ∷ "Wildcard Subscription: Uses subjects such as jobs.> to observe multiple related subjects."
      ∷ "Consumer Management: Creates and manages JetStream consumers for replay and inspection scenarios."
      ∷ "Worker Control: Controls demo workers so failure, retry, and load-balancing scenarios can be reproduced."
      ∷ [];
  demo_usage =
      "Use this service through the UI to control workers, run replay scenarios, and populate the live activity view.";
  trivia = none;
  diagram = none;
  qna = [];
}

abbrev pub demo_service_info : NatsComponentInfo
demo_service_info = record {
  id = "demo-control-service";
  title = "Demo Control Service";
  role =
      "Backend service that controls the demo and observes NATS activity without being part of the business processing path.";
  concepts =
      "Observer: Subscribes to NATS subjects to observe activity without becoming the business consumer."
      ∷ "Wildcard Subscription: Uses subjects such as jobs.> to observe multiple related subjects."
      ∷ "Consumer Management: Creates and manages JetStream consumers for replay and inspection scenarios."
      ∷ "Worker Control: Controls demo workers so failure, retry, and load-balancing scenarios can be reproduced."
      ∷ [];
  demo_usage =
      "Use this service through the UI to control workers, run replay scenarios, and populate the live activity view.";
  trivia = none;
  diagram = none;
  qna = [];
}

abbrev pub nats_server_info : NatsComponentInfo
nats_server_info = record {
  id = "nats-server";
  title = "NATS Server";
  role =
      "Messaging server providing Core NATS for lightweight messaging and JetStream for persistent messaging.";
  concepts =
      "Core NATS: In-memory publish/subscribe messaging with at-most-once delivery."
      ∷ "JetStream: Persistence and streaming layer providing durable messages, consumers, acknowledgements, redelivery, and replay."
      ∷ "Subject: Address used to route messages, such as jobs.submitted or jobs.queue."
      ∷ "Publish / Subscribe: Publishers send messages to subjects and subscribers receive matching messages."
      ∷ "Request / Reply: Requester publishes a request and receives the response through a reply subject."
      ∷ "Stream: JetStream resource that stores messages published to configured subjects."
      ∷ "Consumer: Stateful JetStream resource that controls message delivery and tracks acknowledgement/delivery state."
      ∷ [];
  demo_usage =
      "The demo uses one NATS Server for Core NATS messaging and JetStream persistence, allowing transient and durable messaging patterns to be compared on the same platform.";
  trivia = none;
  diagram = none;
  qna = [];
}

abbrev pub jobs_stream_info : NatsComponentInfo
jobs_stream_info = record {
  id = "jobs-stream";
  title = "JOBS Stream";
  role = "JetStream Stream that persistently stores messages matching its configured subjects.";
  concepts =
      "Stream: Persistent JetStream resource containing messages published to configured subjects."
      ∷ "Subject Capture: Defines which subjects are stored by the Stream, such as jobs.submitted."
      ∷ "Stream Sequence: Sequence number assigned to stored messages and used for positioning and replay."
      ∷ "Retention Policy: Determines when messages are removed from the Stream according to the configured retention model."
      ∷ "Persistence: Stored messages remain available after publishers or consumers disconnect, subject to retention and storage limits."
      ∷ [];
  demo_usage =
      "Publish jobs, stop or pause workers, and inspect the JOBS Stream to demonstrate that persisted messages remain available for later consumption.";
  trivia = none;
  diagram = none;
  qna = [];
}

abbrev pub jetstream_engine_info : NatsComponentInfo
jetstream_engine_info = record {
  id = "jetstream-engine";
  title = "Stage 2: NATS View & CLI (Stream Storage & Consumer Cursors)";
  role =
      "Central NATS JetStream broker engine managing persistent stream storage and tracking stateful consumer cursors.";
  concepts =
      "Stream Retention: First Sequence marks the oldest available message. Once messages expire or are purged, First Sequence advances."
      ∷ "Stream Persistence: App-side messages are committed to an immutable append-only log on disk before publishing acknowledges."
      ∷ "Stateless Workers vs Stateful Cursors: Workers hold zero cluster state; NATS broker tracks cursors (Delivered, AckFloor, and In-Flight bitset)."
      ∷ "Competing Pull Consumers: Multiple workers pull from the shared consumer cursor without partition locking."
      ∷ "Out-of-Order Safety: The AckFloor only advances when the earliest outstanding message in the sequence is acknowledged."
      ∷ [];
  demo_usage =
      "Run 'nats stream state JOBS' to inspect First Sequence and Last Sequence, and 'nats consumer info JOBS job-processor' to observe Delivered Seq, AckFloor, and Outstanding ACKs in real-time.";
  trivia =
      some
        "Unlike partition-bound streaming systems where a slow message stalls an entire partition queue, NATS JetStream tracks individual message ACK timeouts and out-of-order completions per-message with zero rebalance pauses.";
  diagram = some (
      join_lines (
        "Stream Log:      (pruned: 1, 2, 3) [ 4 ] [ 5 ] [ 6 ] [ 7 ] [ 8 ] [ 9 ] [ 10 ]"
        ∷ "First Sequence:  -----------------> ( 4 ) [Oldest Available]"
        ∷ "AckFloor:        -------------------------> ( 5 ) [Safety Watermark]"
        ∷ "Delivered Seq:   ---------------------------------------------> ( 8 ) [Handed to Workers]"
        ∷ "Last Sequence:   ---------------------------------------------------------> ( 10 ) [Latest Appended]"
        ∷ ""
        ∷ "Retained Storage Window: [ First Sequence (4)  to  Last Sequence (10) ] = 7 messages"
        ∷ []));
  qna =
      record {
        question = "1. What messages are currently retained in the stream?";
        answer =
            "First Sequence to Last Sequence. Shown in 'nats stream state JOBS' (or stream info). Represents the actual messages physically stored on disk. If older messages (1 to 3) were purged or expired via TTL/MaxAge/MaxMsgs, First Sequence advances. Only messages from First Sequence (4) to Last Sequence (10) are retained.";
        formula = some "Retained Window = [First Sequence ... Last Sequence] (Messages count: 7)";
      }
      ∷ record {
        question = "2. What is the total count / latest message published to the stream?";
        answer =
            "Stream Last Sequence (last_seq = 10). Represents the highest sequence number assigned to a published message in this stream's history.";
        formula = some "Latest Appended = Last Sequence (10)";
      }
      ∷ record {
        question = "3. What messages are guaranteed to be processed and completed?";
        answer =
            "Ack Floor (5). The safety watermark below which every single message is 100% completed and acknowledged. Even if all workers crash, messages up through AckFloor will never be redelivered.";
        formula = some "Guaranteed Safe = 1 to AckFloor (5)";
      }
      ∷ record {
        question = "4. What messages are buffered in the stream waiting to be pulled?";
        answer =
            "Stream Backlog. Messages that have been stored in the stream but have not yet been handed to any worker.";
        formula =
            some "Stream Backlog = Last Sequence - Delivered Seq = 10 - 8 = 2 messages (9, 10)";
      }
      ∷ record {
        question = "5. What is the total number of in-flight messages?";
        answer =
            "Outstanding ACKs (Ack Pending). Messages actively pulled by workers that have not yet sent an ACK back to the broker. Here, messages 6, 7, and 8 are currently being processed.";
        formula = some "In-Flight = Delivered - Acked = 3 messages (in-flight: 6, 7, 8)";
      }
      ∷ record {
        question = "6. What happens if ACKs arrive out of order?";
        answer =
            "NATS enforces the Contiguous Ack Floor Rule. If message 7 is ACKed before message 6 finishes, AckFloor remains at 5. NATS tracks 7 as an individual bit in its pending bitset. Once 6 is ACKed, the AckFloor leaps directly to 7.";
        formula = some "AckFloor = Highest Contiguous Acknowledged Sequence";
      }
      ∷ [];
}

abbrev pub dead_letter_queue_info : NatsComponentInfo
dead_letter_queue_info = record {
  id = "dead-letter-queue";
  title = "Dead Letter Queue (JOBS_DLQ)";
  role =
      "Application-level pattern for isolating messages that cannot be successfully processed after repeated delivery attempts.";
  concepts =
      "Dead Letter Queue (DLQ): Destination where messages requiring manual investigation or special handling are moved."
      ∷ "MaxDeliver: JetStream consumer setting that limits the number of delivery attempts for a message."
      ∷ "Poison Message: Message that repeatedly fails processing and should no longer continue through normal processing."
      ∷ "DLQ Routing: Application republishes the failed message to a dedicated DLQ subject/Stream after retry exhaustion."
      ∷ "Original Message: Application acknowledges the original message after successfully routing it to the DLQ."
      ∷ [];
  demo_usage =
      "Force a job to fail repeatedly, reach the configured delivery limit, and observe it being routed to jobs.dlq in the JOBS_DLQ Stream.";
  trivia =
      some
        "A DLQ is an architectural pattern rather than a separate NATS messaging primitive. JetStream Streams and Consumers provide the building blocks for implementing it.";
  diagram = none;
  qna = [];
}
