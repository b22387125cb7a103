-- ===== src/Api/Status.antt =====
-- `getServiceStatus` of frontend/src/api/demoApi.ts: the gateway's report is mapped to the status
-- bar's entries, and a processor that is reported offline is asked directly.
pub mod Laws
use nats_demo.Common.{
  Bool, true, false, ◌||◌, String, List, [], ◌∷◌, map, Option, none, some, find, str_eq,
  if◌then◌else◌,
}
use nats_demo.Task.{Task, done, err, catching, ◌>>=◌}
use nats_demo.Api.Types.{
  ServiceState, active, connected, disconnected, stopped, is_disconnected, ServiceStatus,
  SystemStatusResponse, ProcessorDirectStatus,
}
use nats_demo.Api.Http.{
  Fetch, Reply, request, is_ok, detailed_error, get_status, RawService, RawStatus,
}
use nats_demo.Api.Processor.{get_processor_direct_status}

-- `x === 'S'` for an optional text
abbrev pub is_text : Option String → String → Bool
is_text none t = false
is_text (some s) t = str_eq s t

-- `x === true`
abbrev pub is_true : Option Bool → Bool
is_true none = false
is_true (some b) = b

abbrev entry : String → ServiceState → String → ServiceStatus
entry name status details = record {
  name = name;
  status = status;
  details = details;
  processing = none;
  workers = none;
}

-- 1. Map NATS Server status
unfoldable pub nats_entry : RawStatus → ServiceStatus
nats_entry raw =
    if is_text raw.nats_status "CONNECTED"
    then entry "NATS Server (4222)" connected "Connected to NATS broker"
    else entry "NATS Server (4222)" disconnected "Disconnected from NATS broker"

abbrev pub processor_details : Bool → String
processor_details running =
    if running then "Processor is active and processing messages" else "Processor is paused"

abbrev processor_entry : RawService → ServiceStatus
processor_entry svc =
    let on = str_eq svc.status "ACTIVE" in
    let running = is_true svc.processing in
    record {
      name = "processor-service";
      status = if on then (if running then active else stopped) else disconnected;
      details = if on then processor_details running else "Service is offline";
      processing = some running;
      workers = svc.workers;
    }

-- 2. Map other services
unfoldable pub service_entry : RawService → ServiceStatus
service_entry svc =
    let on = str_eq svc.status "ACTIVE" in
    if str_eq svc.name "processor-service"
    then processor_entry svc
    else if str_eq svc.name "demo-control-service"
    then (if on
        then entry "Demo Control (8080)" active "UI control gateway operational"
        else entry "Demo Control (8080)" disconnected "Demo control service is offline")
    else if str_eq svc.name "job-service"
    then (if on
        then entry "Job Service (8081)" active "Job business API operational"
        else entry "Job Service (8081)" disconnected "Job service is offline")
    else if on
    then entry svc.name active "Service is operational"
    else entry svc.name disconnected "Service is offline"

abbrev raw_services : RawStatus → List RawService
raw_services raw = elim (raw.services) [ none ↦ [] | some l ↦ l ]

unfoldable pub mapped_services : RawStatus → List ServiceStatus
mapped_services raw = nats_entry raw ∷ map service_entry (raw_services raw)

abbrev pub is_processor : ServiceStatus → Bool
is_processor s = str_eq s.name "processor-service"

-- The statuses of a processor that answers by itself.
abbrev pub is_alive : ProcessorDirectStatus → Bool
is_alive d = str_eq d.status "ACTIVE" || str_eq d.status "RUNNING" || str_eq d.status "STOPPED"

-- The assignments to `procSvc` in the fallback.
unfoldable pub refreshed : ProcessorDirectStatus → ServiceStatus → ServiceStatus
refreshed d s = record s {
  status = if d.processing then active else stopped;
  details = processor_details d.processing;
  processing = some d.processing;
  workers = elim (d.workers) [ none ↦ s.workers | some n ↦ some n ];
}

-- `procSvc` is the first entry with that name, and the assignments change it in place.
unfoldable pub set_first :
    (ServiceStatus → Bool)
    → (ServiceStatus → ServiceStatus)
    → List ServiceStatus
    → List ServiceStatus
set_first p f [] = []
set_first p f (s ∷ l) = if p s then f s ∷ l else s ∷ set_first p f l

unfoldable pub apply_direct : ProcessorDirectStatus → List ServiceStatus → List ServiceStatus
apply_direct d l = if is_alive d then set_first is_processor (refreshed d) l else l

-- `procSvc && procSvc.status === 'disconnected'`
unfoldable pub needs_fallback : List ServiceStatus → Bool
needs_fallback l = elim (find is_processor l) [ none ↦ false | some s ↦ is_disconnected s.status ]

module _ {S : Type 0} where
  -- Fallback: check processor-service directly if it is reported disconnected. A failed check is
  -- swallowed.
  unfoldable pub with_fallback : List ServiceStatus → Task S Fetch Reply (List ServiceStatus)
  with_fallback l =
      if needs_fallback l
      then (catching (do direct ← get_processor_direct_status; done (apply_direct direct l))
          (λ _. done l))
      else done l

  -- The value that `getServiceStatus` returns for the gateway's report.
  unfoldable pub report : RawStatus → Task S Fetch Reply SystemStatusResponse
  report raw = do
    services ← with_fallback (mapped_services raw)
    done (record { services = services; jetstream = raw.jetstream })

  -- `getServiceStatus`
  unfoldable pub get_service_status : Task S Fetch Reply SystemStatusResponse
  get_service_status = do
    raw ← request get_status λ response.
        if is_ok response
        then response.json
        else err (detailed_error "Failed to fetch service status" response)
    report raw
