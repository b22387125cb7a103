-- ===== src/Api/Tests.antt =====
-- The client's theorems at concrete replies.
use nats_demo.Common.{ℕ, refl, String, [], ◌∷◌, none, some}
use nats_demo.Task.{ok, err, error, run}
use nats_demo.Api.Http.{Fetch, Reply, Response, RawService, RawStatus, get_status}
use nats_demo.Api.Status.{get_service_status}
use nats_demo.Api.Status.Laws.{Reports, get_service_status_total}

abbrev reported : String → String → RawService
reported name status = record { name = name; status = status; processing = none; workers = none }

-- The processor is reported offline, so that the fallback is taken.
abbrev raw : RawStatus
raw = record {
  nats_status = some "CONNECTED";
  services = some (reported "job-service" "ACTIVE" ∷ reported "processor-service" "INACTIVE" ∷ []);
  jetstream = none;
}

abbrev answered : Response RawStatus
answered = record { status = 200; status_text = "OK"; text = ok ""; json = ok raw }

abbrev gateway_only : ℕ → (q : Fetch) → Reply q
gateway_only n get_status = ok answered
gateway_only n q = err (error "Failed to fetch")

get_service_status_total_example : Reports raw (run gateway_only 0 get_service_status tt).1
get_service_status_total_example =
    get_service_status_total {S = Unit {0}} gateway_only 0 tt answered raw refl refl refl
