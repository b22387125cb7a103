-- ===== src/App/System/Tests.antt =====
-- The theorems on the whole dashboard at concrete runs.
use nats_demo.Common.{true}
use nats_demo.Common.{All}
use nats_demo.App.State.{activity_refresh}
use nats_demo.App.System.{mounted, polled, refresh_of}
use nats_demo.App.System.Reading.{Reads, started-Reads}
use nats_demo.Common.{◌≡◌, false}
use nats_demo.Task.{error, err}
use nats_demo.Api.{Fetch, Reply}
use nats_demo.App.System.{
  Dashboard, loaded, start_all, handlers, answer, refresh_status_click, Reach, mount, later, act,
  reply,
}
use nats_demo.App.System.Flags.{refreshing_status, flag}
use nats_demo.App.System.Broker.{ShowsBroker, Reach-ShowsBroker}
use nats_demo.App.System.Quiet.{Reach-off}
use nats_demo.App.System.Settling.{drain, all_steps, drained, Reach-drain}

-- The gateway cannot be reached.
abbrev down : (q : Fetch) → Reply q
down q = err (error "Failed to fetch")

-- The first refresh has failed, and the user asks for another one.
abbrev asked : Dashboard
asked = let d = answer 0 down loaded in start_all (handlers refresh_status_click d.state) d

asked-Reach : Reach asked
asked-Reach = later (later mount (reply 0 down)) (act refresh_status_click)

Reach-ShowsBroker_example : ShowsBroker asked.state
Reach-ShowsBroker_example = Reach-ShowsBroker asked asked-Reach

-- The replies have come in.
abbrev answered : Dashboard
answered = drain down (all_steps down asked.waiting) asked

Reach-off_example : flag refreshing_status answered.state ≡ false
Reach-off_example =
    Reach-off refreshing_status answered (Reach-drain down _ asked asked-Reach) (drained down asked)

started-Reads_example :
    All Reads mounted × All Reads polled × Reads (refresh_of (activity_refresh true))
started-Reads_example = started-Reads (activity_refresh true)
