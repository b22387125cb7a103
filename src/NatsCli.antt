-- ===== src/NatsCli.antt =====
-- The command-line view of frontend/src/components/CoreFlow/CoreFlowNatsCli.tsx: its snippets, and the
-- mark of the one that was copied last. `timers` counts the calls of `setTimeout` that have not fired.
pub mod Laws
mod Tests
use nats_demo.Common.{
  ℕ, zero, suc, ◌+◌, ◌-◌, String, List, [], ◌∷◌, ◌++◌, map, Bool, false, Option, none, some, str_eq,
}

pub record SetupSnippet : Type 0 where
  pub id : String
  pub title : String
  pub scope : String
  pub badge_color : String
  pub badge_bg : String
  pub cmd : String

pub record CliCommandSnippet : Type 0 where
  pub id : String
  pub title : String
  pub cmd : String

abbrev pub setup_snippets : List SetupSnippet
setup_snippets =
    record {
      id = "setup-local-app";
      title = "Application Context";
      scope = "local-app";
      badge_color = "#60A5FA";
      badge_bg = "rgba(59, 130, 246, 0.15)";
      cmd = "export NATS_CONTEXT=local-app";
    }
    ∷ record {
      id = "setup-sys-admin";
      title = "System Admin Context";
      scope = "sys-admin";
      badge_color = "#F87171";
      badge_bg = "rgba(239, 68, 68, 0.15)";
      cmd = "export NATS_CONTEXT=sys-admin";
    }
    ∷ []

abbrev pub operational_commands : List CliCommandSnippet
operational_commands =
    record { id = "view-streams"; title = "View Streams"; cmd = "nats stream ls" }
    ∷ record {
      id = "view-stream-info";
      title = "View Stream Info (JOBS)";
      cmd = "nats stream info JOBS";
    }
    ∷ record {
      id = "view-stream-state";
      title = "Stream State (First & Last Sequence)";
      cmd = "nats stream state JOBS";
    }
    ∷ record {
      id = "view-stream-messages";
      title = "Stream View - Messages in JOBS";
      cmd = "nats stream view JOBS 5";
    }
    ∷ record {
      id = "view-consumers";
      title = "View Durable Consumers";
      cmd = "nats consumer ls JOBS";
    }
    ∷ record {
      id = "view-consumer-data";
      title = "Consumer State, Cursor & ACK";
      cmd = "nats consumer info JOBS job-processor";
    }
    ∷ record {
      id = "view-consumer-report";
      title = "Consumer Processing Report & Backlog";
      cmd = "nats consumer report JOBS";
    }
    ∷ record {
      id = "reset-stream-cli";
      title = "Delete Stream & Reset Cursors (CLI)";
      cmd = "nats stream rm JOBS -f";
    }
    ∷ []

-- `clipboard` is what was written to it last.
pub record Copying : Type 0 where
  pub copied_id : Option String
  pub clipboard : Option String
  pub timers : ℕ

abbrev pub nothing_copied : Copying
nothing_copied = record { copied_id = none; clipboard = none; timers = 0 }

unfoldable pub copy_to_clipboard : (cmd id : String) → Copying → Copying
copy_to_clipboard cmd id s = record {
  copied_id = some id;
  clipboard = some cmd;
  timers = suc s.timers;
}

-- A timer fires, two seconds after its copy, if one is pending.
unfoldable pub timer_fires : Copying → Copying
timer_fires s = elim (s.timers) [ zero ↦ s | suc n ↦ record s { copied_id = none; timers = n } ]

-- `copiedId === id`
unfoldable pub shows_copied : Copying → String → Bool
shows_copied s id = elim (s.copied_id) [ none ↦ false | some c ↦ str_eq c id ]

pub data CopyStep (s : Copying) : Copying → Type 0 where
  copy : (cmd id : String) → CopyStep s (copy_to_clipboard cmd id s)
  fire : CopyStep s (timer_fires s)

pub data CopyReach : Copying → Type 0 where
  start : CopyReach nothing_copied
  next : {s s' : Copying} → CopyReach s → CopyStep s s' → CopyReach s'
