-- ===== src/Addressing.antt =====
-- The panel of subjects, frontend/src/components/AddressingPanel.tsx: how it shows an event and the
-- subscriptions that received it.
pub mod Laws
use Prim.Native.Char.{code}
use Prim.Native.String
use nats_demo.Common.{
  ℕ, suc, Bool, true, false, not, ◌&&◌, ◌==◌, String, List, take, str_eq, mem_text, or_text,
  if◌then◌else◌,
}
use nats_demo.Api.{AddressingEvent}

-- `hasReceived`
unfoldable pub has_received : AddressingEvent → String → Bool
has_received event sub_name = mem_text sub_name event.received_by

-- `evt.subject.split('.').length`: one more than the dots.
unfoldable pub token_count : String → ℕ
token_count String.[] = 1
token_count (String.◌∷◌ c s) = let rest = token_count s in if code c == b'.' then suc rest else rest

-- `isMultiTokenOnly`
unfoldable pub is_multi_token_only : AddressingEvent → Bool
is_multi_token_only evt = has_received evt "multi-level" && not (has_received evt "single-level")

-- The events of the table, the newest ten
unfoldable pub shown_events : List AddressingEvent → List AddressingEvent
shown_events events = take 10 events

-- The kind of a subscription
unfoldable pub subscription_label : String → String
subscription_label name =
    if str_eq name "exact"
    then "Exact Matching"
    else if str_eq name "single-level"
    then "Single Level (*)"
    else "Multi Level (>)"

-- The three columns of an event
unfoldable pub exact_cell : AddressingEvent → String
exact_cell evt = if has_received evt "exact" then "Yes" else "No"

unfoldable pub single_level_cell : AddressingEvent → String
single_level_cell evt = if has_received evt "single-level" then "Yes" else "No"

unfoldable pub multi_level_cell : AddressingEvent → String
multi_level_cell evt =
    if has_received evt "multi-level"
    then (if is_multi_token_only evt then "Yes (> only)" else "Yes")
    else "No"
