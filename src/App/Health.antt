-- ===== src/App/Health.antt =====
-- What frontend/src/App.tsx derives for the header from the services and the error banner, and the
-- derived values of frontend/src/components/StatusPanel.tsx.
use nats_demo.Common.{
  ◌≡◌, refl, Bool, true, false, not, ◌&&◌, String, List, [], ◌∷◌, Option, none, some, arith, any,
  find, includes,
}
use nats_demo.Api.{
  ServiceStatus, ServiceState, active, connected, disconnected, unknown, is_disconnected,
}
use nats_demo.Api.Status.{is_true}
use nats_demo.Platform.{Platform}
use nats_demo.App.Inspector.{is_set}

module _ (js : Platform) where
  -- `s.name.toLowerCase().includes(part)`
  abbrev pub named : String → ServiceStatus → Bool
  named part s = includes (js.to_lower_case s.name) part

  unfoldable pub nats_connected : List ServiceStatus → Bool
  nats_connected services = not (any (λ s. named "nats" s && is_disconnected s.status) services)

  unfoldable pub system_ok : Option String → List ServiceStatus → Bool
  system_ok error services =
      not (is_set error) && not (any (λ s. is_disconnected s.status) services)

  -- The status of the first service that a test picks, or unknown.
  abbrev pub status_of : (ServiceStatus → Bool) → List ServiceStatus → ServiceState
  status_of p services = elim (find p services) [ none ↦ unknown | some s ↦ s.status ]

  -- The values of `StatusPanel`
  unfoldable pub is_nats_connected : List ServiceStatus → Bool
  is_nats_connected services = elim (status_of (named "nats") services) [
    | connected ↦ true
    | active ↦ true
    | _ ↦ false
  ]

  unfoldable pub is_processor_online : List ServiceStatus → Bool
  is_processor_online services = elim (status_of (named "processor") services) [
    | disconnected ↦ false
    | unknown ↦ false
    | _ ↦ true
  ]

  unfoldable pub is_processing : List ServiceStatus → Bool
  is_processing services = elim (find (named "processor") services) [
    | none ↦ false
    | some s ↦ is_true s.processing
  ]

  any-named :
      (l : List ServiceStatus)
      → any (λ s. is_disconnected s.status) l ≡ false
      → any (λ s. named "nats" s && is_disconnected s.status) l ≡ false
  any-named [] h = refl
  any-named (s ∷ l) h = ground (arith, any-named l)

  -- The header never says that all systems are fine while it says that the broker is gone.
  pub system_ok-nats_connected :
      (error : Option String) (services : List ServiceStatus)
      → system_ok error services ≡ true
      → nats_connected services ≡ true
  unfolding system_ok nats_connected
  system_ok-nats_connected error services h = ground (arith, any-named services)
