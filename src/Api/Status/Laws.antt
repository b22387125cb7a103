-- ===== src/Api/Status/Laws.antt =====
-- What the status bar can rely on: the mapping of each service, and the fallback, which changes
-- nothing but the processor's entry and never makes a good report fail.
use nats_demo.Common.{
  suc, ℕ, ◌≡◌, refl, Bool, true, false, not, List, [], ◌∷◌, map, filter, arith, str_eq, inl, inr,
  Bool-cases,
}
use nats_demo.Task.{Result, ok, err, run, Ensures, settle, ◌>>=◌}
use nats_demo.Task.Laws.{
  Anything, run-Ensures, Ensures-bind, Ensures-catching, Ensures-await, Ensures-done,
}
use nats_demo.Api.Types.{
  ServiceStatus, SystemStatusResponse, ProcessorDirectStatus, is_disconnected,
}
use nats_demo.Api.Http.{Fetch, Reply, Response, is_ok, get_status, RawService, RawStatus}
use nats_demo.Api.Processor.{get_processor_direct_status}
use nats_demo.Api.Status.{
  service_entry, mapped_services, is_processor, is_alive, refreshed, set_first, apply_direct,
  needs_fallback, with_fallback, report, get_service_status,
}

-- Whatever its name, a reported service is shown disconnected exactly if its status is not ACTIVE.
pub service_entry_offline :
    (svc : RawService)
    → is_disconnected (service_entry svc).status ≡ not (str_eq svc.status "ACTIVE")
unfolding service_entry
service_entry_offline svc = ground arith

abbrev is_other : ServiceStatus → Bool
is_other s = not (is_processor s)

-- `l` and `l'` have the same entries in the same order, up to the state of processors.
pub record KeepsOthers (l l' : List ServiceStatus) : Type 0 where
  pub names : map ServiceStatus.name l' ≡ map ServiceStatus.name l
  pub others : filter is_other l' ≡ filter is_other l

KeepsOthers-refl : (l : List ServiceStatus) → KeepsOthers l l
KeepsOthers-refl l = record { names = refl; others = refl }

set_first-names :
    (d : ProcessorDirectStatus) (l : List ServiceStatus)
    → map ServiceStatus.name (set_first is_processor (refreshed d) l) ≡ map ServiceStatus.name l
unfolding set_first refreshed
set_first-names d [] = refl
set_first-names d (s ∷ l) = ground (arith, set_first-names d l)

set_first-others :
    (d : ProcessorDirectStatus) (l : List ServiceStatus)
    → filter is_other (set_first is_processor (refreshed d) l) ≡ filter is_other l
unfolding set_first refreshed
set_first-others d [] = refl
set_first-others d (s ∷ l) = ground (arith, set_first-others d l)

apply_direct-KeepsOthers :
    (d : ProcessorDirectStatus) (l : List ServiceStatus) → KeepsOthers l (apply_direct d l)
unfolding apply_direct
apply_direct-KeepsOthers d l = elim (Bool-cases (is_alive d)) [
  | inl alive ↦ rw alive (record { names = set_first-names d l; others = set_first-others d l })
  | inr dead ↦ rw dead (KeepsOthers-refl l)
]

-- After a direct answer from a processor that is ACTIVE, RUNNING or STOPPED, the processor is no
-- longer shown as disconnected.
pub needs_fallback-apply_direct :
    (d : ProcessorDirectStatus) (l : List ServiceStatus)
    → is_alive d ≡ true
    → needs_fallback (apply_direct d l) ≡ false
unfolding needs_fallback apply_direct set_first refreshed
needs_fallback-apply_direct d [] alive = ground arith
needs_fallback-apply_direct d (s ∷ l) alive = ground (arith, needs_fallback-apply_direct d l alive)

abbrev reported : RawStatus → List ServiceStatus → SystemStatusResponse
reported raw l = record { services = l; jetstream = raw.jetstream }

-- The report for `raw` is returned, and never an exception.
abbrev pub Reports : RawStatus → Result SystemStatusResponse → Type 0
Reports raw (ok res) =
    KeepsOthers (mapped_services raw) res.services × (res.jetstream ≡ raw.jetstream)
Reports raw (err e) = ⊥

module _ {S : Type 0} {Rely : S → S → Type 0} where
  report-Reports :
      (raw : RawStatus) (s : S)
      → Ensures {Q = Fetch} {R = Reply} Rely (λ _ out. Reports raw out) (report raw) s
  unfolding report with_fallback get_processor_direct_status
  report-Reports raw s =
      let l = mapped_services raw in
      let same = KeepsOthers-refl l in
      elim (Bool-cases (needs_fallback l)) [
        | inl offline ↦ rw offline (
            Ensures-bind _ _ (
              Ensures-catching _ _ (
                Ensures-await _ _ _
                  (λ d s' rel. Ensures-done _ (Ensures-done _ (apply_direct-KeepsOthers d l, refl)))
                  (λ failure s' rel. Ensures-done _ (Ensures-done _ (same, refl))))))
        | inr online ↦ rw online (Ensures-bind _ _ (Ensures-done _ (Ensures-done _ (same, refl))))
      ]

-- Once the gateway has answered with a readable report, `getServiceStatus` returns, whatever the
-- processor's own answer is: the entries have the mapped names in the mapped order, those of other
-- services are as mapped, and the stream's figures are the gateway's.
pub get_service_status_total :
    {S : Type 0} (net : ℕ → (q : Fetch) → Reply q) (n : ℕ) (s : S) (response : Response RawStatus)
    (raw : RawStatus)
    → net n get_status ≡ ok response
    → is_ok response ≡ true
    → response.json ≡ ok raw
    → Reports raw (run net n get_service_status s).1
unfolding get_service_status run ◌>>=◌ settle
get_service_status_total net n s response raw arrived good parsed =
    rw (arrived, run, ◌>>=◌, settle)
      (rw good (
        rw (parsed, run, ◌>>=◌, settle)
          (run-Ensures {Rely = Anything} (λ _. tt) net (suc n) (report-Reports raw s))))

-- What holds after every outcome, in every state that the others may reach meanwhile, holds after
-- `getServiceStatus`, which waits up to twice.
module _ {S : Type 0} {Rely : S → S → Type 0} {P : S → Result SystemStatusResponse → Type 0}
    (trans : (a b c : S) → Rely a b → Rely b c → Rely a c) where
  report_rule :
      (raw : RawStatus) (s : S)
      → P s (ok (reported raw (mapped_services raw)))
      → ((x : Result SystemStatusResponse) (s' : S) → Rely s s' → P s' x)
      → Ensures {Q = Fetch} {R = Reply} Rely P (report raw) s
  unfolding report with_fallback get_processor_direct_status
  report_rule raw s now h =
      let l = mapped_services raw in
      elim (Bool-cases (needs_fallback l)) [
        | inl offline ↦ rw offline (
            Ensures-bind _ _ (
              Ensures-catching _ _ (
                Ensures-await _ _ _ (λ d s' rel. Ensures-done _ (Ensures-done _ (h _ s' rel)))
                  (λ failure s' rel. Ensures-done _ (Ensures-done _ (h _ s' rel))))))
        | inr online ↦ rw online (Ensures-bind _ _ (Ensures-done _ (Ensures-done _ now)))
      ]

  pub get_service_status_rule :
      (s : S)
      → ((x : Result SystemStatusResponse) (s' : S) → Rely s s' → P s' x)
      → Ensures {Q = Fetch} {R = Reply} Rely P get_service_status s
  unfolding get_service_status
  get_service_status_rule s h =
      Ensures-await _ _ _
        (λ raw s' rel.
          report_rule raw s' (h _ s' rel) (λ x s'' rel'. h x s'' (trans s s' s'' rel rel')))
        (λ failure s' rel. h _ s' rel)
