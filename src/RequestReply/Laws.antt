-- ===== src/RequestReply/Laws.antt =====
-- What a request of frontend/src/components/RequestReplyPanel.tsx leaves behind.
use nats_demo.Common.{
  suc, ◌≡◌, refl, Bool, true, false, not, ◌||◌, String, str_eq, none, some, ◌⊎◌, if◌then◌else◌,
}
use nats_demo.Task.{Result, ok}
use nats_demo.Api.{ValidationResult}
use nats_demo.RequestReply.{RequestReply, is_rr_event, timeline_badge_class}

-- What other handlers do not do while this one waits.
abbrev pub KeepsShown : RequestReply → RequestReply → Type 0
KeepsShown s s' =
    (s'.json_error ≡ s.json_error) × (s'.result ≡ s.result) × (s'.validated ≡ s.validated)

-- The reply is shown and the parent told of it, or what went wrong is shown, never both.
abbrev pub ShowsOne : RequestReply → RequestReply → Type 0
ShowsOne s s' =
    ((res : ValidationResult) × (s'.result ≡ some res)
      × (s'.json_error ≡ none)
      × (s'.validated ≡ suc s.validated))
    ⊎ ((text : String) × (s'.result ≡ none)
        × (s'.json_error ≡ some text)
        × (s'.validated ≡ s.validated))

abbrev pub Sent : RequestReply → RequestReply → Result (Unit {0}) → Type 0
Sent s s' out = (out ≡ ok tt) × (s'.is_sending ≡ false) × ShowsOne s s'

one_of_five :
    (a b c d e : Bool)
    → (a || b || c || d || e)
      ≡ not (
          str_eq
            (if a
              then "badge-submitted"
              else if b
              then "badge-delivered"
              else if c
              then "badge-processing"
              else if d
              then "badge-completed"
              else if e
              then "badge-failed"
              else "")
            "")
one_of_five true b c d e = refl
one_of_five false true c d e = refl
one_of_five false false true d e = refl
one_of_five false false false true e = refl
one_of_five false false false false true = refl
one_of_five false false false false false = refl

-- An event stands in the timeline exactly if it has a badge of its own.
pub is_rr_event-badge :
    (event : String) → is_rr_event event ≡ not (str_eq (timeline_badge_class event) "")
unfolding is_rr_event timeline_badge_class
is_rr_event-badge event = one_of_five _ _ _ _ _
