-- ===== src/App/System/Quiet.antt =====
-- Where no handler of frontend/src/App.tsx waits, none of the flags of Flags.antt is on, however the
-- handlers were interleaved.
use nats_demo.Common.{
  ℕ, zero, suc, ◌≡◌, refl, ◌∙◌, false, List, [], ◌∷◌, ◌++◌, map, Option, none, some, All,
  All-append, ◌⊎◌, inl, inr,
}
use nats_demo.Task.{done, fail, set, call, advance, resume, Ends}
use nats_demo.Task.Laws.{Anything}
use nats_demo.Task.Keeping.{Maintains-advance, Maintains-rest, Maintains-resume}
use nats_demo.Api.{Fetch, Reply}
use nats_demo.App.State.{State, Refresh, initial_state}
use nats_demo.App.System.{
  AppHandler, Dashboard, park, start, start_all, answer, fire, refresh_of, mounted, Step, act, tick,
  reply, timeout, Reach, mount, later,
}
use nats_demo.Common.{take_out, TakenOut, take_out-All}
use nats_demo.App.System.Flags.{
  Flag, flag, submitting, validating, resetting, loading, refreshing_status, refreshing_activity,
  Releases, Fits, Releases-resume,
}
use nats_demo.App.System.Fits.{mounted-Fits, polled-Fits, refresh_of-Fits, handlers-Fits}

abbrev Any : {A : Type 0} → (A → Type 0) → List A → Type 0
Any P [] = ⊥
Any P (x ∷ l) = P x ⊎ Any P l

Any-append : {A : Type 0} (P : A → Type 0) (l r : List A) → Any P l → Any P (l ++ r)
Any-append P [] r h = elim h [ ]
Any-append P (x ∷ l) r (inl p) = inl p
Any-append P (x ∷ l) r (inr h) = inr (Any-append P l r h)

Any-last : {A : Type 0} (P : A → Type 0) (l : List A) (x : A) → P x → Any P (l ++ (x ∷ []))
Any-last P [] x p = inl p
Any-last P (y ∷ l) x p = inr (Any-last P l x p)

abbrev AnyOut : {A : Type 0} → (A → Type 0) → Option (A × List A) → Type 0
AnyOut P none = Unit
AnyOut P (some taken) = P taken.0 ⊎ Any P taken.1

take_out-Any :
    {A : Type 0} (P : A → Type 0) (i : ℕ) (l : List A) → Any P l → AnyOut P (take_out i l)
take_out-Any P i [] h = tt
take_out-Any P zero (y ∷ l) h = h
take_out-Any {A} P (suc i) (y ∷ l) (inl p) = found (take_out i l)
  where
    found :
        (o : Option (A × List A))
        → AnyOut P (elim o [ none ↦ none | some (x, r) ↦ some (x, y ∷ r) ])
    found none = tt
    found (some (x, r)) = inr (inl p)
take_out-Any {A} P (suc i) (y ∷ l) (inr h) = put_back (take_out i l) (take_out-Any P i l h)
  where
    put_back :
        (o : Option (A × List A))
        → AnyOut P o
        → AnyOut P (elim o [ none ↦ none | some (x, r) ↦ some (x, y ∷ r) ])
    put_back none g = tt
    put_back (some (x, r)) (inl p) = inl p
    put_back (some (x, r)) (inr g) = inr (inr g)

-- The flag is off, or a handler that will turn it off waits.
record Answered (φ : Flag) (d : Dashboard) : Type 0 where
  fits : All (Fits φ) d.waiting
  off : (flag φ d.state ≡ false) ⊎ Any (Releases φ) d.waiting

module _ (φ : Flag) where
  park-Any :
      (t : AppHandler) (l : List AppHandler) → Any (Releases φ) l → Any (Releases φ) (park t l)
  park-Any (call q k) l h = Any-append _ l _ h
  park-Any (done a) l h = h
  park-Any (fail e) l h = h
  park-Any (set f t) l h = h

  park-Fits :
      (t : AppHandler) (l : List AppHandler) → Fits φ t → All (Fits φ) l → All (Fits φ) (park t l)
  park-Fits (call q k) l h a = All-append _ l _ a (h, tt)
  park-Fits (done x) l h a = a
  park-Fits (fail e) l h a = a
  park-Fits (set f t) l h a = a

  abbrev After : AppHandler → State → List AppHandler → Type 0
  After t s l = Answered φ (record { state = (advance t s).0; waiting = park (advance t s).1 l })

  released-Answered :
      (t : AppHandler) (s : State) (l : List AppHandler)
      → Ends Anything (λ s' out. flag φ s' ≡ false) t s
      → All (Fits φ) l
      → After t s l
  unfolding Ends advance
  released-Answered (done a) s l h fits = record { fits = fits; off = inl h }
  released-Answered (fail e) s l h fits = record { fits = fits; off = inl h }
  released-Answered (set f t) s l h fits = released-Answered t (f s) l h fits
  released-Answered (call q k) s l h fits =
      let again : Releases φ (call q k) = record { released = λ s'. record { ends = h } } in
      record { fits = All-append _ l _ fits (inr again, tt); off = inr (Any-last _ l _ again) }

  start-Answered :
      (t : AppHandler) (d : Dashboard) → Fits φ t → Answered φ d → Answered φ (start t d)
  unfolding start
  start-Answered t d (inr h) answered =
      released-Answered t d.state d.waiting ((h.released d.state).ends) answered.fits
  start-Answered t d (inl h) answered = record {
    fits = park-Fits _ d.waiting (inl (λ b. Maintains-rest t d.state (h b))) answered.fits;
    off = elim (answered.off) [
      | inl off ↦ inl ((Maintains-advance t d.state (h (flag φ d.state)) refl).0 ∙ off)
      | inr any ↦ inr (park-Any _ d.waiting any)
    ];
  }

  start_all-Answered :
      (l : List AppHandler) (d : Dashboard)
      → All (Fits φ) l
      → Answered φ d
      → Answered φ (start_all l d)
  unfolding start_all
  start_all-Answered [] d h answered = answered
  start_all-Answered (t ∷ l) d h answered =
      start_all-Answered l (start t d) h.1 (start-Answered t d h.0 answered)

  resume-Fits : (net : (q : Fetch) → Reply q) (t : AppHandler) → Fits φ t → Fits φ (resume net t)
  resume-Fits net t (inl h) = inl (λ b. Maintains-resume net t (h b))
  resume-Fits net t (inr h) = inr (Releases-resume φ net t h)

  -- Where the flag is on and the only handler that will turn it off is the one that goes on, that one
  -- either turns it off or waits again.
  answer-Answered :
      (i : ℕ) (net : (q : Fetch) → Reply q) (d : Dashboard)
      → Answered φ d
      → Answered φ (answer i net d)
  unfolding answer start
  answer-Answered i net d answered =
      go (take_out i d.waiting) (take_out-All (Fits φ) i d.waiting answered.fits)
        (elim (answered.off) [
          | inl off ↦ inl off
          | inr any ↦ inr (take_out-Any (Releases φ) i d.waiting any)
        ])
    where
      go :
          (o : Option (AppHandler × List AppHandler))
          → TakenOut (Fits φ) o
          → (flag φ d.state ≡ false) ⊎ AnyOut (Releases φ) o
          → Answered φ (elim o [
            | none ↦ d
            | some (t, rest) ↦ start (resume net t) (record d { waiting = rest })
          ])
      go none h off = answered
      go (some (t, rest)) h (inl off) =
          start-Answered (resume net t) (record { state = d.state; waiting = rest })
            (resume-Fits net t h.0) (record { fits = h.1; off = inl off })
      go (some (t, rest)) h (inr (inl releases)) =
          released-Answered (resume net t) d.state rest
            ((Releases-resume φ net t releases).released d.state).ends h.1
      go (some (t, rest)) h (inr (inr any)) =
          start-Answered (resume net t) (record { state = d.state; waiting = rest })
            (resume-Fits net t h.0) (record { fits = h.1; off = inr any })

  fire-Answered : (i : ℕ) (d : Dashboard) → Answered φ d → Answered φ (fire i d)
  unfolding fire
  fire-Answered i d answered = go (take_out i d.state.timers)
    where
      go :
          (o : Option ((ℕ × List Refresh) × List (ℕ × List Refresh)))
          → Answered φ (elim o [
            | none ↦ d
            | some (timer, rest) ↦
                start_all
                  (map refresh_of timer.1)
                  (record d { state = record (d.state) { timers = rest } })
          ])
      go none = answered
      go (some (timer, rest)) =
          start_all-Answered _ _ (refresh_of-Fits φ timer.1)
            (record { fits = answered.fits; off = answered.off })

  Step-Answered : {d e : Dashboard} → Step d e → Answered φ d → Answered φ e
  Step-Answered {d} (act u) answered = start_all-Answered _ d (handlers-Fits φ u d.state) answered
  Step-Answered {d} tick answered = start_all-Answered _ d (polled-Fits φ) answered
  Step-Answered {d} (reply i net) answered = answer-Answered i net d answered
  Step-Answered {d} (timeout i) answered = fire-Answered i d answered

  Reach-Answered : {d : Dashboard} → flag φ initial_state ≡ false → Reach d → Answered φ d
  Reach-Answered off mount =
      start_all-Answered mounted _ (mounted-Fits φ) (record { fits = tt; off = inl off })
  Reach-Answered off (later r step) = Step-Answered step (Reach-Answered off r)

initially_off : (φ : Flag) → flag φ initial_state ≡ false
initially_off submitting = refl
initially_off validating = refl
initially_off resetting = refl
initially_off loading = refl
initially_off refreshing_status = refl
initially_off refreshing_activity = refl

-- In every reachable state in which no handler waits for a reply, the flags of submitting, validating,
-- resetting, loading the inspector and refreshing the status or the log are off, however the handlers
-- that set them were interleaved and whatever the replies were.
pub Reach-off : (φ : Flag) (d : Dashboard) → Reach d → d.waiting ≡ [] → flag φ d.state ≡ false
Reach-off φ d r none_waits = settled (d.waiting) refl (Reach-Answered φ (initially_off φ) r).off
  where
    settled :
        (l : List AppHandler)
        → d.waiting ≡ l
        → (flag φ d.state ≡ false) ⊎ Any (Releases φ) l
        → flag φ d.state ≡ false
    settled l e (inl off) = off
    settled [] e (inr any) = elim any [ ]
    settled (t ∷ l) e (inr any) = cc
