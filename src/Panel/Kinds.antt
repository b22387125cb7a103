-- ===== src/Panel/Kinds.antt =====
-- A panel with several flags, each for a kind `K` of handlers.
use nats_demo.Common.{ℕ, ◌≡◌, sym, ap, ◌∙◌, Bool, true, false, Option, none, some, if◌then◌else◌}
use mathlib.Core.Path.{subst}
use nats_demo.Task.{Task}
use nats_demo.Html.{Html}
use nats_demo.Html.Guarded.{Guarded, Guarded-Offers}
use nats_demo.Panel.Holding.{Holds, Leaves}
use nats_demo.Panel.Exclusive.{Conducts, owners, one_if, owners_exact}
use nats_demo.Panel.{Live, Reach}

-- The flags, their setters, and the kind of the handler that an event starts, if it has one
pub record Kinds (S E : Type 0) : Type 1 where
  pub Kind : Type 0
  pub same : Kind → Kind → Bool
  pub flag : Kind → S → Bool
  pub set_flag : Kind → Bool → S → S
  pub kind : E → Option Kind
  pub same_eq : (κ μ : Kind) → same κ μ ≡ true → κ ≡ μ
  pub flag-set_flag :
      (κ μ : Kind) (b : Bool) (s : S) → flag κ (set_flag μ b s) ≡ (if same κ μ then b else flag κ s)

module _ {S E : Type 0} (ks : Kinds S E) where
  open ks use {Kind, same, flag, set_flag, kind, same_eq, flag-set_flag}

  abbrev is_of : Kind → Option Kind → Bool
  is_of κ none = false
  is_of κ (some μ) = same κ μ

  -- The event starts a handler of the kind.
  abbrev pub owns : Kind → E → Bool
  owns κ e = is_of κ (kind e)

  -- What is to be shown of an event that is offered: the flag of its kind is off.
  abbrev pub KindFree : Option Kind → S → Type 0
  KindFree none s = Unit
  KindFree (some κ) s = flag κ s ≡ false

  abbrev pub IsFree : S → E → Type 0
  IsFree s e = KindFree (kind e) s

  free : (κ : Kind) (o : Option Kind) (s : S) → KindFree o s → is_of κ o ≡ true → flag κ s ≡ false
  free κ none s f h = cc
  free κ (some μ) s f h = subst (λ x. flag x s ≡ false) (sym (same_eq κ μ h)) f

  -- An update that writes no flag
  abbrev pub Spares : (S → S) → Type 0
  Spares g = (κ : Kind) (s : S) → flag κ (g s) ≡ flag κ s

  pub apart :
      (μ κ : Kind) (c b : Bool) (s : S)
      → same μ κ ≡ false
      → flag μ s ≡ b
      → flag μ (set_flag κ c s) ≡ b
  apart μ κ c b s e h = flag-set_flag μ κ c s ∙ rw e h

  pub own : (κ : Kind) (c : Bool) (s : S) → same κ κ ≡ true → flag κ (set_flag κ c s) ≡ c
  own κ c s e = flag-set_flag κ κ c s ∙ rw e

  module _ {Q : Type 0} {R : Q → Type 0} where
    abbrev pub LeavesAll : Task S Q R (Unit {0}) → Type 0
    LeavesAll t = (κ : Kind) → Leaves (flag κ) t

    -- The handler that an event of the kind starts in `s`
    pub record Takes (κ : Kind) (s : S) (t : Task S Q R (Unit {0})) : Type 0 where
      pub others : (μ : Kind) → same μ κ ≡ false → Leaves (flag μ) t
      pub holds : flag κ s ≡ false → Holds (flag κ) t s

    abbrev pub Acts : Option Kind → S → Task S Q R (Unit {0}) → Type 0
    Acts none s t = LeavesAll t
    Acts (some κ) s t = Takes κ s t

    -- A panel whose handlers keep to their kinds, and which offers none of a kind whose flag is on
    pub record KeepsKinds {X : Type 0} (view : X → S → Html E)
        (react : E → ℕ → S → Task S Q R (Unit {0})) (Background : E → Type 0) : Type 0 where
      pub acts : (e : E) (draw : ℕ) (s : S) → Acts (kind e) s (react e draw s)
      pub guarded : (x : X) (s : S) → Guarded (IsFree s) (view x s)
      pub idle : (e : E) → Background e → kind e ≡ none

    holding :
        (κ : Kind) (o : Option Kind) (s : S) (t : Task S Q R (Unit {0}))
        → Acts o s t
        → is_of κ o ≡ true
        → flag κ s ≡ false
        → Holds (flag κ) t s
    holding κ none s t a h free = cc
    holding κ (some μ) s t a h free =
        let e = same_eq κ μ h in
        subst (λ x. flag x s ≡ false → Holds (flag x) t s) (sym e) a.holds free

    leaving :
        (κ : Kind) (o : Option Kind) (s : S) (t : Task S Q R (Unit {0}))
        → Acts o s t
        → is_of κ o ≡ false
        → Leaves (flag κ) t
    leaving κ none s t a h = a κ
    leaving κ (some μ) s t a h = a.others κ h

    pub KeepsKinds-Conducts :
        {X : Type 0} {view : X → S → Html E} {react : E → ℕ → S → Task S Q R (Unit {0})}
        {Background : E → Type 0}
        → KeepsKinds view react Background
        → (κ : Kind) → Conducts (flag κ) (owns κ) view react Background
    KeepsKinds-Conducts panel κ = record {
      holding = λ e draw s h free. holding κ (kind e) s _ (panel.acts e draw s) h free;
      leaving = λ e draw s h. leaving κ (kind e) s _ (panel.acts e draw s) h;
      offered =
          λ x s e o h. free κ (kind e) s (Guarded-Offers (IsFree s) _ e (panel.guarded x s) o) h;
      elapsing = λ e b. ap (is_of κ) (panel.idle e b);
    }

    -- Of each kind one handler waits where its flag is on, and none where it is off.
    pub owners_of_kind :
        {X : Type 0} {view : X → S → Html E} {react : E → ℕ → S → Task S Q R (Unit {0})}
        {Background : E → Type 0}
        → KeepsKinds view react Background
        → (κ : Kind) {s : S} {d : Live S Q R E} → flag κ s ≡ false
        → Reach view react Background s d
        → owners (flag κ) (owns κ) d.waiting ≡ one_if (flag κ d.state)
    owners_of_kind panel κ off r =
        owners_exact (flag κ) (owns κ) (KeepsKinds-Conducts panel κ) off r
