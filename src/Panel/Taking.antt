-- ===== src/Panel/Taking.antt =====
-- Rules for the handlers that turn a flag of their own on and off.
use mathlib.Core.Path.{subst}
use nats_demo.Common.{◌≡◌, refl, sym, ◌∙◌, Bool, true, false, if◌then◌else◌}
use nats_demo.Task.{Task, done, update, finally, ◌>>=◌, ◌>>◌}
use nats_demo.Task.Keeping.{Maintains-done, Maintains-update, Maintains-step, Maintains-finally}
use nats_demo.Panel.Holding.{Holds, Holds-raised}
use nats_demo.Panel.Kinds.{Kinds, LeavesAll, Spares, Takes, apart, own}

module _ {S E : Type 0} (ks : Kinds S E) where
  open ks use {Kind, same, flag, set_flag}

  -- What the `finally` block does: it turns the flag off, and no other.
  abbrev pub Lowers : Kind → (S → S) → Type 0
  Lowers κ off =
      ((s : S) → flag κ (off s) ≡ false)
      × ((μ : Kind) (s : S) → same μ κ ≡ false → flag μ (off s) ≡ flag μ s)

  pub set_flag-Lowers : (κ : Kind) → same κ κ ≡ true → Lowers κ (set_flag κ false)
  set_flag-Lowers κ e = (λ s. own ks κ false s e, λ μ s d. apart ks μ κ false (flag μ s) s d refl)

module _ {S E : Type 0} (ks : Kinds S E) {Q : Type 0} {R : Q → Type 0} where
  open ks use {Kind, same, flag, set_flag}

  -- A handler of a kind turns its flag on, and off in its `finally` block.
  pub record Raises (κ : Kind) (t : Task S Q R (Unit {0})) : Type 0 where
    pub body : Task S Q R (Unit {0})
    pub shape : t ≡ (update (set_flag κ true) >> finally body (set_flag κ false))
    pub leaves : LeavesAll ks body

  -- The handler updates other fields too before its `try`.
  pub raised_then-Takes :
      (κ : Kind) (s : S) (g off : S → S) (body : Task S Q R (Unit {0}))
      → same κ κ ≡ true
      → Spares ks g
      → Lowers ks κ off
      → LeavesAll ks body
      → Takes ks κ s (update (set_flag κ true) >> (update g >> finally body off))
  unfolding Holds update ◌>>=◌
  raised_then-Takes κ s g off body e spares lowers leaves = record {
    others = λ μ d b.
        Maintains-step _ _ (λ s' h. apart ks μ κ true b s' d h)
          (Maintains-step _ _ (λ s' h. spares μ s' ∙ h)
            (Maintains-finally _ _ (leaves μ b) (λ s' h. lowers.1 μ s' d ∙ h)));
    holds = λ h.
        Holds-raised (flag κ) (λ s'. g (set_flag κ true s')) body off s
          (λ s'. spares κ (set_flag κ true s') ∙ own ks κ true s' e) (leaves κ) lowers.0;
  }

  raised-Takes :
      (κ : Kind) (s : S) (body : Task S Q R (Unit {0}))
      → same κ κ ≡ true
      → LeavesAll ks body
      → Takes ks κ s (update (set_flag κ true) >> finally body (set_flag κ false))
  raised-Takes κ s body e leaves = record {
    others = λ μ d b.
        Maintains-step _ _ (λ s' h. apart ks μ κ true b s' d h)
          (Maintains-finally _ _ (leaves μ b) (λ s' h. apart ks μ κ false b s' d h));
    holds = λ h.
        Holds-raised (flag κ) _ body _ s (λ s'. own ks κ true s' e) (leaves κ)
          (λ s'. own ks κ false s' e);
  }

  pub Raises-Takes :
      (κ : Kind) (s : S) (t : Task S Q R (Unit {0})) → same κ κ ≡ true → Raises κ t → Takes ks κ s t
  Raises-Takes κ s t e r = subst (Takes ks κ s) (sym r.shape) (raised-Takes κ s r.body e r.leaves)

  -- An update of other fields first
  pub step-Takes :
      (κ : Kind) (s : S) (g : S → S) (t : Task S Q R (Unit {0}))
      → Spares ks g
      → Takes ks κ (g s) t
      → Takes ks κ s (update g >> t)
  unfolding Holds update ◌>>=◌
  step-Takes κ s g t spares takes = record {
    others = λ μ d b. Maintains-step _ _ (λ s' h. spares μ s' ∙ h) (takes.others μ d b);
    holds = λ h. takes.holds (spares κ s ∙ h);
  }

  -- The handler only updates other fields after all.
  pub update-Takes :
      (κ : Kind) (s : S) (g : S → S) → Spares ks g → Takes ks κ s (update {Q = Q} {R = R} g)
  unfolding Holds update
  update-Takes κ s g spares = record {
    others = λ μ d b. Maintains-update _ (λ s' h. spares μ s' ∙ h);
    holds = λ h. spares κ s ∙ h;
  }

  -- The handler may return at once.
  pub skip-Takes :
      (κ : Kind) (s : S) (b : Bool) (t : Task S Q R (Unit {0}))
      → Takes ks κ s t
      → Takes ks κ s (if b then done tt else t)
  unfolding Holds
  skip-Takes κ s true t takes = record { others = λ μ d b. Maintains-done _ tt; holds = λ h. h }
  skip-Takes κ s false t takes = takes
