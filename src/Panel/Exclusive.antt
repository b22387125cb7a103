-- ===== src/Panel/Exclusive.antt =====
-- A flag by which a panel disables the elements that start a kind of handlers: of that kind one handler
-- waits while the flag is on, and none while it is off.
use mathlib.Core.Path.{subst}
use nats_demo.Common.{Bool-cases, inl, inr}
use nats_demo.Common.{
  ℕ, zero, suc, ◌+◌, ◌≡◌, refl, sym, ap, ◌∙◌, Bool, true, false, List, [], ◌∷◌, ◌++◌, Option, none,
  some, All, All-append, arith, if◌then◌else◌, take_out, TakenOut, take_out-All,
}
use nats_demo.Task.{Task, done, fail, set, call, advance, resume}
use nats_demo.Task.Keeping.{Maintains-advance, Maintains-rest, Maintains-resume}
use nats_demo.Panel.Holding.{Holds, Leaves, Waits, Waits-resume}
use nats_demo.Html.{Html, Offers}
use nats_demo.Panel.{
  Pending, Live, park, start, answer, Step, press, elapse, reply, Reach, mount, later,
}

abbrev pub one_if : Bool → ℕ
one_if b = if b then 1 else 0

module _ {S Q : Type 0} {R : Q → Type 0} (flag : S → Bool) where
  module _ {E : Type 0} (owns : E → Bool) where
    -- How many of the handlers that wait were started by an event of the kind.
    unfoldable pub owners : List (Pending S Q R E) → ℕ
    owners [] = 0
    owners (w ∷ l) = if owns w.0 then suc (owners l) else owners l

    owners-append : (l r : List (Pending S Q R E)) → owners (l ++ r) ≡ owners l + owners r
    unfolding owners
    owners-append [] r = omega arith
    owners-append (w ∷ l) r = ground (arith, owners-append l r)

    Fit : Bool → Task S Q R (Unit {0}) → Type 0
    Fit true t = Waits flag t
    Fit false t = Leaves flag t

    abbrev Fits : Pending S Q R E → Type 0
    Fits w = Fit (owns w.0) w.1

    record Exclusive (d : Live S Q R E) : Type 0 where
      fits : All Fits d.waiting
      counted : owners d.waiting ≡ one_if (flag d.state)

    again :
        (q : Q) (k : R q → Task S Q R (Unit {0})) (s : S)
        → Holds flag (call q k) s
        → Waits flag (call q k)
    unfolding Holds Waits
    again q k s h = λ s' on. (on, h.1)

    park-Fits :
        (e : E) (t : Task S Q R (Unit {0})) (l : List (Pending S Q R E))
        → owns e ≡ false
        → Leaves flag t
        → All Fits l
        → All Fits (park e t l)
    unfolding park Fit
    park-Fits e (call q k) l o h a = All-append Fits l _ a (rw o h, tt)
    park-Fits e (done x) l o h a = a
    park-Fits e (fail x) l o h a = a
    park-Fits e (set f t) l o h a = a

    park-owners :
        (e : E) (t : Task S Q R (Unit {0})) (l : List (Pending S Q R E))
        → owns e ≡ false
        → owners (park e t l) ≡ owners l
    unfolding park owners
    park-owners e (call q k) l o = ground (arith, owners-append l ((e, call q k) ∷ []))
    park-owners e (done x) l o = refl
    park-owners e (fail x) l o = refl
    park-owners e (set f t) l o = refl

    owner-Exclusive :
        (e : E) (t : Task S Q R (Unit {0})) (s : S) (l : List (Pending S Q R E))
        → owns e ≡ true
        → Holds flag t s
        → All Fits l
        → owners l ≡ 0
        → Exclusive (record { state = (advance t s).0; waiting = park e (advance t s).1 l })
    unfolding Holds advance park owners Fit
    owner-Exclusive e (done a) s l o h fits none_waits = record {
      fits = fits;
      counted = rw h none_waits;
    }
    owner-Exclusive e (fail x) s l o h fits none_waits = record {
      fits = fits;
      counted = rw h none_waits;
    }
    owner-Exclusive e (set f t) s l o h fits none_waits =
        owner-Exclusive e t (f s) l o h fits none_waits
    owner-Exclusive e (call q k) s l o h fits none_waits = record {
      fits = All-append Fits l _ fits (rw o (again q k s h), tt);
      counted = rw (owners-append, none_waits, o, h.0) refl;
    }

    -- A handler of another kind
    other-Exclusive :
        (e : E) (t : Task S Q R (Unit {0})) (d : Live S Q R E)
        → owns e ≡ false
        → Leaves flag t
        → Exclusive d
        → Exclusive (start e t d)
    unfolding start
    other-Exclusive e t d o h x = record {
      fits = park-Fits e _ d.waiting o (λ b. Maintains-rest t d.state (h b)) x.fits;
      counted =
          park-owners e _ d.waiting o
          ∙ x.counted
          ∙ ap one_if (sym (Maintains-advance t d.state (h (flag d.state)) refl).0);
    }

    abbrev CountedOut : Option (Pending S Q R E × List (Pending S Q R E)) → ℕ → Type 0
    CountedOut none n = Unit
    CountedOut (some (w, rest)) n = n ≡ one_if (owns w.0) + owners rest

    take_out-owners : (i : ℕ) (l : List (Pending S Q R E)) → CountedOut (take_out i l) (owners l)
    unfolding owners
    take_out-owners i [] = tt
    take_out-owners zero (w ∷ l) = ground arith
    take_out-owners (suc i) (w ∷ l) = put_back (take_out i l) (take_out-owners i l)
      where
        put_back :
            (o : Option (Pending S Q R E × List (Pending S Q R E)))
            → CountedOut o (owners l)
            → CountedOut (elim o [ none ↦ none | some (x, r) ↦ some (x, w ∷ r) ]) (owners (w ∷ l))
        put_back none g = tt
        put_back (some (x, r)) g = ground arith

    answered-Exclusive :
        (net : (q : Q) → R q) (w : Pending S Q R E) (rest : List (Pending S Q R E)) (s : S)
        → Fits w
        → All Fits rest
        → one_if (flag s) ≡ one_if (owns w.0) + owners rest
        → Exclusive (start w.0 (resume net w.1) (record { state = s; waiting = rest }))
    unfolding Waits Fit
    answered-Exclusive net (e, t) rest s fit fits counted = elim (Bool-cases (owns e)) [
      | inl owner ↦
          let on : flag s ≡ true = ground arith in
          let waits : Waits flag t = subst (λ b. Fit b t) owner fit in
          unfold start Waits in
          owner-Exclusive e (resume net t) s rest owner (Waits-resume flag net t waits s on) fits
            (ground arith)
      | inr other ↦
          let leaves : Leaves flag t = subst (λ b. Fit b t) other fit in
          other-Exclusive e (resume net t) _ other (λ b. Maintains-resume net t (leaves b))
            (record { fits = fits; counted = ground arith })
    ]

    answer-Exclusive :
        (i : ℕ) (net : (q : Q) → R q) (d : Live S Q R E) → Exclusive d → Exclusive (answer i net d)
    unfolding answer
    answer-Exclusive i net d x =
        go (take_out i d.waiting) (take_out-All Fits i d.waiting x.fits)
          (take_out-owners i d.waiting)
      where
        go :
            (o : Option (Pending S Q R E × List (Pending S Q R E)))
            → TakenOut Fits o
            → CountedOut o (owners d.waiting)
            → Exclusive (elim o [
              | none ↦ d
              | some (w, rest) ↦
                  start (w.0) (resume net w.1) (record { state = d.state; waiting = rest })
            ])
        go none h c = x
        go (some (w, rest)) h c = answered-Exclusive net w rest d.state h.0 h.1 (sym x.counted ∙ c)

    -- What is to be known of a panel: its handlers of the kind hold the flag, the others leave it alone,
    -- and neither a button nor a timer starts one of the kind while the flag is on.
    pub record Conducts {X : Type 0} (view : X → S → Html E)
        (react : E → ℕ → S → Task S Q R (Unit {0})) (Background : E → Type 0) : Type 0 where
      pub holding :
          (e : E) (draw : ℕ) (s : S)
          → owns e ≡ true
          → flag s ≡ false
          → Holds flag (react e draw s) s
      pub leaving : (e : E) (draw : ℕ) (s : S) → owns e ≡ false → Leaves flag (react e draw s)
      pub offered : (x : X) (s : S) (e : E) → Offers (view x s) e → owns e ≡ true → flag s ≡ false
      pub elapsing : (e : E) → Background e → owns e ≡ false

    module _ {X : Type 0} {view : X → S → Html E} {react : E → ℕ → S → Task S Q R (Unit {0})}
        {Background : E → Type 0} (panel : Conducts view react Background) where
      started-Exclusive :
          (e : E) (draw : ℕ) (d : Live S Q R E)
          → (owns e ≡ true → flag d.state ≡ false)
          → Exclusive d
          → Exclusive (start e (react e draw d.state) d)
      started-Exclusive e draw d free x = elim (Bool-cases (owns e)) [
        | inl owner ↦
            unfold start in
            owner-Exclusive e _ d.state d.waiting owner
              (panel.holding e draw d.state owner (free owner)) x.fits
              (rw (free owner) at x.counted)
        | inr other ↦ other-Exclusive e _ d other (panel.leaving e draw d.state other) x
      ]

      Step-Exclusive :
          {d e : Live S Q R E} → Step view react Background d e → Exclusive d → Exclusive e
      Step-Exclusive {d} (press props e draw o) x =
          started-Exclusive e draw d (panel.offered props d.state e o) x
      Step-Exclusive {d} (elapse e draw b) x =
          started-Exclusive e draw d (λ owner. absurd (cc (panel.elapsing e b))) x
      Step-Exclusive {d} (reply i net) x = answer-Exclusive i net d x

      Reach-Exclusive :
          {s : S} {d : Live S Q R E}
          → flag s ≡ false
          → Reach view react Background s d
          → Exclusive d
      unfolding owners
      Reach-Exclusive off mount = record { fits = tt; counted = rw off }
      Reach-Exclusive off (later r step) = Step-Exclusive step (Reach-Exclusive off r)

      -- One handler of the kind waits where the flag is on, and none where it is off.
      pub owners_exact :
          {s : S} {d : Live S Q R E}
          → flag s ≡ false
          → Reach view react Background s d
          → owners d.waiting ≡ one_if (flag d.state)
      owners_exact off r = (Reach-Exclusive off r).counted
