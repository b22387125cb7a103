-- ===== src/Badges/Laws.antt =====
-- The badge of an event in the log and in the job inspector is the same one, but for one event.
use nats_demo.Common.{
  ◌≡◌, ◌≢◌, refl, String, List, [], ◌∷◌, str_eq, eq_iff, Bool-cases, inl, inr, ◌⊎◌, All,
}
use nats_demo.Platform.{Platform}
use nats_demo.Badges.{
  switch, activity_badges, inspector_badges, activity_badge_class, inspector_badge_class,
}

-- A key, and what a table answers to it, as the log's table answers it
abbrev Agrees : (String × String) → Type 0
Agrees case =
    (case.0 ≡ "COMPENSATING")
    ⊎ (case.0 ≡ "SAGA_STARTED")
    ⊎ (switch activity_badges case.0 "" ≡ "")
    ⊎ (switch activity_badges case.0 "" ≡ case.1)

inspector_badges-Agrees : All Agrees inspector_badges
unfolding activity_badges inspector_badges
inspector_badges-Agrees = (
  inr (inr (inr refl)),
  (
    inr (inr (inr refl)),
    (
      inr (inl refl),
      (
        inr (inr (inl refl)),
        (
          inr (inr (inl refl)),
          (
            inr (inr (inl refl)),
            (
              inr (inr (inr refl)),
              (
                inr (inr (inl refl)),
                (
                  inr (inr (inl refl)),
                  (
                    inl refl,
                    (
                      inr (inr (inr refl)),
                      (
                        inr (inr (inr refl)),
                        (
                          inr (inr (inl refl)),
                          (
                            inr (inr (inr refl)),
                            (
                              inr (inr (inr refl)),
                              (
                                inr (inr (inl refl)),
                                (inr (inr (inr refl)), (inr (inr (inr refl)), tt)),
                              ),
                            ),
                          ),
                        ),
                      ),
                    ),
                  ),
                ),
              ),
            ),
          ),
        ),
      ),
    ),
  ),
)

-- What a table answers is its default, or the value of a case with that key.
switch-All :
    (P : String × String → Type 0) (cases : List (String × String)) (key default : String)
    → All P cases
    → (switch cases key default ≡ default) ⊎ P (key, switch cases key default)
switch-All P [] key default h = inl refl
switch-All P ((k, v) ∷ cases) key default h = elim (Bool-cases (str_eq key k)) [
  | inl same ↦ rw same (inr (rw ((eq_iff key k).0 same) h.0))
  | inr other ↦ rw other (switch-All P cases key default h.1)
]

-- An event other than COMPENSATING and SAGA_STARTED that has a badge in the log and in the job
-- inspector has the same one in both.
pub badges-agree :
    (js : Platform) (event : String)
    → js.to_upper_case event ≢ "COMPENSATING"
    → js.to_upper_case event ≢ "SAGA_STARTED"
    → activity_badge_class js event ≢ ""
    → inspector_badge_class js event ≢ ""
    → activity_badge_class js event ≡ inspector_badge_class js event
unfolding activity_badge_class inspector_badge_class
badges-agree js event other other' logged inspected =
    elim (switch-All Agrees inspector_badges (js.to_upper_case event) "" inspector_badges-Agrees) [
      | inl missing ↦ absurd (inspected missing)
      | inr (inl e) ↦ absurd (other e)
      | inr (inr (inl e)) ↦ absurd (other' e)
      | inr (inr (inr (inl e))) ↦ absurd (logged e)
      | inr (inr (inr (inr e))) ↦ e
    ]
