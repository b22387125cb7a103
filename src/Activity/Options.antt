-- ===== src/Activity/Options.antt =====
-- The choices of the two drop-down filters of frontend/src/components/ActivityPanel.tsx:
-- `['ALL', ...Array.from(new Set(values.filter(Boolean))).sort()]`.
use nats_demo.Common.{
  ℕ, suc, ◌≡◌, refl, ◌+◌, Bool, true, false, not, ◌&&◌, String, List, [], ◌∷◌, map, arith, str_eq,
  eq_iff, mem_text, filter, if◌then◌else◌,
}
use nats_demo.Api.{Activity}
use nats_demo.Platform.{Platform}

abbrev pub tail : List String → List String
tail [] = []
tail (x ∷ l) = l

-- The members of a `Set` made of the list: the first of equal texts, in order.
pub distinct : List String → List String
distinct [] = []
distinct (x ∷ xs) = x ∷ filter (λ y. not (str_eq x y)) (distinct xs)

abbrev non_empty : String → Bool
non_empty s = not (str_eq s "")

-- How often a text is listed.
abbrev pub count : String → List String → ℕ
count e [] = 0
count e (x ∷ xs) = if str_eq x e then suc (count e xs) else count e xs

-- In the order of the list, each is at most its successors.
abbrev pub IsSorted : (String → String → Bool) → List String → Type 0
IsSorted le [] = Unit
IsSorted le (x ∷ []) = Unit
IsSorted le (x ∷ y ∷ l) = (le x y ≡ true) × IsSorted le (y ∷ l)

module _ (js : Platform) where
  insert_sorted : String → List String → List String
  insert_sorted x [] = x ∷ []
  insert_sorted x (y ∷ l) = if js.before x y then x ∷ y ∷ l else y ∷ insert_sorted x l

  -- `values.sort()`
  pub sort : List String → List String
  unfolding insert_sorted
  sort [] = []
  sort (x ∷ l) = insert_sorted x (sort l)

  unfoldable pub options : List String → List String
  unfolding sort distinct
  options values = "ALL" ∷ sort (distinct (filter non_empty values))

  unfoldable pub event_options : List Activity → List String
  unfolding options
  event_options activities = options (map (λ a. a.event) activities)

  unfoldable pub worker_options : List Activity → List String
  unfolding options
  worker_options activities = options (map (λ a. a.worker) activities)

count-insert_sorted :
    (js : Platform) (e x : String) (l : List String)
    → count e (insert_sorted js x l) ≡ count e (x ∷ l)
unfolding insert_sorted
count-insert_sorted js e x [] = refl
count-insert_sorted js e x (y ∷ l) = ground (arith, count-insert_sorted js e x l)

count-sort : (js : Platform) (e : String) (l : List String) → count e (sort js l) ≡ count e l
unfolding sort
count-sort js e [] = refl
count-sort js e (x ∷ l) = ground (arith, count-insert_sorted js e x (sort js l), count-sort js e l)

count-filter :
    (p : String → Bool) (e : String) (l : List String)
    → count e (filter p l) ≡ (if p e then count e l else 0)
count-filter p e [] = ground arith
count-filter p e (x ∷ l) = ground (arith, eq_iff x e, count-filter p e l)

count-distinct :
    (e : String) (l : List String) → count e (distinct l) ≡ (if mem_text e l then 1 else 0)
unfolding distinct mem_text
count-distinct e [] = refl
count-distinct e (x ∷ l) =
    ground
      (arith, eq_iff x e, count-filter (λ y. not (str_eq x y)) e (distinct l), count-distinct e l)

mem_text-filter :
    (p : String → Bool) (e : String) (l : List String)
    → mem_text e (filter p l) ≡ p e && mem_text e l
unfolding mem_text
mem_text-filter p e [] = ground arith
mem_text-filter p e (x ∷ l) = ground (arith, eq_iff x e, mem_text-filter p e l)

-- Below "ALL", the list of choices holds every event of the log once, and nothing else: the empty
-- text never, however many records there are.
pub event_options_exact :
    (js : Platform) (e : String) (activities : List Activity)
    → count e (event_options js activities)
      ≡ count e ("ALL" ∷ [])
        + (if not (str_eq e "") && mem_text e (map Activity.event activities) then 1 else 0)
unfolding event_options
event_options_exact js e activities =
    let events = map (λ (a : Activity). a.event) activities in
    ground (
      arith,
      count-sort js e (distinct (filter non_empty events)),
      count-distinct e (filter non_empty events),
      mem_text-filter non_empty e events,
    )

module _ (js : Platform)
    (total : (s t : String) → js.before s t ≡ false → js.before t s ≡ true) where
  insert_sorted-IsSorted :
      (x : String) (l : List String)
      → IsSorted js.before l
      → IsSorted js.before (insert_sorted js x l)
  unfolding insert_sorted
  insert_sorted-IsSorted x [] h = tt
  insert_sorted-IsSorted x (y ∷ []) h = ground (arith, total x y)
  insert_sorted-IsSorted x (y ∷ z ∷ l) h =
      ground (arith, total x y, total x z, insert_sorted-IsSorted x (z ∷ l) h.1)

  sort-IsSorted : (l : List String) → IsSorted js.before (sort js l)
  unfolding sort
  sort-IsSorted [] = tt
  sort-IsSorted (x ∷ l) = insert_sorted-IsSorted x (sort js l) (sort-IsSorted l)

  -- Below "ALL", the choices stand in the order of `sort`, if that order is total.
  pub event_options-IsSorted :
      (activities : List Activity) → IsSorted js.before (tail (event_options js activities))
  unfolding event_options
  event_options-IsSorted activities =
      sort-IsSorted (distinct (filter non_empty (map (λ (a : Activity). a.event) activities)))
