-- ===== src/Html.antt =====
-- What a component renders: the elements of its markup, with the texts that they show and the events
-- `E` that they call. `when c h` is `{c && h}`, `choose c h k` is `{c ? h : k}`; `h <> k` are two
-- elements side by side. Inline styles, keys and drawn icons are left out.
pub mod Guarded
pub mod Offering
pub mod JsonViewer
use nats_demo.Common.{Bool, true, false, ◌||◌, String, List, [], ◌∷◌, str_eq, ◌≡◌, ◌⊎◌}

pub data Attr (E : Type 0) : Type 0 where
  -- An attribute with a text, such as the class
  attr : String → String → Attr E
  disabled checked : Bool → Attr E
  -- `type="submit"`
  submits : Attr E
  on_click on_submit : E → Attr E
  -- `onChange={(e) => … e.target.value …}`
  on_change : (String → E) → Attr E

infixr 60 ◌<>◌
pub data Html (E : Type 0) : Type 0 where
  nothing : Html E
  text : String → Html E
  element : String → List (Attr E) → Html E → Html E
  ◌<>◌ : Html E → Html E → Html E
  when : Bool → Html E → Html E
  choose : Bool → Html E → Html E → Html E

-- An element with a class only, as most are
abbrev pub within : {E : Type 0} → String → String → Html E → Html E
within tag cls h = element tag (attr "class" cls ∷ []) h

-- `{list.map(row)}`
unfoldable pub each : {E A : Type 0} → (A → Html E) → List A → Html E
each row [] = nothing
each row (x ∷ l) = row x <> each row l

-- A mapping `{cond && …}` of a text that may be missing is `when`; this is the text of an element.
abbrev pub label : {E : Type 0} → String → String → Html E
label tag s = element tag [] (text s)

module _ {E : Type 0} where
  unfoldable pub is_disabled : List (Attr E) → Bool
  is_disabled [] = false
  is_disabled (disabled b ∷ l) = b
  is_disabled (attr name s ∷ l) = is_disabled l
  is_disabled (checked b ∷ l) = is_disabled l
  is_disabled (submits ∷ l) = is_disabled l
  is_disabled (on_click e ∷ l) = is_disabled l
  is_disabled (on_submit e ∷ l) = is_disabled l
  is_disabled (on_change f ∷ l) = is_disabled l

  -- A submit button, or a field: Enter in a field may submit its form.
  unfoldable pub is_submitter : String → List (Attr E) → Bool
  is_submitter tag [] = str_eq tag "input"
  is_submitter tag (submits ∷ l) = true
  is_submitter tag (disabled b ∷ l) = is_submitter tag l
  is_submitter tag (attr name s ∷ l) = is_submitter tag l
  is_submitter tag (checked b ∷ l) = is_submitter tag l
  is_submitter tag (on_click e ∷ l) = is_submitter tag l
  is_submitter tag (on_submit e ∷ l) = is_submitter tag l
  is_submitter tag (on_change f ∷ l) = is_submitter tag l

  -- The events of an element that is not disabled
  unfoldable pub Fires : List (Attr E) → E → Type 0
  Fires [] e = ⊥
  Fires (on_click x ∷ l) e = (x ≡ e) ⊎ Fires l e
  Fires (on_change f ∷ l) e = ((v : String) × (f v ≡ e)) ⊎ Fires l e
  Fires (disabled b ∷ l) e = Fires l e
  Fires (attr name s ∷ l) e = Fires l e
  Fires (checked b ∷ l) e = Fires l e
  Fires (submits ∷ l) e = Fires l e
  Fires (on_submit x ∷ l) e = Fires l e

  unfoldable pub Posts : List (Attr E) → E → Type 0
  Posts [] e = ⊥
  Posts (on_submit x ∷ l) e = (x ≡ e) ⊎ Posts l e
  Posts (on_click x ∷ l) e = Posts l e
  Posts (on_change f ∷ l) e = Posts l e
  Posts (disabled b ∷ l) e = Posts l e
  Posts (attr name s ∷ l) e = Posts l e
  Posts (checked b ∷ l) e = Posts l e
  Posts (submits ∷ l) e = Posts l e

  -- Something in it can be used to submit the form that it stands in.
  unfoldable pub Submits : Html E → Type 0
  Submits nothing = ⊥
  Submits (text s) = ⊥
  Submits (element tag l h) = ((is_disabled l ≡ false) × (is_submitter tag l ≡ true)) ⊎ Submits h
  Submits (h <> k) = Submits h ⊎ Submits k
  Submits (when b h) = (b ≡ true) × Submits h
  Submits (choose b h k) = ((b ≡ true) × Submits h) ⊎ ((b ≡ false) × Submits k)

  -- The user can make `e` happen: by an element that is shown and not disabled, or by submitting a form.
  unfoldable pub Offers : Html E → E → Type 0
  Offers nothing e = ⊥
  Offers (text s) e = ⊥
  Offers (element tag l h) e =
      ((is_disabled l ≡ false) × Fires l e) ⊎ (Submits h × Posts l e) ⊎ Offers h e
  Offers (h <> k) e = Offers h e ⊎ Offers k e
  Offers (when b h) e = (b ≡ true) × Offers h e
  Offers (choose b h k) e = ((b ≡ true) × Offers h e) ⊎ ((b ≡ false) × Offers k e)
