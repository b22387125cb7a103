-- ===== src/Html/Guarded.antt =====
-- A property of all events that some markup offers, by its elements: what is to be shown of an element
-- may assume that it is shown and not disabled.
use mathlib.Core.Path.{subst}
use nats_demo.Common.{Bool, true, false, String, List, [], ◌∷◌, ◌≡◌, inl, inr}
use nats_demo.Html.{
  Attr, attr, disabled, checked, submits, on_click, on_submit, on_change, Html, nothing, text,
  element, ◌<>◌, when, choose, each, is_disabled, is_submitter, Fires, Posts, Submits, Offers,
}

module _ {E : Type 0} (P : E → Type 0) where
  -- The events of an element that is not disabled, where `d` is whether it is
  unfoldable pub Sound : Bool → List (Attr E) → Type 0
  Sound d [] = Unit
  Sound d (on_click x ∷ l) = (d ≡ false → P x) × Sound d l
  Sound d (on_change f ∷ l) = ((v : String) → d ≡ false → P (f v)) × Sound d l
  Sound d (disabled b ∷ l) = Sound d l
  Sound d (attr name s ∷ l) = Sound d l
  Sound d (checked b ∷ l) = Sound d l
  Sound d (submits ∷ l) = Sound d l
  Sound d (on_submit x ∷ l) = Sound d l

  Sound-Fires : (d : Bool) (l : List (Attr E)) (e : E) → Sound d l → d ≡ false → Fires l e → P e
  unfolding Sound Fires
  Sound-Fires d [] e h z f = elim f [ ]
  Sound-Fires d (on_click x ∷ l) e h z (inl p) = subst P p (h.0 z)
  Sound-Fires d (on_click x ∷ l) e h z (inr f) = Sound-Fires d l e h.1 z f
  Sound-Fires d (on_change g ∷ l) e h z (inl (v, p)) = subst P p (h.0 v z)
  Sound-Fires d (on_change g ∷ l) e h z (inr f) = Sound-Fires d l e h.1 z f
  Sound-Fires d (disabled b ∷ l) e h z f = Sound-Fires d l e h z f
  Sound-Fires d (attr name s ∷ l) e h z f = Sound-Fires d l e h z f
  Sound-Fires d (checked b ∷ l) e h z f = Sound-Fires d l e h z f
  Sound-Fires d (submits ∷ l) e h z f = Sound-Fires d l e h z f
  Sound-Fires d (on_submit x ∷ l) e h z f = Sound-Fires d l e h z f

  -- `C` holds wherever the form can be submitted.
  unfoldable pub Held : Type 0 → Html E → Type 0
  Held C nothing = Unit
  Held C (text s) = Unit
  Held C (element tag l h) = (is_submitter tag l ≡ true → is_disabled l ≡ false → C) × Held C h
  Held C (h <> k) = Held C h × Held C k
  Held C (when b h) = b ≡ true → Held C h
  Held C (choose b h k) = (b ≡ true → Held C h) × (b ≡ false → Held C k)

  Held-Submits : (C : Type 0) (h : Html E) → Held C h → Submits h → C
  unfolding Held Submits
  Held-Submits C nothing g s = elim s [ ]
  Held-Submits C (text t) g s = elim s [ ]
  Held-Submits C (element tag l h) g (inl (a, b)) = g.0 b a
  Held-Submits C (element tag l h) g (inr s) = Held-Submits C h g.1 s
  Held-Submits C (h <> k) g (inl s) = Held-Submits C h g.0 s
  Held-Submits C (h <> k) g (inr s) = Held-Submits C k g.1 s
  Held-Submits C (when b h) g (p, s) = Held-Submits C h (g p) s
  Held-Submits C (choose b h k) g (inl (p, s)) = Held-Submits C h (g.0 p) s
  Held-Submits C (choose b h k) g (inr (p, s)) = Held-Submits C k (g.1 p) s

  pub Held-always : {C : Type 0} → C → (h : Html E) → Held C h
  unfolding Held
  Held-always c nothing = tt
  Held-always c (text s) = tt
  Held-always c (element tag l h) = (λ p q. c, Held-always c h)
  Held-always c (h <> k) = (Held-always c h, Held-always c k)
  Held-always c (when b h) = λ p. Held-always c h
  Held-always c (choose b h k) = (λ p. Held-always c h, λ p. Held-always c k)

  -- What a form submits
  unfoldable pub Posted : List (Attr E) → Html E → Type 0
  Posted [] h = Unit
  Posted (on_submit x ∷ l) h = Held (P x) h × Posted l h
  Posted (on_click x ∷ l) h = Posted l h
  Posted (on_change f ∷ l) h = Posted l h
  Posted (disabled b ∷ l) h = Posted l h
  Posted (attr name s ∷ l) h = Posted l h
  Posted (checked b ∷ l) h = Posted l h
  Posted (submits ∷ l) h = Posted l h

  Posted-Posts : (l : List (Attr E)) (h : Html E) (e : E) → Posted l h → Submits h → Posts l e → P e
  unfolding Posted Posts
  Posted-Posts [] h e g s p = elim p [ ]
  Posted-Posts (on_submit x ∷ l) h e g s (inl p) = subst P p (Held-Submits (P x) h g.0 s)
  Posted-Posts (on_submit x ∷ l) h e g s (inr p) = Posted-Posts l h e g.1 s p
  Posted-Posts (on_click x ∷ l) h e g s p = Posted-Posts l h e g s p
  Posted-Posts (on_change f ∷ l) h e g s p = Posted-Posts l h e g s p
  Posted-Posts (disabled b ∷ l) h e g s p = Posted-Posts l h e g s p
  Posted-Posts (attr name t ∷ l) h e g s p = Posted-Posts l h e g s p
  Posted-Posts (checked b ∷ l) h e g s p = Posted-Posts l h e g s p
  Posted-Posts (submits ∷ l) h e g s p = Posted-Posts l h e g s p

  unfoldable pub Guarded : Html E → Type 0
  Guarded nothing = Unit
  Guarded (text s) = Unit
  Guarded (element tag l h) = Sound (is_disabled l) l × Posted l h × Guarded h
  Guarded (h <> k) = Guarded h × Guarded k
  Guarded (when b h) = b ≡ true → Guarded h
  Guarded (choose b h k) = (b ≡ true → Guarded h) × (b ≡ false → Guarded k)

  -- A form whose submission may be offered at any time
  pub Guarded-form :
      (x : E) (h : Html E) → P x → Guarded h → Guarded (element "form" (on_submit x ∷ []) h)
  unfolding Guarded Sound Posted
  Guarded-form x h p g = (tt, (Held-always p h, tt), g)

  -- Whatever the markup offers has the property.
  pub Guarded-Offers : (h : Html E) (e : E) → Guarded h → Offers h e → P e
  unfolding Guarded Offers
  Guarded-Offers nothing e g o = elim o [ ]
  Guarded-Offers (text s) e g o = elim o [ ]
  Guarded-Offers (element tag l h) e g (inl (enabled, f)) =
      Sound-Fires (is_disabled l) l e g.0 enabled f
  Guarded-Offers (element tag l h) e g (inr (inl (s, p))) = Posted-Posts l h e g.1 s p
  Guarded-Offers (element tag l h) e g (inr (inr o)) = Guarded-Offers h e g.2 o
  Guarded-Offers (h <> k) e g (inl o) = Guarded-Offers h e g.0 o
  Guarded-Offers (h <> k) e g (inr o) = Guarded-Offers k e g.1 o
  Guarded-Offers (when b h) e g (p, o) = Guarded-Offers h e (g p) o
  Guarded-Offers (choose b h k) e g (inl (p, o)) = Guarded-Offers h e (g.0 p) o
  Guarded-Offers (choose b h k) e g (inr (p, o)) = Guarded-Offers k e (g.1 p) o

  pub Guarded-each :
      {A : Type 0} (row : A → Html E) (l : List A)
      → ((a : A) → Guarded (row a))
      → Guarded (each row l)
  unfolding Guarded each
  Guarded-each row [] h = tt
  Guarded-each row (x ∷ l) h = (h x, Guarded-each row l h)
