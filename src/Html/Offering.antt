-- ===== src/Html/Offering.antt =====
-- How the user comes to an event of some markup: the way to the element that calls it.
use nats_demo.Common.{Bool, true, false, String, List, ◌≡◌, inl, inr}
use nats_demo.Html.{Attr, Html, element, ◌<>◌, when, is_disabled, Fires, Posts, Submits, Offers}

pub data Way {E : Type 0} (e : E) : Html E → Type 0 where
  first : {h k : Html E} → Way e h → Way e (h <> k)
  shown : {b : Bool} {h : Html E} → b ≡ true → Way e h → Way e (when b h)
  rest : {h k : Html E} → Way e k → Way e (h <> k)
  inside : {tag : String} {l : List (Attr E)} {h : Html E} → Way e h → Way e (element tag l h)
  use_it :
      {tag : String} {l : List (Attr E)} {h : Html E}
      → is_disabled l ≡ false
      → Fires l e
      → Way e (element tag l h)
  submit_it :
      {tag : String} {l : List (Attr E)} {h : Html E}
      → Submits h
      → Posts l e
      → Way e (element tag l h)

pub Way-Offers : {E : Type 0} {e : E} {h : Html E} → Way e h → Offers h e
unfolding Offers
Way-Offers (first w) = inl (Way-Offers w)
Way-Offers (rest w) = inr (Way-Offers w)
Way-Offers (shown p w) = (p, Way-Offers w)
Way-Offers (inside w) = inr (inr (Way-Offers w))
Way-Offers (use_it enabled fires) = inl (enabled, fires)
Way-Offers (submit_it submits posts) = inr (inl (submits, posts))
