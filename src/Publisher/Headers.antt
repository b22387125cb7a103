-- ===== src/Publisher/Headers.antt =====
-- The custom headers of frontend/src/components/CoreFlow/CoreFlowPublisher.tsx: the list that the
-- form edits and the map that is sent.
use nats_demo.Common.{
  ◌≡◌, refl, ap, ◌∙◌, Bool, true, false, not, ◌||◌, Bool-cases, inl, inr, String, List, [], ◌∷◌,
  map, ◌++◌, Option, none, some, arith, filter, str_eq, eq_iff, if◌then◌else◌,
}
use nats_demo.Platform.{Platform}

pub record CustomHeader : Type 0 where
  pub id : String
  pub key : String
  pub value : String

-- A `Record<string, string>` in the order of insertion (JavaScript puts keys that are numbers first)
abbrev pub HeaderMap : Type 0
HeaderMap = List (String × String)

-- `map[k] = v`
unfoldable pub insert : String → String → HeaderMap → HeaderMap
insert k v [] = (k, v) ∷ []
insert k v ((j, w) ∷ m) = if str_eq j k then (k, v) ∷ m else (j, w) ∷ insert k v m

unfoldable pub lookup : String → HeaderMap → Option String
lookup k [] = none
lookup k ((j, v) ∷ m) = if str_eq j k then some v else lookup k m

abbrev pub is_lost : String → Bool
is_lost k = str_eq k "" || str_eq k "__proto__"

module _ (js : Platform) where
  -- One round of the loop: a blank key is skipped. Assigning a text to `map['__proto__']` of a plain
  -- object has no effect.
  unfoldable pub add_header : HeaderMap → CustomHeader → HeaderMap
  add_header m h = let k = js.trim h.key in if is_lost k then m else insert k h.value m

  unfoldable pub headers_from : HeaderMap → List CustomHeader → HeaderMap
  headers_from m [] = m
  headers_from m (h ∷ hs) = headers_from (add_header m h) hs

  -- `headersMap`
  unfoldable pub headers_map : List CustomHeader → HeaderMap
  unfolding headers_from add_header
  headers_map hs = headers_from [] hs

  -- The value of the last header with the key, or `before`
  unfoldable pub last_value : Option String → String → List CustomHeader → Option String
  last_value before k [] = before
  last_value before k (h ∷ hs) =
      last_value (if str_eq (js.trim h.key) k then some h.value else before) k hs

-- `Object.keys(headersMap).length > 0 ? headersMap : undefined`
abbrev pub headers_field : HeaderMap → Option HeaderMap
headers_field [] = none
headers_field (e ∷ m) = some (e ∷ m)

-- `addCustomHeader`, with the new row's identifier
unfoldable pub add_custom_header : String → List CustomHeader → List CustomHeader
add_custom_header id hs = hs ++ record { id = id; key = ""; value = "" } ∷ []

pub data HeaderField : Type 0 where
  key_field value_field : HeaderField

abbrev pub set_field : HeaderField → String → CustomHeader → CustomHeader
set_field key_field val h = record h { key = val }
set_field value_field val h = record h { value = val }

unfoldable pub update_custom_header :
    String → HeaderField → String → List CustomHeader → List CustomHeader
update_custom_header id field val hs =
    map (λ (h : CustomHeader). if str_eq h.id id then set_field field val h else h) hs

unfoldable pub remove_custom_header : String → List CustomHeader → List CustomHeader
remove_custom_header id hs = filter (λ h. not (str_eq h.id id)) hs

lookup-insert :
    (j k v : String) (m : HeaderMap)
    → lookup j (insert k v m) ≡ (if str_eq k j then some v else lookup j m)
unfolding lookup insert
lookup-insert j k v [] = refl
lookup-insert j k v ((i, w) ∷ m) =
    ground (arith, eq_iff k j, eq_iff i k, eq_iff i j, lookup-insert j k v m)

module _ (js : Platform) where
  lookup-add_header :
      (k : String) (m : HeaderMap) (h : CustomHeader)
      → is_lost k ≡ false
      → lookup k (add_header js m h)
        ≡ (if str_eq (js.trim h.key) k then some h.value else lookup k m)
  unfolding add_header
  lookup-add_header k m h kept = ground (
    arith,
    eq_iff k "",
    eq_iff k "__proto__",
    eq_iff (js.trim h.key) "",
    eq_iff (js.trim h.key) "__proto__",
    eq_iff (js.trim h.key) k,
    lookup-insert k (js.trim h.key) h.value m,
  )

  lookup-headers_from :
      (k : String) (m : HeaderMap) (hs : List CustomHeader)
      → is_lost k ≡ false
      → lookup k (headers_from js m hs) ≡ last_value js (lookup k m) k hs
  unfolding headers_from last_value add_header
  lookup-headers_from k m [] h = refl
  lookup-headers_from k m (hd ∷ hs) h =
      lookup-headers_from k (add_header js m hd) hs h
      ∙ ap (λ b. last_value js b k hs) (lookup-add_header k m hd h)

  lookup-add_header_lost :
      (k : String) (m : HeaderMap) (h : CustomHeader)
      → is_lost k ≡ true
      → lookup k (add_header js m h) ≡ lookup k m
  unfolding add_header
  lookup-add_header_lost k m h lost = ground (
    arith,
    eq_iff k "",
    eq_iff k "__proto__",
    eq_iff (js.trim h.key) "",
    eq_iff (js.trim h.key) "__proto__",
    eq_iff (js.trim h.key) k,
    lookup-insert k (js.trim h.key) h.value m,
  )

  lookup-headers_from_lost :
      (k : String) (m : HeaderMap) (hs : List CustomHeader)
      → is_lost k ≡ true
      → lookup k (headers_from js m hs) ≡ lookup k m
  unfolding headers_from
  lookup-headers_from_lost k m [] h = refl
  lookup-headers_from_lost k m (hd ∷ hs) h =
      lookup-headers_from_lost k (add_header js m hd) hs h ∙ lookup-add_header_lost k m hd h

  -- A key is sent with the value of the last header whose trimmed key it is, and is not sent if there
  -- is none. The empty key and `__proto__` are never sent, whatever headers there are.
  pub headers_map_last :
      (k : String) (hs : List CustomHeader)
      → lookup k (headers_map js hs) ≡ (if is_lost k then none else last_value js none k hs)
  unfolding headers_map lookup
  headers_map_last k hs = elim (Bool-cases (is_lost k)) [
    | inl lost ↦ rw lost (lookup-headers_from_lost k [] hs lost)
    | inr kept ↦ rw kept (lookup-headers_from k [] hs kept)
  ]
