-- ===== src/Redact/Hiding.antt =====
-- What redact_json of src/krewhub/services/redact.py leaves at each path of a value.
use krewhub.Prelude.{
  ℕ, zero, suc, String, ◌≡◌, refl, Bool, true, false, Option, none, some, List, [], ◌∷◌, ◌++◌, ◌&&◌,
  not, if◌then◌else◌, ◌==◌, Bool-cases, Option-cases, inl, inr, arith, eq_iff, ◌∙◌, ap, sym,
}
use mathlib.Core.Option
use krewhub.Models.JsonData.{
  Json, Items, Fields, null, bool, int, float, str, arr, obj, nil, cons, end, field, get,
}
use krewhub.Redact.{Python, redacted, key_is_sensitive, redact_json, redact_items, redact_fields}

-- A key of a dict or a place in a list.
pub data Part : Type 0 where
  key : String → Part
  index : ℕ → Part

abbrev pub item_at : ℕ → Items → Option Json
item_at n nil = none
item_at zero (cons item rest) = some item
item_at (suc n) (cons item rest) = item_at n rest

abbrev pub in_dict : Part → Fields → Option Json
in_dict (key k) fields = get k fields
in_dict (index n) fields = none

abbrev pub in_list : Part → Items → Option Json
in_list (key k) items = none
in_list (index n) items = item_at n items

-- The part of a value that is one step down.
abbrev pub below : Part → Json → Option Json
below part (obj fields) = in_dict part fields
below part (arr items) = in_list part items
below part _ = none

-- What stands at a path, none where the path leads nowhere.
abbrev pub at : List Part → Json → Option Json
at [] value = some value
at (part ∷ path) value = elim (below part value) [ none ↦ none | some v ↦ at path v ]

-- What stands at a path below what was found.
abbrev follow : List Part → Option Json → Option Json
follow path found = elim found [ none ↦ none | some v ↦ at path v ]

abbrev pub part_is_harmless : Python → Part → Bool
part_is_harmless py (key k) = not (key_is_sensitive py k)
part_is_harmless py (index n) = true

-- No key of the path is sensitive.
abbrev pub is_harmless : Python → List Part → Bool
is_harmless py [] = true
is_harmless py (part ∷ path) = part_is_harmless py part && is_harmless py path

abbrev value_of : Python → Bool → Json → Json
value_of py true v = str redacted
value_of py false v = redact_json py v

value_cases :
    (py : Python) (v : Json) (b : Bool)
    → some (if b then str redacted else redact_json py v) ≡ some (value_of py b v)
value_cases py v true = refl
value_cases py v false = refl

get-redact_fields :
    (py : Python) (k : String) (fields : Fields)
    → get k (redact_fields py fields)
      ≡ Option.map (value_of py (key_is_sensitive py k)) (get k fields)
unfolding redact_fields get
get-redact_fields py k end = refl
get-redact_fields py k (field j v rest) = elim (Bool-cases (j == k)) [
  | inl same ↦ rw same (rw ((eq_iff j k).0 same) (value_cases py v (key_is_sensitive py k)))
  | inr other ↦ rw other (get-redact_fields py k rest)
]

item_at-redact_items :
    (py : Python) (n : ℕ) (items : Items)
    → item_at n (redact_items py items) ≡ Option.map (redact_json py) (item_at n items)
unfolding redact_items
item_at-redact_items py n nil = refl
item_at-redact_items py zero (cons item rest) = refl
item_at-redact_items py (suc n) (cons item rest) = item_at-redact_items py n rest

-- What becomes of the value that is one step down.
abbrev by_part : Python → Part → Json → Json
by_part py (key k) v = value_of py (key_is_sensitive py k) v
by_part py (index n) v = redact_json py v

below-redact_json :
    (py : Python) (part : Part) (v : Json)
    → below part (redact_json py v) ≡ Option.map (by_part py part) (below part v)
unfolding redact_json
below-redact_json py (key k) (obj fields) = get-redact_fields py k fields
below-redact_json py (index n) (arr items) = item_at-redact_items py n items
below-redact_json py (key k) (arr items) = refl
below-redact_json py (index n) (obj fields) = refl
below-redact_json py part null = refl
below-redact_json py part (bool b) = refl
below-redact_json py part (int n) = refl
below-redact_json py part (float x) = refl
below-redact_json py part (str s) = refl

by_part-harmless :
    (py : Python) (part : Part) (v : Json)
    → part_is_harmless py part ≡ true
    → by_part py part v ≡ redact_json py v
by_part-harmless py (index n) v h = refl
by_part-harmless py (key k) v h =
    let open_key : key_is_sensitive py k ≡ false = ground arith in rw open_key refl

harmless-parts : (a b : Bool) → (a && b) ≡ true → (a ≡ true) × (b ≡ true)
harmless-parts a b h = (ground (arith, h), ground (arith, h))

-- One step down on a harmless part.
follow-redact_json :
    (py : Python) (part : Part) (path : List Part) (v u : Json)
    → below part v ≡ some u
    → part_is_harmless py part ≡ true
    → follow path (below part (redact_json py v)) ≡ at path (redact_json py u)
follow-redact_json py part path v u there harmless =
    ap (follow path) (below-redact_json py part v ∙ ap (Option.map (by_part py part)) there)
    ∙ ap (at path) (by_part-harmless py part u harmless)

-- Where nothing stands, nothing will.
follow-nothing :
    (py : Python) (part : Part) (path : List Part) (v : Json)
    → below part v ≡ none
    → follow path (below part (redact_json py v)) ≡ none
follow-nothing py part path v nothing =
    ap (follow path) (below-redact_json py part v ∙ ap (Option.map (by_part py part)) nothing)

under_key :
    (py : Python) (k : String) (found : Option Json)
    → key_is_sensitive py k ≡ true
    → Option.map (by_part py (key k)) found ≡ Option.map (λ _. str redacted) found
under_key py k none s = refl
under_key py k (some v) s = rw s refl

follow_end :
    (found : Option Json)
    → follow [] (Option.map (λ _. str redacted) found)
      ≡ Option.map (λ _. str redacted) (follow [] found)
follow_end none = refl
follow_end (some v) = refl

follow_part :
    (part : Part) (rest : List Part) (found : Option Json)
    → follow (part ∷ rest) (Option.map (λ _. str redacted) found) ≡ none
follow_part part rest none = refl
follow_part part rest (some v) = refl

-- One step down on a sensitive key.
hides-here :
    (py : Python) (k : String) (v : Json)
    → key_is_sensitive py k ≡ true
    → below (key k) (redact_json py v) ≡ Option.map (λ _. str redacted) (below (key k) v)
hides-here py k v s = below-redact_json py (key k) v ∙ under_key py k (below (key k) v) s

-- At a path without a sensitive key stands what becomes of the value that stood there.
redact_json-keeps :
    (py : Python) (path : List Part) (v : Json)
    → is_harmless py path ≡ true
    → at path (redact_json py v) ≡ Option.map (redact_json py) (at path v)
redact_json-keeps py [] v h = refl
redact_json-keeps py (part ∷ path) v h = elim (Option-cases (below part v)) [
  | inl nothing ↦
      follow-nothing py part path v nothing
      ∙ ap (λ o. Option.map (redact_json py) (follow path o)) (sym nothing)
  | inr (u, there) ↦
      let (first, later) = harmless-parts (part_is_harmless py part) (is_harmless py path) h in
      follow-redact_json py part path v u there first
      ∙ redact_json-keeps py path u later
      ∙ ap (λ o. Option.map (redact_json py) (follow path o)) (sym there)
]

-- At a path whose keys are harmless and lead to a sensitive key, what redact_json returns has the
-- text [REDACTED] exactly where the value had anything, and nothing stands below it, at any
-- depth.
pub redact_json-hides :
    (py : Python) (path : List Part) (k : String) (v : Json)
    → is_harmless py path ≡ true
    → key_is_sensitive py k ≡ true
    → (at (path ++ key k ∷ []) (redact_json py v)
        ≡ Option.map (λ _. str redacted) (at (path ++ key k ∷ []) v))
      × ((part : Part) (rest : List Part)
          → at (path ++ key k ∷ part ∷ rest) (redact_json py v) ≡ none)
redact_json-hides py [] k v h s = (
  ap (follow []) (hides-here py k v s) ∙ follow_end (below (key k) v),
  λ part rest.
      ap (follow (part ∷ rest)) (hides-here py k v s) ∙ follow_part part rest (below (key k) v),
)
redact_json-hides py (part ∷ path) k v h s = elim (Option-cases (below part v)) [
  | inl nothing ↦ (
    follow-nothing py part (path ++ key k ∷ []) v nothing
        ∙ ap (λ o. Option.map (λ _. str redacted) (follow (path ++ key k ∷ []) o)) (sym nothing),
    λ p r. follow-nothing py part (path ++ key k ∷ p ∷ r) v nothing,
  )
  | inr (u, there) ↦
      let (first, later) = harmless-parts (part_is_harmless py part) (is_harmless py path) h in
      let (here, under) = redact_json-hides py path k u later s in
      (
        follow-redact_json py part (path ++ key k ∷ []) v u there first
            ∙ here
            ∙ ap (λ o. Option.map (λ _. str redacted) (follow (path ++ key k ∷ []) o)) (sym there),
        λ p r. follow-redact_json py part (path ++ key k ∷ p ∷ r) v u there first ∙ under p r,
      )
]
