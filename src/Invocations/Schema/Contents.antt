-- ===== src/Invocations/Schema/Contents.antt =====
-- That a result can be checked against a schema which src/krewhub/models/invocation.py accepted.
use krewhub.Prelude.{
  String, ◌≡◌, ◌≢◌, refl, Bool, true, false, Option, none, some, ◌==◌, eq_iff, arith, Bool-cases,
  inl, inr,
}
use krewhub.Models.JsonData.{
  Json, Items, Fields, null, bool, int, float, str, arr, obj, nil, cons, end, field, get,
}
use krewhub.Invocations.Schema.{
  Check, pass, refused, crashed, and_also, in_primitive, is_text, has, check_branches, items_kind,
  validate_items, by_type, validate_prop_fields, validate_property_schema, validate_properties,
  validate_dict, validate_request_schema, Python, among, consts_in, items_of, each_among,
  among_each, check_value, check_array, or_end, check_each, required_of, check_required,
  check_found, check_fields, properties_of, check_against, check_content, validate_content,
}
use krewhub.Invocations.Schema.Accepted.{
  is_searchable, has_plain_items, is_plain, all_plain, and_also-safe, if-safe, refused-safe,
  pass-safe, check_branches-consts, Checkable, value_step,
}

primitive-not_array : (t : Option Json) → in_primitive t ≡ some true → is_text t "array" ≡ true → ⊥
primitive-not_array (some (str s)) h e =
    let same : s ≡ "array" = (eq_iff s "array").0 e in
    let no : some false ≡ some true = rw same at h in cc
primitive-not_array none h e = cc
primitive-not_array (some null) h e = cc
primitive-not_array (some (bool b)) h e = cc
primitive-not_array (some (int b)) h e = cc
primitive-not_array (some (float b)) h e = cc
primitive-not_array (some (arr b)) h e = cc
primitive-not_array (some (obj b)) h e = cc

module _ (py : Python) where
  check_value-safe :
      (prop : Fields) (v : Json)
      → Checkable prop
      → ((vs : Items)
          → has "oneOf" prop ≡ false
          → is_text (get "type" prop) "array" ≡ true
          → check_array py vs
              (check_each py (or_end (items_of (get "items" prop))) vs)
              (items_of (get "items" prop))
            ≢ crashed)
      → check_value py prop v ≢ crashed
  unfolding check_value
  check_value-safe prop (arr vs) c k = value_step py prop (arr vs) _ c (k vs)
  check_value-safe prop null c k = value_step py prop null refused c (λ a b. refused-safe)
  check_value-safe prop (bool x) c k = value_step py prop (bool x) refused c (λ a b. refused-safe)
  check_value-safe prop (int x) c k = value_step py prop (int x) refused c (λ a b. refused-safe)
  check_value-safe prop (float x) c k = value_step py prop (float x) refused c (λ a b. refused-safe)
  check_value-safe prop (str x) c k = value_step py prop (str x) refused c (λ a b. refused-safe)
  check_value-safe prop (obj x) c k = value_step py prop (obj x) refused c (λ a b. refused-safe)

  check_each-safe :
      (items : Fields) (vs : Items)
      → in_primitive (get "type" items) ≡ some true
      → has "oneOf" items ≡ false
      → is_searchable (get "enum" items) ≡ true
      → check_each py items vs ≢ crashed
  unfolding check_value
  check_each-safe items nil prim one enum = pass-safe
  check_each-safe items (cons v vs) prim one enum =
      and_also-safe (check_value py items v) (check_each py items vs)
        (check_value-safe items v ((λ h. absurd (cc)), enum)
          (λ ws a b. absurd (primitive-not_array (get "type" items) prim b)))
        (check_each-safe items vs prim one enum)

  among_each-safe :
      (vs : Items) (v : Option Json)
      → check_branches v ≡ pass
      → among_each py vs (consts_in py v) ≢ crashed
  among_each-safe vs v h = let (all, e) = check_branches-consts py v h in rw e (each_safe vs all)
    where
      each_safe : (vs all : Items) → each_among py all vs ≢ crashed
      each_safe nil all = pass-safe
      each_safe (cons v vs) all =
          if-safe (among py v all) (each_among py all vs) refused (each_safe vs all) refused-safe

  items_kind-primitive : (o : Option Bool) → items_kind o ≡ pass → o ≡ some true
  items_kind-primitive none h = cc
  items_kind-primitive (some true) h = refl
  items_kind-primitive (some false) h = cc

  check_array-safe :
      (vs : Items) (o : Option Json)
      → validate_items o ≡ pass
      → has_plain_items o ≡ true
      → check_array py vs (check_each py (or_end (items_of o)) vs) (items_of o) ≢ crashed
  check_array-safe vs (some (obj items)) h plain = elim (Bool-cases (has "anyOf" items)) [
    | inl e ↦ rw e (among_each-safe vs (get "anyOf" items) (rw e at h))
    | inr e ↦
        let kind : items_kind (in_primitive (get "type" items)) ≡ pass = rw e at h in
        rw e (
          check_each-safe items vs (items_kind-primitive (in_primitive (get "type" items)) kind)
            (ground arith) (ground arith))
  ]
  check_array-safe vs none h plain = cc
  check_array-safe vs (some null) h plain = cc
  check_array-safe vs (some (bool b)) h plain = cc
  check_array-safe vs (some (int b)) h plain = cc
  check_array-safe vs (some (float b)) h plain = cc
  check_array-safe vs (some (str b)) h plain = cc
  check_array-safe vs (some (arr b)) h plain = cc

  -- The type of an accepted property that is a list has a good items schema.
  by_type-array :
      (prop : Fields) (o : Option Bool)
      → in_primitive (get "type" prop) ≡ o
      → by_type prop o ≡ pass
      → is_text (get "type" prop) "array" ≡ true
      → validate_items (get "items" prop) ≡ pass
  by_type-array prop none e h a = cc
  by_type-array prop (some true) e h a = absurd (primitive-not_array (get "type" prop) e a)
  by_type-array prop (some false) e h a = rw a at h

  property-safe :
      (prop : Fields) (v : Json)
      → validate_prop_fields prop ≡ pass
      → is_plain prop ≡ true
      → check_value py prop v ≢ crashed
  property-safe prop v h plain =
      check_value-safe prop v ((λ e. rw e at h), ground arith)
        (λ vs one a.
          check_array-safe vs (get "items" prop)
            (by_type-array prop (in_primitive (get "type" prop)) refl (rw one at h) a)
            (ground arith))

  -- What a lookup in accepted properties gives.
  abbrev Found : Option Json → Type 0
  Found none = Unit
  Found (some (obj prop)) = (validate_prop_fields prop ≡ pass) × (is_plain prop ≡ true)
  Found (some _) = ⊥

  and_also-pass : (a b : Check) → and_also a b ≡ pass → (a ≡ pass) × (b ≡ pass)
  and_also-pass pass b h = (refl, h)
  and_also-pass refused b h = cc
  and_also-pass crashed b h = cc

  Found-property :
      (prop : Json)
      → validate_property_schema prop ≡ pass
      → (all_plain (field "" prop end) ≡ true)
      → Found (some prop)
  unfolding validate_property_schema
  Found-property (obj prop) h plain = (h, ground arith)
  Found-property null h plain = cc
  Found-property (bool b) h plain = cc
  Found-property (int b) h plain = cc
  Found-property (float b) h plain = cc
  Found-property (str b) h plain = cc
  Found-property (arr b) h plain = cc

  all_plain-parts :
      (name : String) (prop : Json) (rest : Fields)
      → all_plain (field name prop rest) ≡ true
      → (all_plain (field "" prop end) ≡ true) × (all_plain rest ≡ true)
  all_plain-parts name (obj prop) rest h = ground arith
  all_plain-parts name null rest h = (refl, h)
  all_plain-parts name (bool b) rest h = (refl, h)
  all_plain-parts name (int b) rest h = (refl, h)
  all_plain-parts name (float b) rest h = (refl, h)
  all_plain-parts name (str b) rest h = (refl, h)
  all_plain-parts name (arr b) rest h = (refl, h)

  get-Found :
      (properties : Fields) (key : String)
      → validate_properties properties ≡ pass
      → all_plain properties ≡ true
      → Found (get key properties)
  unfolding get validate_properties
  get-Found end key h plain = tt
  get-Found (field name prop rest) key h plain =
      let (one, more) =
        and_also-pass (validate_property_schema prop) (validate_properties rest) h in
      let (p, ps) = all_plain-parts name prop rest plain in
      elim (Bool-cases (name == key)) [
        | inl e ↦ rw e (Found-property prop one p)
        | inr e ↦ rw e (get-Found rest key more ps)
      ]

  check_found-safe : (o : Option Json) (v : Json) → Found o → check_found py o v ≢ crashed
  check_found-safe none v f = pass-safe
  check_found-safe (some (obj prop)) v f = property-safe prop v f.0 f.1
  check_found-safe (some null) v f = absurd f
  check_found-safe (some (bool b)) v f = absurd f
  check_found-safe (some (int b)) v f = absurd f
  check_found-safe (some (float b)) v f = absurd f
  check_found-safe (some (str b)) v f = absurd f
  check_found-safe (some (arr b)) v f = absurd f

  check_fields-safe :
      (properties content : Fields)
      → validate_properties properties ≡ pass
      → all_plain properties ≡ true
      → check_fields py properties content ≢ crashed
  unfolding check_fields
  check_fields-safe properties end h plain = pass-safe
  check_fields-safe properties (field key v rest) h plain =
      and_also-safe (check_found py (get key properties) v) (check_fields py properties rest)
        (check_found-safe (get key properties) v (get-Found properties key h plain))
        (check_fields-safe properties rest h plain)

-- Names of required fields that a dict can be asked for.
abbrev pub all_hashable : Items → Bool
all_hashable nil = true
all_hashable (cons (arr items) rest) = false
all_hashable (cons (obj fields) rest) = false
all_hashable (cons _ rest) = all_hashable rest

abbrev pub is_plain_required : Option Items → Bool
is_plain_required none = false
is_plain_required (some items) = all_hashable items

abbrev pub are_plain_properties : Option Json → Bool
are_plain_properties (some (obj properties)) = all_plain properties
are_plain_properties _ = true

check_required-safe :
    (content : Fields) (items : Items)
    → all_hashable items ≡ true
    → check_required content items ≢ crashed
check_required-safe content nil h = pass-safe
check_required-safe content (cons (str k) rest) h =
    if-safe (has k content) (check_required content rest) refused
      (check_required-safe content rest h) refused-safe
check_required-safe content (cons (arr b) rest) h = cc
check_required-safe content (cons (obj b) rest) h = cc
check_required-safe content (cons null rest) h = refused-safe
check_required-safe content (cons (bool b) rest) h = refused-safe
check_required-safe content (cons (int b) rest) h = refused-safe
check_required-safe content (cons (float b) rest) h = refused-safe

module _ (py : Python) (content : Fields) where
  against_safe :
      (properties : Fields) (required : Option Items)
      → validate_properties properties ≡ pass
      → all_plain properties ≡ true
      → is_plain_required required ≡ true
      → check_against py (some properties) required content ≢ crashed
  against_safe properties none h plain r = cc
  against_safe properties (some items) h plain r =
      and_also-safe (check_required content items) (check_fields py properties content)
        (check_required-safe content items r) (check_fields-safe py properties content h plain)

  dict_safe :
      (o : Option Json) (required : Option Items)
      → validate_dict o ≡ pass
      → are_plain_properties o ≡ true
      → is_plain_required required ≡ true
      → check_against py (properties_of o) required content ≢ crashed
  unfolding validate_properties
  dict_safe none required h plain r = against_safe end required refl refl r
  dict_safe (some null) required h plain r = against_safe end required refl refl r
  dict_safe (some (obj properties)) required h plain r = against_safe properties required h plain r
  dict_safe (some (bool b)) required h plain r = cc
  dict_safe (some (int b)) required h plain r = cc
  dict_safe (some (float b)) required h plain r = cc
  dict_safe (some (str b)) required h plain r = cc
  dict_safe (some (arr b)) required h plain r = cc

content_safe :
    (py : Python) (schema : Fields) (content : Json)
    → validate_dict (get "properties" schema) ≡ pass
    → are_plain_properties (get "properties" schema) ≡ true
    → is_plain_required (required_of py (get "required" schema)) ≡ true
    → check_content py schema content ≢ crashed
content_safe py schema (obj content) h plain r =
    dict_safe py content (get "properties" schema) (required_of py (get "required" schema)) h plain
      r
content_safe py schema null h plain r = refused-safe
content_safe py schema (bool b) h plain r = refused-safe
content_safe py schema (int b) h plain r = refused-safe
content_safe py schema (float b) h plain r = refused-safe
content_safe py schema (str b) h plain r = refused-safe
content_safe py schema (arr b) h plain r = refused-safe

pub validate_content-safe :
    (py : Python) (schema : Fields) (content : Json)
    → validate_request_schema (obj schema) ≡ pass
    → are_plain_properties (get "properties" schema) ≡ true
    → is_plain_required (required_of py (get "required" schema)) ≡ true
    → validate_content py schema content ≢ crashed
unfolding validate_content validate_request_schema
validate_content-safe py schema content h plain r =
    elim (Bool-cases (is_text (get "type" schema) "object")) [
      | inl e ↦ rw e (content_safe py schema content (rw e at h) plain r)
      | inr e ↦ rw e refused-safe
    ]
