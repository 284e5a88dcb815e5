-- ===== src/Invocations/Schema.antt =====
-- src/krewhub/models/invocation.py: the dialect of request schemas, and the check of a result
-- against one. Python's equality of JSON values, its search in texts and its splitting of a text
-- into letters are parameters; an exception that is no ValueError is a crash.
pub mod Accepted
pub mod Contents
use krewhub.Prelude.{
  ℕ, zero, suc, String, Bool, true, false, Option, none, some, List, [], ◌∷◌, ◌&&◌, ◌||◌, not, any,
  if◌then◌else◌, ◌==◌,
}
use krewhub.Models.JsonData.{
  Json, Items, Fields, null, bool, int, float, str, arr, obj, nil, cons, end, field, get, ℤ, pos,
  negsuc,
}

pub data Check : Type 0 where
  pass : Check
  refused : Check
  crashed : Check

abbrev pub and_also : Check → Check → Check
and_also pass c = c
and_also refused c = refused
and_also crashed c = crashed

abbrev pub primitive_types : List String
primitive_types = "string" ∷ "number" ∷ "integer" ∷ "boolean" ∷ []

abbrev pub mem : String → List String → Bool
mem s texts = any (λ t. t == s) texts

-- A value in a set of texts: a list or a dict has no hash.
abbrev pub in_primitive : Option Json → Option Bool
in_primitive none = some false
in_primitive (some (str s)) = some (mem s primitive_types)
in_primitive (some (arr items)) = none
in_primitive (some (obj fields)) = none
in_primitive (some _) = some false

abbrev pub is_text : Option Json → String → Bool
is_text (some (str s)) t = s == t
is_text _ t = false

abbrev pub has : String → Fields → Bool
has k fields = elim (get k fields) [ none ↦ false | some v ↦ true ]

-- isinstance(branch, dict) and "const" in branch
abbrev pub is_const_branch : Json → Bool
is_const_branch (obj branch) = has "const" branch
is_const_branch _ = false

abbrev pub all_const : Items → Check
all_const nil = pass
all_const (cons branch rest) =
    let more = all_const rest in if is_const_branch branch then more else refused

-- for branch in value: the keys of a dict and the letters of a text are texts.
abbrev pub check_branches : Option Json → Check
check_branches (some (arr items)) = all_const items
check_branches (some (obj end)) = pass
check_branches (some (obj (field k v rest))) = refused
check_branches (some (str s)) = if s == "" then pass else refused
check_branches _ = crashed

-- An items schema by whether its type is primitive; the type object is refused with the others.
abbrev pub items_kind : Option Bool → Check
items_kind none = crashed
items_kind (some true) = pass
items_kind (some false) = refused

abbrev pub validate_items : Option Json → Check
validate_items (some (obj items)) =
    if has "anyOf" items
    then check_branches (get "anyOf" items)
    else items_kind (in_primitive (get "type" items))
validate_items _ = refused

abbrev pub by_type : Fields → Option Bool → Check
by_type prop none = crashed
by_type prop (some true) = pass
by_type prop (some false) =
    if is_text (get "type" prop) "array" then validate_items (get "items" prop) else refused

abbrev pub validate_prop_fields : Fields → Check
validate_prop_fields prop =
    if has "oneOf" prop
    then check_branches (get "oneOf" prop)
    else by_type prop (in_primitive (get "type" prop))

unfoldable pub validate_property_schema : Json → Check
unfolding get
validate_property_schema (obj prop) = validate_prop_fields prop
validate_property_schema _ = refused

unfoldable pub validate_properties : Fields → Check
validate_properties end = pass
validate_properties (field name prop rest) =
    and_also (validate_property_schema prop) (validate_properties rest)

abbrev pub validate_dict : Option Json → Check
validate_dict none = pass
validate_dict (some null) = pass
validate_dict (some (obj properties)) = validate_properties properties
validate_dict (some _) = refused

unfoldable pub validate_request_schema : Json → Check
unfolding validate_properties get
validate_request_schema (obj schema) =
    if is_text (get "type" schema) "object"
    then validate_dict (get "properties" schema)
    else refused
validate_request_schema _ = refused

-- Python's operations on JSON values.
pub record Python : Type 0 where
  pub equal : Json → Json → Bool
  pub within : String → String → Bool
  pub letters : String → Items

abbrev pub among : Python → Json → Items → Bool
among py value nil = false
among py value (cons item rest) = py.equal value item || among py value rest

-- [b.get("const") for b in items]: what is no dict has no get.
abbrev pub consts_of : Items → Option Items
consts_of nil = some nil
consts_of (cons (obj branch) rest) = elim (consts_of rest) [
  | none ↦ none
  | some more ↦ some (cons (elim (get "const" branch) [ none ↦ null | some c ↦ c ]) more)
]
consts_of (cons _ rest) = none

-- What iterating over the branches of a schema gives.
abbrev pub consts_in : Python → Option Json → Option Items
consts_in py (some (arr items)) = consts_of items
consts_in py (some (obj end)) = some nil
consts_in py (some (str s)) = if s == "" then some nil else none
consts_in py _ = none

abbrev pub among_consts : Python → Json → Option Items → Check
among_consts py value none = crashed
among_consts py value (some consts) = if among py value consts then pass else refused

-- value not in prop["enum"], for a text
abbrev pub check_enum : Python → String → Option Json → Check
check_enum py s none = pass
check_enum py s (some (arr items)) = if among py (str s) items then pass else refused
check_enum py s (some (obj fields)) = if has s fields then pass else refused
check_enum py s (some (str t)) = if py.within s t then pass else refused
check_enum py s (some _) = crashed

abbrev pub as_string : Python → Fields → Json → Check
as_string py prop (str s) = check_enum py s (get "enum" prop)
as_string py prop _ = refused

abbrev pub as_number : Json → Check
as_number (int n) = pass
as_number (float x) = pass
as_number _ = refused

abbrev pub as_integer : Json → Check
as_integer (int n) = pass
as_integer _ = refused

abbrev pub as_boolean : Json → Check
as_boolean (bool b) = pass
as_boolean _ = refused

-- The type of a property, by the branches of _check_value.
abbrev pub by_value_type : Python → Fields → Json → Check → Check
by_value_type py prop value as_array =
    if is_text (get "type" prop) "string"
    then as_string py prop value
    else if is_text (get "type" prop) "number"
    then as_number value
    else if is_text (get "type" prop) "integer"
    then as_integer value
    else if is_text (get "type" prop) "boolean"
    then as_boolean value
    else if is_text (get "type" prop) "array"
    then as_array
    else refused

-- prop.get("items") or {}: none where it is another value than a dict. (So is the float 0.)
abbrev pub items_of : Option Json → Option Fields
items_of none = some end
items_of (some null) = some end
items_of (some (bool false)) = some end
items_of (some (int (pos n))) = elim n [ zero ↦ some end | suc k ↦ none ]
items_of (some (arr nil)) = some end
items_of (some (obj items)) = some items
items_of (some (str s)) = if s == "" then some end else none
items_of (some _) = none

abbrev pub each_among : Python → Items → Items → Check
each_among py consts nil = pass
each_among py consts (cons v vs) =
    let more = each_among py consts vs in if among py v consts then more else refused

abbrev pub among_each : Python → Items → Option Items → Check
among_each py vs none = crashed
among_each py vs (some consts) = each_among py consts vs

-- A list by the items schema, where `each` checks its items against that as against a property.
abbrev pub check_array : Python → Items → Check → Option Fields → Check
check_array py vs each none = crashed
check_array py vs each (some items) =
    if has "anyOf" items then among_each py vs (consts_in py (get "anyOf" items)) else each

abbrev pub or_end : Option Fields → Fields
or_end none = end
or_end (some fields) = fields

-- _check_value
unfoldable mutual
  pub check_value : Python → Fields → Json → Check
  check_value py prop (arr vs) =
      let each = check_each py (or_end (items_of (get "items" prop))) vs in
      if has "oneOf" prop
      then among_consts py (arr vs) (consts_in py (get "oneOf" prop))
      else by_value_type py prop (arr vs) (check_array py vs each (items_of (get "items" prop)))
  check_value py prop value =
      if has "oneOf" prop
      then among_consts py value (consts_in py (get "oneOf" prop))
      else by_value_type py prop value refused

  pub check_each : Python → Fields → Items → Check
  check_each py items nil = pass
  check_each py items (cons v vs) = and_also (check_value py items v) (check_each py items vs)

abbrev pub keys_of : Fields → Items
keys_of end = nil
keys_of (field k v rest) = cons (str k) (keys_of rest)

-- list(schema.get("required") or [])
abbrev pub required_of : Python → Option Json → Option Items
required_of py none = some nil
required_of py (some null) = some nil
required_of py (some (bool false)) = some nil
required_of py (some (int (pos n))) = elim n [ zero ↦ some nil | suc k ↦ none ]
required_of py (some (arr items)) = some items
required_of py (some (obj fields)) = some (keys_of fields)
required_of py (some (str s)) = some (py.letters s)
required_of py (some _) = none

abbrev pub check_required : Fields → Items → Check
check_required content nil = pass
check_required content (cons (str k) rest) =
    let more = check_required content rest in if has k content then more else refused
check_required content (cons (arr items) rest) = crashed
check_required content (cons (obj fields) rest) = crashed
check_required content (cons _ rest) = refused

abbrev pub check_found : Python → Option Json → Json → Check
check_found py none value = pass
check_found py (some (obj prop)) value = check_value py prop value
check_found py (some _) value = crashed

unfoldable pub check_fields : Python → Fields → Fields → Check
check_fields py properties end = pass
check_fields py properties (field key value rest) =
    and_also (check_found py (get key properties) value) (check_fields py properties rest)

-- schema.get("properties") or {}: of the others, which create refuses, no more is modelled.
abbrev pub properties_of : Option Json → Option Fields
properties_of none = some end
properties_of (some null) = some end
properties_of (some (obj properties)) = some properties
properties_of (some _) = none

abbrev pub check_against : Python → Option Fields → Option Items → Fields → Check
check_against py none required content = crashed
check_against py (some properties) none content = crashed
check_against py (some properties) (some required) content =
    and_also (check_required content required) (check_fields py properties content)

abbrev pub check_content : Python → Fields → Json → Check
check_content py schema (obj content) =
    check_against py (properties_of (get "properties" schema))
      (required_of py (get "required" schema)) content
check_content py schema _ = refused

unfoldable pub validate_content : Python → Fields → Json → Check
unfolding check_fields get
validate_content py schema content =
    if is_text (get "type" schema) "object" then check_content py schema content else refused
