-- ===== src/Invocations/Schema/Accepted.antt =====
-- What the check of a result in src/krewhub/models/invocation.py can rely on where the schema was
-- accepted.
use krewhub.Prelude.{
  ◌≡◌, ◌≢◌, refl, Bool, true, false, Option, none, some, ◌&&◌, not, if◌then◌else◌, ◌==◌, Bool-cases,
  inl, inr,
}
use krewhub.Models.JsonData.{
  Json, Items, Fields, null, bool, int, float, str, arr, obj, nil, cons, end, field, get,
}
use krewhub.Invocations.Schema.{
  Check, pass, refused, crashed, and_also, is_text, has, is_const_branch, all_const, check_branches,
  Python, among, consts_of, consts_in, among_consts, check_enum, as_string, as_number, as_integer,
  as_boolean, by_value_type,
}

-- An enum that a text can be looked up in.
abbrev pub is_searchable : Option Json → Bool
is_searchable none = true
is_searchable (some (arr items)) = true
is_searchable (some (obj fields)) = true
is_searchable (some (str s)) = true
is_searchable (some _) = false

-- An items schema that create does not look into further.
abbrev pub has_plain_items : Option Json → Bool
has_plain_items (some (obj items)) = is_searchable (get "enum" items) && not (has "oneOf" items)
has_plain_items _ = true

abbrev pub is_plain : Fields → Bool
is_plain prop = is_searchable (get "enum" prop) && has_plain_items (get "items" prop)

abbrev pub all_plain : Fields → Bool
all_plain end = true
all_plain (field name (obj prop) rest) = is_plain prop && all_plain rest
all_plain (field name other rest) = all_plain rest

pub and_also-safe : (a b : Check) → a ≢ crashed → b ≢ crashed → and_also a b ≢ crashed
and_also-safe pass b h k = k
and_also-safe refused b h k = h
and_also-safe crashed b h k = absurd (h refl)

pub refused-safe : refused ≢ crashed
refused-safe e = cc

pub pass-safe : pass ≢ crashed
pass-safe e = cc

pub if-safe : (b : Bool) (x y : Check) → x ≢ crashed → y ≢ crashed → (if b then x else y) ≢ crashed
if-safe true x y h k = h
if-safe false x y h k = k

-- Branches that were accepted have their constants.
const_branch-consts :
    (branch : Json) (rest : Items) (more : Items)
    → is_const_branch branch ≡ true
    → consts_of rest ≡ some more
    → (all : Items) × (consts_of (cons branch rest) ≡ some all)
const_branch-consts (obj b) rest more h e =
    (cons (elim (get "const" b) [ none ↦ null | some c ↦ c ]) more, rw e refl)
const_branch-consts null rest more h e = cc
const_branch-consts (bool b) rest more h e = cc
const_branch-consts (int b) rest more h e = cc
const_branch-consts (float b) rest more h e = cc
const_branch-consts (str b) rest more h e = cc
const_branch-consts (arr b) rest more h e = cc

all_const-consts :
    (items : Items) → all_const items ≡ pass → (all : Items) × (consts_of items ≡ some all)
all_const-consts nil h = (nil, refl)
all_const-consts (cons branch rest) h = elim (Bool-cases (is_const_branch branch)) [
  | inl e ↦
      let (more, found) = all_const-consts rest (rw e at h) in
      const_branch-consts branch rest more e found
  | inr e ↦ absurd (cc (rw e at h))
]

pub check_branches-consts :
    (py : Python) (v : Option Json)
    → check_branches v ≡ pass
    → (all : Items) × (consts_in py v ≡ some all)
check_branches-consts py (some (arr items)) h = all_const-consts items h
check_branches-consts py (some (obj end)) h = (nil, refl)
check_branches-consts py (some (obj (field k v rest))) h = cc
check_branches-consts py (some (str s)) h = elim (Bool-cases (s == "")) [
  | inl e ↦ (nil, rw e refl)
  | inr e ↦ absurd (cc (rw e at h))
]
check_branches-consts py none h = cc
check_branches-consts py (some null) h = cc
check_branches-consts py (some (bool b)) h = cc
check_branches-consts py (some (int b)) h = cc
check_branches-consts py (some (float b)) h = cc

pub among_consts-safe :
    (py : Python) (value : Json) (v : Option Json)
    → check_branches v ≡ pass
    → among_consts py value (consts_in py v) ≢ crashed
among_consts-safe py value v h =
    let (all, e) = check_branches-consts py v h in
    rw e (if-safe (among py value all) pass refused pass-safe refused-safe)

-- No branch on the type crashes but that of a list.
as_string-safe :
    (py : Python) (prop : Fields) (v : Json)
    → is_searchable (get "enum" prop) ≡ true
    → as_string py prop v ≢ crashed
as_string-safe py prop (str s) h = enum_safe (get "enum" prop) h
  where
    enum_safe : (o : Option Json) → is_searchable o ≡ true → check_enum py s o ≢ crashed
    enum_safe none h = pass-safe
    enum_safe (some (arr items)) h =
        if-safe (among py (str s) items) pass refused pass-safe refused-safe
    enum_safe (some (obj fields)) h = if-safe (has s fields) pass refused pass-safe refused-safe
    enum_safe (some (str t)) h = if-safe (py.within s t) pass refused pass-safe refused-safe
    enum_safe (some null) h = cc
    enum_safe (some (bool b)) h = cc
    enum_safe (some (int b)) h = cc
    enum_safe (some (float b)) h = cc
as_string-safe py prop null h = refused-safe
as_string-safe py prop (bool b) h = refused-safe
as_string-safe py prop (int b) h = refused-safe
as_string-safe py prop (float b) h = refused-safe
as_string-safe py prop (arr b) h = refused-safe
as_string-safe py prop (obj b) h = refused-safe

as_number-safe : (v : Json) → as_number v ≢ crashed
as_number-safe (int n) = pass-safe
as_number-safe (float n) = pass-safe
as_number-safe null = refused-safe
as_number-safe (bool b) = refused-safe
as_number-safe (str b) = refused-safe
as_number-safe (arr b) = refused-safe
as_number-safe (obj b) = refused-safe

as_integer-safe : (v : Json) → as_integer v ≢ crashed
as_integer-safe (int n) = pass-safe
as_integer-safe (float n) = refused-safe
as_integer-safe null = refused-safe
as_integer-safe (bool b) = refused-safe
as_integer-safe (str b) = refused-safe
as_integer-safe (arr b) = refused-safe
as_integer-safe (obj b) = refused-safe

as_boolean-safe : (v : Json) → as_boolean v ≢ crashed
as_boolean-safe (bool b) = pass-safe
as_boolean-safe (int n) = refused-safe
as_boolean-safe (float n) = refused-safe
as_boolean-safe null = refused-safe
as_boolean-safe (str b) = refused-safe
as_boolean-safe (arr b) = refused-safe
as_boolean-safe (obj b) = refused-safe

by_value_type-safe :
    (py : Python) (prop : Fields) (v : Json) (listed : Check)
    → is_searchable (get "enum" prop) ≡ true
    → (is_text (get "type" prop) "array" ≡ true → listed ≢ crashed)
    → by_value_type py prop v listed ≢ crashed
by_value_type-safe py prop v listed h k = if-safe _ _ _ (as_string-safe py prop v h) (
    if-safe _ _ _ (as_number-safe v) (
      if-safe _ _ _ (as_integer-safe v)
        (if-safe _ _ _ (as_boolean-safe v) (last (is_text (get "type" prop) "array") k))))
  where
    last : (b : Bool) → (b ≡ true → listed ≢ crashed) → (if b then listed else refused) ≢ crashed
    last true k = k refl
    last false k = refused-safe

-- A property that was accepted and is plain can be checked.
abbrev pub Checkable : Fields → Type 0
Checkable prop =
    (has "oneOf" prop ≡ true → check_branches (get "oneOf" prop) ≡ pass)
    × (is_searchable (get "enum" prop) ≡ true)

pub value_step :
    (py : Python) (prop : Fields) (v : Json) (listed : Check)
    → Checkable prop
    → (has "oneOf" prop ≡ false → is_text (get "type" prop) "array" ≡ true → listed ≢ crashed)
    → (if has "oneOf" prop
        then among_consts py v (consts_in py (get "oneOf" prop))
        else by_value_type py prop v listed)
      ≢ crashed
value_step py prop v listed (branches, enum) k = elim (Bool-cases (has "oneOf" prop)) [
  | inl e ↦ rw e (among_consts-safe py v (get "oneOf" prop) (branches e))
  | inr e ↦ rw e (by_value_type-safe py prop v listed enum (k e))
]
