-- ===== src/Invocations/Target.antt =====
-- parse_target of src/krewhub/models/invocation.py: the text `<type>` or `<type>:<id>` that says
-- who runs an invocation.
pub mod Exact
use Prim.Native.String.{[] as ε, ◌∷◌ as ◌∷ᶜ◌, ◌++◌ as append}
use Prim.Native.Char.{Char}
use Prim.Native.String.append.{nil as append-nil, cons as append-cons}
use krewhub.Prelude.{
  String, ◌≡◌, refl, sym, ap, ◌∙◌, Bool, true, false, not, any, Option, none, some, List, [], ◌∷◌,
  arith, if◌then◌else◌, ◌==◌, Bool-cases, Option-cases, inl, inr, eq_iff, ◌↔◌,
}

-- The ValueErrors of the function.
pub data TargetError : Type 0 where
  empty_target human_accepts_no_id : TargetError
  unknown_target_type requires_an_id : String → TargetError

pub data Parsed : Type 0 where
  parsed : String → Option String → Parsed
  refused : TargetError → Parsed

-- target.partition(":"), none where there is no colon.
abbrev pub partition : String → Option (String × String)
partition ε = none
partition (◌∷ᶜ◌ c s) =
    let rest = partition s in
    if ◌∷ᶜ◌ c ε == ":"
    then some ("", s)
    else elim rest [ none ↦ none | some (a, b) ↦ some (◌∷ᶜ◌ c a, b) ]

abbrev pub or_none : String → Option String
or_none s = if s == "" then none else some s

abbrev pub split_target : String → String × Option String
split_target target = elim (partition target) [
  | none ↦ (target, none)
  | some (type_part, id_part) ↦ (type_part, or_none id_part)
]

abbrev pub valid_target_types : List String
valid_target_types = "sandbox" ∷ "agent" ∷ "human" ∷ []

-- `allowed_types if allowed_types is not None else _VALID_TARGET_TYPES`
abbrev pub valid_types : Option (List String) → List String
valid_types none = valid_target_types
valid_types (some allowed) = allowed

abbrev pub check_target : List String → String × Option String → Parsed
check_target valid (type_part, target_id) =
    if not (any (λ t. t == type_part) valid)
    then refused (unknown_target_type type_part)
    else if type_part == "human"
    then elim target_id [ none ↦ parsed "human" none | some id ↦ refused human_accepts_no_id ]
    else elim target_id [
      | none ↦ refused (requires_an_id type_part)
      | some id ↦ parsed type_part (some id)
    ]

unfoldable pub parse_target : String → Option (List String) → Parsed
parse_target target allowed_types =
    if target == ""
    then refused empty_target
    else check_target (valid_types allowed_types) (split_target target)
