-- ===== src/Samples/Schemas.antt =====
-- Request schemas and results: tests, and one application of the theorem on runs.
use krewhub.Prelude.{◌≡◌, refl, Bool, true, false, none, some, [], ◌∷◌, ◌==◌}
use krewhub.Models.JsonData.{
  Json, Items, Fields, str, arr, obj, int, nil, cons, end, field, pos, null,
}
use krewhub.Models.JsonData
use krewhub.Invocations.Schema
use krewhub.Invocations.Schema.{
  Check, pass, refused, crashed, Python, validate_request_schema, validate_content,
}
use krewhub.Invocations.Schema.Contents.{are_plain_properties, is_plain_required}
use krewhub.Invocations
use krewhub.Invocations.{Action, Invocation, Store}
use krewhub.Invocations.Running.{HandEnd, run}
use krewhub.Invocations.Running.Ending.{HasEnded, run-HasEnded}
use krewhub.Samples.Runs.{stamp, asked, empty_tape, live_run}

abbrev text_type : Fields
text_type = field "type" (str "string") end

-- {"type": "object", "properties": {"name": ..., "tags": ...}, "required": ["name"]}
abbrev schema_of : Json → Fields
schema_of required = field "type" (str "object") (
    field "properties"
      (obj (
        field "name" (obj text_type) (
          field "tags" (obj (field "type" (str "array") (field "items" (obj text_type) end))) end)))
      (field "required" required end))

abbrev schema : Fields
schema = schema_of (arr (cons (str "name") nil))

abbrev equal : Json → Json → Bool
equal (str s) (str t) = s == t
equal _ _ = false

abbrev py : Python
py = record { equal = equal; within = λ s t. s == t; letters = λ s. cons (str s) nil }

abbrev content : Json
content =
    obj (field "name" (str "ann") (field "tags" (arr (cons (str "a") (cons (str "b") nil))) end))

schema_accepted : validate_request_schema (obj schema) ≡ pass
unfolding validate_request_schema Schema.validate_property_schema
schema_accepted = refl

-- A result that fits, one with a wrong item, and one without a required field.
contents_checked :
    (validate_content py schema content ≡ pass)
    × (validate_content py schema
          (obj (field "name" (str "ann") (field "tags" (arr (cons null nil)) end)))
        ≡ refused)
    × (validate_content py schema (obj end) ≡ refused)
unfolding validate_content Schema.check_value
contents_checked = (refl, refl, refl)

-- A schema whose required is a number is accepted, and then no result can be checked.
number_required :
    (validate_request_schema (obj (schema_of (int (pos 1)))) ≡ pass)
    × (validate_content py (schema_of (int (pos 1))) content ≡ crashed)
unfolding validate_request_schema Schema.validate_property_schema validate_content
number_required = (refl, refl)

plain : are_plain_properties (JsonData.get "properties" schema) ≡ true
unfolding JsonData.get
plain = refl

names : is_plain_required (Schema.required_of py (JsonData.get "required" schema)) ≡ true
unfolding JsonData.get
names = refl

abbrev form : Invocation
form = record asked { schema = some schema }

abbrev at_work : Store
at_work = record { invocations = form ∷ []; tape = empty_tape; runs = live_run ∷ [] }

form_there : Invocations.get "inv_1" at_work ≡ some form
unfolding Invocations.get
form_there = refl

abbrev answered : HandEnd
answered =
    HandEnd.returned (record { action = Action.accept; content = some content; reason = none })

run-HasEnded_example :
    HasEnded "inv_1"
      (run py (λ f c. "") stamp (λ s. s) null form (some answered) (λ t. t) 9 at_work)
run-HasEnded_example =
    run-HasEnded py (λ f c. "") stamp (λ s. s) null form (some answered) (λ t. t) 9 at_work form
      (schema_accepted, plain, names) form_there (λ t k h. (k, h))
