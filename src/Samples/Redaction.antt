-- ===== src/Samples/Redaction.antt =====
-- A payload with secrets, for src/krewhub/services/redact.py.
use krewhub.Prelude.{◌≡◌, refl, true, none, List, [], ◌∷◌, ◌++◌, if◌then◌else◌, ◌==◌}
use mathlib.Core.Option
use krewhub.Models.JsonData.{Json, str, arr, obj, nil, cons, end, field}
use krewhub.Redact.{Python, redacted, key_is_sensitive, redact_text, redact_json}
use krewhub.Redact.Hiding.{Part, key, index, at, is_harmless, redact_json-hides}

-- lower() as on texts in lower case; one pattern replaces a text, the others leave it.
abbrev py : Python
py = record {
  lower = λ s. s;
  sub = λ name new text. if name == "jwt" then (if text == "eyJ.x.y" then new else text) else text;
  sub_group = λ name f text. if text == "Bearer x" then f "Bearer " else text;
}

abbrev payload : Json
payload = obj (
    field "runs"
      (arr (cons (obj (field "db_password" (str "p") (field "note" (str "eyJ.x.y") end))) nil))
      (field "auth_method" (str "siwe") end))

abbrev clean : Json
clean = obj (
    field "runs"
      (arr (cons (obj (field "db_password" (str redacted) (field "note" (str redacted) end))) nil))
      (field "auth_method" (str "siwe") end))

payload_redacted : redact_json py payload ≡ clean
unfolding redact_json redact_text key_is_sensitive
payload_redacted = refl

labels_kept : redact_text py "Bearer x" ≡ "Bearer [REDACTED]"
unfolding redact_text
labels_kept = refl

password_sensitive : key_is_sensitive py "db_password" ≡ true
unfolding key_is_sensitive
password_sensitive = refl

abbrev to_run : List Part
to_run = key "runs" ∷ index 0 ∷ []

to_run-is_harmless : is_harmless py to_run ≡ true
unfolding key_is_sensitive
to_run-is_harmless = refl

redact_json-hides_example :
    (at (to_run ++ key "db_password" ∷ []) (redact_json py payload)
      ≡ Option.map (λ _. str redacted) (at (to_run ++ key "db_password" ∷ []) payload))
    × ((part : Part) (rest : List Part)
        → at (to_run ++ key "db_password" ∷ part ∷ rest) (redact_json py payload) ≡ none)
redact_json-hides_example =
    redact_json-hides py to_run "db_password" payload to_run-is_harmless password_sensitive
