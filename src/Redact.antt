-- ===== src/Redact.antt =====
-- src/krewhub/services/redact.py. Python's lower() and the patterns of its re module are
-- parameters.
pub mod Hiding
use text.Mathlib.Text.{starts_with}
use Prim.Native.String.{[] as ε, ◌∷◌ as ◌∷ᶜ◌, ◌++◌ as append}
use krewhub.Prelude.{String, Bool, true, false, List, [], ◌∷◌, ◌||◌, if◌then◌else◌, ◌==◌, any}
use krewhub.Models.JsonData.{
  Json, Items, Fields, null, bool, int, float, str, arr, obj, nil, cons, end, field,
}

-- What the module asks of Python: lower(), and pattern.sub for the pattern of a name, with a text
-- or with a function of the match's first group.
pub record Python : Type 0 where
  pub lower : String → String
  pub sub : String → String → String → String
  pub sub_group : String → (String → String) → String → String

abbrev pub redacted : String
redacted = "[REDACTED]"

-- The names of _TEXT_PATTERNS, in their order.
abbrev pub text_patterns : List String
text_patterns =
    "eth_privkey" ∷ "jwt" ∷ "github_token" ∷ "aws_access_key" ∷ "openai_key" ∷ "bearer"
    ∷ "password_assign" ∷ "env_secret" ∷ "aws_secret" ∷ []

abbrev pub sensitive_key_substrings : List String
sensitive_key_substrings =
    "password" ∷ "secret" ∷ "token" ∷ "api_key" ∷ "apikey" ∷ "private_key" ∷ "privatekey"
    ∷ "priv_key" ∷ "privkey" ∷ "auth" ∷ "credential" ∷ "passphrase" ∷ []

abbrev pub key_allowlist : List String
key_allowlist =
    "auth_method" ∷ "auth_type" ∷ "authentication_type" ∷ "token_type" ∷ "public_key" ∷ "publickey"
    ∷ []

-- `part in text`
abbrev pub within : String → String → Bool
within part ε = part == ε
within part (◌∷ᶜ◌ c text) = let r = within part text in starts_with (◌∷ᶜ◌ c text) part || r

abbrev pub low_is_sensitive : String → Bool
low_is_sensitive low =
    if any (λ a. within a low) key_allowlist
    then false
    else any (λ s. within s low) sensitive_key_substrings

unfoldable pub key_is_sensitive : Python → String → Bool
key_is_sensitive py key = low_is_sensitive (py.lower key)

-- The patterns whose first group, a label, is kept.
abbrev pub keeps_label : String → Bool
keeps_label name =
    any (λ n. n == name) ("bearer" ∷ "password_assign" ∷ "env_secret" ∷ "aws_secret" ∷ [])

abbrev pub substitute : Python → List String → String → String
substitute py [] out = out
substitute py (name ∷ names) out = substitute py names (
    if keeps_label name
    then py.sub_group name (λ label. append label redacted) out
    else py.sub name redacted out)

unfoldable pub redact_text : Python → String → String
redact_text py value = if value == "" then value else substitute py text_patterns value

unfoldable mutual
  pub redact_json : Python → Json → Json
  redact_json py (obj fields) = obj (redact_fields py fields)
  redact_json py (arr items) = arr (redact_items py items)
  redact_json py (str s) = str (redact_text py s)
  redact_json py null = null
  redact_json py (bool b) = bool b
  redact_json py (int n) = int n
  redact_json py (float x) = float x

  pub redact_items : Python → Items → Items
  redact_items py nil = nil
  redact_items py (cons item rest) = cons (redact_json py item) (redact_items py rest)

  pub redact_fields : Python → Fields → Fields
  redact_fields py end = end
  redact_fields py (field k v rest) =
      let value = redact_json py v in
      field k (if key_is_sensitive py k then str redacted else value) (redact_fields py rest)
