-- ===== src/Db/Bundles.antt =====
-- src/krewhub/repositories/bundle_repo.py: the bundles table.
pub mod Runnable
use krewhub.Prelude.{
  ℕ, zero, suc, ◌+◌, leb, String, Bool, true, false, Option, none, some, ◌&&◌, List, [], ◌∷◌, ◌++◌,
  nat_eq, not, any, filter, if◌then◌else◌, ◌==◌,
}
use krewhub.Prelude.Ordered.{order_by}
use krewhub.Prelude.Table.{find, modify}
use krewhub.Models.{Bundle, Timestamp}
use krewhub.Models.JsonData.{Fields, end}
use krewhub.Models.Status.{BundleStatus, opened, closed}
use krewhub.Db.{Db, Act, ok, err, stale_resource, integrity_error}

abbrev pub bundle_key : Bundle → String
bundle_key b = b.id

unfoldable pub get : String → Db → Option Bundle
get bundle_id db = find bundle_key bundle_id db.bundles

-- UPDATE bundles SET ..., resource_version = resource_version + 1 WHERE id = ?
abbrev pub update_row : String → (Bundle → Bundle) → Db → Db
update_row bundle_id f db = record db {
  bundles =
      modify bundle_key bundle_id
        (λ b. let b' = f b in record b' { resource_version = b.resource_version + 1 }) db.bundles;
}

-- `json.dumps(bundle.repo_spec) if bundle.repo_spec else None`
abbrev kept_spec : Option Fields → Option Fields
kept_spec (some end) = none
kept_spec spec = spec

-- The INSERT does not name graph_terminal_at.
abbrev pub inserted : Bundle → Bundle
inserted b = record b { repo_spec = kept_spec b.repo_spec; graph_terminal_at = none }

-- The id is the primary key. (The cookbook that the bundle refers to is taken to be there.)
unfoldable pub create : Bundle → Act Bundle
create bundle db = elim (find bundle_key bundle.id db.bundles) [
  | some b ↦ (err integrity_error, db)
  | none ↦ (ok bundle, record db { bundles = db.bundles ++ inserted bundle ∷ [] })
]

unfoldable pub set_sandbox : String → String → Db → Db
set_sandbox bundle_id sandbox_id =
    update_row bundle_id (λ b. record b { sandbox_id = some sandbox_id })

unfoldable pub set_default_agent_runtime : String → String → Db → Option Bundle × Db
set_default_agent_runtime bundle_id runtime_id db =
    let db' =
      update_row bundle_id (λ b. record b { default_agent_runtime_id = some runtime_id }) db in
    (get bundle_id db', db')

abbrev pub in_cookbook : String → Bundle → Bool
in_cookbook cookbook_id b = elim b.cookbook_id [ none ↦ false | some c ↦ c == cookbook_id ]

unfoldable pub has_any_for_cookbook : String → Db → Bool
has_any_for_cookbook cookbook_id db = any (in_cookbook cookbook_id) db.bundles

-- A column that is set where the argument is not None.
abbrev pub set_some {ℓ} : {A : Type ℓ} → Option A → Option A → Option A
set_some none old = old
set_some (some a) old = some a

pub record StatusPatch : Type 0 where
  pub claimed_at : Option Timestamp
  pub cooked_at : Option Timestamp
  pub digested_at : Option Timestamp
  pub blocked_reason : Option String
  pub expected_version : Option ℕ

abbrev pub only_status : StatusPatch
only_status = record {
  claimed_at = none;
  cooked_at = none;
  digested_at = none;
  blocked_reason = none;
  expected_version = none;
}

abbrev version_ok : Option ℕ → ℕ → Bool
version_ok none v = true
version_ok (some expected) v = nat_eq v expected

abbrev with_status : BundleStatus → StatusPatch → Bundle → Bundle
with_status status p b = record b {
  status = status;
  resource_version = b.resource_version + 1;
  claimed_at = set_some p.claimed_at b.claimed_at;
  cooked_at = set_some p.cooked_at b.cooked_at;
  digested_at = set_some p.digested_at b.digested_at;
  blocked_reason = set_some p.blocked_reason b.blocked_reason;
}

unfoldable pub update_status : String → BundleStatus → StatusPatch → Act (Option Bundle)
unfolding get
update_status bundle_id status p db =
    let hit = λ (b : Bundle). version_ok p.expected_version b.resource_version in
    let db' = record db {
      bundles =
          modify bundle_key bundle_id (λ b. if hit b then with_status status p b else b) db.bundles;
    } in
    if any (λ b. (b.id == bundle_id) && hit b) db.bundles
    then (ok (get bundle_id db'), db')
    else elim p.expected_version [
      | none ↦ (ok (get bundle_id db'), db')
      | some v ↦ elim (get bundle_id db') [
        | some existing ↦ (err stale_resource, db')
        | none ↦ (ok none, db')
      ]
    ]

-- COALESCE(graph_terminal_at, now)
abbrev coalesce {ℓ} : {A : Type ℓ} → Option A → A → Option A
coalesce none a = some a
coalesce (some b) a = some b

-- text[:n]
take_chars : ℕ → String → String
take_chars zero s = ""
take_chars (suc n) String.[] = ""
take_chars (suc n) (String.◌∷◌ c s) = String.◌∷◌ c (take_chars n s)

-- `reason or "graph run failed"`
abbrev failure_reason : Option String → String
failure_reason none = "graph run failed"
failure_reason (some r) = if r == "" then "graph run failed" else r

unfoldable pub mark_graph_terminal :
    String → Bool → Option String → Timestamp → Db → Option Bundle × Db
unfolding get take_chars
mark_graph_terminal bundle_id success reason now db =
    let db' =
      if success
      then update_row bundle_id
          (λ b. record b { graph_terminal_at = coalesce b.graph_terminal_at now }) db
      else update_row bundle_id
          (λ b. record b { blocked_reason = some (take_chars 500 (failure_reason reason)) }) db in
    (get bundle_id db', db')

unfoldable pub reopen_for_rerun : String → Db → Option Bundle × Db
unfolding get
reopen_for_rerun bundle_id db =
    let db' =
      update_row bundle_id
        (λ b. record b { status = opened; blocked_reason = none; graph_terminal_at = none }) db in
    (get bundle_id db', db')

unfoldable pub attach_graph : String → String → String → Db → Option Bundle × Db
unfolding get
attach_graph bundle_id graph_code graph_mermaid db =
    let db' =
      update_row bundle_id
        (λ b. record b { graph_code = some graph_code; graph_mermaid = some graph_mermaid }) db in
    (get bundle_id db', db')

abbrev pub is_none {ℓ} : {A : Type ℓ} → Option A → Bool
is_none none = true
is_none (some a) = false

abbrev pub is_opened : BundleStatus → Bool
is_opened opened = true
is_opened closed = false

-- The WHERE clause of list_runnable.
abbrev pub is_runnable : Bundle → Bool
is_runnable b =
    not (is_none b.graph_code)
    && is_opened b.status
    && is_none b.graph_terminal_at
    && is_none b.blocked_reason

-- ORDER BY created_at
unfoldable pub list_runnable : Db → List Bundle
unfolding order_by
list_runnable db = order_by (λ b. b.created_at) (filter is_runnable db.bundles)
