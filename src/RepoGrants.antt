-- ===== src/RepoGrants.antt =====
-- src/krewhub/repositories/repo_grant_repo.py, with the grant of src/krewhub/models/domain.py: the
-- grants that let a cookbook read repositories, as the rows of their table.
pub mod Covering
pub mod Revoking
use Prim.Native.String.{◌++◌ as append}
use krewhub.Prelude.{
  ℕ, String, Bool, true, false, Option, none, some, List, [], ◌∷◌, ◌++◌, ◌&&◌, not, leb, filter,
  if◌then◌else◌, ◌==◌,
}
use krewhub.Prelude.Ordered.{order_by}
use krewhub.Prelude.Table.{find, modify}
use krewhub.Models.{Timestamp}

pub data RepoProvider : Type 0 where
  github gitlab bitbucket : RepoProvider

abbrev pub provider_value : RepoProvider → String
provider_value RepoProvider.github = "github"
provider_value RepoProvider.gitlab = "gitlab"
provider_value RepoProvider.bitbucket = "bitbucket"

pub record RepoGrant : Type 0 where
  pub id : String
  pub cookbook_id : String
  pub provider : RepoProvider
  pub scope : String
  pub token_ref : String
  pub granted_by_account_id : String
  pub granted_at : Timestamp
  pub revoked_at : Option Timestamp

abbrev pub grant_key : RepoGrant → String
grant_key g = g.id

-- none where the id, the primary key, is taken. (The cookbook and the account are taken to be there.)
unfoldable pub create : RepoGrant → List RepoGrant → Option (List RepoGrant)
create grant grants = elim (find grant_key grant.id grants) [
  | some g ↦ none
  | none ↦ some (grants ++ grant ∷ [])
]

unfoldable pub get : String → List RepoGrant → Option RepoGrant
get grant_id grants = find grant_key grant_id grants

abbrev pub is_live : RepoGrant → Bool
is_live g = elim g.revoked_at [ none ↦ true | some at ↦ false ]

abbrev pub granted_time : RepoGrant → Timestamp
granted_time g = g.granted_at

-- ORDER BY granted_at
unfoldable pub list_by_cookbook : String → Bool → List RepoGrant → List RepoGrant
list_by_cookbook cookbook_id include_revoked grants = order_by granted_time (
    if include_revoked
    then filter (λ g. g.cookbook_id == cookbook_id) grants
    else filter (λ g. (g.cookbook_id == cookbook_id) && is_live g) grants)

abbrev pub revoked_row : Timestamp → RepoGrant → RepoGrant
revoked_row at g = if is_live g then record g { revoked_at = some at } else g

unfoldable pub revoke : String → Timestamp → List RepoGrant → Option RepoGrant × List RepoGrant
unfolding get
revoke grant_id at grants =
    let grants' = modify grant_key grant_id (revoked_row at) grants in
    (get grant_id grants', grants')

abbrev is_none {ℓ} : {A : Type ℓ} → Option A → Bool
is_none none = true
is_none (some a) = false

-- a or b
abbrev pub or_else {ℓ} : {A : Type ℓ} → Option A → Option A → Option A
or_else none b = b
or_else (some a) b = some a

-- The variables of the loop.
pub record Slots : Type 0 where
  pub exact : Option RepoGrant
  pub wildcard : Option RepoGrant
  pub owner_shorthand : Option RepoGrant

abbrev pub no_slots : Slots
no_slots = record { exact = none; wildcard = none; owner_shorthand = none }

-- A turn of the loop, by how the row's scope compares with the three texts.
abbrev pub place : Bool → Bool → Bool → RepoGrant → Slots → Slots
place is_exact is_wild is_owner g s =
    if is_exact && is_none s.exact
    then record s { exact = some g }
    else if is_wild && is_none s.wildcard
    then record s { wildcard = some g }
    else if is_owner && is_none s.owner_shorthand
    then record s { owner_shorthand = some g }
    else s

unfoldable pub choose : String → String → String → List RepoGrant → Slots → Option RepoGrant
choose target_exact target_wild owner [] s = or_else s.exact (or_else s.wildcard s.owner_shorthand)
choose target_exact target_wild owner (g ∷ rows) s =
    choose target_exact target_wild owner rows
      (place (g.scope == target_exact) (g.scope == target_wild) (g.scope == owner) g s)

-- WHERE cookbook_id = ? AND provider = ? AND revoked_at IS NULL
abbrev pub is_candidate : String → RepoProvider → RepoGrant → Bool
is_candidate cookbook_id provider g =
    (g.cookbook_id == cookbook_id)
    && (provider_value g.provider == provider_value provider)
    && is_live g

unfoldable pub find_covering :
    String → RepoProvider → String → String → List RepoGrant → Option RepoGrant
unfolding choose
find_covering cookbook_id provider owner repo grants =
    choose (append owner (append "/" repo)) (append owner "/*") owner
      (order_by granted_time (filter (is_candidate cookbook_id provider) grants)) no_slots
