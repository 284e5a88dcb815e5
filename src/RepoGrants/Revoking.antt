-- ===== src/RepoGrants/Revoking.antt =====
-- What revoking a grant (revoke of src/krewhub/repositories/repo_grant_repo.py) means for
-- find_covering.
use Prim.Native.String.{◌++◌ as append}
use krewhub.Prelude.{
  String, ◌≡◌, refl, sym, ap, ◌∙◌, true, false, Option, none, some, List, [], ◌∷◌, filter, All,
  arith, Bool-cases, inl, inr, ◌==◌,
}
use krewhub.Prelude.Ordered.{order_by, All-order_by}
use krewhub.Prelude.Table.{modify}
use mathlib.Core.Path.{subst}
use krewhub.Models.{Timestamp}
use krewhub.RepoGrants.{
  RepoProvider, RepoGrant, grant_key, granted_time, is_live, is_candidate, or_else, revoked_row,
  revoke, find_covering,
}
use krewhub.RepoGrants.Covering.{first_scope, find_covering-first}

-- A live row is not the grant.
abbrev IsOther : String → RepoGrant → Type 0
IsOther grant_id g = is_live g ≡ true → (g.id == grant_id) ≡ false

revoked_rows :
    (grant_id : String) (at : Timestamp) (grants : List RepoGrant)
    → All (IsOther grant_id) (modify grant_key grant_id (revoked_row at) grants)
revoked_rows grant_id at [] = tt
revoked_rows grant_id at (g ∷ grants) = elim (Bool-cases (g.id == grant_id)) [
  | inl hit ↦ rw hit ((λ live. dead g.revoked_at refl live), revoked_rows grant_id at grants)
  | inr miss ↦ rw miss ((λ live. miss), revoked_rows grant_id at grants)
]
  where
    dead :
        (o : Option Timestamp)
        → g.revoked_at ≡ o
        → is_live (revoked_row at g) ≡ true
        → ((revoked_row at g).id == grant_id) ≡ false
    dead none e live = ground arith
    dead (some t) e live = ground arith

candidates :
    (grant_id cookbook_id : String) (provider : RepoProvider) (rows : List RepoGrant)
    → All (IsOther grant_id) rows
    → All (λ g. (g.id == grant_id) ≡ false) (filter (is_candidate cookbook_id provider) rows)
candidates grant_id cookbook_id provider [] h = tt
candidates grant_id cookbook_id provider (g ∷ rows) h =
    elim (Bool-cases (is_candidate cookbook_id provider g)) [
      | inl hit ↦ rw hit (h.0 (ground arith), candidates grant_id cookbook_id provider rows h.1)
      | inr miss ↦ rw miss (candidates grant_id cookbook_id provider rows h.1)
    ]

module _ (P : RepoGrant → Type 0) where
  All-first_scope :
      (scope : String) (rows : List RepoGrant) (g : RepoGrant)
      → All P rows
      → first_scope scope rows ≡ some g
      → P g
  All-first_scope scope [] g h found = cc
  All-first_scope scope (r ∷ rows) g h found = elim (Bool-cases (r.scope == scope)) [
    | inl hit ↦ same r g (rw hit at found) h.0
    | inr miss ↦ All-first_scope scope rows g h.1 (rw miss at found)
  ]
    where
      same : (r g : RepoGrant) → some r ≡ some g → P r → P g
      same r g e p = subst P (ap (λ o. elim o as (λ x. RepoGrant) [ none ↦ r | some x ↦ x ]) e) p

  from_either :
      (a b : Option RepoGrant)
      → ((g : RepoGrant) → a ≡ some g → P g)
      → ((g : RepoGrant) → b ≡ some g → P g)
      → (g : RepoGrant) → or_else a b ≡ some g
      → P g
  from_either none b p q g found = q g found
  from_either (some r) b p q g found = p g found

-- A grant that was revoked is not returned for any repository: whatever find_covering returns
-- after the revocation has another id.
pub revoke-find_covering :
    (grant_id cookbook_id owner repo : String) (provider : RepoProvider) (at : Timestamp)
    (grants : List RepoGrant) (g : RepoGrant)
    → find_covering cookbook_id provider owner repo (revoke grant_id at grants).1 ≡ some g
    → (g.id == grant_id) ≡ false
unfolding revoke
revoke-find_covering grant_id cookbook_id owner repo provider at grants g found =
    let rows = order_by granted_time (
      filter (is_candidate cookbook_id provider)
        (modify grant_key grant_id (revoked_row at) grants)) in
    let all =
      All-order_by granted_time (λ r. (r.id == grant_id) ≡ false) _
        (candidates grant_id cookbook_id provider
          (modify grant_key grant_id (revoked_row at) grants) (revoked_rows grant_id at grants)) in
    let P = λ (r : RepoGrant). (r.id == grant_id) ≡ false in
    from_either P (first_scope (append owner (append "/" repo)) rows)
      (or_else (first_scope (append owner "/*") rows) (first_scope owner rows))
      (λ r. All-first_scope P (append owner (append "/" repo)) rows r all)
      (from_either P (first_scope (append owner "/*") rows) (first_scope owner rows)
        (λ r. All-first_scope P (append owner "/*") rows r all)
        (λ r. All-first_scope P owner rows r all))
      g
      (sym (
          find_covering-first cookbook_id owner repo provider
            (modify grant_key grant_id (revoked_row at) grants))
        ∙ found)
