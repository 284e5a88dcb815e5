-- ===== src/Samples/Grants.antt =====
-- Grants of a cookbook: tests, and one application of each theorem.
use Prim.Native.String.{◌++◌ as append}
use krewhub.Prelude.{false, String, ◌≡◌, refl, none, some, List, [], ◌∷◌, ◌&&◌, ◌==◌, any, filter}
use krewhub.Prelude.Ordered.{order_by}
use krewhub.Models.{Timestamp}
use krewhub.RepoGrants.{
  RepoProvider, RepoGrant, granted_time, or_else, is_candidate, find_covering, revoke,
}
use krewhub.RepoGrants.Revoking.{revoke-find_covering}
use krewhub.RepoGrants.Covering.{
  first_scope, is_some, covers, find_covering-first, find_covering-exact,
}

abbrev grant : String → String → Timestamp → RepoGrant
grant id scope at = record {
  id = id;
  cookbook_id = "cb";
  provider = RepoProvider.github;
  scope = scope;
  token_ref = "ref";
  granted_by_account_id = "ann";
  granted_at = at;
  revoked_at = none;
}

abbrev grants : List RepoGrant
grants = grant "g1" "acme" 1 ∷ grant "g2" "acme/*" 2 ∷ grant "g3" "acme/site" 3 ∷ []

abbrev grant_3 : RepoGrant
grant_3 = grant "g3" "acme/site" 3

abbrev grant_2 : RepoGrant
grant_2 = grant "g2" "acme/*" 2

-- The most specific grant wins; once it is revoked, the next one does.
most_specific :
    (find_covering "cb" RepoProvider.github "acme" "site" grants ≡ some grant_3)
    × (find_covering "cb" RepoProvider.github "acme" "site" (revoke "g3" 9 grants).1 ≡ some grant_2)
    × (find_covering "cb" RepoProvider.gitlab "acme" "site" grants ≡ none)
unfolding find_covering order_by revoke
most_specific = (refl, refl, refl)

find_covering-first_example :
    let rows = order_by granted_time (filter (is_candidate "cb" RepoProvider.github) grants) in
    find_covering "cb" RepoProvider.github "acme" "site" grants
    ≡ or_else
        (first_scope (append "acme" (append "/" "site")) rows)
        (or_else (first_scope (append "acme" "/*") rows) (first_scope "acme" rows))
find_covering-first_example = find_covering-first "cb" "acme" "site" RepoProvider.github grants

find_covering-exact_example :
    is_some (find_covering "cb" RepoProvider.github "acme" "site" grants)
    ≡ any (λ g. is_candidate "cb" RepoProvider.github g && covers "acme" "site" g) grants
find_covering-exact_example = find_covering-exact "cb" "acme" "site" RepoProvider.github grants

site_after :
    find_covering "cb" RepoProvider.github "acme" "site" (revoke "g3" 9 grants).1 ≡ some grant_2
unfolding find_covering order_by revoke
site_after = refl

revoke-find_covering_example : (grant_2.id == "g3") ≡ false
revoke-find_covering_example =
    revoke-find_covering "g3" "cb" "acme" "site" RepoProvider.github 9 grants grant_2 site_after
