-- ===== src/RepoGrants/Covering.antt =====
-- Which grant find_covering of src/krewhub/repositories/repo_grant_repo.py returns, and when one.
use Prim.Native.String.{◌++◌ as append}
use krewhub.Prelude.{
  String, ◌≡◌, refl, ◌∙◌, Bool, true, false, Option, none, some, List, [], ◌∷◌, ◌&&◌, ◌||◌, any,
  filter, arith, if◌then◌else◌, ◌==◌,
}
use krewhub.Prelude.{any-filter}
use krewhub.Prelude.Ordered.{order_by, any-order_by}
use krewhub.RepoGrants.{
  RepoProvider, RepoGrant, or_else, granted_time, Slots, no_slots, place, choose, is_candidate,
  find_covering,
}

-- The first row with the scope.
abbrev pub first_scope : String → List RepoGrant → Option RepoGrant
first_scope scope [] = none
first_scope scope (g ∷ rows) =
    let rest = first_scope scope rows in if g.scope == scope then some g else rest

-- What the slots and the rows to come give, where the first rows of the three scopes are known.
abbrev outcome : Slots → Option RepoGrant → Option RepoGrant → Option RepoGrant → Option RepoGrant
outcome s a b c =
    or_else (or_else s.exact a) (or_else (or_else s.wildcard b) (or_else s.owner_shorthand c))

-- A turn of the loop gives what its row, put before the rows to come, would give.
outcome-place :
    (x w o : Bool) (g : RepoGrant) (s : Slots) (a b c : Option RepoGrant)
    → outcome (place x w o g s) a b c
      ≡ outcome s (if x then some g else a) (if w then some g else b) (if o then some g else c)
outcome-place x w o g s a b c = by_slots x w o s.exact s.wildcard s.owner_shorthand
  where
    by_slots :
        (x w o : Bool) (e f h : Option RepoGrant)
        → outcome (place x w o g (record { exact = e; wildcard = f; owner_shorthand = h })) a b c
          ≡ outcome
              (record { exact = e; wildcard = f; owner_shorthand = h })
              (if x then some g else a)
              (if w then some g else b)
              (if o then some g else c)
    by_slots true w o none f h = refl
    by_slots x w o (some e) f h = ground arith
    by_slots false true o none none h = ground arith
    by_slots false w o none (some f) h = ground arith
    by_slots false false true none none none = refl
    by_slots false false true none none (some h) = refl
    by_slots false false false none none h = refl

choose_lem :
    (x w o : String) (rows : List RepoGrant) (s : Slots)
    → choose x w o rows s ≡ outcome s (first_scope x rows) (first_scope w rows) (first_scope o rows)
unfolding choose
choose_lem x w o [] s = ground arith
choose_lem x w o (g ∷ rows) s =
    choose_lem x w o rows (place (g.scope == x) (g.scope == w) (g.scope == o) g s)
    ∙ outcome-place (g.scope == x) (g.scope == w) (g.scope == o) g s (first_scope x rows)
        (first_scope w rows) (first_scope o rows)

-- The grant is the first of the live ones in the order of their times whose scope is the
-- repository, or else the first whose scope is all of the owner's, or else the first whose scope
-- is the owner.
pub find_covering-first :
    (cookbook_id owner repo : String) (provider : RepoProvider) (grants : List RepoGrant)
    → let rows = order_by granted_time (filter (is_candidate cookbook_id provider) grants) in
      find_covering cookbook_id provider owner repo grants
      ≡ or_else
          (first_scope (append owner (append "/" repo)) rows)
          (or_else (first_scope (append owner "/*") rows) (first_scope owner rows))
unfolding find_covering
find_covering-first cookbook_id owner repo provider grants =
    choose_lem (append owner (append "/" repo)) (append owner "/*") owner
      (order_by granted_time (filter (is_candidate cookbook_id provider) grants)) no_slots

abbrev pub is_some {ℓ} : {A : Type ℓ} → Option A → Bool
is_some none = false
is_some (some a) = true

-- The scopes that cover a repository.
abbrev pub covers : String → String → RepoGrant → Bool
covers owner repo g =
    (g.scope == append owner (append "/" repo))
    || (g.scope == append owner "/*")
    || (g.scope == owner)

first_scope-any :
    (scope : String) (rows : List RepoGrant)
    → is_some (first_scope scope rows) ≡ any (λ g. g.scope == scope) rows
first_scope-any scope [] = refl
first_scope-any scope (g ∷ rows) = ground (arith, first_scope-any scope rows)

or_else-some : (a b : Option RepoGrant) → is_some (or_else a b) ≡ (is_some a || is_some b)
or_else-some none b = refl
or_else-some (some g) b = refl

any_or :
    (p q r : RepoGrant → Bool) (rows : List RepoGrant)
    → (any p rows || (any q rows || any r rows)) ≡ any (λ g. p g || q g || r g) rows
any_or p q r [] = refl
any_or p q r (g ∷ rows) = ground (arith, any_or p q r rows)

-- A cookbook gets a grant for a repository exactly where one of its grants for the provider is
-- not revoked and has a scope that covers the repository.
pub find_covering-exact :
    (cookbook_id owner repo : String) (provider : RepoProvider) (grants : List RepoGrant)
    → is_some (find_covering cookbook_id provider owner repo grants)
      ≡ any (λ g. is_candidate cookbook_id provider g && covers owner repo g) grants
find_covering-exact cookbook_id owner repo provider grants =
    let rows = order_by granted_time (filter (is_candidate cookbook_id provider) grants) in
    let exact = append owner (append "/" repo) in
    let wild = append owner "/*" in
    rw (find_covering-first cookbook_id owner repo provider grants) (
      or_else-some (first_scope exact rows)
        (or_else (first_scope wild rows) (first_scope owner rows))
      ∙ rw (or_else-some (first_scope wild rows) (first_scope owner rows)) (
          rw (first_scope-any exact rows) (
            rw (first_scope-any wild rows) (
              rw (first_scope-any owner rows) (
                any_or (λ g. g.scope == exact) (λ g. g.scope == wild) (λ g. g.scope == owner)
                  rows))))
      ∙ any-order_by granted_time (covers owner repo)
          (filter (is_candidate cookbook_id provider) grants)
      ∙ any-filter (covers owner repo) (is_candidate cookbook_id provider) grants)
