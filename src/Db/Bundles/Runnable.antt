-- ===== src/Db/Bundles/Runnable.antt =====
-- Which bundles the graph runner sees (list_runnable of src/krewhub/repositories/bundle_repo.py),
-- and the operations that hide a bundle from it or show it again.
use krewhub.Prelude.{
  ◌+◌, String, ◌≡◌, refl, ◌∙◌, Bool, true, false, Option, none, some, ◌&&◌, List, [], ◌∷◌, not, any,
  filter, arith, ◌==◌, eq_refl, eq_iff, sym, ◌↔◌, Bool-cases, inl, inr,
}
use krewhub.Prelude.{any-filter}
use krewhub.Prelude.Ordered.{IsFrom, IsFrom-order_by, any-order_by}
use krewhub.Prelude.Table.{find, modify, find-modify, find-modify_same}
use krewhub.Prelude.Table.Unique.{Unique, Unique-modify, any-find}
use krewhub.Models.{Bundle, Timestamp}
use krewhub.Models.Status.{BundleStatus, opened}
use mathlib.Core.Option
use mathlib.Core.Path.{subst}
use mathlib.Core.List.{Memᴰ}
use krewhub.Db.{Db}
use krewhub.Db.Bundles
use krewhub.Db.Bundles.{
  bundle_key, is_runnable, is_opened, list_runnable, mark_graph_terminal, reopen_for_rerun, is_none,
}

-- The bundle is in the listing.
abbrev pub is_listed : String → Db → Bool
is_listed bundle_id db = any (λ b. b.id == bundle_id) (list_runnable db)

-- A bundle that the runner may take: a graph, open, its graph not ended, not blocked.
pub record MayRun (b : Bundle) : Type 0 where
  pub code : String
  pub graph : b.graph_code ≡ some code
  pub status : b.status ≡ opened
  pub unended : b.graph_terminal_at ≡ none
  pub unblocked : b.blocked_reason ≡ none

runnable-parts :
    (b : Bundle)
    → is_runnable b ≡ true
    → (is_none b.graph_code ≡ false)
      × (is_opened b.status ≡ true)
      × (is_none b.graph_terminal_at ≡ true)
      × (is_none b.blocked_reason ≡ true)
runnable-parts b h = (ground (arith, h), ground (arith, h), ground (arith, h), ground (arith, h))

none-of {ℓ} : {A : Type ℓ} (o : Option A) → is_none o ≡ true → o ≡ none
none-of none h = refl
none-of (some a) h = cc

some-of {ℓ} : {A : Type ℓ} (o : Option A) → is_none o ≡ false → (a : A) × (o ≡ some a)
some-of none h = cc
some-of (some a) h = (a, refl)

opened-of : (s : BundleStatus) → is_opened s ≡ true → s ≡ opened
opened-of s h = ground arith

runnable→MayRun : (b : Bundle) → is_runnable b ≡ true → MayRun b
runnable→MayRun b h =
    let (graph, live, unended, unblocked) = runnable-parts b h in
    let (code, has) = some-of b.graph_code graph in
    record {
      code = code;
      graph = has;
      status = opened-of b.status live;
      unended = none-of b.graph_terminal_at unended;
      unblocked = none-of b.blocked_reason unblocked;
    }

MayRun→runnable : (b : Bundle) → MayRun b → is_runnable b ≡ true
MayRun→runnable b m = rw m.graph (rw m.status (rw m.unended (rw m.unblocked refl)))

-- The rows of an id that may run.
abbrev pub Candidate : String → Bundle → Type 0
Candidate bundle_id b = (b.id ≡ bundle_id) × MayRun b

passes→Candidate :
    (bundle_id : String) (b : Bundle)
    → (is_runnable b && (b.id == bundle_id)) ≡ true
    → Candidate bundle_id b
passes→Candidate bundle_id b h =
    ((eq_iff b.id bundle_id).0 (ground (arith, h)), runnable→MayRun b (ground (arith, h)))

Candidate→passes :
    (bundle_id : String) (b : Bundle)
    → Candidate bundle_id b
    → (is_runnable b && (b.id == bundle_id)) ≡ true
Candidate→passes bundle_id b (same, may) =
    rw (MayRun→runnable b may) ((eq_iff b.id bundle_id).1 same)

found→row :
    (bundle_id : String) (rows : List Bundle)
    → any (λ b. is_runnable b && (b.id == bundle_id)) rows ≡ true
    → (b : Bundle) × Memᴰ b rows × Candidate bundle_id b
found→row bundle_id [] h = cc
found→row bundle_id (b ∷ rows) h = elim (Bool-cases (is_runnable b && (b.id == bundle_id))) [
  | inl hit ↦ (b, Memᴰ.head refl, passes→Candidate bundle_id b hit)
  | inr miss ↦
      let (c, mem, may) = found→row bundle_id rows (ground (arith, h, miss)) in
      (c, Memᴰ.tail mem, may)
]

row→found :
    (bundle_id : String) (b : Bundle) (rows : List Bundle)
    → Memᴰ b rows
    → Candidate bundle_id b
    → any (λ b. is_runnable b && (b.id == bundle_id)) rows ≡ true
row→found bundle_id b [] mem may = elim mem [ ]
row→found bundle_id b (c ∷ rows) (Memᴰ.head e) may =
    rw
      (subst (λ x. (is_runnable x && (x.id == bundle_id)) ≡ true) e
        (Candidate→passes bundle_id b may))
      refl
row→found bundle_id b (c ∷ rows) (Memᴰ.tail mem) may =
    ground (arith, row→found bundle_id b rows mem may)

listed_passes :
    (bundle_id : String) (db : Db)
    → is_listed bundle_id db ≡ any (λ b. is_runnable b && (b.id == bundle_id)) db.bundles
unfolding list_runnable
listed_passes bundle_id db =
    any-order_by (λ b. b.created_at) (λ b. b.id == bundle_id) (filter is_runnable db.bundles)
    ∙ any-filter (λ b. b.id == bundle_id) is_runnable db.bundles

-- The listing for the graph runner shows an id exactly where a row of that id has graph code, has
-- the status open, has no end of its graph and no blocked reason, and it stands in the order of
-- creation.
pub list_runnable-exact :
    (bundle_id : String) (db : Db)
    → ((is_listed bundle_id db ≡ true) ↔ ((b : Bundle) × Memᴰ b db.bundles × Candidate bundle_id b))
      × IsFrom (λ b. b.created_at) 0 (list_runnable db)
unfolding list_runnable
list_runnable-exact bundle_id db = (
  (
    (λ h. found→row bundle_id db.bundles (sym (listed_passes bundle_id db) ∙ h)),
    (λ (b, mem, may). listed_passes bundle_id db ∙ row→found bundle_id b db.bundles mem may),
  ),
  IsFrom-order_by (λ b. b.created_at) (filter is_runnable db.bundles),
)

-- Where ids are unique, the row under the id decides.
listed_row :
    (bundle_id : String) (db : Db)
    → Unique bundle_key db.bundles
    → is_listed bundle_id db ≡ (elim (find bundle_key bundle_id db.bundles) as (λ o. Bool) [
      | none ↦ false
      | some b ↦ is_runnable b
    ])
listed_row bundle_id db unique =
    listed_passes bundle_id db
    ∙ swap db.bundles
    ∙ any-find bundle_key bundle_id is_runnable db.bundles unique
  where
    swap :
        (rows : List Bundle)
        → any (λ b. is_runnable b && (b.id == bundle_id)) rows
          ≡ any (λ b. (b.id == bundle_id) && is_runnable b) rows
    swap [] = refl
    swap (b ∷ rows) = ground (arith, swap rows)

hidden :
    (bundle_id : String) (f : Bundle → Bundle) (db db' : Db)
    → ((b : Bundle) → (f b).id ≡ b.id)
    → ((b : Bundle) → is_runnable (f b) ≡ false)
    → Unique bundle_key db.bundles
    → db'.bundles ≡ modify bundle_key bundle_id f db.bundles
    → is_listed bundle_id db' ≡ false
hidden bundle_id f db db' keeps stops unique is =
    listed_row bundle_id db' (rw is (Unique-modify bundle_key bundle_id f db.bundles keeps unique))
    ∙ rw is (
        rw (find-modify bundle_key bundle_id bundle_id f db.bundles keeps)
          (rw (eq_refl bundle_id) (by_row (find bundle_key bundle_id db.bundles))))
  where
    by_row :
        (o : Option Bundle)
        → (elim (Option.map f o) as (λ o. Bool) [ none ↦ false | some b ↦ is_runnable b ]) ≡ false
    by_row none = refl
    by_row (some b) = stops b

-- Where ids are unique, a bundle whose graph was marked terminal, with success or failure and any
-- reason, is not listed for the graph runner any more.
pub mark_graph_terminal-hides :
    (bundle_id : String) (success : Bool) (reason : Option String) (now : Timestamp) (db : Db)
    → Unique bundle_key db.bundles
    → is_listed bundle_id (mark_graph_terminal bundle_id success reason now db).1 ≡ false
unfolding mark_graph_terminal
mark_graph_terminal-hides bundle_id true reason now db unique =
    hidden bundle_id _ db (mark_graph_terminal bundle_id true reason now db).1 (λ b. refl)
      (λ b. ground arith) unique refl
mark_graph_terminal-hides bundle_id false reason now db unique =
    hidden bundle_id _ db (mark_graph_terminal bundle_id false reason now db).1 (λ b. refl)
      (λ b. ground arith) unique refl

-- Where ids are unique, a bundle reopened for another run is listed for the graph runner exactly
-- where it has a graph, whatever its status, its end and its blocked reason were.
pub reopen_for_rerun-shows :
    (bundle_id : String) (b : Bundle) (db : Db)
    → Bundles.get bundle_id db ≡ some b
    → Unique bundle_key db.bundles
    → is_listed bundle_id (reopen_for_rerun bundle_id db).1 ≡ not (is_none b.graph_code)
unfolding reopen_for_rerun Bundles.get
reopen_for_rerun-shows bundle_id b db found unique =
    listed_row bundle_id (reopen_for_rerun bundle_id db).1
      (Unique-modify bundle_key bundle_id again db.bundles (λ b. refl) unique)
    ∙ rw (find-modify_same bundle_key bundle_id again db.bundles b (λ b. refl) found) (ground arith)
  where
    again : Bundle → Bundle
    again b = record b {
      status = opened;
      blocked_reason = none;
      graph_terminal_at = none;
      resource_version = b.resource_version + 1;
    }
