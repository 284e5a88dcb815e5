-- ===== src/TaskService/Single.antt =====
-- One active task for each agent and cookbook (claim_task of src/krewhub/services/task_service.py):
-- the invariant, and the changes of the tasks table that keep it.
pub mod Calm
pub mod Posts
pub mod Claims
pub mod Requests
use krewhub.Prelude.{
  ℕ, ◌+◌, ◌≤◌, String, ◌≡◌, refl, ◌⊎◌, Bool, true, false, ◌&&◌, Option, none, some, List, [], ◌∷◌,
  ◌++◌, length, filter, All, arith, eq_iff, ◌==◌, Bool-cases, inl, inr,
}
use krewhub.Prelude.Table.{find, modify, delete}
use krewhub.Prelude.Table.Unique.{
  Unique, All-modify, Unique-modify, Unique-snoc, All-snoc, All-delete, Unique-delete, at_most_one,
}
use krewhub.Models.{Bundle, Task}
use krewhub.Models.Status.{opened, is_active}
use krewhub.Db.{Db}
use krewhub.Db.Bundles.{bundle_key, in_cookbook}
use krewhub.Db.Tasks.{task_key, holds, list_active_by_agent}

-- The row counts as an active task of the agent in the cookbook.
abbrev pub active_in : List Bundle → String → String → Task → Bool
active_in bundles cookbook_id agent_id t =
    elim (find bundle_key t.bundle_id bundles) [ none ↦ false | some b ↦ in_cookbook cookbook_id b ]
    && holds agent_id t

abbrev pub Only : List Bundle → String → String → String → Task → Type 0
Only bundles cookbook_id agent_id k t = active_in bundles cookbook_id agent_id t ≡ true → t.id ≡ k

pub record IsSingle (bundles : List Bundle) (rows : List Task) : Type 0 where
  pub unique : Unique task_key rows
  pub only :
      (cookbook_id agent_id : String)
      → (k : String) × All (Only bundles cookbook_id agent_id k) rows

-- A patch of the row k that makes no agent hold it that did not hold it before.
pub record IsQuiet (rows : List Task) (k : String) (f : Task → Task) : Type 0 where
  pub keeps_id : (t : Task) → (f t).id ≡ t.id
  pub keeps_bundle : (t : Task) → (f t).bundle_id ≡ t.bundle_id
  pub no_claim :
      (agent_id : String) (t : Task)
      → find task_key k rows ≡ some t
      → holds agent_id (f t) ≡ true
      → holds agent_id t ≡ true

pub data Quiet : List Task → List Task → Type 0 where
  same : {rows : List Task} → Quiet rows rows
  patch :
      {rows : List Task} (k : String) (f : Task → Task)
      → IsQuiet rows k f
      → Quiet rows (modify task_key k f rows)
  remove : {rows : List Task} (k : String) → Quiet rows (delete task_key k rows)
  add :
      {rows : List Task} (t : Task)
      → find task_key t.id rows ≡ none
      → t.status ≡ opened
      → Quiet rows (rows ++ t ∷ [])
  both : {a b c : List Task} → Quiet a b → Quiet b c → Quiet a c

module _ (bundles : List Bundle) where
  Only-patch :
      (c a k : String) (rows : List Task) (f : Task → Task) (j : String) (t : Task)
      → IsQuiet rows k f
      → find task_key k rows ≡ some t
      → Only bundles c a j t
      → Only bundles c a j (f t)
  Only-patch c a k rows f j t q found only act =
      ground (arith, q.keeps_id t, q.keeps_bundle t, q.no_claim a t found, only, act)

  Only-opened : (c a j : String) (t : Task) → t.status ≡ opened → Only bundles c a j t
  Only-opened c a j t o act = ground arith

  pub Quiet-IsSingle :
      {rows rows' : List Task} → Quiet rows rows' → IsSingle bundles rows → IsSingle bundles rows'
  Quiet-IsSingle same h = h
  Quiet-IsSingle (patch {rows} k f q) h = record {
    unique = Unique-modify task_key k f rows q.keeps_id h.unique;
    only = λ c a.
        let (j, all) = h.only c a in
        (
          j,
          All-modify task_key (Only bundles c a j) k f rows h.unique
              (λ t found only. Only-patch c a k rows f j t q found only) all,
        );
  }
  Quiet-IsSingle (remove {rows} k) h = record {
    unique = Unique-delete task_key k rows h.unique;
    only = λ c a.
        let (j, all) = h.only c a in (j, All-delete task_key (Only bundles c a j) k rows all);
  }
  Quiet-IsSingle (add {rows} t fresh o) h = record {
    unique = Unique-snoc task_key rows t fresh h.unique;
    only = λ c a.
        let (j, all) = h.only c a in
        (j, All-snoc task_key (Only bundles c a j) rows t all (Only-opened c a j t o));
  }
  Quiet-IsSingle (both q r) h = Quiet-IsSingle r (Quiet-IsSingle q h)

-- In such a table an agent has at most one active task in a cookbook.
pub IsSingle-list_active_by_agent :
    (db : Db) (cookbook_id agent_id : String)
    → IsSingle db.bundles db.tasks
    → length (list_active_by_agent (some cookbook_id) agent_id db) ≤ 1
unfolding list_active_by_agent
IsSingle-list_active_by_agent db c a h =
    at_most_one task_key (active_in db.bundles c a) (h.only c a).0 db.tasks h.unique (h.only c a).1
