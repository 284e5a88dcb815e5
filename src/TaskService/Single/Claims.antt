-- ===== src/TaskService/Single/Claims.antt =====
-- The claim as the route of src/krewhub/routes/tasks.py asks for it keeps the invariant.
use krewhub.Prelude.{
  String, ◌≡◌, refl, Bool, true, false, ◌&&◌, Option, none, some, List, [], ◌∷◌, filter, All, arith,
  eq_iff, ◌==◌, Bool-cases, Option-cases, inl, inr,
}
use krewhub.Prelude.Table.{find, find-key, modify}
use krewhub.Prelude.Table.Unique.{Unique, All-modify, Unique-modify}
use krewhub.Models.{Bundle, Task, Timestamp}
use krewhub.Models.Status.{is_open}
use krewhub.Db.{Db, publish}
use krewhub.Db.Bundles
use krewhub.Db.Bundles.{bundle_key, in_cookbook}
use krewhub.Db.Events
use krewhub.Db.Events.{event_ids, is_used}
use krewhub.Db.Tasks
use krewhub.Db.Tasks.{
  task_key, holds, list_active_by_agent, apply_patch, sets_something, TaskPatch, no_patch,
}
use mathlib.Core.Path.{subst}
use krewhub.TaskService.{
  publish_some, is_empty, deps_done, claim_task, do_claim, can_claim, claim_patch,
}
use krewhub.TaskService.Claim.{claim_granted, claim_refused}
use krewhub.TaskService.Single.{IsSingle, Only, active_in}

-- The claim route: the cookbook is that of the task's bundle. (Who may call it is decided before.)
unfoldable pub claim_request : String → String → String → Timestamp → Db → Db
unfolding claim_task Tasks.get Bundles.get
claim_request task_id agent_id evt_id now db = elim (Tasks.get task_id db) [
  | none ↦ db
  | some t ↦ elim (Bundles.get t.bundle_id db) [
    | none ↦ db
    | some b ↦ (claim_task task_id agent_id b.cookbook_id evt_id now db).1
  ]
]

none_active :
    (p : Task → Bool) (k : String) (rows : List Task)
    → filter p rows ≡ []
    → All (λ t. p t ≡ true → t.id ≡ k) rows
none_active p k [] h = tt
none_active p k (t ∷ rows) h = elim (Bool-cases (p t)) [
  | inl hit ↦ absurd (cc (rw hit at h))
  | inr miss ↦ ((λ hit. cc), none_active p k rows (rw miss at h))
]

module _ (bundles : List Bundle) (agent_id : String) (now : Timestamp) (rows : List Task) where
  abbrev claimed_row : Task → Task
  claimed_row t = apply_patch (claim_patch agent_id now) now t

  -- For the agent itself, in the cookbook where it held nothing.
  claim-Only_self :
      (c a task_id : String)
      → Unique task_key rows
      → filter (active_in bundles c a) rows ≡ []
      → All (Only bundles c a task_id) (modify task_key task_id claimed_row rows)
  claim-Only_self c a task_id u empty =
      All-modify task_key (Only bundles c a task_id) task_id claimed_row rows u
        (λ t found only act. find-key task_key task_id rows t found)
        (none_active (active_in bundles c a) task_id rows empty)

  -- For any other pair the claimed row does not count.
  claim-Only_other :
      (c a j task_id : String) (t : Task) (b : Bundle)
      → Unique task_key rows
      → find task_key task_id rows ≡ some t
      → find bundle_key t.bundle_id bundles ≡ some b
      → (in_cookbook c b && (agent_id == a)) ≡ false
      → All (Only bundles c a j) rows
      → All (Only bundles c a j) (modify task_key task_id claimed_row rows)
  claim-Only_other c a j task_id t b u found bundle not_it all =
      All-modify task_key (Only bundles c a j) task_id claimed_row rows u
        (λ t' found' only act. ground (arith, found, found')) all

publish_some-tables :
    (o : Option Task) (task_id : String) (c : Option String) (now : Timestamp) (db : Db)
    → ((publish_some o task_id c now db).tasks ≡ db.tasks)
      × ((publish_some o task_id c now db).bundles ≡ db.bundles)
unfolding publish
publish_some-tables none task_id c now db = (refl, refl)
publish_some-tables (some t) task_id c now db = (refl, refl)

do_claim-tables :
    (task_id agent_id evt_id : String) (now : Timestamp) (t : Task) (db : Db)
    → let db' = (do_claim task_id agent_id evt_id now t db).1 in
      (db'.tasks ≡ modify task_key task_id (claimed_row db.bundles agent_id now db.tasks) db.tasks)
      × (db'.bundles ≡ db.bundles)
unfolding do_claim Tasks.update Events.create Events.insert
do_claim-tables task_id agent_id evt_id now t db =
    elim (Bool-cases (is_used evt_id (event_ids db.events))) [
      | inl used ↦ rw used (refl, refl)
      | inr fresh ↦ rw fresh (publish_some-tables _ task_id _ now _)
    ]

can_claim_parts :
    (t : Task) (agent_id : String) (c : Option String) (db : Db)
    → can_claim t agent_id c db ≡ true
    → (is_open t.status ≡ true)
      × (is_empty (list_active_by_agent c agent_id db) ≡ true)
      × (deps_done db t.depends_on_task_ids ≡ true)
can_claim_parts t agent_id c db h = ground arith

empty_list : (rows : List Task) → is_empty rows ≡ true → rows ≡ []
empty_list [] h = refl
empty_list (t ∷ rows) h = cc

-- The guards saw no active task of the agent in the bundle's cookbook.
saw_none :
    (t : Task) (agent_id c : String) (o : Option String) (db : Db)
    → can_claim t agent_id o db ≡ true
    → (elim o as (λ x. Bool) [ none ↦ false | some c' ↦ c' == c ]) ≡ true
    → filter (active_in db.bundles c agent_id) db.tasks ≡ []
unfolding list_active_by_agent
saw_none t agent_id c none db granted here = cc
saw_none t agent_id c (some c') db granted here =
    subst (λ x. filter (active_in db.bundles x agent_id) db.tasks ≡ []) ((eq_iff c' c).0 here)
      (empty_list _ (can_claim_parts t agent_id (some c') db granted).1)

first : (p q : Bool) → (p && q) ≡ true → p ≡ true
first p q h = ground arith

second : (p q : Bool) → (p && q) ≡ true → q ≡ true
second p q h = ground arith

granted-IsSingle :
    (task_id agent_id : String) (now : Timestamp) (t : Task) (b : Bundle) (db : Db)
    → IsSingle db.bundles db.tasks
    → find task_key task_id db.tasks ≡ some t
    → find bundle_key t.bundle_id db.bundles ≡ some b
    → can_claim t agent_id b.cookbook_id db ≡ true
    → IsSingle db.bundles
        (modify task_key task_id (claimed_row db.bundles agent_id now db.tasks) db.tasks)
granted-IsSingle task_id agent_id now t b db h found bundle granted = record {
  unique = Unique-modify task_key task_id _ db.tasks (λ t. refl) h.unique;
  only = λ c a. elim (Bool-cases (in_cookbook c b && (agent_id == a))) [
    | inl it ↦ (
      task_id,
      claim-Only_self db.bundles agent_id now db.tasks c a task_id h.unique (
          rw (← ((eq_iff agent_id a).0 (second (in_cookbook c b) (agent_id == a) it))) (
            saw_none t agent_id c b.cookbook_id db granted
              (first (in_cookbook c b) (agent_id == a) it))),
    )
    | inr other ↦
        (let (j, all) = h.only c a in
          (
            j,
            claim-Only_other db.bundles agent_id now db.tasks c a j task_id t b h.unique found
                bundle other all,
          ))
  ];
}

claim_task-IsSingle :
    (task_id agent_id evt_id : String) (now : Timestamp) (t : Task) (b : Bundle) (db : Db)
    → IsSingle db.bundles db.tasks
    → Tasks.get task_id db ≡ some t
    → find bundle_key t.bundle_id db.bundles ≡ some b
    → let db' = (claim_task task_id agent_id b.cookbook_id evt_id now db).1 in
      IsSingle db'.bundles db'.tasks
unfolding Tasks.get
claim_task-IsSingle task_id agent_id evt_id now t b db h found bundle =
    elim (Bool-cases (can_claim t agent_id b.cookbook_id db)) [
      | inl granted ↦
          (let (tasks, bundles) = do_claim-tables task_id agent_id evt_id now t db in
            rw (claim_granted task_id agent_id evt_id b.cookbook_id now db t found granted) (
              rw bundles
                (rw tasks (granted-IsSingle task_id agent_id now t b db h found bundle granted))))
      | inr refused ↦
          rw (claim_refused task_id agent_id evt_id b.cookbook_id now db t found refused) h
    ]

pub claim_request-IsSingle :
    (task_id agent_id evt_id : String) (now : Timestamp) (db : Db)
    → IsSingle db.bundles db.tasks
    → let db' = claim_request task_id agent_id evt_id now db in IsSingle db'.bundles db'.tasks
unfolding claim_request
claim_request-IsSingle task_id agent_id evt_id now db h =
    elim (Option-cases (Tasks.get task_id db)) [
      | inl missing ↦ rw (missing, claim_request) h
      | inr (t, found) ↦ elim (Option-cases (Bundles.get t.bundle_id db)) [
        | inl missing ↦ rw (found, claim_request) (rw missing h)
        | inr (b, bundle) ↦
            rw (found, claim_request)
              (rw bundle (claim_task-IsSingle task_id agent_id evt_id now t b db h found bundle))
      ]
    ]
