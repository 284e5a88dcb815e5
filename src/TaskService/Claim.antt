-- ===== src/TaskService/Claim.antt =====
-- claim_task of src/krewhub/services/task_service.py: when it claims, and what it leaves.
use krewhub.Prelude.{
  String, ◌≡◌, refl, ap, ◌⊎◌, true, false, Option, none, some, List, [], ◌∷◌, ◌++◌, All, arith,
  eq_refl, Bool-cases, Option-cases, inl, inr, if◌then◌else◌,
}
use krewhub.Prelude.Table.{find, modify, find-modify}
use krewhub.Models.{Task, Timestamp}
use krewhub.Models.Status.{TaskStatus, opened, done, is_open, is_done}
use krewhub.Db.{Db, Outcome, ok, err, integrity_error, publish}
use krewhub.Db.Events
use krewhub.Db.Events.{event_ids, is_used}
use krewhub.Db.Tasks
use krewhub.Db.Tasks.{task_key, list_active_by_agent, apply_patch}
use krewhub.TaskService.{
  claim_task, do_claim, can_claim, claim_patch, claim_event, publish_some, deps_done, dep_done,
  is_empty, cookbook_id_for_bundle,
}

module _ (task_id agent_id evt_id : String) (cookbook_id : Option String) (now : Timestamp)
    (db : Db) where
  pub claim_missing :
      Tasks.get task_id db ≡ none
      → claim_task task_id agent_id cookbook_id evt_id now db ≡ (ok none, db)
  unfolding claim_task
  claim_missing missing = rw (missing, claim_task)

  pub claim_granted :
      (t : Task)
      → Tasks.get task_id db ≡ some t
      → can_claim t agent_id cookbook_id db ≡ true
      → claim_task task_id agent_id cookbook_id evt_id now db
        ≡ do_claim task_id agent_id evt_id now t db
  unfolding claim_task
  claim_granted t found granted = rw (found, claim_task) (rw granted)

  pub claim_refused :
      (t : Task)
      → Tasks.get task_id db ≡ some t
      → can_claim t agent_id cookbook_id db ≡ false
      → claim_task task_id agent_id cookbook_id evt_id now db ≡ (ok none, db)
  unfolding claim_task
  claim_refused t found refused = rw (found, claim_task) (rw refused)

-- When a claim may go through: the row is open, the agent holds no active task in the scope, and
-- every dependency is a row that is done.
pub record IsClaimable (t : Task) (agent_id : String) (cookbook_id : Option String) (db : Db)
    : Type 0 where
  pub status : t.status ≡ opened
  pub idle : list_active_by_agent cookbook_id agent_id db ≡ []
  pub ready :
      All
        (λ d. (dep : Task) × (Tasks.get d db ≡ some dep) × (dep.status ≡ done))
        t.depends_on_task_ids

is_open→opened : (s : TaskStatus) → is_open s ≡ true → s ≡ opened
is_open→opened s h = ground arith

is_done→done : (s : TaskStatus) → is_done s ≡ true → s ≡ done
is_done→done s h = ground arith

is_empty→nil : (rows : List Task) → is_empty rows ≡ true → rows ≡ []
is_empty→nil [] h = refl
is_empty→nil (t ∷ rows) h = cc

dep_done→ready :
    (db : Db) (d : String)
    → dep_done db d ≡ true
    → (dep : Task) × (Tasks.get d db ≡ some dep) × (dep.status ≡ done)
dep_done→ready db d h = elim (Option-cases (Tasks.get d db)) [
  | inl missing ↦ absurd (cc (rw (missing, dep_done) at h))
  | inr (dep, found) ↦ (dep, found, is_done→done dep.status (rw (found, dep_done) at h))
]

deps_done→ready :
    (db : Db) (ds : List String)
    → deps_done db ds ≡ true
    → All (λ d. (dep : Task) × (Tasks.get d db ≡ some dep) × (dep.status ≡ done)) ds
deps_done→ready db [] h = tt
deps_done→ready db (d ∷ ds) h =
    (dep_done→ready db d (ground arith), deps_done→ready db ds (ground arith))

ready→deps_done :
    (db : Db) (ds : List String)
    → All (λ d. (dep : Task) × (Tasks.get d db ≡ some dep) × (dep.status ≡ done)) ds
    → deps_done db ds ≡ true
ready→deps_done db [] h = refl
ready→deps_done db (d ∷ ds) ((dep, found, is), h) =
    rw (found, dep_done) (rw is (ready→deps_done db ds h))

can_claim→IsClaimable :
    (t : Task) (agent_id : String) (c : Option String) (db : Db)
    → can_claim t agent_id c db ≡ true
    → IsClaimable t agent_id c db
can_claim→IsClaimable t agent_id c db h = record {
  status = is_open→opened t.status (ground arith);
  idle = is_empty→nil (list_active_by_agent c agent_id db) (ground arith);
  ready = deps_done→ready db t.depends_on_task_ids (ground arith);
}

IsClaimable→can_claim :
    (t : Task) (agent_id : String) (c : Option String) (db : Db)
    → IsClaimable t agent_id c db
    → can_claim t agent_id c db ≡ true
IsClaimable→can_claim t agent_id c db k =
    rw k.status (rw k.idle (ready→deps_done db t.depends_on_task_ids k.ready))

-- What a claim that goes through returns and leaves: the patched row in its place, and one event,
-- or the error of SQLite where the event's id is used.
pub record Claimed (task_id agent_id evt_id : String) (now : Timestamp) (t : Task) (db : Db)
    (r : Outcome (Option Task) × Db) : Type 0 where
  pub row : r.0 ≡ (
      if is_used evt_id (event_ids db.events)
      then err integrity_error
      else ok (some (apply_patch (claim_patch agent_id now) now t)))
  pub tasks :
      r.1.tasks ≡ modify task_key task_id (apply_patch (claim_patch agent_id now) now) db.tasks
  pub bundles : r.1.bundles ≡ db.bundles
  pub events : r.1.events ≡ (
      if is_used evt_id (event_ids db.events)
      then db.events
      else db.events
        ++ claim_event evt_id (cookbook_id_for_bundle t.bundle_id db) t agent_id now ∷ [])

claimed_found :
    (task_id agent_id : String) (now : Timestamp) (t : Task) (db : Db)
    → find task_key task_id db.tasks ≡ some t
    → find task_key task_id
        (modify task_key task_id (apply_patch (claim_patch agent_id now) now) db.tasks)
      ≡ some (apply_patch (claim_patch agent_id now) now t)
claimed_found task_id agent_id now t db found = ground (
  arith,
  find-modify task_key task_id task_id (apply_patch (claim_patch agent_id now) now) db.tasks
      (λ a. refl),
  eq_refl task_id,
)

publish_some-rest :
    (o : Option Task) (task_id : String) (c : Option String) (now : Timestamp) (db : Db)
    → let db' = publish_some o task_id c now db in
      (db'.tasks ≡ db.tasks) × (db'.bundles ≡ db.bundles) × (db'.events ≡ db.events)
unfolding publish
publish_some-rest none task_id c now db = (refl, refl, refl)
publish_some-rest (some t) task_id c now db = (refl, refl, refl)

do_claim-Claimed :
    (task_id agent_id evt_id : String) (now : Timestamp) (t : Task) (db : Db)
    → Tasks.get task_id db ≡ some t
    → Claimed task_id agent_id evt_id now t db (do_claim task_id agent_id evt_id now t db)
unfolding do_claim Tasks.update Events.create Events.insert Tasks.get
do_claim-Claimed task_id agent_id evt_id now t db found =
    elim (Bool-cases (is_used evt_id (event_ids db.events))) [
      | inl used ↦
          rw used
            (record { row = rw used refl; tasks = refl; bundles = refl; events = rw used refl })
      | inr fresh ↦ rw fresh (record {
        row = rw fresh (ap ok (claimed_found task_id agent_id now t db found));
        tasks = (publish_some-rest _ task_id _ now _).0;
        bundles = (publish_some-rest _ task_id _ now _).1;
        events = rw fresh ((publish_some-rest _ task_id _ now _).2);
      })
    ]

-- A claim of a row that exists goes ahead exactly where the row is open, the agent holds no
-- active task in the scope and every dependency is done. It then patches that row alone, and
-- returns the patched row and appends the claim's event, or, where the event's id is used
-- already, raises the integrity error and appends nothing. Otherwise it returns None and changes
-- nothing.
pub claim_task-exact :
    (task_id agent_id evt_id : String) (cookbook_id : Option String) (now : Timestamp) (t : Task)
    (db : Db)
    → Tasks.get task_id db ≡ some t
    → (IsClaimable t agent_id cookbook_id db
        × Claimed task_id agent_id evt_id now t db
            (claim_task task_id agent_id cookbook_id evt_id now db))
      ⊎ ((IsClaimable t agent_id cookbook_id db → ⊥)
          × (claim_task task_id agent_id cookbook_id evt_id now db ≡ (ok none, db)))
claim_task-exact task_id agent_id evt_id c now t db found =
    elim (Bool-cases (can_claim t agent_id c db)) [
      | inl granted ↦ inl (
        can_claim→IsClaimable t agent_id c db granted,
        rw (claim_granted task_id agent_id evt_id c now db t found granted)
            (do_claim-Claimed task_id agent_id evt_id now t db found),
      )
      | inr refused ↦ inr (
        (λ k. cc (refused, IsClaimable→can_claim t agent_id c db k)),
        claim_refused task_id agent_id evt_id c now db t found refused,
      )
    ]
