-- ===== src/Db/Tasks/Versions.antt =====
-- TaskRepo.update of src/krewhub/repositories/task_repo.py: its version check decides between
-- concurrent writers.
use krewhub.Prelude.{
  ℕ, String, ◌≡◌, ◌≢◌, if◌then◌else◌, refl, ap, ◌∙◌, true, false, ◌&&◌, some, any, arith, nat_eq,
  ◌==◌,
}
use krewhub.Prelude.Table.{find, modify, find-modify_same}
use krewhub.Prelude.Table.Unique.{Unique, any-find, Unique-modify, modify_kept}
use krewhub.Models.{Task, Timestamp}
use krewhub.Db.{Db, ok, err, stale_resource}
use krewhub.Db.Tasks.{
  task_key, get, TaskPatch, sets_something, apply_patch, version_ok, update, update_result,
}

version_ok_refl : (v : ℕ) → version_ok (some v) v ≡ true
version_ok_refl v = ground arith

nat_eq_same : (v w : ℕ) → v ≡ w → nat_eq v w ≡ true
nat_eq_same v w same = ground arith

nat_eq_other : (v w : ℕ) → v ≢ w → nat_eq v w ≡ false
nat_eq_other v w other = ground arith

module _ (task_id : String) (p : TaskPatch) (v : ℕ) (now : Timestamp) (db : Db) (t : Task)
    (sets : sets_something p ≡ true) (expects : p.expected_version ≡ some v)
    (found : get task_id db ≡ some t) (unique : Unique task_key db.tasks) where
  touched :
      any (λ a. (a.id == task_id) && version_ok (some v) a.resource_version) db.tasks
      ≡ nat_eq t.resource_version v
  unfolding get
  touched =
      rw (any-find task_key task_id (λ a. version_ok (some v) a.resource_version) db.tasks unique)
        (rw found refl)

  abbrev written : Task → Task
  written a = if version_ok (some v) a.resource_version then apply_patch p now a else a

  written-id : (a : Task) → (written a).id ≡ a.id
  written-id a = ground arith

  at_key : find task_key task_id db.tasks ≡ some t
  unfolding get
  at_key = found

  row :
      t.resource_version ≡ v
      → find task_key task_id (modify task_key task_id written db.tasks)
        ≡ some (apply_patch p now t)
  row same =
      find-modify_same task_key task_id written db.tasks t written-id at_key
      ∙ ap some (rw same (rw (version_ok_refl v) refl))

  update_fresh :
      t.resource_version ≡ v
      → let r = update task_id p now db in
        (r.0 ≡ ok (some (apply_patch p now t)))
        × (get task_id r.1 ≡ some (apply_patch p now t))
        × Unique task_key r.1.tasks
  unfolding update get
  update_fresh same =
      rw (sets, update)
        (rw (expects, update)
          (rw (touched, update)
            (rw (nat_eq_same t.resource_version v same) (
              ap ok (row same),
              row same,
              Unique-modify task_key task_id written db.tasks written-id unique,
            ))))

  update_stale : t.resource_version ≢ v → update task_id p now db ≡ (err stale_resource, db)
  unfolding update get
  update_stale other =
      rw (sets, update)
        (rw (expects, update)
          (rw (touched, update)
            (rw (nat_eq_other t.resource_version v other) (
              rw (modify_kept task_key task_id written db.tasks unique kept)
                (rw (at_key, update_result) refl)))))
    where
      kept : (a : Task) → find task_key task_id db.tasks ≡ some a → written a ≡ a
      kept a here = ground (arith, at_key)

-- Where ids are unique, of two updates that both set something and expect the version that the
-- row has, the first patches the row and returns it, and the second raises StaleResourceError and
-- changes nothing.
pub update-one_writer :
    (task_id : String) (p q : TaskPatch) (now later : Timestamp) (t : Task) (db : Db)
    → get task_id db ≡ some t
    → Unique task_key db.tasks
    → sets_something p ≡ true
    → sets_something q ≡ true
    → p.expected_version ≡ some t.resource_version
    → q.expected_version ≡ some t.resource_version
    → let r = update task_id p now db in
      (r.0 ≡ ok (some (apply_patch p now t)))
      × (update task_id q later r.1 ≡ (err stale_resource, r.1))
update-one_writer task_id p q now later t db found unique sets_p sets_q expects_p expects_q =
    let (row, kept, unique') =
      update_fresh task_id p t.resource_version now db t sets_p expects_p found unique refl in
    (
      row,
      update_stale task_id q t.resource_version later (update task_id p now db).1
          (apply_patch p now t) sets_q expects_q kept unique' (omega arith),
    )
