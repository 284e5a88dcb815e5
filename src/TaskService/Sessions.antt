-- ===== src/TaskService/Sessions.antt =====
-- The session token of a task (check_and_stamp_session_token of
-- src/krewhub/services/task_service.py): the first writer's token holds.
use krewhub.Prelude.{
  String, ◌≡◌, refl, ap, ◌∙◌, false, ◌||◌, none, some, arith, ◌==◌, if◌then◌else◌, Bool-cases, inl,
  inr,
}
use krewhub.Prelude.Table.{find-modify_same}
use krewhub.Models.{Task, Timestamp}
use krewhub.Db.{Db, ok, err, session_token_mismatch}
use krewhub.Db.Tasks
use krewhub.Db.Tasks.{task_key, update_where}
use krewhub.TaskService.{check_and_stamp_session_token, stamp_or_compare, is_blank}
use krewhub.TaskService.Posting.{PostArgs, post_event}

module _ (task_id : String) (db : Db) (t : Task) (found : Tasks.get task_id db ≡ some t) where
  check_given :
      (token : String)
      → is_blank (some token) ≡ false
      → check_and_stamp_session_token task_id (some token) db ≡ stamp_or_compare task_id t token db
  unfolding check_and_stamp_session_token
  check_given token given = rw (given, check_and_stamp_session_token) (rw found refl)

  -- Of a row whose token is set.
  check_stamped :
      (stamped token : String)
      → t.session_token ≡ some stamped
      → check_and_stamp_session_token task_id (some token) db ≡ (
          if token == "" || stamped == token then (ok tt, db) else (err session_token_mismatch, db))
  unfolding check_and_stamp_session_token
  check_stamped stamped token has = elim (Bool-cases (token == "")) [
    | inl blank ↦ rw (blank, check_and_stamp_session_token) refl
    | inr given ↦ rw (given, check_and_stamp_session_token) (rw found (rw has refl))
  ]

  pub stamped_row :
      (token : String)
      → t.session_token ≡ none
      → Tasks.get task_id (Tasks.set_session_token task_id token db)
        ≡ some (record t { session_token = some token })
  unfolding Tasks.get Tasks.set_session_token
  stamped_row token fresh =
      find-modify_same task_key task_id _ db.tasks t (λ a. ground arith) found
      ∙ ap some (rw fresh refl)

-- A session without a token yet accepts the first token that is not empty and stamps it. From
-- then on a check succeeds where it gives no token or that token, it raises otherwise, and it
-- changes nothing.
pub check_and_stamp_session_token-first_wins :
    (task_id token later : String) (t : Task) (db : Db)
    → Tasks.get task_id db ≡ some t
    → t.session_token ≡ none
    → is_blank (some token) ≡ false
    → let r = check_and_stamp_session_token task_id (some token) db in
      (r.0 ≡ ok tt)
      × (Tasks.get task_id r.1 ≡ some (record t { session_token = some token }))
      × (check_and_stamp_session_token task_id (some later) r.1 ≡ (
          if later == "" || token == later
          then (ok tt, r.1)
          else (err session_token_mismatch, r.1)))
check_and_stamp_session_token-first_wins task_id token later t db found fresh given =
    let db' = Tasks.set_session_token task_id token db in
    rw (check_given task_id db t found token given) (
      rw fresh (
        refl,
        stamped_row task_id db t found token fresh,
        check_stamped task_id db' (record t { session_token = some token })
            (stamped_row task_id db t found token fresh) token later refl,
      ))

-- An event posted under a token that is not the task's raises the mismatch and changes nothing:
-- the task does not start to work, and no event is written.
pub post_event-mismatch :
    (task_id stamped token : String) (args : PostArgs) (working_id id : String) (now : Timestamp)
    (t : Task) (db : Db)
    → Tasks.get task_id db ≡ some t
    → t.session_token ≡ some stamped
    → is_blank (some token) ≡ false
    → (stamped == token) ≡ false
    → post_event task_id args (some token) working_id id now db ≡ (err session_token_mismatch, db)
unfolding post_event
post_event-mismatch task_id stamped token args working_id id now t db found has given other =
    rw (check_stamped task_id db t found stamped token has) (rw (given, post_event) (rw other refl))
