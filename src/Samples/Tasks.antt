-- ===== src/Samples/Tasks.antt =====
-- Runs of the task service: tests, and one application of each theorem on it.
use krewhub.Prelude.{
  ℕ, zero, suc, ◌≤◌, String, ◌≡◌, refl, ◌⊎◌, none, some, List, [], ◌∷◌, ◌||◌, length, map, arith,
  if◌then◌else◌, ◌==◌,
}
use krewhub.Models.Status
use krewhub.Models.Status.{TaskStatus}
use krewhub.Db.{
  publish, ok, err, session_token_mismatch, value_error, validation_error, stale_resource,
}
use krewhub.Db.Events
use krewhub.Db.Events.{next_sequence, task_events}
use krewhub.Db.Tasks
use krewhub.Db.Tasks.{list_active_by_agent, TaskPatch, no_patch, apply_patch}
use krewhub.Db.Tasks.Versions.{update-one_writer}
use krewhub.TaskService.{claim_task, check_and_stamp_session_token, publish_task_update}
use krewhub.TaskService.Lifecycle.{mark_done, update_and_publish}
use krewhub.TaskService.Claim.{IsClaimable, Claimed, claim_task-exact}
use krewhub.TaskService.Posting.{PostArgs, post_event, append_batch, start_working, append_event}
use krewhub.TaskService.Posting.Batch.{Appended, append_batch-consecutive, append_batch-partial}
use krewhub.TaskService.Posting.Payload.{at_work, post_event-without_payload}
use krewhub.TaskService.Sessions.{check_and_stamp_session_token-first_wins, post_event-mismatch}
use krewhub.TaskService.Single.{IsSingle}
use krewhub.TaskService.Single.Claims.{claim_request}
use krewhub.TaskService.Single.Requests.{Request, serve, serve_all, serve-IsSingle, one_active_task}
use krewhub.Samples.{task_1, task_2, task_3, db_open, db_stamped, said, spec_of}

-- The agent claims the first task, is refused the second while it is at work, and gets it once
-- the first is done.
two_claims :
    let db = (claim_task "task_1" "bob" (some "cb") "evt_1" 10 db_open).1 in
    ((claim_task "task_2" "bob" (some "cb") "evt_2" 11 db).0 ≡ ok none)
    × (map (λ t. t.id) (list_active_by_agent (some "cb") "bob" db) ≡ "task_1" ∷ [])
unfolding claim_task list_active_by_agent Tasks.get Tasks.update publish Events.create
two_claims = (refl, refl)

abbrev day : List Request
day =
    Request.claim "task_1" "bob" "evt_1" 10
    ∷ Request.claim "task_2" "bob" "evt_2" 11
    ∷ Request.finish "task_1" 12
    ∷ Request.claim "task_2" "bob" "evt_3" 13
    ∷ Request.post "task_2" said (some "tok") "evt_4" "evt_5" 14
    ∷ []

-- The agent ends the day at work on the second task.
day_ends :
    map {B = String × TaskStatus}
      (λ t. (t.id, t.status))
      (list_active_by_agent (some "cb") "bob" (serve_all day db_open))
    ≡ ("task_2", TaskStatus.working) ∷ []
unfolding serve_all serve list_active_by_agent post_event check_and_stamp_session_token
    claim_request mark_done Tasks.update publish Events.create update_and_publish
    publish_task_update Tasks.set_session_token start_working append_event
day_ends = refl

db_open-IsSingle : IsSingle db_open.bundles db_open.tasks
db_open-IsSingle = record {
  unique = (refl, (refl, tt));
  only = λ c a. ("", ((λ act. ground arith), ((λ act. ground arith), tt)));
}

one_active_task_example :
    length (list_active_by_agent (some "cb") "bob" (serve_all day db_open)) ≤ 1
one_active_task_example = one_active_task day db_open "cb" "bob" db_open-IsSingle

serve-IsSingle_example :
    let db = serve (Request.claim "task_1" "bob" "evt_1" 10) db_open in IsSingle db.bundles db.tasks
serve-IsSingle_example =
    serve-IsSingle (Request.claim "task_1" "bob" "evt_1" 10) db_open db_open-IsSingle

task_2_open : Tasks.get "task_2" db_open ≡ some task_2
unfolding Tasks.get
task_2_open = refl

task_1_open : Tasks.get "task_1" db_open ≡ some task_1
unfolding Tasks.get
task_1_open = refl

task_3_stamped : Tasks.get "task_3" db_stamped ≡ some task_3
unfolding Tasks.get
task_3_stamped = refl

claim_task-exact_example :
    (IsClaimable task_1 "bob" (some "cb") db_open
      × Claimed "task_1" "bob" "evt_1" 10 task_1 db_open
          (claim_task "task_1" "bob" (some "cb") "evt_1" 10 db_open))
    ⊎ ((IsClaimable task_1 "bob" (some "cb") db_open → ⊥)
        × (claim_task "task_1" "bob" (some "cb") "evt_1" 10 db_open ≡ (ok none, db_open)))
claim_task-exact_example =
    claim_task-exact "task_1" "bob" "evt_1" (some "cb") 10 task_1 db_open task_1_open

check_and_stamp_session_token-first_wins_example :
    let r = check_and_stamp_session_token "task_1" (some "tok") db_open in
    (r.0 ≡ ok tt)
    × (Tasks.get "task_1" r.1 ≡ some (record task_1 { session_token = some "tok" }))
    × (check_and_stamp_session_token "task_1" (some "other") r.1 ≡ (
        if "other" == "" || "tok" == "other"
        then (ok tt, r.1)
        else (err session_token_mismatch, r.1)))
check_and_stamp_session_token-first_wins_example =
    check_and_stamp_session_token-first_wins "task_1" "tok" "other" task_1 db_open task_1_open refl
      refl

post_event-mismatch_example :
    post_event "task_3" said (some "other") "evt_1" "evt_2" 10 db_stamped
    ≡ (err session_token_mismatch, db_stamped)
post_event-mismatch_example =
    post_event-mismatch "task_3" "tok" "other" said "evt_1" "evt_2" 10 task_3 db_stamped
      task_3_stamped refl refl refl

abbrev ids : ℕ → String
ids zero = "evt_11"
ids (suc n) = "evt_12"

append_batch-consecutive_example : Appended "task_1" 2 db_open (
    append_batch "task_1"
      (some "cb")
      task_1
      (spec_of "milestone" ∷ spec_of "thinking" ∷ [])
      ids
      10
      db_open)
unfolding Status.event_type_of Status.actor_type_of
append_batch-consecutive_example =
    append_batch-consecutive "task_1" (some "cb") task_1 10
      (spec_of "milestone" ∷ spec_of "thinking" ∷ []) ids db_open refl
      ((_, _, refl, refl), ((_, _, refl, refl), tt)) (refl, (refl, tt))

append_batch-partial_example :
    append_batch "task_1"
      (some "cb")
      task_1
      (spec_of "milestone" ∷ spec_of "nonsense" ∷ spec_of "thinking" ∷ [])
      ids
      10
      db_open
    ≡ (
      err value_error,
      (append_batch "task_1" (some "cb") task_1 (spec_of "milestone" ∷ []) ids 10 db_open).1,
    )
unfolding Status.event_type_of Status.actor_type_of
append_batch-partial_example =
    append_batch-partial "task_1" (some "cb") task_1 10 (spec_of "milestone" ∷ [])
      (spec_of "nonsense") (spec_of "thinking" ∷ []) ids db_open ((_, _, refl, refl), tt) (refl, tt)
      refl

abbrev retitled : String → TaskPatch
retitled title = record no_patch { title = some title; expected_version = some 1 }

update-one_writer_example :
    let r = Tasks.update "task_1" (retitled "a") 10 db_open in
    (r.0 ≡ ok (some (apply_patch (retitled "a") 10 task_1)))
    × (Tasks.update "task_1" (retitled "b") 11 r.1 ≡ (err stale_resource, r.1))
update-one_writer_example =
    update-one_writer "task_1" (retitled "a") (retitled "b") 10 11 task_1 db_open task_1_open
      (refl, (refl, tt)) refl refl refl refl

abbrev bare : PostArgs
bare = record said { payload = none }

post_event-without_payload_example :
    let r = post_event "task_3" bare none "evt_1" "evt_2" 10 db_stamped in
    (r.0 ≡ err validation_error) × (Tasks.get "task_3" r.1 ≡ some (at_work task_3 10))
post_event-without_payload_example =
    post_event-without_payload "task_3" "evt_1" "evt_2" bare 10 task_3 db_stamped task_3_stamped
      refl refl
