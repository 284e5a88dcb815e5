-- ===== src/TaskService/Single/Posts.antt =====
-- Posting events (post_event and post_events_batch of src/krewhub/services/task_service.py) changes
-- the tasks quietly: the session token is stamped, and a claimed task starts to work.
use krewhub.Prelude.{
  ℕ, suc, String, ◌≡◌, refl, ◌∙◌, Option, none, some, List, [], ◌∷◌, arith, ◌==◌, Bool-cases,
  Option-cases, inl, inr,
}
use krewhub.Models.{Task, Event, Timestamp}
use krewhub.Models.Status.{TaskStatus, ActorType, modified}
use krewhub.Watch.Channels.{task}
use krewhub.Db.{Db, Act, Outcome, ok, err, continue, ◌>>=◌, raise, return, value_error, publish}
use krewhub.Db.Events
use krewhub.Db.Events.{event_ids, is_used}
use krewhub.Db.Tasks
use krewhub.Db.Tasks.{
  task_key, holds, list_active_by_agent, apply_patch, sets_something, TaskPatch, no_patch,
}
use krewhub.TaskService.{
  is_blank, text_of, stamp_or_compare, check_and_stamp_session_token, cookbook_id_for_bundle,
}
use krewhub.TaskService.Visibility.{classify_visibility}
use krewhub.TaskService.Posting.{
  PostArgs, EventSpec, post_event, post_events_batch, start_working, begin_work, note_working,
  spec_args, spec_actor_type, posted_event, working_event, add_event, append_event, append_batch,
}
use krewhub.TaskService.Single.{same, patch, both}
use krewhub.TaskService.Single.Calm.{Calm, Calm-if}

pub Calm-trans : (a b c : Db) → Calm a b → Calm b c → Calm a c
Calm-trans a b c h k = (k.0 ∙ h.0, both h.1 k.1)

module _ {A B : Type 0} where
  pub Calm-continue :
      (db db' : Db) (r : Outcome A) (f : A → Act B)
      → Calm db db'
      → ((a : A) → Calm db' (f a db').1)
      → Calm db (continue r f db').1
  Calm-continue db db' (ok a) f h k = Calm-trans db db' (f a db').1 h (k a)
  Calm-continue db db' (err e) f h k = h

  pub Calm-bind :
      (db : Db) (m : Act A) (f : A → Act B)
      → Calm db (m db).1
      → ((a : A) (db' : Db) → Calm db' (f a db').1)
      → Calm db ((m >>= f) db).1
  Calm-bind db m f h k = Calm-continue db (m db).1 (m db).0 f h (λ a. k a (m db).1)

pub set_session_token-Calm :
    (task_id token : String) (db : Db) → Calm db (Tasks.set_session_token task_id token db)
unfolding Tasks.set_session_token
set_session_token-Calm task_id token db = (
  refl,
  patch task_id _ (record {
    keeps_id = λ t. ground arith;
    keeps_bundle = λ t. ground arith;
    no_claim = λ a t _ h. ground arith;
  }),
)

pub compare-Calm :
    (task_id : String) (t : Task) (token : String) (db : Db) (stamped : Option String)
    → t.session_token ≡ stamped
    → Calm db (stamp_or_compare task_id t token db).1
compare-Calm task_id t token db none e = rw e (set_session_token-Calm task_id token db)
compare-Calm task_id t token db (some s) e =
    rw e (Calm-if db (s == token) _ _ (refl, same) (refl, same))

pub stamp-Calm :
    (task_id : String) (token : Option String) (db : Db)
    → Calm db (check_and_stamp_session_token task_id token db).1
unfolding check_and_stamp_session_token
stamp-Calm task_id token db = elim (Bool-cases (is_blank token)) [
  | inl blank ↦ rw (blank, check_and_stamp_session_token) (refl, same)
  | inr given ↦ elim (Option-cases (Tasks.get task_id db)) [
    | inl missing ↦ rw (given, check_and_stamp_session_token) (rw missing (refl, same))
    | inr (t, found) ↦
        rw (given, check_and_stamp_session_token)
          (rw found (compare-Calm task_id t (text_of token) db t.session_token refl))
  ]
]

pub add_event-Calm :
    (e : Event) (c : Option String) (now : Timestamp) (db : Db) → Calm db (add_event e c now db).1
unfolding publish Events.create Events.insert
add_event-Calm e c now db = elim (Bool-cases (is_used e.id (event_ids db.events))) [
  | inl used ↦ rw used (refl, same)
  | inr fresh ↦ rw fresh (refl, same)
]

pub append_event-Calm :
    (task_id : String) (c : Option String) (t : Task) (args : PostArgs) (id : String)
    (now : Timestamp) (db : Db)
    → Calm db (append_event task_id c t args id now db).1
unfolding append_event
append_event-Calm task_id c t args id now db = elim (Option-cases args.payload) [
  | inl missing ↦ rw (missing, append_event) (refl, same)
  | inr (payload, given) ↦
      let e = posted_event id c t args payload (Events.next_sequence task_id db) now in
      rw (given, append_event)
        (Calm-bind db (add_event e c now) (λ _. return e) (add_event-Calm e c now db)
          (λ _ db'. (refl, same)))
]

pub append_batch-Calm :
    (task_id : String) (c : Option String) (t : Task) (specs : List EventSpec) (ids : ℕ → String)
    (now : Timestamp) (db : Db)
    → Calm db (append_batch task_id c t specs ids now db).1
unfolding append_batch
append_batch-Calm task_id c t [] ids now db = (refl, same)
append_batch-Calm task_id c t (spec ∷ specs) ids now db = elim (Option-cases (spec_args spec)) [
  | inl bad ↦ rw (bad, append_batch) (refl, same)
  | inr (args, good) ↦
      rw (good, append_batch)
        (Calm-bind db (append_event task_id c t args (ids 0) now) _
          (append_event-Calm task_id c t args (ids 0) now db)
          (λ e db'.
            Calm-bind db' (append_batch task_id c t specs (λ i. ids (suc i)) now) _
              (append_batch-Calm task_id c t specs (λ i. ids (suc i)) now db')
              (λ es db''. (refl, same))))
]

pub note_working-Calm :
    (task_id : String) (c : Option String) (t : Task) (actor_id : String) (a : Option ActorType)
    (visibility working_id : String) (now : Timestamp) (updated : Option Task) (db : Db)
    → Calm db (note_working task_id c t actor_id a visibility working_id now updated db).1
unfolding publish
note_working-Calm task_id c t actor_id a visibility working_id now none db = (refl, same)
note_working-Calm task_id c t actor_id none visibility working_id now (some u) db = (refl, same)
note_working-Calm task_id c t actor_id (some a) visibility working_id now (some u) db =
    let db' = publish "task" task_id modified (task u) c now db in
    let e = working_event working_id c t actor_id a visibility now in
    Calm-trans db db' (add_event e c now db').1 (refl, same) (add_event-Calm e c now db')

pub begin_work-Calm :
    (task_id : String) (c : Option String) (t : Task) (actor_id : String) (a : Option ActorType)
    (visibility working_id : String) (now : Timestamp) (db : Db)
    → Tasks.get task_id db ≡ some t
    → t.status ≡ TaskStatus.claimed
    → Calm db (begin_work task_id c t actor_id a visibility working_id now db).1
unfolding begin_work Tasks.update Tasks.get
begin_work-Calm task_id c t actor_id a visibility working_id now db found is_claimed =
    Calm-bind db (Tasks.update task_id (record no_patch { status = some TaskStatus.working }) now)
      (note_working task_id c t actor_id a visibility working_id now)
      (
        refl,
        patch task_id _ (record {
          keeps_id = λ t. refl;
          keeps_bundle = λ t. refl;
          no_claim = λ a t' found' h. ground arith;
        }),
      )
      (λ u db'. note_working-Calm task_id c t actor_id a visibility working_id now u db')

pub start_working-Calm :
    (task_id : String) (c : Option String) (t : Task) (actor_id : String) (a : Option ActorType)
    (visibility working_id : String) (now : Timestamp) (db : Db)
    → Tasks.get task_id db ≡ some t
    → Calm db (start_working task_id c t actor_id a visibility working_id now db).1
unfolding start_working
start_working-Calm task_id c t actor_id a visibility working_id now db found =
    by_status t.status refl
  where
    by_status :
        (s : TaskStatus)
        → t.status ≡ s
        → Calm db (start_working task_id c t actor_id a visibility working_id now db).1
    by_status TaskStatus.claimed e =
        rw (e, start_working)
          (begin_work-Calm task_id c t actor_id a visibility working_id now db found e)
    by_status TaskStatus.opened e = rw (e, start_working) (refl, same)
    by_status _ e = rw (e, start_working) (refl, same)

-- What follows the session check in both operations.
posting-Calm {ℓ} :
    {A : Type ℓ} (task_id : String) (db : Db) (post : Task → Act A)
    → ((t : Task) → Tasks.get task_id db ≡ some t → Calm db (post t db).1)
    → (o : Option Task) → Tasks.get task_id db ≡ o
    → Calm db ((elim o as (λ _. Act A) [ none ↦ raise value_error | some t ↦ post t ]) db).1
posting-Calm task_id db post h none found = (refl, same)
posting-Calm task_id db post h (some t) found = h t found

pub post_event-Calm :
    (task_id : String) (args : PostArgs) (token : Option String) (working_id id : String)
    (now : Timestamp) (db : Db)
    → Calm db (post_event task_id args token working_id id now db).1
unfolding post_event
post_event-Calm task_id args token working_id id now db =
    Calm-bind db (check_and_stamp_session_token task_id token) _ (stamp-Calm task_id token db)
      (λ _ db'.
        posting-Calm task_id db' _
          (λ t found.
            let c = cookbook_id_for_bundle t.bundle_id db' in
            Calm-bind db'
              (start_working task_id c t args.actor_id (some args.actor_type)
                (classify_visibility "task_working") working_id now)
              (λ _. append_event task_id c t args id now)
              (start_working-Calm task_id c t args.actor_id (some args.actor_type)
                (classify_visibility "task_working") working_id now db' found)
              (λ _ db''. append_event-Calm task_id c t args id now db''))
          (Tasks.get task_id db') refl)

pub post_events_batch-Calm :
    (task_id : String) (specs : List EventSpec) (token : Option String) (working_id : String)
    (ids : ℕ → String) (now : Timestamp) (db : Db)
    → Calm db (post_events_batch task_id specs token working_id ids now db).1
unfolding post_events_batch
post_events_batch-Calm task_id [] token working_id ids now db = (refl, same)
post_events_batch-Calm task_id (first ∷ specs) token working_id ids now db =
    Calm-bind db (check_and_stamp_session_token task_id token) _ (stamp-Calm task_id token db)
      (λ _ db'.
        posting-Calm task_id db' _
          (λ t found.
            let c = cookbook_id_for_bundle t.bundle_id db' in
            Calm-bind db'
              (start_working task_id c t first.actor_id (spec_actor_type first) "system" working_id
                now)
              (λ _. append_batch task_id c t (first ∷ specs) ids now)
              (start_working-Calm task_id c t first.actor_id (spec_actor_type first) "system"
                working_id now db' found)
              (λ _ db''. append_batch-Calm task_id c t (first ∷ specs) ids now db''))
          (Tasks.get task_id db') refl)
