-- ===== src/TaskService/Posting/Batch.antt =====
-- The loop of post_events_batch (src/krewhub/services/task_service.py): the numbers of the events
-- that it writes, and what stays written where it raises.
use krewhub.Prelude.{
  ℕ, suc, String, ◌≡◌, refl, sym, ap, ◌∙◌, false, Option, none, some, List, [], ◌∷◌, ◌++◌, map,
  length, count_from, All,
}
use mathlib.Core.List.{append_assoc, append-nil}
use krewhub.Models.{Task, Event, Timestamp}
use krewhub.Models.JsonData.{Fields}
use krewhub.Db.{Db, Act, Outcome, ok, err, value_error, continue, publish}
use krewhub.Db.Events
use krewhub.Db.Events.{next_sequence, event_ids, is_used}
use krewhub.Db.Events.Fresh.{AreFresh, create-fresh, event_ids-insert}
use krewhub.Models.Status.{added}
use krewhub.Watch.Channels.{event}
use krewhub.Db.Events.Sequence.{next_sequence-insert}
use krewhub.TaskService.Posting.{
  PostArgs, EventSpec, spec_args, posted_event, append_event, append_batch,
}

-- The types of the dict name members of their enums, and it has a payload.
abbrev pub IsComplete : EventSpec → Type 0
IsComplete spec =
    (args : PostArgs) × (payload : Fields) × (spec_args spec ≡ some args)
    × (args.payload ≡ some payload)

-- What a batch that succeeds returns and leaves.
pub record Appended (task_id : String) (n : ℕ) (db : Db) (r : Outcome (List Event) × Db)
    : Type 0 where
  pub created : List Event
  pub returned : r.0 ≡ ok created
  pub rows : r.1.events ≡ db.events ++ created
  pub numbers : map (λ e. e.sequence) created ≡ count_from (next_sequence task_id db) n

module _ (task_id : String) (c : Option String) (t : Task) (now : Timestamp) where
  -- The event, its tape entry and its watch record.
  abbrev event_added : Event → Db → Db
  event_added e db = publish "event" e.id added (event e) c now (Events.insert e db)

  append_event_ok :
      (args : PostArgs) (payload : Fields) (id : String) (db : Db)
      → args.payload ≡ some payload
      → is_used id (event_ids db.events) ≡ false
      → let e = posted_event id c t args payload (next_sequence task_id db) now in
        append_event task_id c t args id now db ≡ (ok e, event_added e db)
  unfolding append_event
  append_event_ok args payload id db has fresh =
      let e = posted_event id c t args payload (next_sequence task_id db) now in
      rw (has, append_event) (rw (create-fresh e db fresh) refl)

  next_sequence-event_added :
      (e : Event) (db : Db)
      → e.task_id ≡ some task_id
      → e.sequence ≡ next_sequence task_id db
      → next_sequence task_id (event_added e db) ≡ suc (next_sequence task_id db)
  unfolding publish next_sequence
  next_sequence-event_added e db mine numbered = next_sequence-insert task_id e db mine numbered

  event_added-events : (e : Event) (db : Db) → (event_added e db).events ≡ db.events ++ e ∷ []
  unfolding publish Events.insert
  event_added-events e db = refl

  ids-event_added :
      (e : Event) (db : Db) → event_ids (event_added e db).events ≡ event_ids db.events ++ e.id ∷ []
  unfolding publish
  ids-event_added e db = event_ids-insert e db

  step :
      (e : Event) (n : ℕ) (db : Db) (rest : Act (List Event))
      → e.task_id ≡ some task_id
      → e.sequence ≡ next_sequence task_id db
      → Appended task_id n (event_added e db) (rest (event_added e db))
      → Appended task_id (suc n) db (
          continue
            (rest (event_added e db)).0
            (λ created db. (ok (e ∷ created), db))
            (rest (event_added e db)).1)
  step e n db rest mine numbered h = record {
    created = e ∷ h.created;
    returned = rw h.returned refl;
    rows = rw h.returned (
        h.rows
        ∙ ap (λ r. r ++ h.created) (event_added-events e db)
        ∙ append_assoc db.events (e ∷ []) h.created);
    numbers = rw h.numbers (rw (next_sequence-event_added e db mine numbered) (rw numbered refl));
  }

  fresh_after :
      (n : ℕ) (ids : ℕ → String) (e : Event) (db : Db)
      → e.id ≡ ids 0
      → AreFresh n (λ i. ids (suc i)) (event_ids db.events ++ ids 0 ∷ [])
      → AreFresh n (λ i. ids (suc i)) (event_ids (event_added e db).events)
  fresh_after n ids e db is h = rw (ids-event_added e db) (rw is h)

  -- A batch of complete dicts under ids that are used neither in the table nor twice returns one
  -- event for each, appends them to the table in their order, and numbers them consecutively from
  -- the task's next number.
  pub append_batch-consecutive :
      (specs : List EventSpec) (ids : ℕ → String) (db : Db)
      → t.id ≡ task_id
      → All IsComplete specs
      → AreFresh (length specs) ids (event_ids db.events)
      → Appended task_id (length specs) db (append_batch task_id c t specs ids now db)
  unfolding append_batch
  append_batch-consecutive [] ids db mine h fresh = record {
    created = [];
    returned = refl;
    rows = sym (append-nil db.events);
    numbers = refl;
  }
  append_batch-consecutive (spec ∷ specs) ids db mine ((args, payload, is_args, has), h)
        (new, later) =
      let e = posted_event (ids 0) c t args payload (next_sequence task_id db) now in
      rw (is_args, append_batch)
        (rw (append_event_ok args payload (ids 0) db has new) (
          step e (length specs) db (append_batch task_id c t specs (λ i. ids (suc i)) now)
            (ap some mine) refl
            (append_batch-consecutive specs (λ i. ids (suc i)) (event_added e db) mine h
              (fresh_after (length specs) ids e db refl later))))

  leaves :
      (r : Outcome (List Event)) (e : Event) (db : Db)
      → (continue r (λ created db. (ok (e ∷ created), db)) db).1 ≡ db
  leaves (ok es) e db = refl
  leaves (err x) e db = refl

  -- Where a dict names no member of an enum after dicts that are complete, and the ids of the
  -- events before it are used neither in the table nor twice, the batch raises ValueError, and
  -- the events of the dicts before it stay written.
  pub append_batch-partial :
      (specs : List EventSpec) (bad : EventSpec) (rest : List EventSpec) (ids : ℕ → String)
      (db : Db)
      → All IsComplete specs
      → AreFresh (length specs) ids (event_ids db.events)
      → spec_args bad ≡ none
      → append_batch task_id c t (specs ++ bad ∷ rest) ids now db
        ≡ (err value_error, (append_batch task_id c t specs ids now db).1)
  unfolding append_batch
  append_batch-partial [] bad rest ids db h fresh fails = rw (fails, append_batch) refl
  append_batch-partial (spec ∷ specs) bad rest ids db ((args, payload, is_args, has), h)
        (new, later) fails =
      let e = posted_event (ids 0) c t args payload (next_sequence task_id db) now in
      rw (is_args, append_batch)
        (rw (append_event_ok args payload (ids 0) db has new) (
          rw
            (append_batch-partial specs bad rest (λ i. ids (suc i)) (event_added e db) h
              (fresh_after (length specs) ids e db refl later) fails)
            (ap (λ r. (err value_error, r))
              (sym (
                leaves (append_batch task_id c t specs (λ i. ids (suc i)) now (event_added e db)).0
                  e _)))))
