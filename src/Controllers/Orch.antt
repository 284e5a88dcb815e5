-- ===== src/Controllers/Orch.antt =====
-- src/krewhub/controllers/orch_controller.py: what it makes of a task that was handed over by a
-- brief, with the Report of src/krewhub/routes/schemas.py.
pub mod Rows
pub mod Once
pub mod Limit
pub mod Parking
use Prim.Native.String.{◌++◌ as append}
use krewhub.Prelude.{
  ℕ, zero, suc, ◌+◌, ◌-◌, String, Bool, true, false, Option, none, some, List, [], ◌∷◌, ◌&&◌, not,
  leb, filter, map, if◌then◌else◌, ◌==◌,
}
use krewhub.Prelude.Table.{find}
use krewhub.Models.{Task, OrchBook, Timestamp}
use krewhub.Models.JsonData.{
  Json, Items, Fields, null, str, int, arr, obj, nil, cons, end, field, pos,
}
use krewhub.Models.JsonData
use krewhub.Models.Status.{
  TaskStatus, EventType, log, milestone, needs_human, blocker, system, modified, is_active, is_done,
}
use krewhub.Models.Status
use krewhub.Db.{Db, Outcome, ok, err, publish}
use krewhub.Db.Tasks
use krewhub.Watch.Channels.{Resource}
use krewhub.TaskService.Posting.{PostArgs, post_event}

-- A row of agent_runtimes; the time is none where it cannot be read.
pub record Runtime : Type 0 where
  pub id : String
  pub status : String
  pub last_seen_at : Option Timestamp

abbrev pub runtime_key : Runtime → String
runtime_key r = r.id

-- The attributes of the controller, with how Python prints a number.
pub record Config : Type 0 where
  pub liveness_timeout : ℕ
  pub max_respawns : ℕ
  pub print : ℕ → String

-- What a round draws: the time and the ids of the event that it posts.
pub record Draw : Type 0 where
  pub now : Timestamp
  pub working_id : String
  pub event_id : String

abbrev pub all_texts : Items → Bool
all_texts nil = true
all_texts (cons (str s) rest) = all_texts rest
all_texts (cons _ rest) = false

-- A field that is a list of texts, or is left out.
abbrev pub is_text_list : Option Json → Bool
is_text_list none = true
is_text_list (some (arr items)) = all_texts items
is_text_list (some _) = false

abbrev pub is_text_value : Option Json → Bool
is_text_value (some (str s)) = true
is_text_value _ = false

-- Report.model_validate
unfoldable pub is_report : Fields → Bool
unfolding JsonData.get
is_report report =
    is_text_value (JsonData.get "status" report)
    && is_text_list (JsonData.get "artifacts" report)
    && is_text_list (JsonData.get "prs" report)
    && is_text_list (JsonData.get "blockers" report)
    && is_text_list (JsonData.get "decisions_needed" report)

unfoldable pub report_ok : Option Fields → Bool
unfolding is_report
report_ok none = false
report_ok (some report) = is_report report

abbrev pub blank_book : OrchBook
blank_book = record {
  respawns = 0;
  last_respawn_at = none;
  accepted_at = none;
  report_invalid = false;
  halted = false;
  awaiting_brain = false;
  managed_by_agent = none;
}

-- dict(task.orch or {})
abbrev pub book_of : Option OrchBook → OrchBook
book_of none = blank_book
book_of (some b) = b

abbrev pub is_some {ℓ} : {A : Type ℓ} → Option A → Bool
is_some none = false
is_some (some a) = true

-- Retired, escalated, or deferred to the brain.
abbrev pub is_settled : OrchBook → Bool
is_settled b = if is_some b.accepted_at then true else if b.halted then true else b.awaiting_brain

abbrev pub is_given : Option String → Bool
is_given none = false
is_given (some s) = not (s == "")

abbrev pub brain_attached : OrchBook → Bool
brain_attached b = is_given b.managed_by_agent

abbrev pub booked : OrchBook → Task → Task
booked b t = record t { orch = some b; resource_version = t.resource_version + 1 }

unfoldable pub write_orch : String → OrchBook → Db → Db
write_orch task_id b = Tasks.update_where task_id (λ t. true) (booked b)

abbrev pub orch_args : EventType → String → Fields → PostArgs
orch_args event_type body payload = record {
  event_type = event_type;
  actor_id = "orch";
  actor_type = system;
  body = body;
  payload = some payload;
  facts = [];
  code_refs = [];
  visibility = none;
}

-- An exception of post_event is logged, and what it wrote stays.
unfoldable pub emit : String → EventType → String → Fields → Draw → Db → Db
emit task_id event_type body payload draw db =
    (post_event task_id (orch_args event_type body payload) none draw.working_id draw.event_id
      draw.now db).1

abbrev pub count_items : Items → ℕ
count_items nil = 0
count_items (cons item rest) = suc (count_items rest)

-- len(report.get("prs") or [])
abbrev pub count_prs : Option Json → ℕ
count_prs (some (arr items)) = count_items items
count_prs _ = 0

abbrev pub prs_of : Option Fields → Option Json
prs_of none = none
prs_of (some report) = JsonData.get "prs" report

abbrev pub prs_text : (ℕ → String) → ℕ → String
prs_text print zero = ""
prs_text print (suc n) = append " (" (append (print (suc n)) " PR(s))")

abbrev pub report_json : Option Fields → Json
report_json none = null
report_json (some report) = obj report

unfoldable pub accept : Config → Task → OrchBook → Draw → Db → Db
accept cfg t b draw db =
    emit t.id milestone
      (append "orch: Report accepted — worker retired"
        (prs_text cfg.print (count_prs (prs_of t.report))))
      (field "orch" (str "accepted") (field "report" (report_json t.report) end)) draw
      (write_orch t.id (record b { accepted_at = some draw.now }) db)

unfoldable pub defer : Task → OrchBook → Draw → Db → Db
defer t b draw db =
    emit t.id log
      "orch: Report valid; deferring acceptance to the attached orch-agent (safety-net standing down)"
      (field "orch" (str "awaiting_brain") end) draw
      (write_orch t.id (record b { awaiting_brain = true }) db)

unfoldable pub escalate : Task → OrchBook → Draw → Db → Db
escalate t b draw db =
    emit t.id needs_human
      "orch: task completed without a valid Report (missing or schema-invalid) — needs human acceptance"
      (field "orch" (str "report_invalid") end) draw
      (write_orch t.id (record b { report_invalid = true }) db)

unfoldable pub handle_done : Config → Task → OrchBook → Draw → Db → Db
unfolding accept defer escalate
handle_done cfg t b draw db =
    if report_ok t.report
    then if brain_attached b
      then if b.awaiting_brain then db else defer t b draw db
      else accept cfg t b draw db
    else if b.report_invalid
    then db
    else escalate t b draw db

abbrev pub seen_since : Timestamp → Option Timestamp → Bool
seen_since cutoff none = false
seen_since cutoff (some at) = leb cutoff at

abbrev pub is_alive : Config → Timestamp → Option Runtime → Bool
is_alive cfg now none = false
is_alive cfg now (some r) =
    not (r.status == "offline") && seen_since (now - cfg.liveness_timeout) r.last_seen_at

abbrev pub publish_row : String → Option Task → Timestamp → Db → Db
publish_row task_id none now db = db
publish_row task_id (some t) now db = publish "task" task_id modified (Resource.task t) none now db

abbrev pub publish_outcome : String → Outcome (Option Task) → Timestamp → Db → Db
publish_outcome task_id (ok found) now db = publish_row task_id found now db
publish_outcome task_id (err e) now db = db

abbrev pub halt_patch : Config → ℕ → Tasks.TaskPatch
halt_patch cfg respawns = record Tasks.no_patch {
  status = some TaskStatus.blocked;
  blocked_reason = some (
      append "orch: respawn limit reached (" (
        append (cfg.print respawns)
          (append "/" (append (cfg.print cfg.max_respawns) ") — needs root-cause review"))));
}

unfoldable pub halt : Config → Task → OrchBook → Draw → Db → Db
halt cfg t b draw db =
    let db1 = write_orch t.id (record b { halted = true }) db in
    let (updated, db2) = Tasks.update t.id (halt_patch cfg b.respawns) draw.now db1 in
    emit t.id blocker
      (append "orch: worker died " (
        append (cfg.print (b.respawns + 1)) (
          append "x; respawn limit ("
            (append (cfg.print cfg.max_respawns) ") reached — parked for root-cause review"))))
      (field "orch" (str "respawn_limit") (field "respawns" (int (pos b.respawns)) end)) draw
      (publish_outcome t.id updated draw.now db2)

unfoldable pub respawn : Config → Task → String → OrchBook → Draw → Db → Db
respawn cfg t runtime_id b draw db =
    let b' = record b { respawns = b.respawns + 1; last_respawn_at = some draw.now } in
    let (reopened, db2) = Tasks.reopen_for_rerun t.id draw.now (write_orch t.id b' db) in
    emit t.id log
      (append "orch: liveness lost on runtime " (
        append runtime_id (
          append "; respawned with Brief replay (attempt " (
            append (cfg.print (b.respawns + 1))
              (append "/" (append (cfg.print cfg.max_respawns) ")"))))))
      (field "orch" (str "respawn")
        (field "runtime_id" (str runtime_id) (field "attempt" (int (pos (b.respawns + 1))) end)))
      draw (publish_row t.id reopened draw.now db2)

-- The legacy claim flow, without a runtime, is left alone.
unfoldable pub check_liveness : Config → List Runtime → Task → OrchBook → Draw → Db → Db
unfolding halt respawn
check_liveness cfg runtimes t b draw db = elim t.assigned_runtime_id [
  | none ↦ db
  | some runtime_id ↦
      if is_alive cfg draw.now (find runtime_key runtime_id runtimes)
      then db
      else if leb cfg.max_respawns b.respawns
      then halt cfg t b draw db
      else respawn cfg t runtime_id b draw db
]

abbrev pub by_status : Config → List Runtime → Task → OrchBook → Draw → Db → Db
by_status cfg runtimes t b draw db =
    if is_done t.status
    then handle_done cfg t b draw db
    else if is_active t.status
    then check_liveness cfg runtimes t b draw db
    else db

unfoldable pub reconcile_row : Config → List Runtime → Task → Draw → Db → Db
unfolding handle_done check_liveness
reconcile_row cfg runtimes t draw db = elim t.brief [
  | none ↦ db
  | some brief ↦
      if is_settled (book_of t.orch) then db else by_status cfg runtimes t (book_of t.orch) draw db
]

abbrev pub reconcile_found : Config → List Runtime → Option Task → Draw → Db → Db
reconcile_found cfg runtimes none draw db = db
reconcile_found cfg runtimes (some t) draw db = reconcile_row cfg runtimes t draw db

unfoldable pub reconcile_task_id : Config → List Runtime → String → Draw → Db → Db
unfolding reconcile_row
reconcile_task_id cfg runtimes task_id draw db =
    reconcile_found cfg runtimes (Tasks.get task_id db) draw db

-- WHERE brief_json IS NOT NULL AND status NOT IN ('cancelled')
abbrev pub is_managed : Task → Bool
is_managed t = is_some t.brief && not (Status.task_status_value t.status == "cancelled")

abbrev pub reconcile_ids : Config → List Runtime → List Task → (String → Draw) → Db → Db
reconcile_ids cfg runtimes [] draws db = db
reconcile_ids cfg runtimes (t ∷ rows) draws db =
    reconcile_ids cfg runtimes rows draws (reconcile_task_id cfg runtimes t.id (draws t.id) db)

unfoldable pub reconcile : Config → List Runtime → (String → Draw) → Db → Db
reconcile cfg runtimes draws db = reconcile_ids cfg runtimes (filter is_managed db.tasks) draws db
