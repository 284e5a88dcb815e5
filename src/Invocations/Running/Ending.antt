-- ===== src/Invocations/Running/Ending.antt =====
-- That a run of src/krewhub/services/invocation_service.py ends its invocation.
use krewhub.Prelude.{String, ◌≡◌, ◌≢◌, refl, true, Option, none, some, Bool-cases, inl, inr}
use krewhub.Prelude.Table.{find}
use krewhub.Models.{Timestamp}
use krewhub.Models.JsonData.{Json, Fields, null, bool, int, float, str, arr, obj, get}
use krewhub.Invocations
use krewhub.Invocations.{
  Action, ResultEnvelope, Invocation, Store, invocation_key, is_terminal, action_to_status,
  ended_row, set_terminal, finalize, hand_off, write_tape, run_key, done_entry,
}
use krewhub.Invocations.Schema.{
  Check, pass, refused, crashed, Python, validate_request_schema, required_of,
}
use krewhub.Invocations.Schema.Contents.{
  are_plain_properties, is_plain_required, validate_content-safe,
}
use krewhub.Invocations.Lifecycle.{finalize-row}
use krewhub.Invocations.Running.{
  HandEnd, envelope, result_of_end, submitted_first, is_accept, by_check, check_result,
  against_schema, started_entry, take_end, run,
}

-- The row is there and has ended.
abbrev pub HasEnded : String → Store → Type 0
HasEnded id s = (u : Invocation) × (Invocations.get id s ≡ some u) × (is_terminal u.status ≡ true)

-- A schema that create accepted, with nothing in it that create does not look at.
abbrev pub IsSound : Python → Option Fields → Type 0
IsSound py none = Unit
IsSound py (some schema) =
    (validate_request_schema (obj schema) ≡ pass)
    × (are_plain_properties (get "properties" schema) ≡ true)
    × (is_plain_required (required_of py (get "required" schema)) ≡ true)

action_to_status-terminal : (a : Action) → is_terminal (action_to_status a) ≡ true
unfolding action_to_status
action_to_status-terminal Action.accept = refl
action_to_status-terminal Action.decline = refl
action_to_status-terminal Action.cancel = refl
action_to_status-terminal Action.error = refl
action_to_status-terminal Action.pending = refl

ended_row-terminal :
    (result : ResultEnvelope) (now : Timestamp) (j : Invocation)
    → is_terminal (ended_row (action_to_status result.action) result now j).status ≡ true
ended_row-terminal result now j = elim (Bool-cases (is_terminal j.status)) [
  | inl e ↦ rw e e
  | inr e ↦ rw e (action_to_status-terminal result.action)
]

finalize-HasEnded :
    (isoformat : Timestamp → String) (i : Invocation) (result : ResultEnvelope) (now : Timestamp)
    (s : Store) (j : Invocation)
    → Invocations.get i.id s ≡ some j
    → HasEnded i.id (finalize isoformat i result now s)
finalize-HasEnded isoformat i result now s j found = (
  ended_row (action_to_status result.action) result now j,
  finalize-row isoformat i j result now s found,
  ended_row-terminal result now j,
)

-- The check of a result ends with a result, but where it crashes.
by_check-some :
    (c : Check) (text : String) (result : ResultEnvelope)
    → c ≢ crashed
    → (r : ResultEnvelope) × (by_check c text result ≡ some r)
by_check-some pass text result h = (result, refl)
by_check-some refused text result h = (envelope Action.error text, refl)
by_check-some crashed text result h = absurd (h refl)

module _ (py : Python) (text_of : Fields → Json → String) where
  check_result-some :
      (schema : Fields) (content : Option Json) (result : ResultEnvelope)
      → IsSound py (some schema)
      → (r : ResultEnvelope) × (check_result py text_of schema content result ≡ some r)
  check_result-some schema none result h = (result, refl)
  check_result-some schema (some (str s)) result h = (_, refl)
  check_result-some schema (some null) result h =
      by_check-some _ _ result (validate_content-safe py schema null h.0 h.1 h.2)
  check_result-some schema (some (bool b)) result h =
      by_check-some _ _ result (validate_content-safe py schema (bool b) h.0 h.1 h.2)
  check_result-some schema (some (int b)) result h =
      by_check-some _ _ result (validate_content-safe py schema (int b) h.0 h.1 h.2)
  check_result-some schema (some (float b)) result h =
      by_check-some _ _ result (validate_content-safe py schema (float b) h.0 h.1 h.2)
  check_result-some schema (some (arr b)) result h =
      by_check-some _ _ result (validate_content-safe py schema (arr b) h.0 h.1 h.2)
  check_result-some schema (some (obj b)) result h =
      by_check-some _ _ result (validate_content-safe py schema (obj b) h.0 h.1 h.2)

  against_schema-some :
      (schema : Option Fields) (result : ResultEnvelope)
      → IsSound py schema
      → (r : ResultEnvelope) × (against_schema py text_of schema result ≡ some r)
  against_schema-some none result h = (result, refl)
  against_schema-some (some schema) result h = elim (Bool-cases (is_accept result.action)) [
    | inl e ↦ rw e (check_result-some schema result.content result h)
    | inr e ↦ rw e (result, refl)
  ]

  module _ (isoformat : Timestamp → String) (quote : String → String) where
    take_end-HasEnded :
        (i : Invocation) (hand_end : HandEnd) (now : Timestamp) (s : Store) (j : Invocation)
        → IsSound py i.schema
        → Invocations.get i.id s ≡ some j
        → HasEnded i.id (take_end py text_of isoformat quote i hand_end now s)
    unfolding take_end
    take_end-HasEnded i hand_end now s j sound found =
        let r = find run_key i.id s.runs in
        let (result, e) =
          against_schema-some i.schema (submitted_first r (result_of_end hand_end r)) sound in
        rw e (finalize-HasEnded isoformat i result now s j found)

    -- Where the schema of an invocation is absent, or is accepted with required a value that
    -- lists no list and no dict, with no enum that a text cannot be looked up in and with no
    -- oneOf in an items schema, and where the others keep the row, a run leaves the row with a
    -- terminal status, however the hand ends, whatever it returns or was submitted, and also
    -- where no hand is registered.
    pub run-HasEnded :
        (deadline_ts : Json) (i : Invocation) (hand : Option HandEnd) (meanwhile : Store → Store)
        (now : Timestamp) (s : Store) (j : Invocation)
        → IsSound py i.schema
        → Invocations.get i.id s ≡ some j
        → ((t : Store) (k : Invocation)
            → Invocations.get i.id t ≡ some k
            → (l : Invocation) × (Invocations.get i.id (meanwhile t) ≡ some l))
        → HasEnded i.id (run py text_of isoformat quote deadline_ts i hand meanwhile now s)
    unfolding run Invocations.get
    run-HasEnded deadline_ts i none meanwhile now s j sound found keeps =
        finalize-HasEnded isoformat i _ now
          (write_tape isoformat i.tape_id (some i.id) (started_entry py text_of deadline_ts i) now
            s)
          j found
    run-HasEnded deadline_ts i (some hand_end) meanwhile now s j sound found keeps =
        let started =
          write_tape isoformat i.tape_id (some i.id) (started_entry py text_of deadline_ts i) now
            s in
        let (l, there) = keeps started j found in
        take_end-HasEnded i hand_end now (meanwhile started) l sound there
