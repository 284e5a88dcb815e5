-- ===== src/Invocations/Lifecycle.antt =====
-- The life of an invocation (src/krewhub/repositories/invocation_repo.py and
-- src/krewhub/services/invocation_service.py): what ends it, and what holds from then on.
use krewhub.Prelude.{
  String, ◌≡◌, refl, ap, ◌∙◌, true, false, Option, none, some, List, [], ◌∷◌, arith, Bool-cases,
  inl, inr, ◌==◌,
}
use krewhub.Prelude.Table.{find, modify, find-modify, find-modify_same}
use krewhub.Models.{Timestamp}
use krewhub.Invocations
use krewhub.Invocations.{
  Action, ResultEnvelope, InvocationStatus, Invocation, Run, Store, Delivery, delivered, conflict,
  unknown, hand_off, invocation_key, run_key, is_terminal, is_pending, started_row, ended_row,
  set_running, set_terminal, action_to_status, finalize, deliver_result, cancel_invocation,
  offer_result, fire,
}

-- What the service does to an invocation.
pub data Call : Type 0 where
  start : String → Timestamp → Call
  settle : Invocation → ResultEnvelope → Timestamp → Call
  submit : String → ResultEnvelope → Timestamp → Call
  cancel : String → String → Call

module _ (isoformat : Timestamp → String) where
  unfoldable pub perform : Call → Store → Store
  perform (start id now) s = set_running id now s
  perform (settle i result now) s = finalize isoformat i result now s
  perform (submit id result now) s = (deliver_result isoformat id result now s).1
  perform (cancel id reason) s = cancel_invocation id reason s

  unfoldable pub perform_all : List Call → Store → Store
  unfolding perform
  perform_all [] s = s
  perform_all (c ∷ cs) s = perform_all cs (perform c s)

  -- A change of one row that leaves terminal rows alone leaves this one alone.
  kept :
      (id k : String) (f : Invocation → Invocation) (i : Invocation) (rows : List Invocation)
      → ((j : Invocation) → (f j).id ≡ j.id)
      → (is_terminal i.status ≡ true → f i ≡ i)
      → find invocation_key id rows ≡ some i
      → is_terminal i.status ≡ true
      → find invocation_key id (modify invocation_key k f rows) ≡ some i
  kept id k f i rows keeps fixes found ended = rw (find-modify invocation_key k id f rows keeps) (
      rw found (elim (Bool-cases (k == id)) [
        | inl hit ↦ rw hit (ap some (fixes ended))
        | inr miss ↦ rw miss refl
      ]))

  hand_off-invocations :
      (i : Invocation) (result : ResultEnvelope) (now : Timestamp) (s : Store) (o : Option String)
      → i.parent_tape_id ≡ o
      → (hand_off isoformat i result now s).invocations ≡ s.invocations
  hand_off-invocations i result now s none e = rw e refl
  hand_off-invocations i result now s (some p) e = rw e refl

  finalize-invocations :
      (i : Invocation) (result : ResultEnvelope) (now : Timestamp) (s : Store)
      → (finalize isoformat i result now s).invocations
        ≡ modify invocation_key i.id
            (ended_row (action_to_status result.action) result now)
            s.invocations
  unfolding finalize set_terminal
  finalize-invocations i result now s = hand_off-invocations i result now _ i.parent_tape_id refl

  deliver_result-invocations :
      (id : String) (result : ResultEnvelope) (now : Timestamp) (s : Store)
      → (deliver_result isoformat id result now s).1.invocations ≡ s.invocations
  unfolding deliver_result
  deliver_result-invocations id result now s = ground arith

  cancel-invocations :
      (id reason : String) (s : Store) → (cancel_invocation id reason s).invocations ≡ s.invocations
  unfolding cancel_invocation
  cancel-invocations id reason s = ground arith

  perform-kept :
      (c : Call) (id : String) (i : Invocation) (s : Store)
      → find invocation_key id s.invocations ≡ some i
      → is_terminal i.status ≡ true
      → find invocation_key id (perform c s).invocations ≡ some i
  unfolding perform set_running
  perform-kept (start k now) id i s found ended =
      kept id k (started_row now) i s.invocations (λ j. ground arith) (λ _. ground arith) found
        ended
  perform-kept (settle j result now) id i s found ended = rw (finalize-invocations j result now s) (
      kept id j.id (ended_row (action_to_status result.action) result now) i s.invocations
        (λ j. ground arith) (λ _. ground arith) found ended)
  perform-kept (submit k result now) id i s found ended =
      rw (deliver_result-invocations k result now s) found
  perform-kept (cancel k reason) id i s found ended = rw (cancel-invocations k reason s) found

  -- Once an invocation is terminal, its row, the result included, never changes again, whatever
  -- calls of start, finalize, submit and cancel follow.
  pub perform_all-terminal :
      (cs : List Call) (id : String) (i : Invocation) (s : Store)
      → Invocations.get id s ≡ some i
      → is_terminal i.status ≡ true
      → Invocations.get id (perform_all cs s) ≡ some i
  unfolding perform_all Invocations.get
  perform_all-terminal [] id i s found ended = found
  perform_all-terminal (c ∷ cs) id i s found ended =
      perform_all-terminal cs id i (perform c s) (perform-kept c id i s found ended) ended

action_to_status-terminal : (a : Action) → is_terminal (action_to_status a) ≡ true
unfolding action_to_status
action_to_status-terminal a = ground arith

ended_row-terminal :
    (a : Action) (result : ResultEnvelope) (now : Timestamp) (i : Invocation)
    → is_terminal (ended_row (action_to_status a) result now i).status ≡ true
ended_row-terminal a result now i = elim (Bool-cases (is_terminal i.status)) [
  | inl ended ↦ rw ended ended
  | inr live ↦ rw live (action_to_status-terminal a)
]

module _ (isoformat : Timestamp → String) where
  deliver_result_ended :
      (id : String) (i : Invocation) (result : ResultEnvelope) (now : Timestamp) (s : Store)
      → Invocations.get id s ≡ some i
      → is_terminal i.status ≡ true
      → deliver_result isoformat id result now s ≡ (conflict, s)
  unfolding deliver_result
  deliver_result_ended id i result now s found ended = rw (found, deliver_result) (rw ended refl)

  cancel_ended :
      (id reason : String) (i : Invocation) (s : Store)
      → Invocations.get id s ≡ some i
      → is_terminal i.status ≡ true
      → cancel_invocation id reason s ≡ s
  unfolding cancel_invocation
  cancel_ended id reason i s found ended = rw (found, cancel_invocation) (rw ended refl)

  pub finalize-row :
      (i row : Invocation) (result : ResultEnvelope) (now : Timestamp) (s : Store)
      → Invocations.get i.id s ≡ some row
      → Invocations.get i.id (finalize isoformat i result now s)
        ≡ some (ended_row (action_to_status result.action) result now row)
  unfolding Invocations.get
  finalize-row i row result now s found = rw (finalize-invocations isoformat i result now s) (
      find-modify_same invocation_key i.id (ended_row (action_to_status result.action) result now)
        s.invocations row (λ j. ground arith) found)

  -- After _finalize, of whatever result, the invocation's row is terminal, a submitted result is
  -- refused as a conflict, and neither the refusal nor a cancel changes anything.
  pub finalize-closes :
      (i row : Invocation) (result late : ResultEnvelope) (reason : String) (now later : Timestamp)
      (s : Store)
      → Invocations.get i.id s ≡ some row
      → let s' = finalize isoformat i result now s in
        ((ended : Invocation) × (Invocations.get i.id s' ≡ some ended)
          × (is_terminal ended.status ≡ true))
        × (deliver_result isoformat i.id late later s' ≡ (conflict, s'))
        × (cancel_invocation i.id reason s' ≡ s')
  finalize-closes i row result late reason now later s found =
      let s' = finalize isoformat i result now s in
      let ended = ended_row (action_to_status result.action) result now row in
      let at = finalize-row i row result now s found in
      let is = ended_row-terminal result.action result now row in
      (
        (ended, at, is),
        deliver_result_ended i.id ended late later s' at is,
        cancel_ended i.id reason ended s' at is,
      )

  deliver_result_live :
      (id : String) (i : Invocation) (r : Run) (result : ResultEnvelope) (now : Timestamp)
      (s : Store)
      → Invocations.get id s ≡ some i
      → is_terminal i.status ≡ false
      → find run_key id s.runs ≡ some r
      → find run_key id (deliver_result isoformat id result now s).1.runs
        ≡ some (offer_result result r)
  unfolding deliver_result
  deliver_result_live id i r result now s found live has =
      elim (Bool-cases (i.target_type == "human")) [
        | inl human ↦ rw (found, deliver_result) (rw live (rw has (rw human row)))
        | inr other ↦ rw (found, deliver_result) (rw live (rw has (rw other row)))
      ]
    where
      row :
          find run_key id (modify run_key id (offer_result result) s.runs)
          ≡ some (offer_result result r)
      row = find-modify_same run_key id (offer_result result) s.runs r (λ a. ground arith) has

  -- Of two results submitted to a live run that has none yet, the runner keeps the first.
  pub deliver_result-first_wins :
      (id : String) (i : Invocation) (r : Run) (first second : ResultEnvelope)
      (now later : Timestamp) (s : Store)
      → Invocations.get id s ≡ some i
      → is_terminal i.status ≡ false
      → find run_key id s.runs ≡ some r
      → r.external_result ≡ none
      → let once = (deliver_result isoformat id first now s).1 in
        let twice = (deliver_result isoformat id second later once).1 in
        (find run_key id once.runs ≡ some (record r { external_result = some first }))
        × (find run_key id twice.runs ≡ some (record r { external_result = some first }))
  unfolding Invocations.get
  deliver_result-first_wins id i r first second now later s found live has fresh =
      let at = deliver_result_live id i r first now s found live has ∙ ap some (rw fresh refl) in
      let kept =
        still (deliver_result isoformat id first now s).1
          (deliver_result-invocations isoformat id first now s) in
      (
        at,
        deliver_result_live id i (record r { external_result = some first }) second later
            (deliver_result isoformat id first now s).1 kept live at,
      )
    where
      still : (s' : Store) → s'.invocations ≡ s.invocations → Invocations.get id s' ≡ some i
      still s' e = rw (e, Invocations.get) found
