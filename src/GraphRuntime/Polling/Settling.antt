-- ===== src/GraphRuntime/Polling/Settling.antt =====
-- When the waits of src/krewhub/services/graph_runtime/polling.py return.
use krewhub.Prelude.{
  ℕ, zero, suc, String, ◌≡◌, refl, ap, true, false, Option, some, List, [], ◌∷◌, All, ◌↔◌, arith,
  Bool-cases, inl, inr, Option-cases,
}
use krewhub.Models.{Task}
use krewhub.Models.Status.{TaskStatus, is_terminal}
use krewhub.GraphRuntime.Polling.{
  Look, Standing, missing, satisfied, failed, waiting, standing, ready, Round, next, stop, take_dep,
  round, wait_rounds, wait_pending, named_deps, wait_for_dependencies, terminal, wait_terminal,
  wait_for_task_terminal,
}

-- From round k on and within n rounds the dependency is there and waited for, until a read finds
-- the status that is asked for.
pub data Settles (accept_when : TaskStatus) (look : Look) (dep_id : String) : ℕ → ℕ → Type 0 where
  now :
      {k n : ℕ}
      → standing accept_when (look k dep_id) ≡ satisfied
      → Settles accept_when look dep_id k (suc n)
  later :
      {k n : ℕ}
      → standing accept_when (look k dep_id) ≡ waiting
      → Settles accept_when look dep_id (suc k) n
      → Settles accept_when look dep_id k (suc n)

module _ (accept_when : TaskStatus) (look : Look) where
  -- Of the dependencies, a round that does not stop keeps those that settle later.
  abbrev Kept : ℕ → ℕ → List String → Round → Type 0
  Kept k n ids (next rest) = All (λ d. Settles accept_when look d (suc k) n) rest
  Kept k n ids (stop w) = ⊥

  -- A dependency that settles leaves the round going.
  take_dep-Kept :
      (k n : ℕ) (d : String) (ids : List String) (others : Round)
      → Settles accept_when look d k (suc n)
      → Kept k n ids others
      → Kept k n (d ∷ ids) (take_dep (standing accept_when (look k d)) d others)
  take_dep-Kept k n d ids others (now e) h = rw e h
  take_dep-Kept k n d ids (next rest) (later e s) h = rw e (s, h)
  take_dep-Kept k n d ids (stop w) (later e s) h = absurd h

  round-Kept :
      (k n : ℕ) (ids : List String)
      → All (λ d. Settles accept_when look d k (suc n)) ids
      → Kept k n ids (round accept_when look k ids)
  unfolding round
  round-Kept k n [] h = tt
  round-Kept k n (d ∷ ids) h =
      take_dep-Kept k n d ids (round accept_when look k ids) h.0 (round-Kept k n ids h.1)

  abbrev Continues : ℕ → ℕ → Round → Type 0
  Continues n k (stop w) = w ≡ ready
  Continues n k (next []) = Unit
  Continues n k (next (d ∷ ids)) = wait_rounds accept_when look n (suc k) (d ∷ ids) ≡ ready

  step_ready :
      (n k : ℕ) (ids : List String) (r : Round)
      → round accept_when look k ids ≡ r
      → Continues n k r
      → wait_rounds accept_when look (suc n) k ids ≡ ready
  unfolding wait_rounds
  step_ready n k ids (stop w) e h = rw (e, wait_rounds) h
  step_ready n k ids (next []) e h = rw (e, wait_rounds) refl
  step_ready n k ids (next (d ∷ rest)) e h = rw (e, wait_rounds) h

  ready_step :
      (n k : ℕ) (ids : List String) (r : Round)
      → round accept_when look k ids ≡ r
      → wait_rounds accept_when look (suc n) k ids ≡ ready
      → Continues n k r
  unfolding wait_rounds
  ready_step n k ids (stop w) e h = rw (e, wait_rounds) at h
  ready_step n k ids (next []) e h = tt
  ready_step n k ids (next (d ∷ rest)) e h = rw (e, wait_rounds) at h

  wait_rounds_returns :
      (n k : ℕ) (d : String) (ids : List String)
      → All (λ d. Settles accept_when look d k n) (d ∷ ids)
      → wait_rounds accept_when look n k (d ∷ ids) ≡ ready
  wait_rounds_returns zero k d ids h = elim h.0 [ ]
  wait_rounds_returns (suc n) k d ids h =
      step_ready n k (d ∷ ids) (round accept_when look k (d ∷ ids)) refl (
        goes_on (round accept_when look k (d ∷ ids)) (round-Kept k n (d ∷ ids) h)
          (wait_rounds_returns n (suc k)))
    where
      goes_on :
          (r : Round)
          → Kept k n (d ∷ ids) r
          → ((e : String) (es : List String)
              → All (λ x. Settles accept_when look x (suc k) n) (e ∷ es)
              → wait_rounds accept_when look n (suc k) (e ∷ es) ≡ ready)
          → Continues n k r
      goes_on (stop w) kept ih = absurd kept
      goes_on (next []) kept ih = tt
      goes_on (next (e ∷ es)) kept ih = ih e es kept

  -- What a round that went on says of its dependencies.
  take_dep-Settles :
      (k n : ℕ) (d : String) (s : Standing) (others : Round) (rest : List String)
      → standing accept_when (look k d) ≡ s
      → take_dep s d others ≡ next rest
      → All (λ x. Settles accept_when look x (suc k) n) rest
      → Settles accept_when look d k (suc n)
        × ((more : List String) × (others ≡ next more)
            × All (λ x. Settles accept_when look x (suc k) n) more)
  take_dep-Settles k n d missing others rest e h all = cc
  take_dep-Settles k n d (failed st reason) others rest e h all = cc
  take_dep-Settles k n d satisfied others rest e h all = (now e, (rest, h, all))
  take_dep-Settles k n d waiting (stop w) rest e h all = cc
  take_dep-Settles k n d waiting (next more) [] e h all = absurd (cc)
  take_dep-Settles k n d waiting (next more) (x ∷ rest) e h all =
      let head : d ≡ x = ground arith in
      let tail : more ≡ rest = ground arith in
      rw head (later (rw head at e) all.0, (more, refl, rw tail all.1))

  round-Settles :
      (k n : ℕ) (ids rest : List String)
      → round accept_when look k ids ≡ next rest
      → All (λ x. Settles accept_when look x (suc k) n) rest
      → All (λ x. Settles accept_when look x k (suc n)) ids
  unfolding round
  round-Settles k n [] rest e all = tt
  round-Settles k n (d ∷ ids) rest e all =
      let (s, (more, e', all')) =
        take_dep-Settles k n d (standing accept_when (look k d)) (round accept_when look k ids) rest
          refl e all in
      (s, round-Settles k n ids more e' all')

  -- No round stops with a return.
  take_dep-not_ready :
      (s : Standing) (d : String) (others : Round)
      → (others ≡ stop ready → ⊥)
      → take_dep s d others ≡ stop ready
      → ⊥
  take_dep-not_ready missing d others h e = cc
  take_dep-not_ready satisfied d others h e = h e
  take_dep-not_ready (failed st reason) d others h e = cc
  take_dep-not_ready waiting d (next ids) h e = cc
  take_dep-not_ready waiting d (stop w) h e = h e

  round-not_ready : (k : ℕ) (ids : List String) → round accept_when look k ids ≡ stop ready → ⊥
  unfolding round
  round-not_ready k [] e = cc
  round-not_ready k (d ∷ ids) e =
      take_dep-not_ready (standing accept_when (look k d)) d (round accept_when look k ids)
        (round-not_ready k ids) e

  wait_rounds_settled :
      (n k : ℕ) (ids : List String)
      → wait_rounds accept_when look n k ids ≡ ready
      → All (λ d. Settles accept_when look d k n) ids
  unfolding wait_rounds
  wait_rounds_settled zero k ids h = absurd (cc)
  wait_rounds_settled (suc n) k ids h =
      settled (round accept_when look k ids) refl
        (ready_step n k ids (round accept_when look k ids) refl h) (wait_rounds_settled n (suc k))
    where
      settled :
          (r : Round)
          → round accept_when look k ids ≡ r
          → Continues n k r
          → ((es : List String)
              → wait_rounds accept_when look n (suc k) es ≡ ready
              → All (λ x. Settles accept_when look x (suc k) n) es)
          → All (λ d. Settles accept_when look d k (suc n)) ids
      settled (stop w) e c ih = absurd (round-not_ready k ids (rw c at e))
      settled (next []) e c ih = round-Settles k n ids [] e tt
      settled (next (x ∷ rest)) e c ih = round-Settles k n ids (x ∷ rest) e (ih (x ∷ rest) c)

  wait_pending-ready :
      (rounds : ℕ) (ids : List String)
      → (wait_pending accept_when look rounds ids ≡ ready)
        ↔ All (λ d. Settles accept_when look d 0 rounds) ids
  wait_pending-ready rounds [] = ((λ h. tt), (λ h. refl))
  wait_pending-ready rounds (d ∷ ids) =
      (wait_rounds_settled rounds 0 (d ∷ ids), wait_rounds_returns rounds 0 d ids)

  -- The wait for dependencies returns within its rounds exactly where each dependency that has a
  -- name is found, round after round, neither missing nor in another terminal status, until
  -- within those rounds a read finds the status that is asked for.
  pub wait_for_dependencies-ready :
      (rounds : ℕ) (dep_task_ids : List String)
      → (wait_for_dependencies accept_when look rounds dep_task_ids ≡ ready)
        ↔ All (λ d. Settles accept_when look d 0 rounds) (named_deps dep_task_ids)
  unfolding wait_for_dependencies
  wait_for_dependencies-ready rounds dep_task_ids =
      wait_pending-ready rounds (named_deps dep_task_ids)

-- Until the round the row is there with a status that is not terminal.
pub data Stops (look : ℕ → Option Task) (t : Task) : ℕ → ℕ → Type 0 where
  now : {k n : ℕ} → look k ≡ some t → is_terminal t.status ≡ true → Stops look t k (suc n)
  later :
      {k n : ℕ} (u : Task)
      → look k ≡ some u
      → is_terminal u.status ≡ false
      → Stops look t (suc k) n
      → Stops look t k (suc n)

module _ (look : ℕ → Option Task) where
  wait_terminal-Stops :
      (t : Task) {k n : ℕ} → Stops look t k n → wait_terminal look n k ≡ terminal t
  unfolding wait_terminal
  wait_terminal-Stops t (Stops.now e d) = rw (e, wait_terminal) (rw (d, wait_terminal) refl)
  wait_terminal-Stops t (Stops.later u e d s) =
      rw (e, wait_terminal) (rw (d, wait_terminal) (wait_terminal-Stops t s))

  Stops-wait_terminal :
      (t : Task) (n k : ℕ) → wait_terminal look n k ≡ terminal t → Stops look t k n
  unfolding wait_terminal
  Stops-wait_terminal t zero k h = absurd (cc)
  Stops-wait_terminal t (suc n) k h = elim (Option-cases (look k)) [
    | inl e ↦ absurd (cc (rw (e, wait_terminal) at h))
    | inr (u, e) ↦ elim (Bool-cases (is_terminal u.status)) [
      | inl d ↦
          let h' : terminal u ≡ terminal t =
            rw (d, wait_terminal) at (rw (e, wait_terminal) at h) in
          let same : u ≡ t = cc in Stops.now (rw e (ap some same)) (rw same at d)
      | inr d ↦
          Stops.later u e d (
            Stops-wait_terminal t n (suc k) (rw (d, wait_terminal) at (rw (e, wait_terminal) at h)))
    ]
  ]

pub wait_for_task_terminal-exact :
    (look : Look) (rounds : ℕ) (task_id : String) (t : Task)
    → (wait_for_task_terminal look rounds task_id ≡ terminal t)
      ↔ Stops (λ k. look k task_id) t 0 rounds
unfolding wait_for_task_terminal
wait_for_task_terminal-exact look rounds task_id t = (
  Stops-wait_terminal (λ k. look k task_id) t rounds 0,
  wait_terminal-Stops (λ k. look k task_id) t,
)

-- The wait for a task gives a row only where it is terminal.
pub Stops-terminal :
    {look : ℕ → Option Task} (t : Task) {k n : ℕ} → Stops look t k n → is_terminal t.status ≡ true
Stops-terminal t (Stops.now e d) = d
Stops-terminal t (Stops.later u e d s) = Stops-terminal t s
