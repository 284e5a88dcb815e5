-- ===== src/Db/Events/Sequence.antt =====
-- The numbers that src/krewhub/repositories/event_repo.py hands out for a task's events.
use krewhub.Prelude.{
  ℕ, suc, ◌≤◌, String, ◌≡◌, true, Option, List, [], ◌∷◌, ◌++◌, max, All, arith, some, filter-append,
  eq_refl,
}
use krewhub.Models.{Event}
use krewhub.Db.{Db}
use krewhub.Db.Events.{max_sequence, task_events, next_sequence, insert}
use krewhub.Db.Tasks.{is_text}

-- The next number of a task is above the numbers of all its events.
next_sequence-above :
    (task_id : String) (db : Db)
    → All (λ e. suc e.sequence ≤ next_sequence task_id db) (task_events task_id db.events)
unfolding next_sequence
next_sequence-above task_id db =
    go (task_events task_id db.events) (max_sequence (task_events task_id db.events)) (omega arith)
  where
    go : (es : List Event) (n : ℕ) → max_sequence es ≤ n → All (λ e. suc e.sequence ≤ suc n) es
    go [] n h = tt
    go (e ∷ es) n h = (omega arith, go es n (omega arith))

max_sequence-snoc :
    (es : List Event) (e : Event) → max_sequence (es ++ e ∷ []) ≡ max (max_sequence es) e.sequence
max_sequence-snoc [] e = omega arith
max_sequence-snoc (d ∷ es) e = omega (arith, max_sequence-snoc es e)

-- After an event of the task with that number, the number after it is the next one.
pub next_sequence-insert :
    (task_id : String) (e : Event) (db : Db)
    → e.task_id ≡ some task_id
    → e.sequence ≡ next_sequence task_id db
    → next_sequence task_id (insert e db) ≡ suc (next_sequence task_id db)
unfolding next_sequence insert
next_sequence-insert task_id e db mine numbered =
    rw (filter-append (λ d. is_text d.task_id task_id) db.events (e ∷ [])) (
      rw (own task_id e.task_id mine)
        (omega (arith, max_sequence-snoc (task_events task_id db.events) e)))
  where
    own : (id : String) (o : Option String) → o ≡ some id → is_text o id ≡ true
    own id o h = rw h (eq_refl id)
