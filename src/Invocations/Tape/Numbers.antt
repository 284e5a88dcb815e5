-- ===== src/Invocations/Tape/Numbers.antt =====
-- The numbers of the events of a tape (src/krewhub/repositories/invocation_event_repo.py), and a
-- reader that resumes from the last number it saw.
use krewhub.Prelude.{
  ℕ, zero, suc, ◌+◌, ◌<◌, String, ◌≡◌, refl, sym, ◌∙◌, Option, none, some, List, [], ◌∷◌, ◌++◌, ltb,
  max, length, drop, filter, filter-append, filter-filter, arith, Bool-cases, inl, inr, eq_iff,
  ◌==◌,
}
use krewhub.Prelude.Ordered.{insert_by, order_by}
use krewhub.Models.{Timestamp}
use krewhub.Invocations.Tape.{
  TapeEvent, TapeEntry, TapeStore, on_tape, next_id, event_row, append, list_for_tape,
  tape_writer_append,
}
use mathlib.Core.List.{append-nil}
use mathlib.Core.Path.{subst}

-- The rows bear the numbers n, n + 1, ... in their order.
abbrev pub Counts : ℕ → List TapeEvent → Type 0
Counts n [] = Unit
Counts n (e ∷ rows) = (e.id ≡ n) × Counts (suc n) rows

-- Every tape counts from 0.
abbrev pub IsNumbered : TapeStore → Type 0
IsNumbered s = (tape_id : String) → Counts 0 (on_tape tape_id s.events)

next_id-Counts :
    (n : ℕ) (rows : List TapeEvent) → Counts n rows → max n (next_id rows) ≡ n + length rows
next_id-Counts n [] h = omega arith
next_id-Counts n (e ∷ rows) h = omega (arith, next_id-Counts (suc n) rows h.1)

Counts-snoc :
    (n : ℕ) (rows : List TapeEvent) (e : TapeEvent)
    → Counts n rows
    → e.id ≡ n + length rows
    → Counts n (rows ++ e ∷ [])
Counts-snoc n [] e h is = (omega arith, tt)
Counts-snoc n (d ∷ rows) e h is = (h.0, Counts-snoc (suc n) rows e h.1 (omega arith))

Counts-append :
    (tape_id other : String) (e : TapeEvent) (rows : List TapeEvent)
    → e.tape_id ≡ tape_id
    → e.id ≡ next_id (on_tape tape_id rows)
    → Counts 0 (on_tape tape_id rows)
    → Counts 0 (on_tape other rows)
    → Counts 0 (on_tape other (rows ++ e ∷ []))
Counts-append tape_id other e rows mine numbered here there =
    rw (filter-append (λ d. d.tape_id == other) rows (e ∷ []))
      (elim (Bool-cases (e.tape_id == other)) [
        | inl same ↦ rw same (
            Counts-snoc 0 (on_tape other rows) e there (
              subst (λ t. e.id ≡ 0 + length (on_tape t rows))
                (sym mine ∙ (eq_iff e.tape_id other).0 same)
                (omega (arith, numbered, next_id-Counts 0 (on_tape tape_id rows) here))))
        | inr away ↦ rw away (rw (append-nil (on_tape other rows)) there)
      ])

-- A tape writer keeps the events of every tape numbered 0, 1, 2, ... and returns the new event
-- under the number of events that its tape had.
pub tape_writer_append-IsNumbered :
    (isoformat : Timestamp → String) (tape_id : String) (invocation_id : Option String)
    (entry : TapeEntry) (now : Timestamp) (s : TapeStore)
    → IsNumbered s
    → let (e, s') = tape_writer_append isoformat tape_id invocation_id entry now s in
      (e.id ≡ length (on_tape tape_id s.events)) × IsNumbered s'
unfolding tape_writer_append append
tape_writer_append-IsNumbered isoformat tape_id invocation_id entry now s h = (
  omega (arith, next_id-Counts 0 (on_tape tape_id s.events) (h tape_id)),
  λ other.
      Counts-append tape_id other
        (event_row tape_id (next_id (on_tape tape_id s.events)) none entry now) s.events refl refl
        (h tape_id) (h other),
)

Counts-drop : (n k : ℕ) (rows : List TapeEvent) → Counts n rows → Counts (n + k) (drop k rows)
Counts-drop n zero rows h = subst (λ m. Counts m rows) (omega arith) h
Counts-drop n (suc k) [] h = tt
Counts-drop n (suc k) (e ∷ rows) h =
    subst (λ m. Counts m (drop k rows)) (omega arith) (Counts-drop (suc n) k rows h.1)

insert_first :
    (n : ℕ) (e : TapeEvent) (rows : List TapeEvent)
    → e.id ≡ n
    → Counts (suc n) rows
    → insert_by (λ d. d.id) e rows ≡ e ∷ rows
unfolding insert_by
insert_first n e [] is h = refl
insert_first n e (d ∷ rows) is h = ground arith

order_by-Counts : (n : ℕ) (rows : List TapeEvent) → Counts n rows → order_by (λ d. d.id) rows ≡ rows
unfolding order_by
order_by-Counts n [] h = refl
order_by-Counts n (e ∷ rows) h =
    rw (order_by-Counts (suc n) rows h.1) (insert_first n e rows h.0 h.1)

all_after :
    (n k : ℕ) (rows : List TapeEvent) → k < n → Counts n rows → filter (λ e. ltb k e.id) rows ≡ rows
all_after n k [] lt h = refl
all_after n k (e ∷ rows) lt h = ground (arith, all_after (suc n) k rows)

after-Counts :
    (n m k : ℕ) (rows : List TapeEvent)
    → k ≡ n + m
    → Counts n rows
    → filter (λ e. ltb k e.id) rows ≡ drop (suc m) rows
after-Counts n m k [] is h = refl
after-Counts n zero k (e ∷ rows) is h = ground (arith, all_after (suc n) k rows)
after-Counts n (suc m) k (e ∷ rows) is h =
    ground (arith, h.0, after-Counts (suc n) m k rows (omega arith) h.1)

-- On numbered tapes, a reader that has seen the events up to number k gets exactly the events
-- behind it, in order.
pub list_for_tape-resume :
    (tape_id : String) (k : ℕ) (s : TapeStore)
    → IsNumbered s
    → list_for_tape tape_id (some k) none s ≡ drop (suc k) (on_tape tape_id s.events)
unfolding list_for_tape
list_for_tape-resume tape_id k s h =
    rw (filter-filter (λ e. e.tape_id == tape_id) (λ e. ltb k e.id) s.events) (
      rw (after-Counts 0 k k (on_tape tape_id s.events) (omega arith) (h tape_id)) (
        order_by-Counts (0 + suc k) (drop (suc k) (on_tape tape_id s.events))
          (Counts-drop 0 (suc k) (on_tape tape_id s.events) (h tape_id))))
