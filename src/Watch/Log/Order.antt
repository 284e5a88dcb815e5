-- ===== src/Watch/Log/Order.antt =====
-- The order of the watch log: numbers grow from row to row and never pass the table's counter.
use krewhub.Prelude.{
  ℕ, suc, ◌≤◌, ◌<◌, Bool, true, false, List, [], ◌∷◌, ◌++◌, filter, arith, if◌then◌else◌,
}
use krewhub.Watch.Log.{WatchEntry, WatchLog, Mutation, entry_of, trim_before}

-- Strictly growing numbers, all above `low` and none above `high`.
abbrev pub IsAscending : ℕ → ℕ → List WatchEntry → Type 0
IsAscending low high [] = low ≤ high
IsAscending low high (e ∷ rows) = (low < e.seq) × IsAscending e.seq high rows

abbrev pub IsOrdered : WatchLog → Type 0
IsOrdered log = IsAscending 0 log.last_seq log.rows

pub IsAscending-le :
    (low high : ℕ) (rows : List WatchEntry) → IsAscending low high rows → low ≤ high
IsAscending-le low high [] h = h
IsAscending-le low high (e ∷ rows) h = omega (arith, IsAscending-le e.seq high rows h.1)

pub IsAscending-snoc :
    (low high : ℕ) (rows : List WatchEntry) (m : Mutation)
    → IsAscending low high rows
    → IsAscending low (suc high) (rows ++ entry_of (suc high) m ∷ [])
IsAscending-snoc low high [] m h = (omega arith, omega arith)
IsAscending-snoc low high (e ∷ rows) m h = (h.0, IsAscending-snoc e.seq high rows m h.1)

pub IsAscending-weaken :
    (low low' high : ℕ) (rows : List WatchEntry)
    → low' ≤ low
    → IsAscending low high rows
    → IsAscending low' high rows
IsAscending-weaken low low' high [] le h = omega arith
IsAscending-weaken low low' high (e ∷ rows) le h = (omega arith, h.1)

IsAscending-if :
    (b : Bool) (e : WatchEntry) (rest : List WatchEntry) (low high : ℕ)
    → low < e.seq
    → IsAscending e.seq high rest
    → IsAscending low high (if b then e ∷ rest else rest)
IsAscending-if true e rest low high lt h = (lt, h)
IsAscending-if false e rest low high lt h = IsAscending-weaken e.seq low high rest (omega arith) h

IsAscending-filter :
    (p : WatchEntry → Bool) (low high : ℕ) (rows : List WatchEntry)
    → IsAscending low high rows
    → IsAscending low high (filter p rows)
IsAscending-filter p low high [] h = h
IsAscending-filter p low high (e ∷ rows) h =
    IsAscending-if (p e) e _ low high h.0 (IsAscending-filter p e.seq high rows h.1)

-- Trimming an ordered log keeps it ordered, under the same counter.
trim_before-IsOrdered :
    (seq : ℕ) (log : WatchLog) → IsOrdered log → IsOrdered (trim_before seq log).1
unfolding trim_before
trim_before-IsOrdered seq log h = IsAscending-filter _ 0 log.last_seq log.rows h
