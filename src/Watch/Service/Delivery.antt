-- ===== src/Watch/Service/Delivery.antt =====
-- What the live subscribers of src/krewhub/watch/service.py receive, against what a replay of the
-- log returns.
pub mod Overflow
use krewhub.Prelude.{
  ℕ, zero, suc, ◌+◌, ◌≤◌, ◌<◌, ◌≡◌, refl, sym, ap, ◌∙◌, true, false, inl, inr, Option, none, some,
  List, [], ◌∷◌, ◌++◌, nat_eq, length, take, filter, map, All, arith, Bool-cases, if◌then◌else◌,
  length-append, filter-append,
}
use mathlib.Core.List.{append_assoc, append-nil}
use krewhub.Watch.Log.{
  WatchEntry, WatchEvent, Mutation, entry_of, append, selected, list_since, entry_to_watch_event,
}
use krewhub.Watch.Log.Order.{IsAscending, IsAscending-le, IsOrdered}
use krewhub.Watch.Service.{
  WatchOptions, Subscriber, WatchState, queue_size, matches, offer, notify, record_mutation,
  subscribe, replay,
}

-- The subscriber of a queue.
abbrev pub find_queue : ℕ → List Subscriber → Option Subscriber
find_queue q [] = none
find_queue q (s ∷ subs) =
    let rest = find_queue q subs in if nat_eq s.queue_id q then some s else rest

pub offer-queue_id :
    (event : WatchEvent) (s s' : Subscriber) → offer event s ≡ some s' → s'.queue_id ≡ s.queue_id
unfolding offer
offer-queue_id event s s' h = ground arith

pub find_queue-notify :
    (q : ℕ) (event : WatchEvent) (subs : List Subscriber) (s s' : Subscriber)
    → find_queue q subs ≡ some s
    → offer event s ≡ some s'
    → find_queue q (notify event subs) ≡ some s'
unfolding notify
find_queue-notify q event [] s s' h o = cc
find_queue-notify q event (t ∷ subs) s s' h o = ground (arith, find_queue-notify q event subs s s')

-- Recording one mutation after another.
unfoldable pub record_all : List Mutation → WatchState → WatchState
record_all [] w = w
record_all (m ∷ ms) w = record_all ms (record_mutation m w).1

-- The rows that these mutations append behind number n.
abbrev pub entries_from : ℕ → List Mutation → List WatchEntry
entries_from n [] = []
entries_from n (m ∷ ms) = entry_of (suc n) m ∷ entries_from (suc n) ms

-- The events that these mutations make behind number n.
unfoldable pub events_from : ℕ → List Mutation → List WatchEvent
events_from n ms = map entry_to_watch_event (entries_from n ms)

rows-record_all :
    (ms : List Mutation) (w : WatchState)
    → (record_all ms w).log.rows ≡ w.log.rows ++ entries_from w.log.last_seq ms
unfolding record_all record_mutation append
rows-record_all [] w = sym (append-nil w.log.rows)
rows-record_all (m ∷ ms) w =
    rows-record_all ms (record_mutation m w).1
    ∙ append_assoc w.log.rows (entry_of (suc w.log.last_seq) m ∷ [])
        (entries_from (suc w.log.last_seq) ms)

abbrev pub event_of : Mutation → WatchState → WatchEvent
event_of m w = entry_to_watch_event (entry_of (suc w.log.last_seq) m)

abbrev pub received : WatchEvent → Subscriber → Subscriber
received event s = record s { queue = s.queue ++ event ∷ [] }

pub offer_hit :
    (event : WatchEvent) (s : Subscriber)
    → matches s.options event ≡ true
    → length s.queue < queue_size
    → offer event s ≡ some (received event s)
unfolding offer
offer_hit event s hit room = ground arith

pub offer_miss :
    (event : WatchEvent) (s : Subscriber) → matches s.options event ≡ false → offer event s ≡ some s
unfolding offer
offer_miss event s miss = ground arith

-- A queue with room for all the events ends with those that its options match.
queue-record_all :
    (ms : List Mutation) (w : WatchState) (q : ℕ) (s : Subscriber)
    → find_queue q w.subscribers ≡ some s
    → length s.queue + length ms ≤ queue_size
    → find_queue q (record_all ms w).subscribers
      ≡ some (record s {
        queue = s.queue ++ filter (matches s.options) (events_from w.log.last_seq ms);
      })
unfolding record_all record_mutation append events_from
queue-record_all [] w q s h room = rw (h, append-nil) refl
queue-record_all (m ∷ ms) w q s h room =
    elim (Bool-cases (matches s.options (entry_to_watch_event (entry_of (suc w.log.last_seq) m)))) [
      | inl hit ↦ rw hit (
          queue-record_all ms (record_mutation m w).1 q (received (event_of m w) s)
            (find_queue-notify q (event_of m w) w.subscribers s (received (event_of m w) s) h
              (offer_hit (event_of m w) s hit (omega arith)))
            (omega (arith, length-append s.queue (event_of m w ∷ [])))
          ∙ ap (λ r. some (record s { queue = r }))
              (append_assoc s.queue (event_of m w ∷ [])
                (filter (matches s.options) (events_from (suc w.log.last_seq) ms))))
      | inr miss ↦ rw miss (
          queue-record_all ms (record_mutation m w).1 q s
            (find_queue-notify q (event_of m w) w.subscribers s s h
              (offer_miss (event_of m w) s miss))
            (omega arith))
    ]

-- Above the old counter there is nothing yet.
old_rows :
    (low high : ℕ) (rows : List WatchEntry)
    → IsAscending low high rows
    → filter (selected high none none) rows ≡ []
old_rows low high [] h = refl
old_rows low high (e ∷ rows) h =
    ground (arith, old_rows e.seq high rows h.1, IsAscending-le e.seq high rows h.1)

new_rows :
    (n since : ℕ) (ms : List Mutation)
    → since ≤ n
    → filter (selected since none none) (entries_from n ms) ≡ entries_from n ms
new_rows n since [] le = refl
new_rows n since (m ∷ ms) le = ground (arith, new_rows (suc n) since ms)

length-entries_from : (n : ℕ) (ms : List Mutation) → length (entries_from n ms) ≡ length ms
length-entries_from n [] = refl
length-entries_from n (m ∷ ms) = ap suc (length-entries_from (suc n) ms)

take_all : (k : ℕ) (rows : List WatchEntry) → length rows ≤ k → take k rows ≡ rows
take_all zero [] h = refl
take_all (suc k) [] h = refl
take_all zero (e ∷ rows) h = absurd (omega arith)
take_all (suc k) (e ∷ rows) h = ap (λ r. e ∷ r) (take_all k rows (omega arith))

abbrev pub everything_since : ℕ → WatchOptions
everything_since n = record {
  resource_type = none;
  cookbook_id = none;
  since = n;
  resource_types = [];
  channel_prefixes = [];
}

replay-record_all :
    (ms : List Mutation) (w : WatchState)
    → IsOrdered w.log
    → length ms ≤ 500
    → replay (everything_since w.log.last_seq) (record_all ms w) ≡ events_from w.log.last_seq ms
unfolding replay list_since events_from
replay-record_all ms w h short = rw (rows-record_all ms w) (
    rw
      (filter-append (selected w.log.last_seq none none) w.log.rows
        (entries_from w.log.last_seq ms))
      (rw (old_rows 0 w.log.last_seq w.log.rows h) (
        rw (new_rows w.log.last_seq w.log.last_seq ms (omega arith)) (
          rw (
            take_all 500 (entries_from w.log.last_seq ms)
              (omega (arith, length-entries_from w.log.last_seq ms)))))))

pub find_queue_new :
    (q : ℕ) (opts : WatchOptions) (subs : List Subscriber)
    → find_queue q subs ≡ none
    → find_queue q (subs ++ (record { queue_id = q; queue = []; options = opts }) ∷ [])
      ≡ some (record { queue_id = q; queue = []; options = opts })
find_queue_new q opts [] fresh = ground arith
find_queue_new q opts (s ∷ subs) fresh = ground (arith, find_queue_new q opts subs)

-- In an ordered log, a subscriber under a queue not in use yet holds, after any 256 mutations or
-- fewer, exactly what its options match of a replay from the number that the log had when it
-- subscribed.
pub live-replay :
    (ms : List Mutation) (w : WatchState) (q : ℕ) (opts : WatchOptions)
    → IsOrdered w.log
    → find_queue q w.subscribers ≡ none
    → length ms ≤ queue_size
    → let w' = record_all ms (subscribe q opts w) in
      find_queue q w'.subscribers
      ≡ some (record {
        queue_id = q;
        queue = filter (matches opts) (replay (everything_since w.log.last_seq) w');
        options = opts;
      })
unfolding subscribe
live-replay ms w q opts h fresh short =
    rw (replay-record_all ms (subscribe q opts w) h (omega arith)) (
      queue-record_all ms (subscribe q opts w) q
        (record { queue_id = q; queue = []; options = opts })
        (find_queue_new q opts w.subscribers fresh) (omega arith))
