-- ===== src/Samples/Watching.antt =====
-- Runs of the watch service: tests, and one application of each theorem.
use krewhub.Prelude.{ℕ, zero, suc, ◌≡◌, refl, ap, length, none, some, List, [], ◌∷◌, filter, arith}
use krewhub.Models.Status.{modified}
use krewhub.Watch.Channels.{task, derive_channel}
use krewhub.Watch.Log.{Mutation, WatchLog, append, selected, entry_to_watch_event}
use krewhub.Watch.Log.Order.{IsOrdered}
use krewhub.Watch.Log.Paging.{pages, pages_exact}
use krewhub.Watch.Service.{
  WatchOptions, record_mutation, subscribe, matches, channel_matches, replay,
}
use krewhub.Watch.Service.Delivery.{
  find_queue, events_from, record_all, everything_since, live-replay,
}
use krewhub.Watch.Service.Delivery.Overflow.{slow-dropped}
use krewhub.Samples.{quiet_watch, task_1}

abbrev touched : Mutation
touched = record {
  resource_type = "task";
  resource_id = "task_1";
  event_type = modified;
  resource_version = 2;
  payload = task task_1;
  cookbook_id = some "cb";
  now = 3;
}

-- A log of three rows.
abbrev three_rows : WatchLog
three_rows = (record_all (touched ∷ touched ∷ touched ∷ []) quiet_watch).log

three_rows-IsOrdered : IsOrdered three_rows
unfolding record_all record_mutation append
three_rows-IsOrdered = (omega arith, (omega arith, (omega arith, omega arith)))

pages_exact_example :
    pages 9 1 (some "task") none 1 three_rows
    ≡ filter (selected 1 (some "task") none) three_rows.rows
unfolding record_all record_mutation append
pages_exact_example =
    pages_exact (some "task") none 9 0 1 three_rows three_rows-IsOrdered (omega arith)

abbrev tasks_only : WatchOptions
tasks_only = record {
  resource_type = some "task";
  cookbook_id = some "cb";
  since = 0;
  resource_types = [];
  channel_prefixes = "task:*" ∷ [];
}

live-replay_example :
    let w' = record_all (touched ∷ touched ∷ []) (subscribe 7 tasks_only quiet_watch) in
    find_queue 7 w'.subscribers
    ≡ some (record {
      queue_id = 7;
      queue = filter (matches tasks_only) (replay (everything_since 0) w');
      options = tasks_only;
    })
live-replay_example =
    live-replay (touched ∷ touched ∷ []) quiet_watch 7 tasks_only (omega arith) refl (omega arith)

abbrev many : ℕ → List Mutation
many zero = []
many (suc n) = touched ∷ many n

many_match : (k n : ℕ) → length (filter (matches tasks_only) (events_from k (many n))) ≡ n
unfolding events_from matches entry_to_watch_event derive_channel channel_matches
many_match k zero = refl
many_match k (suc n) = ap suc (many_match (suc k) n)

slow-dropped_example :
    find_queue 7 (record_all (many 257) (subscribe 7 tasks_only quiet_watch)).subscribers ≡ none
slow-dropped_example =
    slow-dropped (many 257) quiet_watch 7 tasks_only refl (rw (many_match 0 257) (omega arith))
