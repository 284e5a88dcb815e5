-- ===== src/Watch/Service.antt =====
-- src/krewhub/watch/service.py: WatchService, and the options of src/krewhub/watch/types.py. A
-- subscriber is its queue with its options; the queue's identity, by which `unsubscribe` finds it,
-- is a number that the caller of `subscribe` supplies. The queue holds what the consumer has not
-- taken yet.
pub mod Delivery
use Prim.Native.String.{[] as ε, ◌∷◌ as ◌∷ᶜ◌}
use text.Mathlib.Text.{starts_with}
use krewhub.Prelude.{
  ℕ, zero, suc, String, Bool, true, false, Option, none, some, ◌&&◌, List, [], ◌∷◌, ◌++◌, ltb, not,
  nat_eq, length, any, filter, map, ◌==◌, if◌then◌else◌,
}
use krewhub.Models.{Timestamp}
use krewhub.Models.Status.{WatchEventType}
use krewhub.Watch.Channels.{Resource, resource_version_of, derive_channel}
use krewhub.Watch.Log
use krewhub.Watch.Log.{WatchEvent, WatchLog, Mutation, list_since, latest_seq, entry_to_watch_event}

pub record WatchOptions : Type 0 where
  pub resource_type : Option String
  pub cookbook_id : Option String
  pub since : ℕ
  pub resource_types : List String
  pub channel_prefixes : List String

pub record Subscriber : Type 0 where
  pub queue_id : ℕ
  pub queue : List WatchEvent
  pub options : WatchOptions

pub record WatchState : Type 0 where
  pub log : WatchLog
  pub subscribers : List Subscriber

-- asyncio.Queue(maxsize=256)
abbrev pub queue_size : ℕ
queue_size = 256

-- pattern.endswith("*"), and pattern[:-1] where it does.
abbrev star_prefix : String → Option String
star_prefix ε = none
star_prefix (◌∷ᶜ◌ c ε) = if ◌∷ᶜ◌ c ε == "*" then some "" else none
star_prefix (◌∷ᶜ◌ c s) = elim (star_prefix s) [ none ↦ none | some p ↦ some (◌∷ᶜ◌ c p) ]

unfoldable pub channel_matches : String → String → Bool
channel_matches pattern channel =
    if channel == ""
    then false
    else elim (star_prefix pattern) [ some p ↦ starts_with channel p | none ↦ channel == pattern ]

-- `if opts.x and event.x != opts.x: return False`, negated: the filter is off for None and "".
abbrev pub wants : Option String → Option String → Bool
wants none value = true
wants (some wanted) none = wanted == ""
wants (some wanted) (some value) = if wanted == "" then true else value == wanted

abbrev is_empty {ℓ} : {A : Type ℓ} → List A → Bool
is_empty [] = true
is_empty (x ∷ xs) = false

unfoldable pub matches : WatchOptions → WatchEvent → Bool
matches opts event =
    if not (wants opts.resource_type (some event.resource_type))
    then false
    else if not (is_empty opts.resource_types)
        && not (any (λ t. t == event.resource_type) opts.resource_types)
    then false
    else if not (wants opts.cookbook_id event.cookbook_id)
    then false
    else if not (is_empty opts.channel_prefixes)
        && not (any (λ p. channel_matches p event.channel) opts.channel_prefixes)
    then false
    else true

-- One turn of the loop of `_notify`: none for a subscriber that is dead, its queue being full.
unfoldable pub offer : WatchEvent → Subscriber → Option Subscriber
offer event sub =
    if matches sub.options event
    then (if ltb (length sub.queue) queue_size
        then some (record sub { queue = sub.queue ++ event ∷ [] })
        else none)
    else some sub

unfoldable pub notify : WatchEvent → List Subscriber → List Subscriber
unfolding offer
notify event [] = []
notify event (sub ∷ subs) =
    let rest = notify event subs in elim (offer event sub) [ some sub' ↦ sub' ∷ rest | none ↦ rest ]

unfoldable pub record_mutation : Mutation → WatchState → WatchEvent × WatchState
unfolding notify
record_mutation m w =
    let (entry, log) = Log.append m w.log in
    let event = entry_to_watch_event entry in
    (event, record { log = log; subscribers = notify event w.subscribers })

-- The payload is the resource itself; its own version is stamped on the row.
unfoldable pub record_resource :
    String
    → String
    → WatchEventType
    → Resource
    → Option String
    → Timestamp
    → WatchState
    → WatchState
unfolding record_mutation
record_resource resource_type resource_id event_type resource cookbook_id now w =
    (record_mutation
      (record {
        resource_type = resource_type;
        resource_id = resource_id;
        event_type = event_type;
        resource_version = resource_version_of resource;
        payload = resource;
        cookbook_id = cookbook_id;
        now = now;
      })
      w).1

unfoldable pub notify_ephemeral :
    String
    → String
    → WatchEventType
    → Resource
    → Option String
    → WatchState
    → WatchEvent × WatchState
notify_ephemeral resource_type resource_id event_type resource cookbook_id w =
    let event : WatchEvent = record {
      event_type = event_type;
      resource_type = resource_type;
      resource_id = resource_id;
      resource_version = resource_version_of resource;
      object = resource;
      cookbook_id = cookbook_id;
      seq = latest_seq w.log;
      channel = derive_channel resource_type event_type resource;
    } in
    (event, record w { subscribers = notify event w.subscribers })

unfoldable pub subscribe : ℕ → WatchOptions → WatchState → WatchState
subscribe queue_id options w = record w {
  subscribers =
      w.subscribers ++ (record { queue_id = queue_id; queue = []; options = options }) ∷ [];
}

unfoldable pub unsubscribe : ℕ → WatchState → WatchState
unsubscribe queue_id w = record w {
  subscribers = filter (λ s. not (nat_eq s.queue_id queue_id)) w.subscribers;
}

-- WatchService.replay: the default limit of list_since is 500, and only the type filter is passed on.
unfoldable pub replay : WatchOptions → WatchState → List WatchEvent
replay opts w = map entry_to_watch_event (list_since opts.since opts.resource_type none 500 w.log)
