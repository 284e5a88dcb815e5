-- ===== src/Db.antt =====
-- The state of the service: the tables that the repositories of src/krewhub/repositories read and
-- write, with the watch service. An operation is a function of that state which returns, or
-- raises, and leaves a state: every statement is committed at once, so what was written before an
-- exception stays written. A time or an id that the code draws is an argument of the operation.
pub mod Tasks
pub mod Bundles
pub mod Events
use krewhub.Prelude.{ℕ, String, Option, none, some, List, [], ◌∷◌, ◌++◌}
use krewhub.Models.{Task, Bundle, Event, FactRef, CodeRef, Timestamp}
use krewhub.Models.Status.{EventType, ActorType, WatchEventType}
use krewhub.Watch.Channels.{Resource}
use krewhub.Watch.Service.{WatchState, record_resource}

-- A row of tape_entries: an event as src/krewhub/tape/manager.py writes it.
pub record TapeRow : Type 0 where
  pub tape_name : String
  pub kind : EventType
  pub event_id : String
  pub bundle_id : Option String
  pub task_id : Option String
  pub body : String
  pub facts : List FactRef
  pub code_refs : List CodeRef
  pub actor_id : String
  pub actor_type : ActorType

pub record Db : Type 0 where
  pub bundles : List Bundle
  pub tasks : List Task
  pub events : List Event
  pub tape_entries : List TapeRow
  -- The task ids of the rows of task_usage, which a route writes.
  pub task_usage : List String
  pub watch : WatchState

-- The exceptions that the modelled code raises or lets through.
pub data Error : Type 0 where
  session_token_mismatch : Error
  value_error : Error
  stale_resource : Error
  integrity_error : Error
  validation_error : Error

pub data Outcome {ℓ} (A : Type ℓ) : Type ℓ where
  ok : A → Outcome A
  err : Error → Outcome A

abbrev pub Act {ℓ} : Type ℓ → Type ℓ
Act A = Db → Outcome A × Db

module _ {ℓ} {A : Type ℓ} where
  abbrev pub return : A → Act A
  return a db = (ok a, db)

  abbrev pub raise : Error → Act A
  raise e db = (err e, db)

  -- A read of the state.
  abbrev pub gets : (Db → A) → Act A
  gets f db = (ok (f db), db)

abbrev pub write : (Db → Db) → Act (Unit {0})
write f db = (ok tt, f db)

module _ {ℓ κ} {A : Type ℓ} {B : Type κ} where
  abbrev pub continue : Outcome A → (A → Act B) → Act B
  continue (ok a) f db = f a db
  continue (err e) f db = (err e, db)

  infixl 5 ◌>>=◌
  abbrev pub ◌>>=◌ : Act A → (A → Act B) → Act B
  ◌>>=◌ m f db = let (r, db') = m db in continue r f db'

infixl 5 ◌>>◌
abbrev pub ◌>>◌ {ℓ} : {B : Type ℓ} → Act (Unit {0}) → Act B → Act B
m >> k = m >>= λ _. k

-- self._watch.record_resource(...)
unfoldable pub publish :
    String → String → WatchEventType → Resource → Option String → Timestamp → Db → Db
publish resource_type id event_type resource cookbook_id now db = record db {
  watch = record_resource resource_type id event_type resource cookbook_id now db.watch;
}
