-- ===== src/Db/Events/Fresh.antt =====
-- The ids of the events that src/krewhub/repositories/event_repo.py writes, under the primary key.
use krewhub.Prelude.{
  ℕ, zero, suc, String, ◌≡◌, refl, ap, Bool, true, false, List, [], ◌∷◌, ◌++◌, if◌then◌else◌,
}
use krewhub.Models.{Event}
use krewhub.Db.{Db, Outcome, ok, err, integrity_error}
use krewhub.Db.Events.{create, insert, event_ids, is_used}

-- The first n ids are not used yet, nor by one another.
abbrev pub AreFresh : ℕ → (ℕ → String) → List String → Type 0
AreFresh zero ids used = Unit
AreFresh (suc n) ids used =
    (is_used (ids 0) used ≡ false) × AreFresh n (λ i. ids (suc i)) (used ++ ids 0 ∷ [])

pub create-fresh :
    (e : Event) (db : Db)
    → is_used e.id (event_ids db.events) ≡ false
    → create e db ≡ (ok tt, insert e db)
unfolding create
create-fresh e db fresh = rw fresh refl

event_ids-snoc :
    (rows : List Event) (e : Event) → event_ids (rows ++ e ∷ []) ≡ event_ids rows ++ e.id ∷ []
event_ids-snoc [] e = refl
event_ids-snoc (d ∷ rows) e = ap (λ ids. d.id ∷ ids) (event_ids-snoc rows e)

pub event_ids-insert :
    (e : Event) (db : Db) → event_ids (insert e db).events ≡ event_ids db.events ++ e.id ∷ []
unfolding insert
event_ids-insert e db = event_ids-snoc db.events e

rest-if :
    (used : Bool) (e : Event) (db : Db)
    → let r : Outcome (Unit {0}) × Db =
        if used then (err integrity_error, db) else (ok tt, insert e db) in
      (r.1.tasks ≡ db.tasks) × (r.1.bundles ≡ db.bundles)
unfolding insert
rest-if true e db = (refl, refl)
rest-if false e db = (refl, refl)

-- Whether the event is written or not, the other tables stay.
pub create-rest :
    (e : Event) (db : Db)
    → ((create e db).1.tasks ≡ db.tasks) × ((create e db).1.bundles ≡ db.bundles)
unfolding create
create-rest e db = rest-if (is_used e.id (event_ids db.events)) e db
