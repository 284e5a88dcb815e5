-- ===== src/BundleService/Lifecycle.antt =====
-- Closing and reopening a bundle (src/krewhub/services/bundle_service.py).
use krewhub.Prelude.{
  ◌+◌, String, ◌≡◌, refl, ap, ◌∙◌, Bool, true, false, if◌then◌else◌, Option, some, [], ◌∷◌, ◌++◌,
}
use krewhub.Prelude.Table.{modify, find-modify_same}
use krewhub.Models.{Bundle, Event, Timestamp}
use krewhub.Models.Status
use krewhub.Models.Status.{BundleStatus, opened, closed, modified}
use krewhub.Watch.Channels.{bundle}
use krewhub.Db.{Db, ok, publish}
use krewhub.Db.Bundles
use krewhub.Db.Bundles.{bundle_key, update_status, only_status, is_opened}
use krewhub.Db.Events
use krewhub.Db.Events.{event_ids, is_used}
use krewhub.Db.Events.Fresh.{create-fresh, event_ids-insert}
use krewhub.BundleService.{close_bundle, reopen_bundle, announce, bundle_event, lifecycle_body}

-- The row with another status.
abbrev pub moved : BundleStatus → Bundle → Bundle
moved status b = record b { status = status; resource_version = b.resource_version + 1 }

same_if {ℓ} : {A : Type ℓ} (c : Bool) (x : A) → (if c then x else x) ≡ x
same_if true x = refl
same_if false x = refl

-- The state with the status of a bundle moved.
abbrev pub with_status : String → BundleStatus → Db → Db
with_status bundle_id status db = record db {
  bundles = modify bundle_key bundle_id (moved status) db.bundles;
}

update_status_plain :
    (bundle_id : String) (status : BundleStatus) (db : Db)
    → update_status bundle_id status only_status db ≡ (
      ok (Bundles.get bundle_id (with_status bundle_id status db)),
      with_status bundle_id status db,
    )
unfolding update_status
update_status_plain bundle_id status db = same_if _ _

row_moved :
    (bundle_id : String) (status : BundleStatus) (b : Bundle) (db : Db)
    → Bundles.get bundle_id db ≡ some b
    → Bundles.get bundle_id (with_status bundle_id status db) ≡ some (moved status b)
unfolding Bundles.get
row_moved bundle_id status b db found =
    find-modify_same bundle_key bundle_id (moved status) db.bundles b (λ a. refl) found

-- The event of a change of status.
abbrev pub lifecycle_event :
    Status.EventType → String → Option String → String → Timestamp → Bundle → Event
lifecycle_event type actor_id reason evt_id now b =
    bundle_event evt_id b.cookbook_id b.id type actor_id Status.human (lifecycle_body type reason)
      now

-- The state after a change of status: one row moved, one event, one watch record.
abbrev pub announced :
    String
    → BundleStatus
    → Status.EventType
    → String
    → Option String
    → String
    → Timestamp
    → Bundle
    → Db
    → Db
announced bundle_id status type actor_id reason evt_id now b db =
    publish "bundle" bundle_id modified (bundle (moved status b)) b.cookbook_id now (
      Events.insert (lifecycle_event type actor_id reason evt_id now (moved status b))
        (with_status bundle_id status db))

announce_fresh :
    (bundle_id : String) (status : BundleStatus) (type : Status.EventType)
    (actor_id evt_id : String) (reason : Option String) (now : Timestamp) (b : Bundle) (db : Db)
    → is_used evt_id (event_ids db.events) ≡ false
    → announce bundle_id type actor_id reason evt_id now
        (some (moved status b))
        (with_status bundle_id status db)
      ≡ (
        ok (some (moved status b)),
        announced bundle_id status type actor_id reason evt_id now b db,
      )
announce_fresh bundle_id status type actor_id evt_id reason now b db fresh =
    rw
      (create-fresh (lifecycle_event type actor_id reason evt_id now (moved status b))
        (with_status bundle_id status db) fresh)
      refl

module _ (bundle_id actor_id evt_id : String) (reason : Option String) (now : Timestamp)
    (b : Bundle) (db : Db) (found : Bundles.get bundle_id db ≡ some b) where
  close_open :
      is_opened b.status ≡ true
      → is_used evt_id (event_ids db.events) ≡ false
      → close_bundle bundle_id actor_id reason evt_id now db ≡ (
        ok (some (moved closed b)),
        announced bundle_id closed Status.bundle_closed actor_id reason evt_id now b db,
      )
  unfolding close_bundle
  close_open live fresh =
      rw (found, close_bundle)
        (rw live (
          rw (update_status_plain bundle_id closed db) (
            rw (row_moved bundle_id closed b db found) (
              announce_fresh bundle_id closed Status.bundle_closed actor_id evt_id reason now b db
                fresh))))

  close_closed :
      is_opened b.status ≡ false
      → close_bundle bundle_id actor_id reason evt_id now db ≡ (ok (some b), db)
  unfolding close_bundle
  close_closed shut = rw (found, close_bundle) (rw shut refl)

  reopen_closed :
      is_opened b.status ≡ false
      → is_used evt_id (event_ids db.events) ≡ false
      → reopen_bundle bundle_id actor_id reason evt_id now db ≡ (
        ok (some (moved opened b)),
        announced bundle_id opened Status.bundle_reopened actor_id reason evt_id now b db,
      )
  unfolding reopen_bundle
  reopen_closed shut fresh =
      rw (found, reopen_bundle)
        (rw shut (
          rw (update_status_plain bundle_id opened db) (
            rw (row_moved bundle_id opened b db found) (
              announce_fresh bundle_id opened Status.bundle_reopened actor_id evt_id reason now b db
                fresh))))

get-announced :
    (bundle_id actor_id evt_id : String) (reason : Option String) (now : Timestamp) (b : Bundle)
    (db : Db) (status : BundleStatus) (type : Status.EventType)
    → Bundles.get bundle_id db ≡ some b
    → Bundles.get bundle_id (announced bundle_id status type actor_id reason evt_id now b db)
      ≡ some (moved status b)
unfolding Bundles.get publish Events.insert
get-announced bundle_id actor_id evt_id reason now b db status type found =
    find-modify_same bundle_key bundle_id (moved status) db.bundles b (λ a. refl) found

ids-announced :
    (bundle_id actor_id evt_id : String) (reason : Option String) (now : Timestamp) (b : Bundle)
    (db : Db) (status : BundleStatus) (type : Status.EventType)
    → event_ids (announced bundle_id status type actor_id reason evt_id now b db).events
      ≡ event_ids db.events ++ evt_id ∷ []
unfolding publish
ids-announced bundle_id actor_id evt_id reason now b db status type =
    event_ids-insert (lifecycle_event type actor_id reason evt_id now (moved status b))
      (with_status bundle_id status db)

-- Under event ids that are not used, nor one for both, closing an open bundle returns it closed
-- and leaves exactly one moved row, one event and one watch record. Closing it again returns the
-- closed row and changes nothing, and reopening it after that returns it open, two versions on,
-- and leaves again one moved row, one event and one watch record.
pub close_bundle-reopen_bundle :
    (bundle_id actor_id shut_id open_id : String) (reason : Option String) (now : Timestamp)
    (b : Bundle) (db : Db)
    → Bundles.get bundle_id db ≡ some b
    → is_opened b.status ≡ true
    → is_used shut_id (event_ids db.events) ≡ false
    → is_used open_id (event_ids db.events ++ shut_id ∷ []) ≡ false
    → let r = close_bundle bundle_id actor_id reason shut_id now db in
      (r ≡ (
        ok (some (moved closed b)),
        announced bundle_id closed Status.bundle_closed actor_id reason shut_id now b db,
      ))
      × (close_bundle bundle_id actor_id reason open_id now r.1 ≡ (ok (some (moved closed b)), r.1))
      × (reopen_bundle bundle_id actor_id reason open_id now r.1 ≡ (
        ok (some (moved opened (moved closed b))),
        announced bundle_id opened Status.bundle_reopened actor_id reason open_id now
            (moved closed b)
            r.1,
      ))
close_bundle-reopen_bundle bundle_id actor_id shut_id open_id reason now b db found live fresh new =
    let db' = announced bundle_id closed Status.bundle_closed actor_id reason shut_id now b db in
    let at =
      get-announced bundle_id actor_id shut_id reason now b db closed Status.bundle_closed found in
    let ids =
      ids-announced bundle_id actor_id shut_id reason now b db closed Status.bundle_closed in
    rw (close_open bundle_id actor_id shut_id reason now b db found live fresh) (
      refl,
      close_closed bundle_id actor_id open_id reason now (moved closed b) db' at refl,
      reopen_closed bundle_id actor_id open_id reason now (moved closed b) db' at refl
          (ap (is_used open_id) ids ∙ new),
    )
