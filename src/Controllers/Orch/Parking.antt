-- ===== src/Controllers/Orch/Parking.antt =====
-- How often src/krewhub/controllers/orch_controller.py gives a task to another worker.
use mathlib.Core.Path.{subst}
use krewhub.Prelude.{
  ◌⊎◌, ℕ, zero, suc, ◌+◌, ◌≤◌, String, ◌≡◌, refl, sym, ◌∙◌, true, false, some, List, leb,
  if◌then◌else◌, arith, Bool-cases, Option-cases, inl, inr,
}
use krewhub.Prelude.Table.{find}
use krewhub.Models.{Task, OrchBook, Timestamp}
use krewhub.Models.JsonData.{Fields}
use krewhub.Models.Status.{TaskStatus, is_active, is_done}
use krewhub.Db.{Db}
use krewhub.Db.Tasks
use krewhub.Db.Tasks.{task_key, apply_patch}
use krewhub.Controllers.Orch.{
  Runtime, runtime_key, Config, Draw, book_of, is_settled, booked, is_alive, halt, halt_patch,
  respawn, check_liveness, by_status, reconcile_row, reconcile_found, reconcile_task_id,
}
use krewhub.Controllers.Orch.Rows.{get-id, halt-row, respawn-row}

-- The row is that of a worker that no longer reports.
abbrev pub IsDead : Config → List Runtime → Timestamp → Task → Type 0
IsDead cfg runtimes now t =
    (is_active t.status ≡ true)
    × ((runtime_id : String) × (t.assigned_runtime_id ≡ some runtime_id)
        × (is_alive cfg now (find runtime_key runtime_id runtimes) ≡ false))

active-not_done : (s : TaskStatus) → is_active s ≡ true → is_done s ≡ false
active-not_done TaskStatus.done h = cc
active-not_done _ h = refl

module _ (cfg : Config) (runtimes : List Runtime) (draw : Draw) (db : Db) (t : Task)
    (brief : Fields) (found : Tasks.get t.id db ≡ some t) (briefed : t.brief ≡ some brief)
    (unsettled : is_settled (book_of t.orch) ≡ false) (dead : IsDead cfg runtimes draw.now t) where
  -- What a round does with it.
  dead_round : reconcile_task_id cfg runtimes t.id draw db ≡ (
      if leb cfg.max_respawns (book_of t.orch).respawns
      then halt cfg t (book_of t.orch) draw db
      else respawn cfg t (dead.1).0 (book_of t.orch) draw db)
  unfolding reconcile_task_id
  dead_round =
      rw (found, reconcile_found)
        (rw (briefed, reconcile_row)
          (rw (unsettled, by_status)
            (rw (active-not_done t.status dead.0)
              (rw dead.0 (rw ((dead.1).1, check_liveness) (rw (dead.1).2 refl))))))

  round_halts :
      leb cfg.max_respawns (book_of t.orch).respawns ≡ true
      → Tasks.get t.id (reconcile_task_id cfg runtimes t.id draw db)
        ≡ some (
            apply_patch
              (halt_patch cfg (book_of t.orch).respawns)
              draw.now
              (booked (record (book_of t.orch) { halted = true }) t))
  round_halts full = rw dead_round (rw full (halt-row cfg draw db t found (book_of t.orch)))

  round_respawns :
      leb cfg.max_respawns (book_of t.orch).respawns ≡ false
      → Tasks.get t.id (reconcile_task_id cfg runtimes t.id draw db)
        ≡ some (
            Tasks.reopened draw.now (
              booked
                (record (book_of t.orch) {
                  respawns = (book_of t.orch).respawns + 1;
                  last_respawn_at = some draw.now;
                })
                t))
  round_respawns room =
      rw dead_round (rw room (respawn-row cfg draw db t found (dead.1).0 (book_of t.orch)))

-- A row of which P holds.
abbrev pub HasRow : String → (Task → Type 0) → Db → Type 0
HasRow id P db = (t : Task) × (Tasks.get id db ≡ some t) × P t

abbrev pub IsHalted : Task → Type 0
IsHalted t = (book_of t.orch).halted ≡ true

-- A task that waits for a worker, with at most m respawns left.
abbrev pub Waits : Config → ℕ → Task → Type 0
Waits cfg m t =
    ((brief : Fields) × (t.brief ≡ some brief))
    × (t.status ≡ TaskStatus.opened)
    × (is_settled (book_of t.orch) ≡ false)
    × (cfg.max_respawns ≤ (book_of t.orch).respawns + m)

settled_of_halted : (b : OrchBook) → b.halted ≡ true → is_settled b ≡ true
settled_of_halted b h = ground arith

module _ (cfg : Config) (runtimes : ℕ → List Runtime) (draws : ℕ → Draw) (others : ℕ → Db → Db)
    (id : String) where
  -- n rounds of the controller from the k-th on, each after what the others have written.
  unfoldable pub rounds : ℕ → ℕ → Db → Db
  rounds zero k db = db
  rounds (suc n) k db =
      rounds n (suc k) (reconcile_task_id cfg (runtimes k) id (draws k) (others k db))

  -- The others leave the brief and the book of the row alone, and whenever it is open it comes to a
  -- worker that is dead by the time of the round.
  abbrev pub WorkersDie : Type 0
  WorkersDie =
      (k : ℕ) (db : Db) (t : Task)
      → Tasks.get id db ≡ some t
      → HasRow id
          (λ u.
            (u.orch ≡ t.orch)
            × (u.brief ≡ t.brief)
            × (t.status ≡ TaskStatus.opened → IsDead cfg (runtimes k) (draws k).now u))
          (others k db)

  module _ (die : WorkersDie) where
    halted_round :
        (k : ℕ) (db : Db) (t : Task)
        → Tasks.get id db ≡ some t
        → IsHalted t
        → reconcile_task_id cfg (runtimes k) id (draws k) db ≡ db
    unfolding reconcile_task_id
    halted_round k db t found h = elim (Option-cases t.brief) [
      | inl e ↦ rw (found, reconcile_found) (rw (e, reconcile_row) refl)
      | inr (brief, e) ↦
          rw (found, reconcile_found)
            (rw (e, reconcile_row) (rw (settled_of_halted (book_of t.orch) h) refl))
    ]

    IsHalted-stays :
        (n k : ℕ) (db : Db) (t : Task)
        → Tasks.get id db ≡ some t
        → IsHalted t
        → HasRow id IsHalted (rounds n k db)
    unfolding rounds
    IsHalted-stays zero k db t found h = (t, found, h)
    IsHalted-stays (suc n) k db t found h =
        let (u, found', (same, kept, dies)) = die k db t found in
        let h' : IsHalted u = rw same h in
        rw (halted_round k (others k db) u found' h')
          (IsHalted-stays n (suc k) (others k db) u found' h')

    -- After a round that finds the worker dead the task is parked, or waits with one respawn less.
    one_round :
        (m k : ℕ) (db : Db) (u : Task) (brief : Fields)
        → Tasks.get id db ≡ some u
        → u.brief ≡ some brief
        → is_settled (book_of u.orch) ≡ false
        → cfg.max_respawns ≤ (book_of u.orch).respawns + m
        → IsDead cfg (runtimes k) (draws k).now u
        → HasRow id
            (λ v. IsHalted v ⊎ ((n : ℕ) × (m ≡ suc n) × Waits cfg n v))
            (reconcile_task_id cfg (runtimes k) id (draws k) db)
    one_round m k db u brief found briefed unsettled room dead =
        let same = get-id id db u found in
        let at = subst (λ x. Tasks.get x db ≡ some u) (sym same) found in
        let b = book_of u.orch in
        elim (Bool-cases (leb cfg.max_respawns b.respawns)) [
          | inl full ↦ (
            apply_patch (halt_patch cfg b.respawns) (draws k).now
                (booked (record b { halted = true }) u),
            subst
                (λ x.
                  Tasks.get x (reconcile_task_id cfg (runtimes k) x (draws k) db)
                  ≡ some (
                      apply_patch (halt_patch cfg b.respawns) (draws k).now
                        (booked (record b { halted = true }) u)))
                same
                (round_halts cfg (runtimes k) (draws k) db u brief at briefed unsettled dead full),
            inl refl,
          )
          | inr left ↦
              let b' = record b {
                respawns = b.respawns + 1;
                last_respawn_at = some (draws k).now;
              } in
              let (n, e) = fewer m b.respawns room left in
              (
                Tasks.reopened (draws k).now (booked b' u),
                subst
                    (λ x.
                      Tasks.get x (reconcile_task_id cfg (runtimes k) x (draws k) db)
                      ≡ some (Tasks.reopened (draws k).now (booked b' u)))
                    same
                    (round_respawns cfg (runtimes k) (draws k) db u brief at briefed unsettled dead
                      left),
                inr (n, e, ((brief, briefed), refl, unsettled, omega (arith, e, room))),
              )
        ]
      where
        fewer :
            (m r : ℕ)
            → cfg.max_respawns ≤ r + m
            → leb cfg.max_respawns r ≡ false
            → (n : ℕ) × (m ≡ suc n)
        fewer zero r h e = absurd (ground arith)
        fewer (suc n) r h e = (n, refl)

    -- The round on the row that the others left.
    next_round :
        (m k : ℕ) (db : Db) (t : Task)
        → Tasks.get id db ≡ some t
        → Waits cfg m t
        → HasRow id
            (λ v. IsHalted v ⊎ ((n : ℕ) × (m ≡ suc n) × Waits cfg n v))
            (reconcile_task_id cfg (runtimes k) id (draws k) (others k db))
    next_round m k db t found w =
        let (u, found', (same, kept, dies)) = die k db t found in
        one_round m k (others k db) u (w.0).0 found' (kept ∙ (w.0).1) (rw same w.2) (rw same w.3)
          (dies w.1)

    parks :
        (m k : ℕ) (db : Db) (t : Task)
        → Tasks.get id db ≡ some t
        → Waits cfg m t
        → HasRow id IsHalted (rounds (suc m) k db)
    unfolding rounds
    parks zero k db t found w =
        let (v, at, out) = next_round zero k db t found w in
        elim out [ inl h ↦ (v, at, h) | inr more ↦ absurd (cc (more.1)) ]
    parks (suc m) k db t found w =
        let (v, at, out) = next_round (suc m) k db t found w in
        let db' = reconcile_task_id cfg (runtimes k) id (draws k) (others k db) in
        elim out [
          | inl h ↦ IsHalted-stays (suc m) (suc k) db' v at h
          | inr (n, e, w') ↦
              let same : n ≡ m = omega (arith, e) in parks m (suc k) db' v at (rw same at w')
        ]

-- An open task with a brief, not yet settled and with m or fewer respawns left to the limit,
-- whose workers are dead at every round (the others leave its book and brief alone, and whenever
-- it is open give it to such a worker), is halted after m + 1 rounds of the controller.
pub reconcile_task_id-parks :
    (cfg : Config) (runtimes : ℕ → List Runtime) (draws : ℕ → Draw) (others : ℕ → Db → Db)
    (id : String) (db : Db) (t : Task) (m : ℕ)
    → WorkersDie cfg runtimes draws others id
    → Tasks.get id db ≡ some t
    → Waits cfg m t
    → HasRow id IsHalted (rounds cfg runtimes draws others id (suc m) 0 db)
reconcile_task_id-parks cfg runtimes draws others id db t m die found w =
    parks cfg runtimes draws others id die m 0 db t found w
