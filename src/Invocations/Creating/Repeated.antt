-- ===== src/Invocations/Creating/Repeated.antt =====
-- A second create with the same idempotency key, src/krewhub/services/invocation_service.py.
use krewhub.Prelude.{
  String, ◌≡◌, refl, sym, ap, ◌∙◌, Bool, true, false, Option, none, some, List, [], ◌∷◌, ◌++◌, ◌&&◌,
  ◌||◌, any, if◌then◌else◌, ◌==◌, arith, eq_refl,
}
use krewhub.Prelude.Table.{modify}
use krewhub.Models.{Timestamp}
use krewhub.Invocations.{
  Invocation, InvocationStatus, Store, set_running, find_by_idempotency_key, same_text,
  invocation_key, started_row,
}
use krewhub.Invocations.Schema.{Check, pass, refused, crashed}
use krewhub.Invocations.Target.{Parsed, parsed}
use krewhub.Invocations.Creating.{
  InvocationRequest, Draw, Created, created, failed, CreateError, bad_target, bad_schema,
  schema_crash, integrity_error, find_existing, clashes, equal_text, start, settle, create,
  new_invocation, started, running_row,
}

none-clash :
    (a b c d : Bool) → ((a || b || c) || d) ≡ false → (a ≡ false) × (c ≡ false) × (d ≡ false)
none-clash a b c d h = (ground (arith, h), ground (arith, h), ground (arith, h))

skip :
    (a b : Bool) (row : Invocation) (rest : Option Invocation)
    → (a && b) ≡ false
    → (if a then (if b then some row else rest) else rest) ≡ rest
skip true true row rest h = ground (arith, h)
skip true false row rest h = refl
skip false b row rest h = refl

find-skip :
    (parent key : String) (row : Invocation) (rows : List Invocation)
    → (same_text row.parent_tape_id parent && same_text row.idempotency_key key) ≡ false
    → find_by_idempotency_key parent key (row ∷ rows) ≡ find_by_idempotency_key parent key rows
unfolding find_by_idempotency_key
find-skip parent key row rows h =
    skip (same_text row.parent_tape_id parent) (same_text row.idempotency_key key) row
      (find_by_idempotency_key parent key rows) h

equal_text-some : (a : Option String) (t : String) → equal_text a (some t) ≡ same_text a t
equal_text-some none t = refl
equal_text-some (some a) t = refl

same-texts :
    (a b x y : Option String) (parent key : String)
    → x ≡ some parent
    → y ≡ some key
    → (equal_text a x && equal_text b y) ≡ false
    → (same_text a parent && same_text b key) ≡ false
same-texts a b x y parent key ex ey h =
    sym (ap (λ r. r && same_text b key) (equal_text-some a parent))
    ∙ sym (ap (λ r. equal_text a (some parent) && r) (equal_text-some b key))
    ∙ sym (ap (λ r. equal_text a r && equal_text b (some key)) ex)
    ∙ sym (ap (λ r. equal_text a x && equal_text b r) ey)
    ∙ h

-- The new row is the one with its key.
find-new :
    (i j : Invocation) (parent key : String) (f : Invocation → Invocation) (rows : List Invocation)
    → i.parent_tape_id ≡ some parent
    → i.idempotency_key ≡ some key
    → f i ≡ j
    → j.parent_tape_id ≡ some parent
    → j.idempotency_key ≡ some key
    → any (clashes i) rows ≡ false
    → find_by_idempotency_key parent key (modify invocation_key i.id f (rows ++ i ∷ [])) ≡ some j
unfolding find_by_idempotency_key
find-new i j parent key f [] ip ik fi jp jk h =
    rw (eq_refl i.id) (rw fi (rw jp (rw (eq_refl parent) (rw jk (rw (eq_refl key) refl)))))
find-new i j parent key f (row ∷ rows) ip ik fi jp jk h =
    let (other, differs, later) =
      none-clash (row.id == i.id) (row.tape_id == i.tape_id)
        (equal_text row.parent_tape_id i.parent_tape_id
          && equal_text row.idempotency_key i.idempotency_key)
        (any (clashes i) rows) h in
    rw other (
      find-skip parent key row (modify invocation_key i.id f (rows ++ i ∷ [])) (
        same-texts row.parent_tape_id row.idempotency_key i.parent_tape_id i.idempotency_key parent
          key ip ik differs)
      ∙ find-new i j parent key f rows ip ik fi jp jk later)

abbrev row_or : Invocation → Created → Invocation
row_or i (created j) = j
row_or i (failed e) = i

abbrev went_through : Created → Bool
went_through (created j) = true
went_through (failed e) = false

no_row {ℓ} :
    {P : Type ℓ} (e : CreateError) (j : Invocation) (s s1 : Store)
    → ◌≡◌ {A = Created × Store} (failed e, s) (created j, s1)
    → P
no_row e j s s1 h = let e : false ≡ true = ap (λ r. went_through r.0) h in absurd (cc)

by_clash :
    (b : Bool) (i j : Invocation) (s t s1 : Store)
    → ◌≡◌ {A = Created × Store}
        (if b then (failed integrity_error, s) else (created i, t))
        (created j, s1)
    → (b ≡ false) × (i ≡ j) × (t ≡ s1)
by_clash true i j s t s1 h = no_row integrity_error j s s1 h
by_clash false i j s t s1 h = (refl, ap (λ r. row_or i r.0) h, ap (λ r. r.1) h)

running-row :
    (i : Invocation) (now : Timestamp)
    → i.status ≡ InvocationStatus.pending
    → started_row now i ≡ running_row now i
running-row i now h = rw h refl

-- After a start that went through, the row is found under its key.
start-found :
    (i j : Invocation) (parent key : String) (now : Timestamp) (s s1 : Store)
    → i.status ≡ InvocationStatus.pending
    → i.parent_tape_id ≡ some parent
    → i.idempotency_key ≡ some key
    → start i now s ≡ (created j, s1)
    → find_by_idempotency_key parent key s1.invocations ≡ some j
unfolding start started set_running
start-found i j parent key now s s1 pending ip ik h =
    let (free, same, moved) =
      by_clash (any (clashes i) s.invocations) (running_row now i) j s (started i now s) s1 h in
    sym (ap (λ t. find_by_idempotency_key parent key t.invocations) moved)
    ∙ find-new i (running_row now i) parent key (started_row now) s.invocations ip ik
        (running-row i now pending) ip ik free
    ∙ ap some same

found-existing :
    (a b : Option String) (parent key : String) (rows : List Invocation) (found : Option Invocation)
    → a ≡ some parent
    → b ≡ some key
    → (parent == "") ≡ false
    → (key == "") ≡ false
    → find_by_idempotency_key parent key rows ≡ found
    → find_existing a b rows ≡ found
found-existing a b parent key rows found ea eb hp hk h = rw ea (rw eb (rw hp (rw hk h)))

-- The verdict on the request is the same the second time, and the row is there.
settle-again :
    (req : InvocationRequest) (first second : Draw) (caller other parent key : String)
    (target : Parsed) (check : Check) (existing : Option Invocation) (j : Invocation) (s s1 : Store)
    → req.parent_tape_id ≡ some parent
    → req.idempotency_key ≡ some key
    → (parent == "") ≡ false
    → (key == "") ≡ false
    → find_existing req.parent_tape_id req.idempotency_key s.invocations ≡ existing
    → settle req first caller target check existing s ≡ (created j, s1)
    → settle req second other target check
        (find_existing req.parent_tape_id req.idempotency_key s1.invocations)
        s1
      ≡ (created j, s1)
settle-again req d1 d2 c1 c2 parent key (Parsed.refused e) check existing j s s1 ip ik hp hk fe h =
    no_row (bad_target e) j s s1 h
settle-again req d1 d2 c1 c2 parent key (parsed t id) refused existing j s s1 ip ik hp hk fe h =
    no_row bad_schema j s s1 h
settle-again req d1 d2 c1 c2 parent key (parsed t id) crashed existing j s s1 ip ik hp hk fe h =
    no_row schema_crash j s s1 h
settle-again req d1 d2 c1 c2 parent key (parsed t id) pass (some i) j s s1 ip ik hp hk fe h =
    ap (λ o. settle req d2 c2 (parsed t id) pass o s1)
      (sym (ap (λ r. find_existing req.parent_tape_id req.idempotency_key r.1.invocations) h)
        ∙ fe
        ∙ ap (λ r. some (row_or i r.0)) h)
settle-again req d1 d2 c1 c2 parent key (parsed t id) pass none j s s1 ip ik hp hk fe h =
    ap (λ o. settle req d2 c2 (parsed t id) pass o s1)
      (found-existing req.parent_tape_id req.idempotency_key parent key s1.invocations (some j) ip
        ik hp hk
        (start-found (new_invocation req d1 c1 t id) j parent key d1.now s s1 refl ip ik h))

-- Where a creation with a parent tape and an idempotency key, neither of them empty, returned an
-- invocation, the same request sent again, by whatever caller and under whatever new ids and
-- time, returns that invocation and changes nothing.
pub create-again :
    (hands : List String) (req : InvocationRequest) (first second : Draw)
    (caller other parent key : String) (j : Invocation) (s s1 : Store)
    → req.parent_tape_id ≡ some parent
    → req.idempotency_key ≡ some key
    → (parent == "") ≡ false
    → (key == "") ≡ false
    → create hands req first caller s ≡ (created j, s1)
    → create hands req second other s1 ≡ (created j, s1)
unfolding create
create-again hands req first second caller other parent key j s s1 ip ik hp hk h =
    settle-again req first second caller other parent key _ _ _ j s s1 ip ik hp hk refl h
