-- ===== src/Invocations/Target/Exact.antt =====
-- Exactly which targets parse_target of src/krewhub/models/invocation.py takes for a type and an id.
use Prim.Native.String.{[] as ε, ◌∷◌ as ◌∷ᶜ◌, ◌++◌ as append}
use Prim.Native.Char.{Char}
use Prim.Native.String.append.{nil as append-nil, cons as append-cons}
use krewhub.Prelude.{
  String, ◌≡◌, refl, sym, ap, ◌∙◌, Bool, true, false, any, Option, none, some, List, arith, ◌==◌,
  Bool-cases, Option-cases, inl, inr, eq_iff, ◌↔◌,
}
use krewhub.Invocations.Target.{
  TargetError, empty_target, parsed, refused, partition, or_none, split_target, valid_types,
  check_target, parse_target,
}

abbrev cut_at : String → String → Option (String × String)
cut_at a b = some (a, b)

first_part : (a a' b b' : String) → cut_at a b ≡ cut_at a' b' → a ≡ a'
first_part a a' b b' h = cc

second_part : (a a' b b' : String) → cut_at a b ≡ cut_at a' b' → b ≡ b'
second_part a a' b b' h = cc

colon_first : (c : Char) (s : String) → (◌∷ᶜ◌ c ε == ":") ≡ true → append ":" s ≡ ◌∷ᶜ◌ c s
colon_first c s h =
    rw (← (eq_iff (◌∷ᶜ◌ c ε) ":").0 h) (append-cons c ε s ∙ ap (λ r. ◌∷ᶜ◌ c r) (append-nil s))

partition_sound : (s a b : String) → partition s ≡ some (a, b) → append a (append ":" b) ≡ s
partition_sound ε a b h = cc
partition_sound (◌∷ᶜ◌ c s) a b h = elim (Bool-cases (◌∷ᶜ◌ c ε == ":")) [
  | inl colon ↦ at_colon (rw colon at h) colon
  | inr other ↦ elim (Option-cases (partition s)) [
    | inl whole ↦ absurd (cc (rw whole at (rw other at h)))
    | inr ((a', b'), found) ↦
        behind a' b' (partition_sound s a' b' found) (rw found at (rw other at h))
  ]
]
  where
    at_colon :
        cut_at "" s ≡ cut_at a b → (◌∷ᶜ◌ c ε == ":") ≡ true → append a (append ":" b) ≡ ◌∷ᶜ◌ c s
    at_colon e colon =
        rw (← first_part "" a s b e)
          (rw (← second_part "" a s b e) (append-nil (append ":" s) ∙ colon_first c s colon))

    behind :
        (a' b' : String)
        → append a' (append ":" b') ≡ s
        → cut_at (◌∷ᶜ◌ c a') b' ≡ cut_at a b
        → append a (append ":" b) ≡ ◌∷ᶜ◌ c s
    behind a' b' found e = rw (← first_part (◌∷ᶜ◌ c a') a b' b e) (
        rw (← second_part (◌∷ᶜ◌ c a') a b' b e)
          (append-cons c a' (append ":" b') ∙ ap (λ r. ◌∷ᶜ◌ c r) found))

partition_complete :
    (a b : String) → partition a ≡ none → partition (append a (append ":" b)) ≡ some (a, b)
partition_complete ε b h =
    rw (append-nil (append ":" b))
      (rw (append-cons ":" ε b ∙ ap (λ r. ◌∷ᶜ◌ ":" r) (append-nil b)) refl)
partition_complete (◌∷ᶜ◌ c a) b h = elim (Bool-cases (◌∷ᶜ◌ c ε == ":")) [
  | inl colon ↦ absurd (cc (rw colon at h))
  | inr other ↦ elim (Option-cases (partition a)) [
    | inl whole ↦
        rw (append-cons c a (append ":" b)) (rw other (rw (partition_complete a b whole) refl))
    | inr (cut, found) ↦ absurd (cc (rw found at (rw other at h)))
  ]
]

-- Before the colon that it cuts at, there is none.
partition-first : (s a b : String) → partition s ≡ some (a, b) → partition a ≡ none
partition-first ε a b h = cc
partition-first (◌∷ᶜ◌ c s) a b h = elim (Bool-cases (◌∷ᶜ◌ c ε == ":")) [
  | inl colon ↦ at_colon (rw colon at h)
  | inr other ↦ elim (Option-cases (partition s)) [
    | inl whole ↦ absurd (cc (rw whole at (rw other at h)))
    | inr ((a', b'), found) ↦
        behind a' b' (partition-first s a' b' found) other (rw found at (rw other at h))
  ]
]
  where
    at_colon : cut_at "" s ≡ cut_at a b → partition a ≡ none
    at_colon e = rw (← first_part "" a s b e) refl

    behind :
        (a' b' : String)
        → partition a' ≡ none
        → (◌∷ᶜ◌ c ε == ":") ≡ false
        → cut_at (◌∷ᶜ◌ c a') b' ≡ cut_at a b
        → partition a ≡ none
    behind a' b' none_there other e =
        rw (← first_part (◌∷ᶜ◌ c a') a b' b e) (rw other (rw none_there refl))

never : true ≡ false → ⊥
never h = cc

abbrev has_first : String → Bool
has_first ε = false
has_first (◌∷ᶜ◌ c s) = true

cons_not_empty : (c : Char) (s : String) → (◌∷ᶜ◌ c s == "") ≡ false
cons_not_empty c s = elim (Bool-cases (◌∷ᶜ◌ c s == "")) [
  | inl empty ↦ absurd (never (ap has_first ((eq_iff (◌∷ᶜ◌ c s) "").0 empty)))
  | inr given ↦ given
]

print_not_empty : (t id : String) → (append t (append ":" id) == "") ≡ false
print_not_empty ε id =
    rw (append-nil (append ":" id)) (rw (append-cons ":" ε id) (cons_not_empty ":" (append ε id)))
print_not_empty (◌∷ᶜ◌ c t) id =
    rw (append-cons c t (append ":" id)) (cons_not_empty c (append t (append ":" id)))

-- What a target with an id is: the type has no colon, is allowed and is not human.
pub record IsTarget (target : String) (allowed_types : Option (List String)) (t id : String)
    : Type 0 where
  pub text : target ≡ append t (append ":" id)
  pub no_colon : partition t ≡ none
  pub has_id : (id == "") ≡ false
  pub allowed : any (λ v. v == t) (valid_types allowed_types) ≡ true
  pub not_human : (t == "human") ≡ false

split_print :
    (target t id : String)
    → partition target ≡ some (t, id)
    → (id == "") ≡ false
    → split_target target ≡ (t, some id)
split_print target t id cut has = rw (cut, split_target) (rw has refl)

checked :
    (valid : List String) (t id : String)
    → any (λ v. v == t) valid ≡ true
    → (t == "human") ≡ false
    → check_target valid (t, some id) ≡ parsed t (some id)
checked valid t id allowed other = rw allowed (rw other refl)

no_value :
    (target : String) (allowed_types : Option (List String))
    → (target == "") ≡ true
    → parse_target target allowed_types ≡ refused empty_target
unfolding parse_target
no_value target allowed_types empty = rw (empty, parse_target) refl

not_refused : (e : TargetError) (t id : String) → refused e ≡ parsed t (some id) → ⊥
not_refused e t id h = cc

valued :
    (target : String) (allowed_types : Option (List String)) (p : String × Option String)
    → (target == "") ≡ false
    → split_target target ≡ p
    → parse_target target allowed_types ≡ check_target (valid_types allowed_types) p
unfolding parse_target
valued target allowed_types p given is =
    rw (given, parse_target) (ap (check_target (valid_types allowed_types)) is)

parse_target-print :
    (target : String) (allowed_types : Option (List String)) (t id : String)
    → IsTarget target allowed_types t id
    → parse_target target allowed_types ≡ parsed t (some id)
parse_target-print target allowed_types t id h =
    valued target allowed_types (t, some id) (rw h.text (print_not_empty t id))
      (split_print target t id (rw h.text (partition_complete t id h.no_colon)) h.has_id)
    ∙ checked (valid_types allowed_types) t id h.allowed h.not_human

from_check :
    (valid : List String) (a : String) (o : Option String) (t id : String)
    → check_target valid (a, o) ≡ parsed t (some id)
    → (a ≡ t) × (o ≡ some id) × (any (λ v. v == a) valid ≡ true) × ((a == "human") ≡ false)
from_check valid a none t id h = ground arith
from_check valid a (some b) t id h = ground arith

or_none-some : (b id : String) → or_none b ≡ some id → (b ≡ id) × ((b == "") ≡ false)
or_none-some b id h = ground arith

parse_target_sound :
    (target : String) (allowed_types : Option (List String)) (t id : String)
    → parse_target target allowed_types ≡ parsed t (some id)
    → IsTarget target allowed_types t id
parse_target_sound target allowed_types t id h = elim (Bool-cases (target == "")) [
  | inl empty ↦ absurd (not_empty empty)
  | inr given ↦ elim (Option-cases (partition target)) [
    | inl whole ↦ absurd (
        cc
          (from_check (valid_types allowed_types) target none t id (
            sym (valued target allowed_types (target, none) given (rw (whole, split_target) refl))
            ∙ h)).1)
    | inr ((a, b), cut) ↦ built a b cut (
        from_check (valid_types allowed_types) a (or_none b) t id (
          sym (valued target allowed_types (a, or_none b) given (rw (cut, split_target) refl)) ∙ h))
  ]
]
  where
    not_empty : (target == "") ≡ true → ⊥
    not_empty empty = not_refused empty_target t id (sym (no_value target allowed_types empty) ∙ h)

    built :
        (a b : String)
        → partition target ≡ some (a, b)
        → (a ≡ t)
          × (or_none b ≡ some id)
          × (any (λ v. v == a) (valid_types allowed_types) ≡ true)
          × ((a == "human") ≡ false)
        → IsTarget target allowed_types t id
    built a b cut (same, is_id, allowed, other) =
        let (b_id, given) = or_none-some b id is_id in
        rw (← same) (
          rw (← b_id) (record {
            text = sym (partition_sound target a b cut);
            no_colon = partition-first target a b cut;
            has_id = given;
            allowed = allowed;
            not_human = other;
          }))

-- A target parses to a type with an id exactly where it is that type, a colon and that id, the
-- type holds no colon, is allowed and is not human, and the id is not empty.
pub parse_target-exact :
    (target : String) (allowed_types : Option (List String)) (t id : String)
    → (parse_target target allowed_types ≡ parsed t (some id)) ↔ IsTarget target allowed_types t id
parse_target-exact target allowed_types t id =
    (parse_target_sound target allowed_types t id, parse_target-print target allowed_types t id)
