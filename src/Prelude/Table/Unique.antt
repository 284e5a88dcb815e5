-- ===== src/Prelude/Table/Unique.antt =====
-- Tables whose key is a primary key: no two rows share it.
use mathlib.Core.Path.{◌≡◌, refl}
use mathlib.Core.Bool.{Bool, true, false, ◌&&◌}
use mathlib.Core.List.{List, [], ◌∷◌, ◌++◌}
use mathlib.Core.Option.{none, some}
use mathlib.Core.Logic.{inl, inr}
use Prim.Native.Nat.{◌≤◌}
use Prim.Native.String.{String}
use native.Mathlib.Omega.{arith}
use text.Mathlib.Text.{◌==◌}
use text.Mathlib.TextEquality.{eq_iff}
use krewhub.Prelude.Tests.{Bool-cases}
use krewhub.Prelude.Lists.{All, any, length, filter}
use krewhub.Prelude.Table.{find, modify, delete, find-modify, find-append}

module _ {ℓ} {A : Type ℓ} (key : A → String) where
  abbrev pub Unique : List A → Type ℓ
  Unique [] = Unit
  Unique (a ∷ rows) = (find key (key a) rows ≡ none) × Unique rows

  pub modify_absent :
      (k : String) (f : A → A) (rows : List A) → find key k rows ≡ none → modify key k f rows ≡ rows
  modify_absent k f [] h = refl
  modify_absent k f (a ∷ rows) h = ground (arith, modify_absent k f rows)

  absent :
      (a : A) (k : String) (rows : List A)
      → (key a == k) ≡ true
      → find key (key a) rows ≡ none
      → find key k rows ≡ none
  absent a k rows same h = rw ((eq_iff (key a) k).0 same) at h

  pub All-modify {κ} :
      (P : A → Type κ) (k : String) (f : A → A) (rows : List A)
      → Unique rows
      → ((a : A) → find key k rows ≡ some a → P a → P (f a))
      → All P rows
      → All P (modify key k f rows)
  All-modify P k f [] u keep h = h
  All-modify P k f (a ∷ rows) u keep h = elim (Bool-cases (key a == k)) [
    | inl same ↦
        rw same (keep a (rw same) h.0, rw (modify_absent k f rows (absent a k rows same u.0)) h.1)
    | inr other ↦ rw other (h.0, All-modify P k f rows u.1 (λ b found. keep b (rw other found)) h.1)
  ]

  pub Unique-modify :
      (k : String) (f : A → A) (rows : List A)
      → ((a : A) → key (f a) ≡ key a)
      → Unique rows
      → Unique (modify key k f rows)
  Unique-modify k f [] keeps u = u
  Unique-modify k f (a ∷ rows) keeps u =
      ground (arith, keeps a, Unique-modify k f rows keeps, find-modify key k (key a) f rows keeps)

  pub Unique-snoc :
      (rows : List A) (a : A) → find key (key a) rows ≡ none → Unique rows → Unique (rows ++ a ∷ [])
  Unique-snoc [] a h u = (refl, tt)
  Unique-snoc (b ∷ rows) a h u = elim (Bool-cases (key b == key a)) [
    | inl same ↦ ground (arith, rw same at h)
    | inr other ↦ (
      rw (find-append key (key b) rows a u.0)
          (ground (arith, eq_iff (key a) (key b), eq_iff (key b) (key a))),
      Unique-snoc rows a (rw other at h) u.1,
    )
  ]

  pub All-snoc {κ} :
      (P : A → Type κ) (rows : List A) (a : A) → All P rows → P a → All P (rows ++ a ∷ [])
  All-snoc P [] a h p = (p, tt)
  All-snoc P (b ∷ rows) a h p = (h.0, All-snoc P rows a h.1 p)

  pub All-delete {κ} :
      (P : A → Type κ) (k : String) (rows : List A) → All P rows → All P (delete key k rows)
  All-delete P k [] h = h
  All-delete P k (a ∷ rows) h = elim (Bool-cases (key a == k)) [
    | inl same ↦ rw same (All-delete P k rows h.1)
    | inr other ↦ rw other (h.0, All-delete P k rows h.1)
  ]

  no_more :
      (p : A → Bool) (k : String) (rows : List A)
      → find key k rows ≡ none
      → All (λ a. p a ≡ true → key a ≡ k) rows
      → filter p rows ≡ []
  no_more p k [] h all = refl
  no_more p k (a ∷ rows) h all = elim (Bool-cases (p a)) [
    | inl hit ↦ ground (arith, all.0 hit, eq_iff (key a) k)
    | inr miss ↦ rw miss (no_more p k rows (ground arith) all.1)
  ]

  -- Rows that pass a test and all have one key are at most one.
  pub at_most_one :
      (p : A → Bool) (k : String) (rows : List A)
      → Unique rows
      → All (λ a. p a ≡ true → key a ≡ k) rows
      → length (filter p rows) ≤ 1
  at_most_one p k [] u h = omega arith
  at_most_one p k (a ∷ rows) u h = elim (Bool-cases (p a)) [
    | inl hit ↦ rw hit (rw (no_more p k rows (rw (h.0 hit) at u.0) h.1) (omega arith))
    | inr miss ↦ rw miss (at_most_one p k rows u.1 h.1)
  ]

  pub find-delete :
      (k j : String) (rows : List A)
      → find key j rows ≡ none
      → find key j (delete key k rows) ≡ none
  find-delete k j [] h = refl
  find-delete k j (a ∷ rows) h = ground (arith, find-delete k j rows)

  pub Unique-delete : (k : String) (rows : List A) → Unique rows → Unique (delete key k rows)
  Unique-delete k [] u = u
  Unique-delete k (a ∷ rows) u = ground (arith, Unique-delete k rows, find-delete k (key a) rows)

  -- A test of the rows under a key is a test of the row found there.
  pub any-find :
      (k : String) (p : A → Bool) (rows : List A)
      → Unique rows
      → any (λ a. (key a == k) && p a) rows
        ≡ (elim (find key k rows) as (λ o. Bool) [ none ↦ false | some a ↦ p a ])
  any-find k p [] u = refl
  any-find k p (a ∷ rows) u = elim (Bool-cases (key a == k)) [
    | inl same ↦ rw same (rw (any-find k p rows u.1) (rw (absent a k rows same u.0) (ground arith)))
    | inr other ↦ rw other (any-find k p rows u.1)
  ]

  -- A change that keeps the row of its key keeps the table.
  pub modify_kept :
      (k : String) (f : A → A) (rows : List A)
      → Unique rows
      → ((a : A) → find key k rows ≡ some a → f a ≡ a)
      → modify key k f rows ≡ rows
  modify_kept k f [] u keeps = refl
  modify_kept k f (a ∷ rows) u keeps = elim (Bool-cases (key a == k)) [
    | inl same ↦
        rw same (
          rw (modify_absent k f rows (absent a k rows same u.0)) (rw (keeps a (rw same refl)) refl))
    | inr other ↦
        rw other (rw (modify_kept k f rows u.1 (λ b found. keeps b (rw other found))) refl)
  ]
