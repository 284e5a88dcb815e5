-- ===== src/Prelude/Table.antt =====
-- A table of rows under a text key, in the order of insertion: what the repositories ask of SQLite.
pub mod Unique
use mathlib.Core.Path.{◌≡◌, refl}
use mathlib.Core.List.{List, [], ◌∷◌, ◌++◌}
use mathlib.Core.Option
use mathlib.Core.Option.{Option, none, some}
use Prim.Native.String.{String}
use native.Mathlib.Omega.{arith}
use text.Mathlib.Text.{◌==◌}
use text.Mathlib.TextEquality.{eq_iff}
use text.Mathlib.TextPositions.{eq_refl}
use krewhub.Prelude.Tests.{if◌then◌else◌}

module _ {ℓ} {A : Type ℓ} (key : A → String) where
  -- SELECT * FROM t WHERE id = k, its first row
  abbrev pub find : String → List A → Option A
  find k [] = none
  find k (a ∷ rows) = let rest = find k rows in if key a == k then some a else rest

  -- UPDATE t SET ... WHERE id = k
  abbrev pub modify : String → (A → A) → List A → List A
  modify k f [] = []
  modify k f (a ∷ rows) = let rest = modify k f rows in if key a == k then f a ∷ rest else a ∷ rest

  -- DELETE FROM t WHERE id = k
  abbrev pub delete : String → List A → List A
  delete k [] = []
  delete k (a ∷ rows) = let rest = delete k rows in if key a == k then rest else a ∷ rest

  pub find-modify :
      (k j : String) (f : A → A) (rows : List A)
      → ((a : A) → key (f a) ≡ key a)
      → find j (modify k f rows) ≡ (if k == j then Option.map f (find j rows) else find j rows)
  find-modify k j f [] keeps = ground arith
  find-modify k j f (a ∷ rows) keeps = ground (
    arith,
    keeps a,
    find-modify k j f rows keeps,
    eq_iff (key a) k,
    eq_iff (key a) j,
    eq_iff k j,
    eq_iff (key (f a)) j,
  )

  pub find-modify_same :
      (k : String) (f : A → A) (rows : List A) (a : A)
      → ((a : A) → key (f a) ≡ key a)
      → find k rows ≡ some a
      → find k (modify k f rows) ≡ some (f a)
  find-modify_same k f rows a keeps found =
      rw (find-modify k k f rows keeps) (rw (eq_refl k) (rw found refl))

  pub find-key : (k : String) (rows : List A) (a : A) → find k rows ≡ some a → key a ≡ k
  find-key k [] a h = ground arith
  find-key k (b ∷ rows) a h = ground (arith, eq_iff (key b) k, find-key k rows a)

  pub find-append :
      (k : String) (rows : List A) (a : A)
      → find k rows ≡ none
      → find k (rows ++ a ∷ []) ≡ (if key a == k then some a else none)
  find-append k [] a h = refl
  find-append k (b ∷ rows) a h = ground (arith, find-append k rows a)

-- d.get(k) of a dict literal with text keys.
abbrev pub dict_get {ℓ} : {V : Type ℓ} → String → List (String × V) → Option V
dict_get k [] = none
dict_get k ((j, v) ∷ d) = let rest = dict_get k d in if j == k then some v else rest
