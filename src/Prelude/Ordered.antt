-- ===== src/Prelude/Ordered.antt =====
-- ORDER BY a number: rows of the same number stay in the order of the table.
use Prim.Native.Nat.{ℕ, ◌≤◌}
use mathlib.Core.Path.{◌≡◌, refl, ◌∙◌}
use mathlib.Core.Logic.{inl, inr}
use mathlib.Core.Bool.{Bool}
use mathlib.Core.List.{List, [], ◌∷◌}
use native.Mathlib.Omega.{arith}
use krewhub.Prelude.Tests.{leb, leb→le, if◌then◌else◌, Bool-cases}
use krewhub.Prelude.Lists.{All, any}

module _ {ℓ} {A : Type ℓ} (key : A → ℕ) where
  unfoldable pub insert_by : A → List A → List A
  insert_by a [] = a ∷ []
  insert_by a (b ∷ rows) =
      let rest = insert_by a rows in if leb (key a) (key b) then a ∷ b ∷ rows else b ∷ rest

  unfoldable pub order_by : List A → List A
  unfolding insert_by
  order_by [] = []
  order_by (a ∷ rows) = insert_by a (order_by rows)

  -- The numbers grow from row to row, from n on.
  abbrev pub IsFrom : ℕ → List A → Type 0
  IsFrom n [] = Unit
  IsFrom n (a ∷ rows) = (n ≤ key a) × IsFrom (key a) rows

  IsFrom-insert_by :
      (n : ℕ) (a : A) (rows : List A) → n ≤ key a → IsFrom n rows → IsFrom n (insert_by a rows)
  unfolding insert_by
  IsFrom-insert_by n a [] le h = (le, tt)
  IsFrom-insert_by n a (b ∷ rows) le h = elim (Bool-cases (leb (key a) (key b))) [
    | inl early ↦ rw early (le, (leb→le (key a) (key b) early, h.1))
    | inr late ↦ rw late (h.0, IsFrom-insert_by (key b) a rows (ground arith) h.1)
  ]

  pub IsFrom-order_by : (rows : List A) → IsFrom 0 (order_by rows)
  unfolding order_by
  IsFrom-order_by [] = tt
  IsFrom-order_by (a ∷ rows) =
      IsFrom-insert_by 0 a (order_by rows) (omega arith) (IsFrom-order_by rows)

  any-insert_by :
      (p : A → Bool) (a : A) (rows : List A) → any p (insert_by a rows) ≡ any p (a ∷ rows)
  unfolding insert_by
  any-insert_by p a [] = refl
  any-insert_by p a (b ∷ rows) = elim (Bool-cases (leb (key a) (key b))) [
    | inl early ↦ rw early refl
    | inr late ↦ rw late (rw (any-insert_by p a rows) (ground arith))
  ]

  pub any-order_by : (p : A → Bool) (rows : List A) → any p (order_by rows) ≡ any p rows
  unfolding order_by
  any-order_by p [] = refl
  any-order_by p (a ∷ rows) = any-insert_by p a (order_by rows) ∙ rw (any-order_by p rows) refl

  All-insert_by {κ} :
      (P : A → Type κ) (a : A) (rows : List A) → P a → All P rows → All P (insert_by a rows)
  unfolding insert_by
  All-insert_by P a [] p h = (p, tt)
  All-insert_by P a (b ∷ rows) p h = elim (Bool-cases (leb (key a) (key b))) [
    | inl early ↦ rw early (p, h)
    | inr late ↦ rw late (h.0, All-insert_by P a rows p h.1)
  ]

  pub All-order_by {κ} : (P : A → Type κ) (rows : List A) → All P rows → All P (order_by rows)
  unfolding order_by
  All-order_by P [] h = tt
  All-order_by P (a ∷ rows) h = All-insert_by P a (order_by rows) h.0 (All-order_by P rows h.1)
