-- ===== src/GraphRuntime/Picker/Best.antt =====
-- Which agent src/krewhub/services/graph_runtime/agent_picker.py picks.
use mathlib.Core.List.{Memᴰ}
use krewhub.Prelude.{
  All-of, All-at, ℕ, String, ◌≡◌, refl, Bool, true, false, Option, none, some, List, [], ◌∷◌,
  filter, head?, All, arith, Bool-cases, inl, inr,
}
use krewhub.Models.{AgentPresence}
use krewhub.GraphRuntime.Picker.{
  is_eligible, status_rank, insert, sort, capability_match, tuple_le, rank_le, pick_agent_for_kind,
}

module _ {A : Type 0} (le : A → A → Bool) (total : (a b : A) → le a b ≡ false → le b a ≡ true)
    (trans : (a b c : A) → le a b ≡ true → le b c ≡ true → le a c ≡ true) where
  -- a is not behind any of the items.
  abbrev Leads : A → List A → Type 0
  Leads a xs = All (λ b. le a b ≡ true) xs

  Leads-trans : (a b : A) (xs : List A) → le a b ≡ true → Leads b xs → Leads a xs
  Leads-trans a b [] e h = tt
  Leads-trans a b (c ∷ xs) e h = (trans a b c e h.0, Leads-trans a b xs e h.1)

  abbrev pub IsSorted : List A → Type 0
  IsSorted [] = Unit
  IsSorted (a ∷ xs) = Leads a xs × IsSorted xs

  Leads-insert : (a b : A) (xs : List A) → le a b ≡ true → Leads a xs → Leads a (insert le b xs)
  unfolding insert
  Leads-insert a b [] e h = (e, tt)
  Leads-insert a b (c ∷ xs) e h = elim (Bool-cases (le b c)) [
    | inl p ↦ rw p (e, (h.0, h.1))
    | inr p ↦ rw p (h.0, Leads-insert a b xs e h.1)
  ]

  insert-IsSorted : (a : A) (xs : List A) → IsSorted xs → IsSorted (insert le a xs)
  unfolding insert
  insert-IsSorted a [] s = (tt, tt)
  insert-IsSorted a (b ∷ xs) s = elim (Bool-cases (le a b)) [
    | inl p ↦ rw p ((p, Leads-trans a b xs p s.0), s)
    | inr p ↦ rw p (Leads-insert b a xs (total a b p) s.0, insert-IsSorted a xs s.1)
  ]

  pub sort-IsSorted : (xs : List A) → IsSorted (sort le xs)
  unfolding sort
  sort-IsSorted [] = tt
  sort-IsSorted (a ∷ xs) = insert-IsSorted a (sort le xs) (sort-IsSorted xs)

-- Sorting keeps what holds of all items, and loses none.
module _ {A : Type 0} (le : A → A → Bool) (P : A → Type 0) where
  All-insert : (a : A) (xs : List A) → All P (insert le a xs) → P a × All P xs
  unfolding insert
  All-insert a [] h = h
  All-insert a (b ∷ xs) h = elim (Bool-cases (le a b)) [
    | inl p ↦ rw p at h
    | inr p ↦
        let h' : P b × All P (insert le a xs) = rw p at h in
        let (x, y) = All-insert a xs h'.1 in (x, (h'.0, y))
  ]

  All-sort : (xs : List A) → All P (sort le xs) → All P xs
  unfolding sort
  All-sort [] h = tt
  All-sort (a ∷ xs) h = let (x, y) = All-insert a (sort le xs) h in (x, All-sort xs y)

  insert-All : (a : A) (xs : List A) → P a → All P xs → All P (insert le a xs)
  unfolding insert
  insert-All a [] p h = (p, tt)
  insert-All a (b ∷ xs) p h = elim (Bool-cases (le a b)) [
    | inl q ↦ rw q (p, h)
    | inr q ↦ rw q (h.0, insert-All a xs p h.1)
  ]

  sort-All : (xs : List A) → All P xs → All P (sort le xs)
  unfolding sort
  sort-All [] h = tt
  sort-All (a ∷ xs) h = insert-All a (sort le xs) h.0 (sort-All xs h.1)

  -- Of a filtered list the property holds as far as the test does.
  All-filter : (p : A → Bool) (xs : List A) → All P (filter p xs) → All (λ x. p x ≡ true → P x) xs
  All-filter p [] h = tt
  All-filter p (x ∷ xs) h = elim (Bool-cases (p x)) [
    | inl e ↦ let h' : P x × All P (filter p xs) = rw e at h in ((λ q. h'.0), All-filter p xs h'.1)
    | inr e ↦ ((λ q. absurd (cc)), All-filter p xs (rw e at h))
  ]

  filter-All : (p : A → Bool) (xs : List A) → All (λ x. p x ≡ true → P x) xs → All P (filter p xs)
  filter-All p [] h = tt
  filter-All p (x ∷ xs) h = elim (Bool-cases (p x)) [
    | inl e ↦ rw e (h.0 e, filter-All p xs h.1)
    | inr e ↦ rw e (filter-All p xs h.1)
  ]

tuple_le_total :
    (m n p q : ℕ) (t u : Bool)
    → (t ≡ false → u ≡ true)
    → tuple_le m n p q t ≡ false
    → tuple_le n m q p u ≡ true
tuple_le_total m n p q t u f h = ground arith

tuple_le_trans :
    (m n o p q r : ℕ) (t u v : Bool)
    → (t ≡ true → u ≡ true → v ≡ true)
    → tuple_le m n p q t ≡ true
    → tuple_le n o q r u ≡ true
    → tuple_le m o p r v ≡ true
tuple_le_trans m n o p q r t u v f h k = ground arith

module _ (lower : String → String) (text_le : String → String → Bool)
    (text_total : (s t : String) → text_le s t ≡ false → text_le t s ≡ true)
    (text_trans : (s t u : String)
      → text_le s t ≡ true
      → text_le t u ≡ true
      → text_le s u ≡ true) where
  rank_le_total :
      (kind : String) (a b : AgentPresence)
      → rank_le lower text_le kind a b ≡ false
      → rank_le lower text_le kind b a ≡ true
  rank_le_total kind a b h =
      tuple_le_total (capability_match lower text_le kind a) (capability_match lower text_le kind b)
        (status_rank a.status) (status_rank b.status) (text_le a.agent_id b.agent_id)
        (text_le b.agent_id a.agent_id) (text_total a.agent_id b.agent_id) h

  rank_le_trans :
      (kind : String) (a b c : AgentPresence)
      → rank_le lower text_le kind a b ≡ true
      → rank_le lower text_le kind b c ≡ true
      → rank_le lower text_le kind a c ≡ true
  rank_le_trans kind a b c h k =
      tuple_le_trans (capability_match lower text_le kind a) (capability_match lower text_le kind b)
        (capability_match lower text_le kind c) (status_rank a.status) (status_rank b.status)
        (status_rank c.status) (text_le a.agent_id b.agent_id) (text_le b.agent_id c.agent_id)
        (text_le a.agent_id c.agent_id) (text_trans a.agent_id b.agent_id c.agent_id) h k

  rank_le_refl : (kind : String) (a : AgentPresence) → rank_le lower text_le kind a a ≡ true
  rank_le_refl kind a = elim (Bool-cases (rank_le lower text_le kind a a)) [
    | inl e ↦ e
    | inr e ↦ rank_le_total kind a a e
  ]

  -- The agent is one of those that can be asked, and none of these ranks before it; no agent where
  -- none can be asked.
  abbrev pub IsBest : List AgentPresence → String → List String → Option AgentPresence → Type 0
  IsBest agents kind excluded none = All (λ a. is_eligible excluded a ≡ false) agents
  IsBest agents kind excluded (some a) =
      Memᴰ a agents
      × (is_eligible excluded a ≡ true)
      × All (λ b. is_eligible excluded b ≡ true → rank_le lower text_le kind a b ≡ true) agents

  head-IsBest :
      (agents : List AgentPresence) (kind : String) (excluded : List String)
      (sorted : List AgentPresence)
      → sort (rank_le lower text_le kind) (filter (is_eligible excluded) agents) ≡ sorted
      → IsBest agents kind excluded (head? sorted)
  head-IsBest agents kind excluded [] e =
      let empty =
        All-filter (rank_le lower text_le kind) (λ x. ⊥) (is_eligible excluded) agents
          (All-sort (rank_le lower text_le kind) (λ x. ⊥) (filter (is_eligible excluded) agents)
            (rw e tt)) in
      All-of (λ a. is_eligible excluded a ≡ false) agents
        (λ x m. elim (Bool-cases (is_eligible excluded x)) [
          | inl q ↦ absurd (All-at (λ x. is_eligible excluded x ≡ true → ⊥) agents x empty m q)
          | inr q ↦ q
        ])
  head-IsBest agents kind excluded (a ∷ rest) e =
      let le = rank_le lower text_le kind in
      let able = filter (is_eligible excluded) agents in
      let Q = λ (x : AgentPresence). Memᴰ x agents × (is_eligible excluded x ≡ true) in
      let q = sort-All le Q able (
        filter-All le Q (is_eligible excluded) agents
          (All-of (λ x. is_eligible excluded x ≡ true → Q x) agents (λ x m f. (m, f)))) in
      let q' : All Q (a ∷ rest) = rw e at q in
      let s = sort-IsSorted le (rank_le_total kind) (rank_le_trans kind) able in
      let s' : IsSorted le (rank_le_total kind) (rank_le_trans kind) (a ∷ rest) = rw e at s in
      let first : All (λ b. le a b ≡ true) (a ∷ rest) = (rank_le_refl kind a, s'.0) in
      let all =
        All-filter le (λ b. le a b ≡ true) (is_eligible excluded) agents
          (All-sort le (λ b. le a b ≡ true) able (rw e first)) in
      (q'.0.0, q'.0.1, all)

  pub pick_agent_for_kind-IsBest :
      (agents : List AgentPresence) (task_kind : String) (excluded : List String)
      → IsBest agents task_kind excluded
          (pick_agent_for_kind lower text_le agents task_kind excluded)
  unfolding pick_agent_for_kind
  pick_agent_for_kind-IsBest agents task_kind excluded =
      head-IsBest agents task_kind excluded
        (sort (rank_le lower text_le task_kind) (filter (is_eligible excluded) agents)) refl
