-- ===== src/Watch/Log/Paging.antt =====
-- A client that reads the watch log page by page (list_since of src/krewhub/watch/store.py, which
-- returns at most `limit` rows) and asks again from the last number that it saw.
use krewhub.Prelude.{
  ℕ, zero, suc, ◌≤◌, ◌<◌, String, ◌≡◌, refl, ap, sym, true, false, inl, inr, Option, List, [], ◌∷◌,
  ◌++◌, ltb, length, take, filter, arith, Bool-cases, length-append,
}
use mathlib.Core.Path.{subst}
use krewhub.Watch.Log.{WatchEntry, WatchLog, list_since, selected}
use krewhub.Watch.Log.Order.{IsAscending, IsOrdered}

-- The cursor after a page: the number of its last row, or the old cursor.
abbrev pub last_seen : ℕ → List WatchEntry → ℕ
last_seen since [] = since
last_seen since (e ∷ page) = last_seen e.seq page

-- The replay loop of a client, on fuel: it stops at the first empty page.
pub pages : ℕ → ℕ → Option String → Option String → ℕ → WatchLog → List WatchEntry
pages zero since resource_type cookbook_id limit log = []
pages (suc fuel) since resource_type cookbook_id limit log =
    elim (list_since since resource_type cookbook_id limit log) [
      | [] ↦ []
      | e ∷ page ↦
          (e ∷ page) ++ pages fuel (last_seen e.seq page) resource_type cookbook_id limit log
    ]

module _ (resource_type cookbook_id : Option String) where
  abbrev since_rows : ℕ → List WatchEntry → List WatchEntry
  since_rows since = filter (selected since resource_type cookbook_id)

  -- Below the first number the cursor does not matter.
  since_rows_below :
      (s s' low high : ℕ) (rows : List WatchEntry)
      → s ≤ low
      → s' ≤ low
      → IsAscending low high rows
      → since_rows s rows ≡ since_rows s' rows
  since_rows_below s s' low high [] le le' h = refl
  since_rows_below s s' low high (e ∷ rows) le le' h =
      ground (arith, since_rows_below s s' e.seq high rows (omega arith) (omega arith) h.1)

  last_seen-ge :
      (k s low high : ℕ) (rows : List WatchEntry)
      → IsAscending low high rows
      → s ≤ last_seen s (take k (since_rows s rows))
  last_seen-ge zero s low high rows h = omega arith
  last_seen-ge (suc k) s low high [] h = omega arith
  last_seen-ge (suc k) s low high (e ∷ rows) h =
      elim (Bool-cases (selected s resource_type cookbook_id e)) [
        | inl hit ↦ rw hit (elim (Bool-cases (ltb s e.seq)) [
          | inl lt ↦
              rw (since_rows_below s e.seq e.seq high rows (ground arith) (omega arith) h.1)
                (ground (arith, last_seen-ge k e.seq e.seq high rows h.1))
          | inr ge ↦ ground arith
        ])
        | inr miss ↦ rw miss (last_seen-ge (suc k) s e.seq high rows h.1)
      ]

  behind :
      (cursor : ℕ) (e : WatchEntry)
      → e.seq ≤ cursor
      → selected cursor resource_type cookbook_id e ≡ false
  behind cursor e le = ground arith

  still_missed :
      (s cursor : ℕ) (e : WatchEntry)
      → s ≤ cursor
      → selected s resource_type cookbook_id e ≡ false
      → selected cursor resource_type cookbook_id e ≡ false
  still_missed s cursor e le miss = ground arith

  drop_head :
      (cursor : ℕ) (e : WatchEntry) (rows : List WatchEntry)
      → selected cursor resource_type cookbook_id e ≡ false
      → since_rows cursor (e ∷ rows) ≡ since_rows cursor rows
  drop_head cursor e rows miss = rw miss

  hit_rows :
      (s : ℕ) (e : WatchEntry) (high : ℕ) (rows : List WatchEntry)
      → selected s resource_type cookbook_id e ≡ true
      → IsAscending e.seq high rows
      → since_rows s (e ∷ rows) ≡ e ∷ since_rows e.seq rows
  hit_rows s e high rows hit h =
      rw hit (rw (since_rows_below s e.seq e.seq high rows (ground arith) (omega arith) h))

  abbrev Splits : ℕ → ℕ → List WatchEntry → List WatchEntry → Type 0
  Splits k s rows found = take k found ++ since_rows (last_seen s (take k found)) rows ≡ found

  -- A page and what is above its last number are all that is above the cursor.
  page_and_rest :
      (k s low high : ℕ) (rows : List WatchEntry)
      → IsAscending low high rows
      → take k (since_rows s rows) ++ since_rows (last_seen s (take k (since_rows s rows))) rows
        ≡ since_rows s rows
  page_and_rest zero s low high rows h = refl
  page_and_rest (suc k) s low high [] h = refl
  page_and_rest (suc k) s low high (e ∷ rows) h =
      elim (Bool-cases (selected s resource_type cookbook_id e)) [
        | inl hit ↦ subst (Splits (suc k) s (e ∷ rows)) (sym (hit_rows s e high rows hit h.1)) (
            rw
              (drop_head (last_seen e.seq (take k (since_rows e.seq rows))) e rows
                (behind _ e (last_seen-ge k e.seq e.seq high rows h.1)))
              (ap (λ page. e ∷ page) (page_and_rest k e.seq e.seq high rows h.1)))
        | inr miss ↦ subst (Splits (suc k) s (e ∷ rows)) (sym (drop_head s e rows miss)) (
            rw
              (drop_head (last_seen s (take (suc k) (since_rows s rows))) e rows
                (still_missed s _ e (last_seen-ge (suc k) s e.seq high rows h.1) miss))
              (page_and_rest (suc k) s e.seq high rows h.1))
      ]

  -- What is left after a page that is not empty is shorter.
  rest-lt :
      (k s : ℕ) (log : WatchLog) (e : WatchEntry) (page : List WatchEntry)
      → IsOrdered log
      → take k (since_rows s log.rows) ≡ e ∷ page
      → length (since_rows (last_seen e.seq page) log.rows) < length (since_rows s log.rows)
  rest-lt k s log e page h full = omega (
    arith,
    ap length (rw full at (page_and_rest k s 0 log.last_seq log.rows h)),
    length-append (e ∷ page) (since_rows (last_seen e.seq page) log.rows),
  )

  empty_page : (k : ℕ) (rows : List WatchEntry) → take (suc k) rows ≡ [] → rows ≡ []
  empty_page k [] h = refl
  empty_page k (e ∷ rows) h = cc

  abbrev continue : ℕ → ℕ → ℕ → WatchLog → List WatchEntry → List WatchEntry
  continue fuel since limit log page = elim page [
    | [] ↦ []
    | e ∷ page ↦ (e ∷ page) ++ pages fuel (last_seen e.seq page) resource_type cookbook_id limit log
  ]

  continue_exact :
      (fuel k s : ℕ) (log : WatchLog) (page : List WatchEntry)
      → IsOrdered log
      → take (suc k) (since_rows s log.rows) ≡ page
      → ((e : WatchEntry) (p : List WatchEntry)
          → page ≡ e ∷ p
          → pages fuel (last_seen e.seq p) resource_type cookbook_id (suc k) log
            ≡ since_rows (last_seen e.seq p) log.rows)
      → continue fuel s (suc k) log page ≡ since_rows s log.rows
  continue_exact fuel k s log [] h is_page later =
      sym (empty_page k (since_rows s log.rows) is_page)
  continue_exact fuel k s log (e ∷ p) h is_page later =
      rw (later e p refl) (rw is_page at (page_and_rest (suc k) s 0 log.last_seq log.rows h))

  -- Reading an ordered log page by page, with a positive limit and more fuel than rows, returns
  -- exactly the selected rows above the cursor, in their order.
  pub pages_exact :
      (fuel k s : ℕ) (log : WatchLog)
      → IsOrdered log
      → length (since_rows s log.rows) < fuel
      → pages fuel s resource_type cookbook_id (suc k) log
        ≡ filter (selected s resource_type cookbook_id) log.rows
  unfolding pages list_since
  pages_exact zero k s log h short = absurd (omega arith)
  pages_exact (suc fuel) k s log h short =
      continue_exact fuel k s log (take (suc k) (since_rows s log.rows)) h refl (λ e p full.
        pages_exact fuel k (last_seen e.seq p) log h
          (omega (arith, rest-lt (suc k) s log e p h full)))
