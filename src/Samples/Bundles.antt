-- ===== src/Samples/Bundles.antt =====
-- Runs on bundles: one application of each theorem.
use krewhub.Prelude.{◌≡◌, refl, true, false, not, none, some, ◌↔◌}
use mathlib.Core.List.{Memᴰ}
use krewhub.Models.{Bundle}
use krewhub.Prelude.Ordered.{IsFrom}
use krewhub.Models.Status
use krewhub.Models.Status.{closed, opened}
use krewhub.Db.{ok}
use krewhub.Db.Bundles
use krewhub.Db.Bundles.{bundle_key, is_none, list_runnable, mark_graph_terminal, reopen_for_rerun}
use krewhub.Db.Bundles.Runnable.{
  is_listed, Candidate, list_runnable-exact, mark_graph_terminal-hides, reopen_for_rerun-shows,
}
use krewhub.BundleService.{close_bundle, reopen_bundle}
use krewhub.BundleService.Lifecycle.{announced, moved, close_bundle-reopen_bundle}
use krewhub.Samples.{db_open, bundle_1}

bundle_1_there : Bundles.get "bun_1" db_open ≡ some bundle_1
unfolding Bundles.get
bundle_1_there = refl

-- The one bundle is listed, until its graph ends, and again once it is reopened.
shown_and_hidden :
    (is_listed "bun_1" db_open ≡ true)
    × (is_listed "bun_1" (mark_graph_terminal "bun_1" true none 9 db_open).1 ≡ false)
unfolding list_runnable mark_graph_terminal
shown_and_hidden = (refl, refl)

list_runnable-exact_example :
    ((is_listed "bun_1" db_open ≡ true)
      ↔ ((b : Bundle) × Memᴰ b db_open.bundles × Candidate "bun_1" b))
    × IsFrom (λ b. b.created_at) 0 (list_runnable db_open)
list_runnable-exact_example = list_runnable-exact "bun_1" db_open

mark_graph_terminal-hides_example :
    is_listed "bun_1" (mark_graph_terminal "bun_1" false (some "boom") 9 db_open).1 ≡ false
mark_graph_terminal-hides_example =
    mark_graph_terminal-hides "bun_1" false (some "boom") 9 db_open (refl, tt)

reopen_for_rerun-shows_example :
    is_listed "bun_1" (reopen_for_rerun "bun_1" db_open).1 ≡ not (is_none bundle_1.graph_code)
reopen_for_rerun-shows_example =
    reopen_for_rerun-shows "bun_1" bundle_1 db_open bundle_1_there (refl, tt)

close_bundle-reopen_bundle_example :
    let r = close_bundle "bun_1" "ann" (some "done") "evt_1" 9 db_open in
    (r ≡ (
      ok (some (moved closed bundle_1)),
      announced "bun_1" closed Status.bundle_closed "ann" (some "done") "evt_1" 9 bundle_1 db_open,
    ))
    × (close_bundle "bun_1" "ann" (some "done") "evt_2" 9 r.1
        ≡ (ok (some (moved closed bundle_1)), r.1))
    × (reopen_bundle "bun_1" "ann" (some "done") "evt_2" 9 r.1 ≡ (
      ok (some (moved opened (moved closed bundle_1))),
      announced "bun_1" opened Status.bundle_reopened "ann"
          (some "done")
          "evt_2"
          9
          (moved closed bundle_1)
          r.1,
    ))
close_bundle-reopen_bundle_example =
    close_bundle-reopen_bundle "bun_1" "ann" "evt_1" "evt_2" (some "done") 9 bundle_1 db_open
      bundle_1_there refl refl refl
