-- ===== src/Tests/History.antt =====
-- The theorem of the history of runs, for an archive with one plan.
use mailarchive.Base.{false, List, [], ◌∷◌}
use mailarchive.Mutation.History.{RunHistory}
use mailarchive.Tests.{plan, planned_row}

abbrev histories : List RunHistory
histories =
    record {
      run = plan;
      counts = record {
        planned = 0;
        dry_run = 1;
        started = 0;
        succeeded = 0;
        failed = 0;
        unknown = 0;
      };
      reconciliation_required = false;
      mutations = planned_row ∷ [];
    }
    ∷ []
