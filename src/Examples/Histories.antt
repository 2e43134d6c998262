-- ===== src/Examples/Histories.antt =====
-- A history of calls from the empty database.
use go_spark.Base.{codes, List, [], ◌∷◌}
use go_spark.Validity.{Valid}
use go_spark.System.{Event, request, cycle, cleanup, run, run-Valid}
use go_spark.Examples.Outbox.{processor}
use go_spark.Examples.Cleanups.{job}
use go_spark.Auth.Calls.{registers, logs_in, requests_reset, resets_password, deletes_account}
use go_spark.Examples.Fixtures.{env, service, new_world}

empty-Valid : Valid new_world.db
empty-Valid = record {
  users = record { ids = tt; emails = tt; handles = tt };
  sessions = record { ids = tt; hashes = tt };
  verifications = record { ids = tt; hashes = tt };
  resets = record { ids = tt; hashes = tt };
  changes = record { ids = tt; hashes = tt };
  totps = tt;
  codes = record { ids = tt; hashes = tt };
  outbox = tt;
  owners = record {
    sessions = tt;
    verifications = tt;
    resets = tt;
    changes = tt;
    totps = tt;
    codes = tt;
    credentials = tt;
    projects = tt;
  };
}

abbrev events : List Event
events =
    request (registers (codes "cy@c.test") (codes "cherry"))
    ∷ cycle processor
    ∷ request (logs_in (codes "cy@c.test") (codes "cherry"))
    ∷ request (requests_reset (codes "cy@c.test"))
    ∷ cycle processor
    ∷ request (resets_password (codes "t") (codes "currant"))
    ∷ cleanup job
    ∷ request (deletes_account 1 (codes "currant"))
    ∷ []

run-Valid_example : Valid (run env service events new_world).db
run-Valid_example = run-Valid env service events new_world empty-Valid
