-- ===== src/Examples/Cleanups.antt =====
-- A pass of the cleanup on concrete data.
use go_spark.Effect.{World}
use go_spark.Cleanup.{CleanupJob, run}
use go_spark.Cleanup.Spares.{Spares, run-Spares}
use go_spark.Examples.Fixtures.{env, db}

abbrev pub job : CleanupJob
job = record { token_retention = 10; sent_email_retention = 20; failed_email_retention = 30 }

-- Some time after the sessions and tokens of the fixture have expired.
abbrev late : World
late = record { db = db; step = 2000 }

run-Spares_example : Spares 2001 db (run env job late).1.db
run-Spares_example = run-Spares env job late
