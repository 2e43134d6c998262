-- ===== src/Cleanup/Invariant.antt =====
-- A pass of the cleanup (internal/jobs/cleanup.go) and the well-formed databases.
use go_spark.Effect.{Env}
use go_spark.Effect.Invariants.{Keeps, keeps_rules}
use go_spark.Validity.{Valid}
use go_spark.Validity.Rules.{valid_rules}
use go_spark.Cleanup.{CleanupJob, clean_at, run}

pub run-Keeps : (env : Env) (j : CleanupJob) → Keeps Valid (run env j)
unfolding run clean_at
run-Keeps env j = search (keeps_rules, valid_rules) depth 30
