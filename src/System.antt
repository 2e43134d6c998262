-- ===== src/System.antt =====
-- The program as a whole: requests that call the auth service or the projects, cycles of the mail worker and
-- passes of the cleanup, one after the other on one database, in any order.
use go_spark.Base.{ℕ, List, [], ◌∷◌}
use go_spark.Effect.{Env, World}
use go_spark.Validity.{Valid}
use go_spark.Auth.Service.{AuthService}
use go_spark.Auth.Calls.{Call, perform, perform-Valid}
use go_spark.Projects
use go_spark.Projects.{ProjectCall}
use go_spark.Projects.Scope
use go_spark.Email.Processor.{Processor, process_pending}
use go_spark.Cleanup.{CleanupJob}
use go_spark.Cleanup
use go_spark.Cleanup.Invariant.{run-Keeps}
use go_spark.Email.Processor.Invariant.{process_pending-Keeps}

pub data Event : Type 0 where
  request : Call → Event
  project_request : ℕ → ProjectCall → Event
  cycle : Processor → Event
  cleanup : CleanupJob → Event

module _ (env : Env) (s : AuthService) where
  -- What an event leaves, whatever it returns.
  react : Event → World → World
  react (request c) w = perform env s c w
  react (project_request user c) w = Projects.perform env user c w
  react (cycle p) w = (process_pending env p w).1
  react (cleanup j) w = (Cleanup.run env j w).1

  pub run : List Event → World → World
  run [] w = w
  run (e ∷ es) w = run es (react e w)

  react-Valid : (e : Event) (w : World) → Valid w.db → Valid (react e w).db
  unfolding react
  react-Valid (request c) w v = perform-Valid env s c w v
  react-Valid (project_request user c) w v = Scope.perform-Valid env user c w v
  react-Valid (cycle p) w v = (process_pending-Keeps env p).at w v
  react-Valid (cleanup j) w v = (run-Keeps env j).at w v

  -- From a well-formed database, every interleaving of requests, of cycles of workers and of passes
  -- of cleanups with any settings, failing ones included, leads to a well-formed database: addresses, token hashes and
  -- row numbers are distinct, and no row refers to a user that is not there.
  pub run-Valid : (es : List Event) (w : World) → Valid w.db → Valid (run es w).db
  unfolding run
  run-Valid [] w v = v
  run-Valid (e ∷ es) w v = run-Valid es (react e w) (react-Valid e w v)
