-- ===== src/Projects.antt =====
-- The service of internal/project/project.go.
pub mod Scope
use go_spark.Base.{ℕ, ◌==◌, ltb, length, Text, trim_space, is_empty, List, if◌then◌else◌}
use go_spark.Schema.{Project}
use go_spark.Effect.{
  Env, Result, ok, err, World, Action, ◌>>=◌, pure, raise, exec, lift, project_name_required,
  project_name_too_long, project_not_found,
}
use go_spark.Queries.Projects.{
  create_project, list_projects_by_user_id, delete_project_by_id_and_user_id,
}

abbrev pub project_name_max_length : ℕ
project_name_max_length = 100

module _ (env : Env) where
  unfoldable pub create : ℕ → Text → Action Project
  unfolding trim_space
  create user name =
      let trimmed = trim_space name in
      if is_empty trimmed
      then raise project_name_required
      else if ltb project_name_max_length (length trimmed)
      then raise project_name_too_long
      else exec env (create_project user trimmed)

  unfoldable pub list : ℕ → Action (List Project)
  list user = exec env (list_projects_by_user_id user)

  unfoldable pub delete : ℕ → ℕ → Action (Unit {0})
  delete project user = do
    affected ← exec env (delete_project_by_id_and_user_id project user)
    if affected == 0 then raise project_not_found else pure tt

-- A call of the service by a user.
pub data ProjectCall : Type 0 where
  create_called : Text → ProjectCall
  list_called : ProjectCall
  delete_called : ℕ → ProjectCall

-- What a call leaves.
unfoldable pub perform : Env → ℕ → ProjectCall → World → World
unfolding create list delete
perform env user (create_called name) w = (create env user name w).1
perform env user list_called w = (list env user w).1
perform env user (delete_called id) w = (delete env id user w).1
